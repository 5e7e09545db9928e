-- ===== src/Dns/Names.antt =====
-- src/dns/dnspacket.rs: `read_qname`, which reads a name of a DNS message. A string is the
-- list of its bytes. `String::from_utf8_lossy(..).to_lowercase()` is the parameter `lower`.
pub mod RoundTrip
pub mod Cycle
use lproxy_cv.Prelude.{
  ℕ, zero, suc, ◌+◌, ◌-◌, ◌*◌, Bool, true, false, List, [], ◌∷◌, ◌++◌, ltb, leb, ◌==◌,
  if◌then◌else◌, length,
}
use lproxy_cv.Prelude.Outcome.{Outcome, ok, err, ◌>>=◌}
use lproxy_cv.Dns.Buffer.{Fail, looping, Buffer, M, get, get_range}

-- The variables of the loop of `read_qname`, and the cursor.
pub record Scan : Type 0 where
  pub pos : ℕ
  pub jumped : Bool
  pub delim : List ℕ
  pub out : List ℕ
  pub cursor : ℕ

pub data Round : Type 0 where
  next : Scan → Round
  done : List ℕ → ℕ → Round

-- Behind a length byte with both high bits: the rest of the byte and the next are an offset.
abbrev pub jump : Scan → ℕ → ℕ → Round
jump s len b2 = next (record s {
  pos = (len - 192) * 256 + b2;
  jumped = true;
  cursor = if s.jumped then s.cursor else s.pos + 2;
})

abbrev pub finish : Scan → Round
finish s = done s.out (if s.jumped then s.cursor else s.pos + 1)

abbrev pub dot : List ℕ
dot = 46 ∷ []

abbrev pub start : ℕ → Scan
start pos = record { pos = pos; jumped = false; delim = []; out = []; cursor = pos }

module _ (lower : List ℕ → List ℕ) where
  abbrev pub label : Scan → ℕ → List ℕ → Round
  label s len bytes =
      next
        (record s { pos = s.pos + 1 + len; delim = dot; out = s.out ++ (s.delim ++ lower bytes) })

  -- One round of the loop.
  unfoldable pub round : List ℕ → Scan → Outcome Fail Round
  round buf s = do
    len ← get buf s.pos
    if leb 192 len
        then (do b2 ← get buf (s.pos + 1); ok (jump s len b2))
        else if len == 0
        then ok (finish s)
        else (do bytes ← get_range buf (s.pos + 1) len; ok (label s len bytes))

  -- The loop, for the given number of rounds.
  unfoldable pub scan : ℕ → List ℕ → Scan → Outcome Fail (List ℕ × ℕ)
  scan zero buf s = err looping
  scan (suc fuel) buf s = do
    r ← round buf s
    elim r [ next s' ↦ scan fuel buf s' | done out cursor ↦ ok (out, cursor) ]

  unfoldable pub read_qname : ℕ → M (List ℕ)
  read_qname fuel b = do r ← scan fuel b.buf (start b.pos); ok (r.0, record b { pos = r.1 })
