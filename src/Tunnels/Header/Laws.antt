-- ===== src/Tunnels/Header/Laws.antt =====
-- The codes of the commands and the header read back.
use lproxy_cv.Prelude.{ℕ, ◌≤◌, ◌<◌, ◌≡◌, refl, List, [], ◌∷◌, ◌++◌, arith, length, drop}
use lproxy_cv.Prelude.Outcome.{ok, panic}
use lproxy_cv.Wire.{ByteIo, le_bytes}
use lproxy_cv.Tunnels.Header.{Cmd, no_cmd, cmd_code, cmd_from, THeader, read_from, write_to}

-- Every command is read back from its code.
pub cmd_from-cmd_code : (c : Cmd) → cmd_from (cmd_code c) ≡ ok c
unfolding cmd_from cmd_code
cmd_from-cmd_code no_cmd = refl
cmd_from-cmd_code _ = refl

-- A byte above 10 is no command, and `Cmd::from` panics on it.
pub cmd_from_panics : (v : ℕ) → 10 < v → cmd_from v ≡ panic
unfolding cmd_from
cmd_from_panics v h = ground arith

module _ (io : ByteIo) where
  pub write_to_lem :
      (th : THeader) (a b c d : ℕ) (rest : List ℕ)
      → write_to io th (a ∷ b ∷ c ∷ d ∷ rest)
        ≡ ok (le_bytes 2 th.req_idx ++ (le_bytes 2 th.req_tag ++ rest))
  unfolding write_to
  write_to_lem th a b c d rest = simp (io.write_with_lem) (ground arith)

  pub read_from_lem :
      (idx tag : ℕ) (rest : List ℕ)
      → idx < 65536
      → tag < 65536
      → read_from io (le_bytes 2 idx ++ (le_bytes 2 tag ++ rest))
        ≡ ok (record { req_idx = idx; req_tag = tag })
  unfolding read_from
  read_from_lem idx tag rest hi ht = simp (io.read_with_lem) (ground arith)

-- A header whose fields are u16, written by `write_to` over four bytes or more, is read back by
-- `read_from`, and what stands behind the four bytes is kept.
pub read_from-write_to :
    (io : ByteIo) (th : THeader) (bs : List ℕ)
    → 4 ≤ length bs
    → th.req_idx < 65536
    → th.req_tag < 65536
    → (bs' : List ℕ) × (write_to io th bs ≡ ok bs')
      × (read_from io bs' ≡ ok th)
      × (drop 4 bs' ≡ drop 4 bs)
read_from-write_to io th [] h hi ht = absurd (omega arith)
read_from-write_to io th (a ∷ []) h hi ht = absurd (omega arith)
read_from-write_to io th (a ∷ b ∷ []) h hi ht = absurd (omega arith)
read_from-write_to io th (a ∷ b ∷ c ∷ []) h hi ht = absurd (omega arith)
read_from-write_to io th (a ∷ b ∷ c ∷ d ∷ rest) h hi ht = (
  le_bytes 2 th.req_idx ++ (le_bytes 2 th.req_tag ++ rest),
  write_to_lem io th a b c d rest,
  read_from_lem io th.req_idx th.req_tag rest hi ht,
  refl,
)
