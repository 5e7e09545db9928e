-- ===== src/Dns/Buffer.antt =====
-- src/dns/dnspacket.rs: `BytePacketBuffer`, a cursor over the bytes of a DNS message. The buffer is
-- a slice of any length; the methods check against 512, and an index past the slice panics. A call
-- that fails ends the parse or the write, so the cursor that it leaves is not kept.
pub mod Writes
use Prim.Native.Nat.{bit_and, bit_or, bit_xor}
use lproxy_cv.Prelude.{
  ℕ, zero, suc, ◌+◌, ◌-◌, ◌*◌, ◌/◌, ◌%◌, Bool, true, false, Option, none, some, List, [], ◌∷◌, ltb,
  leb, if◌then◌else◌, length, get_elem?, set, take, drop,
}
use lproxy_cv.Prelude.Outcome
use lproxy_cv.Prelude.Outcome.{Outcome, ok, err, panic}

-- `looping` is no answer of the code: a loop has used up the rounds that it was given.
pub data Fail : Type 0 where
  end_of_buffer label_too_long no_a_record looping : Fail

pub record Buffer : Type 0 where
  pub buf : List ℕ
  pub pos : ℕ

-- A method that moves the cursor or writes.
abbrev pub M : Type 0 → Type 0
M A = Buffer → Outcome Fail (A × Buffer)

abbrev pub pure : {A : Type 0} → A → M A
pure a b = ok (a, b)

infixl 5 ◌>>=◌ ◌>>◌
abbrev pub ◌>>=◌ : {A B : Type 0} → M A → (A → M B) → M B
◌>>=◌ m f b = elim (m b) [ ok p ↦ f p.0 p.1 | err e ↦ err e | panic ↦ panic ]

abbrev pub ◌>>◌ : {B : Type 0} → M (Unit {0}) → M B → M B
m >> k = m >>= λ _. k

abbrev pub step : ℕ → M (Unit {0})
step steps b = ok (tt, record b { pos = b.pos + steps })

abbrev pub position : M ℕ
position b = ok (b.pos, b)

-- `self.buf[pos]`
abbrev pub index : List ℕ → ℕ → Outcome Fail ℕ
index buf pos = Outcome.unwrap (get_elem? buf pos)

advance : Outcome Fail ℕ → Buffer → Outcome Fail (ℕ × Buffer)
advance (ok v) b = ok (v, record b { pos = b.pos + 1 })
advance (err e) b = err e
advance panic b = panic

unfoldable pub read : M ℕ
unfolding advance
read b = if leb 512 b.pos then err end_of_buffer else advance (index b.buf b.pos) b

unfoldable pub get : List ℕ → ℕ → Outcome Fail ℕ
get buf pos = if leb 512 pos then err end_of_buffer else index buf pos

unfoldable pub get_range : List ℕ → ℕ → ℕ → Outcome Fail (List ℕ)
get_range buf start len =
    if leb 512 (start + len)
    then err end_of_buffer
    else if leb (start + len) (length buf)
    then ok (take len (drop start buf))
    else panic

-- `hi << 8 | lo` of two bytes, whose bits do not meet, is the sum.
unfoldable pub read_u16 : M ℕ
read_u16 = do hi ← read; lo ← read; pure (hi * 256 + lo)

unfoldable pub read_u32 : M ℕ
read_u32 = do
  b3 ← read
  b2 ← read
  b1 ← read
  b0 ← read
  pure (((b3 * 256 + b2) * 256 + b1) * 256 + b0)

-- `self.buf[pos] = val`
unfoldable pub put : ℕ → ℕ → List ℕ → Outcome Fail (List ℕ)
put pos val buf = if ltb pos (length buf) then ok (set buf pos val) else panic

advance_put : Outcome Fail (List ℕ) → Buffer → Outcome Fail (Unit {0} × Buffer)
advance_put (ok buf) b = ok (tt, record { buf = buf; pos = b.pos + 1 })
advance_put (err e) b = err e
advance_put panic b = panic

-- `write`, which `write_u8` is too.
unfoldable pub write : ℕ → M (Unit {0})
unfolding advance_put
write val b = if leb 512 b.pos then err end_of_buffer else advance_put (put b.pos val b.buf) b

unfoldable pub write_u16 : ℕ → M (Unit {0})
write_u16 val = do write (val / 256 % 256); write (val % 256)

unfoldable pub write_u32 : ℕ → M (Unit {0})
write_u32 val = do
  write (val / 16777216 % 256)
  write (val / 65536 % 256)
  write (val / 256 % 256)
  write (val % 256)

-- `set_u16`, which writes at a position behind the cursor and does not check it against 512.
unfoldable pub set_u16 : ℕ → ℕ → M (Unit {0})
set_u16 pos val b = elim (put pos (val / 256 % 256) b.buf) [
  | ok buf ↦ elim (put (pos + 1) (val % 256) buf) [
    | ok buf' ↦ ok (tt, record b { buf = buf' })
    | err e ↦ err e
    | panic ↦ panic
  ]
  | err e ↦ err e
  | panic ↦ panic
]

unfoldable pub write_bytes : List ℕ → M (Unit {0})
write_bytes [] = pure tt
write_bytes (v ∷ vs) = do write v; write_bytes vs
