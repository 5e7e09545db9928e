-- ===== src/Wire.antt =====
-- What the program uses of the `byte` crate, `read_with` and `write_with` on a byte slice, always
-- with `LE`: an interface whose laws are the crate's documented behaviour. Both return an error,
-- and the program unwraps it, where the slice is too short at the offset.
pub mod Laws
use lproxy_cv.Prelude.{
  ℕ, zero, suc, ◌+◌, ◌*◌, ◌/◌, ◌%◌, ◌≡◌, refl, Option, none, some, List, [], ◌∷◌, ◌++◌, leb,
  if◌then◌else◌, length, take, drop,
}
use lproxy_cv.Prelude.Outcome.{Outcome, ok, panic, unwrap, ◌>>=◌}

-- Little-endian numbers.
abbrev pub le_value : List ℕ → ℕ
le_value [] = 0
le_value (b ∷ bs) = b + 256 * le_value bs

abbrev pub le_bytes : ℕ → ℕ → List ℕ
le_bytes zero v = []
le_bytes (suc w) v = (v % 256) ∷ le_bytes w (v / 256)

abbrev pub le_read : ℕ → List ℕ → ℕ → Option ℕ
le_read w bs off =
    if leb (off + w) (length bs) then some (le_value (take w (drop off bs))) else none

abbrev pub le_write : ℕ → List ℕ → ℕ → ℕ → Option (List ℕ)
le_write w bs off v =
    if leb (off + w) (length bs)
    then some (take off bs ++ (le_bytes w v ++ drop (off + w) bs))
    else none

-- The first argument of both is the width in bytes, then the slice and the offset.
pub record ByteIo : Type 0 where
  pub read_with : ℕ → List ℕ → ℕ → Option ℕ
  pub write_with : ℕ → List ℕ → ℕ → ℕ → Option (List ℕ)
  pub read_with_lem : (w : ℕ) (bs : List ℕ) (off : ℕ) → read_with w bs off ≡ le_read w bs off
  pub write_with_lem :
      (w : ℕ) (bs : List ℕ) (off v : ℕ) → write_with w bs off v ≡ le_write w bs off v

-- `&bs[n ..]`
abbrev pub slice_from : ℕ → List ℕ → Outcome ⊥ (List ℕ)
slice_from n bs = if leb n (length bs) then ok (drop n bs) else panic

-- A write through `&mut bs[n ..]`: the front stays.
abbrev pub behind : ℕ → List ℕ → (List ℕ → Outcome ⊥ (List ℕ)) → Outcome ⊥ (List ℕ)
behind n bs f = do tail ← slice_from n bs; tail' ← f tail; ok (take n bs ++ tail')

-- Consecutive `write_with` at one running offset, each a width and a value: the slice and the
-- offset behind.
unfoldable pub writes :
    (ℕ → List ℕ → ℕ → ℕ → Option (List ℕ)) → List (ℕ × ℕ) → List ℕ → ℕ → Outcome ⊥ (List ℕ × ℕ)
writes write_with [] bs off = ok (bs, off)
writes write_with ((w, v) ∷ ws) bs off = do
  bs' ← unwrap (write_with w bs off v)
  writes write_with ws bs' (off + w)

-- Consecutive `read_with` at one running offset: the values and the offset behind.
unfoldable pub reads : (ℕ → List ℕ → ℕ → Option ℕ) → List ℕ → List ℕ → ℕ → Outcome ⊥ (List ℕ × ℕ)
reads read_with [] bs off = ok ([], off)
reads read_with (w ∷ ws) bs off = do
  v ← unwrap (read_with w bs off)
  (vs, off') ← reads read_with ws bs (off + w)
  ok (v ∷ vs, off')

-- What `writes` puts down, and how long it is.
abbrev pub encode : List (ℕ × ℕ) → List ℕ
encode [] = []
encode ((w, v) ∷ ws) = le_bytes w v ++ encode ws

-- The instance that the laws describe.
abbrev pub little : ByteIo
little = record {
  read_with = le_read;
  write_with = le_write;
  read_with_lem = λ w bs off. refl;
  write_with_lem = λ w bs off v. refl;
}
