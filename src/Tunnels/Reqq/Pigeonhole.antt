-- ===== src/Tunnels/Reqq/Pigeonhole.antt =====
-- Distinct numbers below `n` are at most `n` many.
use lproxy_cv.Prelude.{
  ℕ, zero, suc, ◌+◌, ◌≤◌, ◌<◌, ◌≡◌, refl, sym, subst, inl, inr, List, [], ◌∷◌, arith, ◌==◌,
  if◌then◌else◌, length, All, Bool-cases, ==_iff, get_elem?-lt,
}
use lproxy_cv.Tunnels.Reqq.{Request, Reqq}
use lproxy_cv.Tunnels.Reqq.Invariant.{IsOutside, IsDistinct, FreeSlot, Inv}

abbrev without : ℕ → List ℕ → List ℕ
without n [] = []
without n (j ∷ js) = if n == j then without n js else j ∷ without n js

without-outside : (n : ℕ) (js : List ℕ) → IsOutside n js → without n js ≡ js
without-outside n [] h = refl
without-outside n (j ∷ js) (ne, h) = ground (arith, without-outside n js h)

length-without : (n : ℕ) (js : List ℕ) → IsDistinct js → length js ≤ length (without n js) + 1
length-without n [] d = omega arith
length-without n (j ∷ js) (o, d) = elim (Bool-cases (n == j)) [
  | inl y ↦
      rw (y, without-outside n js (subst (λ i. IsOutside i js) (sym ((==_iff n j).0 y)) o))
        (omega arith)
  | inr x ↦ rw x (omega (arith, length-without n js d))
]

IsOutside-without : (i n : ℕ) (js : List ℕ) → IsOutside i js → IsOutside i (without n js)
IsOutside-without i n [] h = tt
IsOutside-without i n (j ∷ js) (ne, h) = ground (arith, IsOutside-without i n js h)

IsDistinct-without : (n : ℕ) (js : List ℕ) → IsDistinct js → IsDistinct (without n js)
IsDistinct-without n [] d = tt
IsDistinct-without n (j ∷ js) (o, d) =
    ground (arith, IsDistinct-without n js d, IsOutside-without j n js o)

below-without : (n : ℕ) (js : List ℕ) → All (λ j. j < suc n) js → All (λ j. j < n) (without n js)
below-without n [] h = tt
below-without n (j ∷ js) (lt, h) = ground (arith, below-without n js h)

pub length-le_of_distinct :
    (n : ℕ) (js : List ℕ) → IsDistinct js → All (λ j. j < n) js → length js ≤ n
length-le_of_distinct n [] d h = omega arith
length-le_of_distinct zero (j ∷ js) d (lt, h) = absurd (omega arith)
length-le_of_distinct (suc n) (j ∷ js) d h = omega (
  arith,
  length-without n (j ∷ js) d,
  length-le_of_distinct n (without n (j ∷ js)) (IsDistinct-without n (j ∷ js) d)
      (below-without n (j ∷ js) h),
)

below_of_slots :
    (es : List Request) (js : List ℕ) → All (FreeSlot es) js → All (λ j. j < length es) js
below_of_slots es [] h = tt
below_of_slots es (j ∷ js) ((r, e, c), h) = (get_elem?-lt es j r e, below_of_slots es js h)

-- Where a slot is in use, fewer slots are free than there are.
pub length-free-lt :
    (q : Reqq) (i : ℕ)
    → Inv q
    → i < length q.elements
    → IsOutside i q.free
    → length q.free < length q.elements
length-free-lt q i v h o =
    length-le_of_distinct (length q.elements) (i ∷ q.free) (o, v.distinct)
      (h, below_of_slots q.elements q.free v.slots)
