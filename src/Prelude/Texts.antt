-- ===== src/Prelude/Texts.antt =====
-- Strings as the lists of their bytes: equality, and a number in decimal.
use Prim.Native.Nat.{ℕ, zero, suc, ◌+◌, ◌/◌, ◌%◌, ◌≤◌}
use Prim.Native.Char.{code}
use Prim.Native.String.{String}
use mathlib.Core.Path.{◌≡◌, refl, sym, ◌∙◌}
use mathlib.Core.Logic.{inl, inr}
use mathlib.Core.Bool.{Bool, true, false, ◌&&◌, ◌||◌}
use mathlib.Core.Option.{Option, none, some}
use mathlib.Core.Option
use mathlib.Core.List.{List, [], ◌∷◌, ◌++◌, append_assoc}
use native.Mathlib.Omega.{arith}
use lproxy_cv.Prelude.Lists.{length, length-append}
use lproxy_cv.Prelude.Tests.{ltb, ◌==◌, if◌then◌else◌, Bool-cases, ==_iff, ==_refl}

unfoldable pub same : List ℕ → List ℕ → Bool
same [] [] = true
same [] (y ∷ ys) = false
same (x ∷ xs) [] = false
same (x ∷ xs) (y ∷ ys) = (x == y) && same xs ys

pub same→≡ : (x y : List ℕ) → same x y ≡ true → x ≡ y
unfolding same
same→≡ [] [] h = refl
same→≡ [] (y ∷ ys) h = absurd (ground arith)
same→≡ (x ∷ xs) [] h = absurd (ground arith)
same→≡ (x ∷ xs) (y ∷ ys) h = elim (Bool-cases (x == y)) [
  | inl e ↦ cc ((==_iff x y).0 e, same→≡ xs ys (sym (rw e) ∙ h))
  | inr e ↦ absurd (ground (arith, e, h))
]

pub same_refl : (x : List ℕ) → same x x ≡ true
unfolding same
same_refl [] = refl
same_refl (x ∷ xs) = rw (==_refl x, same_refl xs)

-- The decimal digits of a number below 10 ^ `rounds`.
unfoldable pub digits : ℕ → ℕ → List ℕ
digits zero n = []
digits (suc rounds) n =
    let front = digits rounds (n / 10) in
    if ltb n 10 then (48 + n) ∷ [] else front ++ ((48 + n % 10) ∷ [])

-- `to_string` of a u16.
abbrev pub show_u16 : ℕ → List ℕ
show_u16 n = digits 5 n

-- The code points of a literal: its bytes, since it is ASCII.
abbrev pub codes : String → List ℕ
codes String.[] = []
codes (String.◌∷◌ c s) = code c ∷ codes s

-- `contains` of one byte.
unfoldable pub contains : ℕ → List ℕ → Bool
contains b [] = false
contains b (x ∷ xs) = (x == b) || contains b xs

-- `split` at one byte: the first part. There always is one.
unfoldable pub first_part : ℕ → List ℕ → List ℕ
first_part b [] = []
first_part b (x ∷ xs) = let rest = first_part b xs in if x == b then [] else x ∷ rest

pub contains-first_part : (b : ℕ) (xs : List ℕ) → contains b (first_part b xs) ≡ false
unfolding contains first_part
contains-first_part b [] = refl
contains-first_part b (x ∷ xs) = elim (Bool-cases (x == b)) [
  | inl e ↦ rw e
  | inr e ↦ rw (e, e) (contains-first_part b xs)
]

unfoldable pub starts_with : List ℕ → List ℕ → Bool
starts_with [] s = true
starts_with (n ∷ needle) [] = false
starts_with (n ∷ needle) (x ∷ s) = (x == n) && starts_with needle s

-- `find`, and `position` of the windows that equal the needle: where it stands first.
unfoldable pub position : List ℕ → List ℕ → Option ℕ
position needle [] = if starts_with needle [] then some 0 else none
position needle (x ∷ s) =
    let rest = Option.map suc (position needle s) in
    if starts_with needle (x ∷ s) then some 0 else rest

starts_with-append :
    (needle a b : List ℕ)
    → length needle ≤ length a
    → starts_with needle (a ++ b) ≡ starts_with needle a
unfolding starts_with
starts_with-append [] a b h = refl
starts_with-append (n ∷ needle) [] b h = absurd (omega arith)
starts_with-append (n ∷ needle) (x ∷ a) b h = rw (starts_with-append needle a b (omega arith))

pub starts_with_self : (needle b : List ℕ) → starts_with needle (needle ++ b) ≡ true
unfolding starts_with
starts_with_self [] b = refl
starts_with_self (n ∷ needle) b = rw (==_refl n, starts_with_self needle b)

position_here : (needle s : List ℕ) → starts_with needle s ≡ true → position needle s ≡ some 0
unfolding position
position_here needle [] h = rw h
position_here needle (x ∷ s) h = rw h

position_past :
    (needle : List ℕ) (x : ℕ) (s : List ℕ)
    → position needle (x ∷ s) ≡ none
    → (starts_with needle (x ∷ s) ≡ false) × (position needle s ≡ none)
unfolding position
position_past needle x s h = go (starts_with needle (x ∷ s)) (position needle s) h
  where
    go :
        (b : Bool) (o : Option ℕ)
        → (if b then some 0 else Option.map suc o) ≡ none
        → (b ≡ false) × (o ≡ none)
    go true o e = absurd (ground (arith, e))
    go false none e = (refl, refl)
    go false (some n) e = absurd (ground (arith, e))

-- Where the needle stands behind `a`, and does not stand sooner: it is not found in `a` and the
-- front of the needle that is one shorter.
pub position-append :
    (front : List ℕ) (last : ℕ) (a b : List ℕ)
    → position (front ++ last ∷ []) (a ++ front) ≡ none
    → position (front ++ last ∷ []) (a ++ ((front ++ last ∷ []) ++ b)) ≡ some (length a)
unfolding position
position-append front last [] b h = position_here _ _ (starts_with_self (front ++ last ∷ []) b)
position-append front last (x ∷ a) b h =
    let needle = front ++ last ∷ [] in
    let (no_start, no_more) = position_past needle x (a ++ front) h in
    let shifted : x ∷ (a ++ (needle ++ b)) ≡ (x ∷ (a ++ front)) ++ (last ∷ b) = simp append_assoc in
    let not_here : starts_with needle (x ∷ (a ++ (needle ++ b))) ≡ false = rw shifted (
      starts_with-append needle (x ∷ (a ++ front)) (last ∷ b)
        (omega (arith, length-append front (last ∷ []), length-append a front))
      ∙ no_start) in
    rw (not_here, position-append front last a b no_more)

starts_with-front :
    (needle a b : List ℕ) → starts_with needle (a ++ b) ≡ false → starts_with needle a ≡ false
unfolding starts_with
starts_with-front [] a b h = h
starts_with-front (n ∷ needle) [] b h = refl
starts_with-front (n ∷ needle) (x ∷ a) b h = elim (Bool-cases (x == n)) [
  | inl e ↦ rw e (starts_with-front needle a b (sym (rw e) ∙ h))
  | inr e ↦ rw e
]

-- What is not found in a text is not found in its front.
pub position-front :
    (needle a b : List ℕ) → position needle (a ++ b) ≡ none → position needle a ≡ none
unfolding position starts_with
position-front needle [] [] h = h
position-front [] [] (x ∷ b) h = absurd (ground (arith, (position_past [] x b h).0))
position-front (n ∷ needle) [] (x ∷ b) h = refl
position-front needle (x ∷ a) b h =
    let (no_start, no_more) = position_past needle x (a ++ b) h in
    rw (starts_with-front needle (x ∷ a) b no_start, position-front needle a b no_more)
