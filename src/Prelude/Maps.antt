-- ===== src/Prelude/Maps.antt =====
-- A hash map as the list of its entries, under a test of equality on the keys.
use mathlib.Core.Path.{◌≡◌, sym, ◌∙◌, subst}
use mathlib.Core.Logic.{inl, inr}
use mathlib.Core.Bool.{Bool, true, false}
use mathlib.Core.Option.{Option, none, some}
use mathlib.Core.List.{List, [], ◌∷◌}
use lproxy_cv.Prelude.Texts.{same, same→≡, same_refl}
use lproxy_cv.Prelude.Tests.{if◌then◌else◌, Bool-cases}

-- What the keys' `Eq` promises.
pub record IsEq {K : Type 0} (eq : K → K → Bool) : Type 0 where
  pub sound : (a b : K) → eq a b ≡ true → a ≡ b
  pub reflexive : (a : K) → eq a a ≡ true

-- Strings as keys.
pub same-IsEq : IsEq same
same-IsEq = record { sound = same→≡; reflexive = same_refl }

module _ {K V : Type 0} (eq : K → K → Bool) where
  unfoldable pub get : List (K × V) → K → Option V
  get [] q = none
  get ((k, v) ∷ l) q = let rest = get l q in if eq k q then some v else rest

  unfoldable pub remove : K → List (K × V) → List (K × V)
  remove k [] = []
  remove k ((k', v) ∷ l) = let rest = remove k l in if eq k' k then rest else (k', v) ∷ rest

  abbrev pub insert : K → V → List (K × V) → List (K × V)
  insert k v l = (k, v) ∷ remove k l

  module _ (h : IsEq eq) where
    pub get-remove :
        (k q : K) (l : List (K × V)) → get (remove k l) q ≡ (if eq k q then none else get l q)
    unfolding get remove
    get-remove k q [] = elim (Bool-cases (eq k q)) [ inl e ↦ rw e | inr e ↦ rw e ]
    get-remove k q ((k', v) ∷ l) = elim (Bool-cases (eq k' k)) [
      | inl e ↦ elim (Bool-cases (eq k q)) [
        | inl d ↦ rw (e, d) (get-remove k q l ∙ rw d)
        | inr d ↦
            rw (e, d, subst (λ x. eq x q ≡ false) (sym (h.sound k' k e)) d)
              (get-remove k q l ∙ rw d)
      ]
      | inr e ↦ elim (Bool-cases (eq k' q)) [
        | inl d ↦ rw (e, d, different k' k q e d)
        | inr d ↦ rw (e, d) (get-remove k q l)
      ]
    ]
      where
        different : (a b c : K) → eq a b ≡ false → eq a c ≡ true → eq b c ≡ false
        different a b c n y = elim (Bool-cases (eq b c)) [
          | inr m ↦ m
          | inl m ↦ cc (n, h.sound a c y, h.sound b c m, h.reflexive a)
        ]

    pub get-insert :
        (k q : K) (v : V) (l : List (K × V))
        → get (insert k v l) q ≡ (if eq k q then some v else get l q)
    unfolding get
    get-insert k q v l = elim (Bool-cases (eq k q)) [
      | inl e ↦ rw e
      | inr e ↦ rw e (get-remove k q l ∙ rw e)
    ]
