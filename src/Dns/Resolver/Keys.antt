-- ===== src/Dns/Resolver/Keys.antt =====
-- The key of a query names its name and its identity.
use lproxy_cv.Prelude.{
  ℕ, zero, suc, ◌+◌, ◌-◌, ◌*◌, ◌/◌, ◌%◌, ◌^◌, ◌<◌, ◌≡◌, ◌≢◌, refl, sym, ap, ◌∙◌, subst, inl, inr,
  List, [], ◌∷◌, ◌++◌, arith, All, ltb, Bool-cases, digits, show_u16, ltb→lt,
}
use lproxy_cv.Dns.Resolver.{key_of}

-- The number that digits stand for, behind the number `n`.
abbrev value : ℕ → List ℕ → ℕ
value n [] = n
value n (d ∷ ds) = value (n * 10 + (d - 48)) ds

value-append : (n d : ℕ) (ds : List ℕ) → value n (ds ++ (d ∷ [])) ≡ value n ds * 10 + (d - 48)
value-append n d [] = refl
value-append n d (x ∷ ds) = value-append (n * 10 + (x - 48)) d ds

value-digits : (rounds n : ℕ) → n < 10 ^ rounds → value 0 (digits rounds n) ≡ n
unfolding digits
value-digits zero n h = omega arith
value-digits (suc rounds) n h = elim (Bool-cases (ltb n 10)) [
  | inl e ↦ rw e (omega arith)
  | inr e ↦ rw e (
      value-append 0 (48 + n % 10) (digits rounds (n / 10))
      ∙ omega (arith, value-digits rounds (n / 10) (omega arith)))
]

abbrev NoColon : List ℕ → Type 0
NoColon = All (λ d. d ≢ 58)

NoColon-append : (xs ys : List ℕ) → NoColon xs → NoColon ys → NoColon (xs ++ ys)
NoColon-append [] ys h k = k
NoColon-append (x ∷ xs) ys h k = (h.0, NoColon-append xs ys h.1 k)

digits-NoColon : (rounds n : ℕ) → NoColon (digits rounds n)
unfolding digits
digits-NoColon zero n = tt
digits-NoColon (suc rounds) n = elim (Bool-cases (ltb n 10)) [
  | inl e ↦ rw e (omega (arith, ltb→lt n 10 e), tt)
  | inr e ↦ rw e (
      NoColon-append (digits rounds (n / 10)) ((48 + n % 10) ∷ []) (digits-NoColon rounds (n / 10))
        (omega arith, tt))
]

behind_colon : (ys es : List ℕ) → NoColon (ys ++ (58 ∷ es)) → ⊥
behind_colon [] es h = h.0 refl
behind_colon (y ∷ ys) es h = behind_colon ys es h.1

-- The last colon splits.
colon_splits :
    (xs ys ds es : List ℕ)
    → NoColon ds
    → NoColon es
    → xs ++ (58 ∷ ds) ≡ ys ++ (58 ∷ es)
    → (xs ≡ ys) × (ds ≡ es)
colon_splits [] [] ds es h k e = (refl, cc)
colon_splits [] (y ∷ ys) ds es h k e = absurd (behind_colon ys es (subst NoColon tails h))
  where
    tails : ds ≡ ys ++ (58 ∷ es)
    tails = cc
colon_splits (x ∷ xs) [] ds es h k e = absurd (behind_colon xs ds (subst NoColon tails k))
  where
    tails : es ≡ xs ++ (58 ∷ ds)
    tails = cc
colon_splits (x ∷ xs) (y ∷ ys) ds es h k e =
    let heads : x ≡ y = cc in
    let tails : xs ++ (58 ∷ ds) ≡ ys ++ (58 ∷ es) = cc in
    let (a, b) = colon_splits xs ys ds es h k tails in (cc, b)

-- Two queries with one key have one name and one identity.
pub key_of-injective :
    (q q' : List ℕ) (i i' : ℕ)
    → i < 65536
    → i' < 65536
    → key_of q i ≡ key_of q' i'
    → (q ≡ q') × (i ≡ i')
unfolding key_of
key_of-injective q q' i i' h h' e =
    let (a, b) =
      colon_splits q q' (show_u16 i) (show_u16 i') (digits-NoColon 5 i) (digits-NoColon 5 i') e in
    (a, sym (value-digits 5 i (omega arith)) ∙ ap (value 0) b ∙ value-digits 5 i' (omega arith))
