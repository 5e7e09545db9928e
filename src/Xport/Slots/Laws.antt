-- ===== src/Xport/Slots/Laws.antt =====
-- How many slots are in use, and what the operations on a slot come to.
use lproxy_cv.Prelude.{
  ℕ, zero, suc, ◌+◌, ◌≡◌, refl, sym, ap, ◌∙◌, ◌⊎◌, inl, inr, Bool, true, false, none, some, List,
  [], ◌∷◌, arith, ◌==◌, ==_iff, get_elem?, set, Bool-cases, Option-cases,
}
use lproxy_cv.Xport.Slots.{
  XRequest, new_xreqq, new_from, cleaned, cleaning, taken, alloc, alloc_slot, free, free_slot,
  clear_all,
}

abbrev pub busy : Bool → ℕ
busy true = 1
busy false = 0

-- The slots that are in use.
abbrev pub used : List XRequest → ℕ
used [] = 0
used (e ∷ es) = busy e.is_inused + used es

some_used : (e r : XRequest) → some e ≡ some r → e.is_inused ≡ r.is_inused
some_used e r h = ap (λ o. elim o as (λ _. Bool) [ none ↦ false | some x ↦ x.is_inused ]) h

pub used-set :
    (es : List XRequest) (i : ℕ) (r r' : XRequest)
    → get_elem? es i ≡ some r
    → used (set es i r') + busy r.is_inused ≡ used es + busy r'.is_inused
used-set [] i r r' h = absurd (ground arith)
used-set (e ∷ es) zero r r' h = omega (arith, ap busy (some_used e r h))
used-set (e ∷ es) (suc i) r r' h = omega (arith, used-set es i r r' h)

pub used-clear_all : (es : List XRequest) → used (clear_all es).0 ≡ 0
unfolding clear_all
used-clear_all [] = refl
used-clear_all (e ∷ es) = omega (arith, used-clear_all es)

not_busy : (b : Bool) → busy b ≡ 0 → b ≡ false
not_busy true h = absurd (omega (arith, h))
not_busy false h = refl

pub used_none :
    (es : List XRequest) (i : ℕ) (r : XRequest)
    → used es ≡ 0
    → get_elem? es i ≡ some r
    → r.is_inused ≡ false
used_none [] i r h e = absurd (ground arith)
used_none (x ∷ es) zero r h e = sym (some_used x r e) ∙ not_busy x.is_inused (omega (arith, h))
used_none (x ∷ es) (suc i) r h e = used_none es i r (omega (arith, h)) e

pub free_cases :
    (es : List XRequest) (idx tag : ℕ)
    → (free es idx tag ≡ (es, [], false))
      ⊎ ((r : XRequest) × (get_elem? es idx ≡ some r)
          × (r.tag ≡ tag)
          × (r.is_inused ≡ true)
          × (free es idx tag ≡ (set es idx (cleaned r), cleaning r, true)))
unfolding free
free_cases es idx tag = elim (Option-cases (get_elem? es idx)) [
  | inl e ↦ inl (rw (e, free_slot))
  | inr (r, e) ↦ elim (Bool-cases (r.tag == tag)) [
    | inr n ↦ inl (rw (e, free_slot, n))
    | inl y ↦ elim (Bool-cases r.is_inused) [
      | inr n ↦ inl (rw (e, free_slot, y, n))
      | inl u ↦ inr (r, e, (==_iff r.tag tag).0 y, u, rw (e, free_slot, y, u))
    ]
  ]
]

pub alloc_cases :
    (es : List XRequest) (idx tag : ℕ)
    → ((get_elem? es idx ≡ none) × (alloc es idx tag ≡ (es, [])))
      ⊎ ((r : XRequest) × (get_elem? es idx ≡ some r)
          × (alloc es idx tag ≡ (set es idx (taken r tag), cleaning r)))
unfolding alloc
alloc_cases es idx tag = elim (Option-cases (get_elem? es idx)) [
  | inl e ↦ inl (e, rw (e, alloc_slot))
  | inr (r, e) ↦ inr (r, e, rw (e, alloc_slot))
]

new_from-used : (rounds n : ℕ) → used (new_from rounds n) ≡ 0
unfolding new_from
new_from-used zero n = refl
new_from-used (suc rounds) n = omega (arith, new_from-used rounds (n + 1))

pub new_xreqq-used : (size : ℕ) → used (new_xreqq size) ≡ 0
unfolding new_xreqq
new_xreqq-used size = new_from-used size 0

pub free_used :
    (es : List XRequest) (idx tag : ℕ) (r : XRequest)
    → get_elem? es idx ≡ some r
    → r.tag ≡ tag
    → r.is_inused ≡ true
    → free es idx tag ≡ (set es idx (cleaned r), cleaning r, true)
unfolding free
free_used es idx tag r at e u = rw (at, free_slot, (==_iff r.tag tag).1 e, u)
