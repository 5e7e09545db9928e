-- ===== src/Tunnels/Reqq/Stale.antt =====
-- What a pair of slot and tag is good for: one `free`, and only of a slot that is in use.
use lproxy_cv.Prelude.{
  ℕ, zero, suc, ◌+◌, ◌≤◌, ◌≡◌, refl, sym, ap, ◌∙◌, inl, inr, true, false, some, List, [], ◌∷◌, map,
  arith, length, ◌==◌, ==_refl, ==_iff, get_elem?, set, get_elem?-lt, get_elem?-set_self,
  Option-cases, Bool-cases,
}
use lproxy_cv.Prelude.Outcome.{ok}
use lproxy_cv.Tunnels.Reqq.{
  Request, Reqq, granted, u16, u16_max, clean_req, alloc, free_slot, free, clear_all,
}
use lproxy_cv.Tunnels.Reqq.Invariant.{Inv, Granted}

tag_moves : (t : ℕ) → (u16 (t + 1) == t) ≡ false
tag_moves t = ground arith

pub free_match :
    (q : Reqq) (i tag : ℕ) (r : Request)
    → get_elem? q.elements i ≡ some r
    → (r.tag == tag) ≡ true
    → free q i tag ≡ (record { elements = set q.elements i (clean_req r); free = i ∷ q.free }, true)
unfolding free
free_match q i tag r e y = rw (e, free_slot, y)

pub free_mismatch :
    (q : Reqq) (i tag : ℕ) (r : Request)
    → get_elem? q.elements i ≡ some r
    → (r.tag == tag) ≡ false
    → free q i tag ≡ (q, false)
unfolding free
free_mismatch q i tag r e n = rw (e, free_slot, n)

-- What a `free` that answers true has done.
pub free_true :
    (q q' : Reqq) (i tag : ℕ)
    → free q i tag ≡ (q', true)
    → (r : Request) × (get_elem? q.elements i ≡ some r)
      × (r.tag ≡ tag)
      × (q' ≡ record { elements = set q.elements i (clean_req r); free = i ∷ q.free })
unfolding free
free_true q q' i tag h = elim (Option-cases (get_elem? q.elements i)) [
  | inl e ↦ cc (rw (e, free_slot) at h)
  | inr (r, e) ↦ elim (Bool-cases (r.tag == tag)) [
    | inl y ↦
        (r, e, (==_iff r.tag tag).0 y, sym (ap (λ p. p.0) (rw (free_match q i tag r e y) at h)))
    | inr n ↦ cc (rw (free_mismatch q i tag r e n) at h)
  ]
]

-- A pair of slot and tag that `free` has accepted is refused by the next `free`, which changes
-- nothing.
pub free_twice : (q q' : Reqq) (i tag : ℕ) → free q i tag ≡ (q', true) → free q' i tag ≡ (q', false)
free_twice q q' i tag h =
    let (r, e, t, s) = free_true q q' i tag h in
    free_mismatch q' i tag (clean_req r)
      (ap (λ x. get_elem? x.elements i) s
        ∙ get_elem?-set_self q.elements i _ (get_elem?-lt q.elements i r e))
      (rw (← t) (tag_moves r.tag))

get_elem?-map :
    (es : List Request) (i : ℕ) (r : Request)
    → get_elem? es i ≡ some r
    → get_elem? (map clean_req es) i ≡ some (clean_req r)
get_elem?-map [] i r e = absurd (ground arith)
get_elem?-map (x ∷ es) zero r e = ground arith
get_elem?-map (x ∷ es) (suc i) r e = get_elem?-map es i r e

-- After `clear_all` every slot's tag of before is refused by `free`, which changes nothing.
pub clear_all_stale :
    (q : Reqq) (i : ℕ) (r : Request)
    → get_elem? q.elements i ≡ some r
    → free (clear_all q) i r.tag ≡ (clear_all q, false)
unfolding clear_all
clear_all_stale q i r e =
    free_mismatch _ i r.tag (clean_req r) (get_elem?-map q.elements i r e) (tag_moves r.tag)

-- After `clear_all` no slot can be had.
pub clear_all-alloc :
    (q : Reqq) (req2 : Request) → alloc (clear_all q) req2 ≡ ok (clear_all q, u16_max, u16_max)
unfolding alloc clear_all
clear_all-alloc q req2 = refl

pub Granted-slot :
    (q q' : Reqq) (req2 : Request) (idx tag : ℕ) (g : Granted q req2 q' idx tag)
    → length q.elements ≤ 65535
    → idx ≡ g.slot
Granted-slot q q' req2 idx tag g h =
    omega (arith, g.names.0, get_elem?-lt q.elements g.slot g.req g.was_clean.0)

-- In a table of at most 65535 slots the pair that `alloc` grants is good for `free`, which puts the
-- slot back in front of the free list.
pub alloc-free :
    (q q' : Reqq) (req2 : Request) (idx tag : ℕ)
    → length q.elements ≤ 65535
    → Granted q req2 q' idx tag
    → ((free q' idx tag).1 ≡ true) × ((free q' idx tag).0.free ≡ q.free)
alloc-free q q' req2 idx tag h g =
    rw
      (
        Granted-slot q q' req2 idx tag g h,
        free_match q' g.slot tag (granted g.req req2) g.holds ((==_iff _ tag).1 (sym g.names.1)),
      )
      (refl, sym g.was_free)

-- On the first slot of the free list, named with its current tag, `free` answers true, puts the
-- slot into the free list again, and the invariant is lost.
pub free_of_free :
    (q : Reqq) (i : ℕ) (js : List ℕ) (r : Request)
    → q.free ≡ i ∷ js
    → get_elem? q.elements i ≡ some r
    → ((free q i r.tag).1 ≡ true)
      × ((free q i r.tag).0.free ≡ i ∷ i ∷ js)
      × ¬ Inv (free q i r.tag).0
free_of_free q i js r e er =
    rw (free_match q i r.tag r er (==_refl r.tag), e) (refl, refl, λ w. w.distinct.0.0 refl)
