-- ===== src/Manager/Mgr/Room.antt =====
-- What `alloc_tunnel_for_req` comes to: a tunnel with room, or that no tunnel has any.
use native.Mathlib.Nat.{mod-eq_of_lt, mod-eq-sub-mod, mod-lt}
use native.Mathlib.Decide.{dec_le, ℕ_discrete}
use mathlib.Core.Option.{some-injective}
use lproxy_cv.Prelude.{
  ℕ, zero, suc, ◌+◌, ◌-◌, ◌%◌, ◌≤◌, ◌<◌, ◌≡◌, refl, sym, ap, ◌∙◌, subst, ◌⊎◌, inl, inr, Bool, true,
  false, Option, none, some, List, [], ◌∷◌, ◌||◌, arith, ltb, length, get_elem?, get_elem?-lt,
  Bool-cases, Option-cases, if◌then◌else◌,
}
use lproxy_cv.Prelude.Outcome.{Outcome, ok}
use lproxy_cv.Tunnels.Reqq.{u16}
use lproxy_cv.Tunnels.Tunnel.{Tunnel}
use lproxy_cv.Manager.Mgr.{TunMgr, has_room, at_position, round, chosen, alloc_tunnel_for_req}
use lproxy_cv.Manager.Mgr.Choice.{
  Ordered, at_position-Round, length-sorted, around, alloc_around, alloc-around, All_by_place,
  All-Perm, upto-All,
}

abbrev pub any_room : List (Option Tunnel) → Bool
any_room [] = false
any_room (t ∷ ts) = has_room t || any_room ts

no_room :
    (ts : List (Option Tunnel))
    → ((i : ℕ) (t : Option Tunnel) → get_elem? ts i ≡ some t → has_room t ≡ false)
    → any_room ts ≡ false
no_room [] h = refl
no_room (t ∷ ts) h = rw (h 0 t refl) (no_room ts (λ i. h (suc i)))

-- The tunnel at `idx` has room, and the next search starts behind its position.
pub record Found (m m' : TunMgr) (idx : ℕ) : Type 0 where
  pub tun : Tunnel
  pub entry : get_elem? m.tunnels idx ≡ some (some tun)
  pub room : has_room (some tun) ≡ true
  pub place : ℕ
  pub stands : get_elem? m.sorted_tun_indies place ≡ some idx
  pub moved : m' ≡ (record m { current_tun_idx = (place + 1) % m.capacity })

round-none :
    (m : TunMgr) (n : ℕ) (later : Outcome ⊥ (Option (ℕ × ℕ)))
    → at_position m n ≡ ok none
    → round m n later ≡ later
unfolding round
round-none m n later e = rw e

round-some :
    (m : TunMgr) (n i : ℕ) (later : Outcome ⊥ (Option (ℕ × ℕ)))
    → at_position m n ≡ ok (some i)
    → round m n later ≡ ok (some (n, i))
unfolding round
round-some m n i later e = rw e

some_answer :
    {i : ℕ} {r : Option ℕ} → ◌≡◌ {A = Outcome ⊥ (Option ℕ)} (ok (some i)) (ok r) → some i ≡ r
some_answer e = cc

with_room :
    (entry : Option Tunnel) (j i : ℕ)
    → some i ≡ (if has_room entry then some j else none)
    → (t : Tunnel) × (entry ≡ some t) × (has_room (some t) ≡ true) × (i ≡ j)
unfolding has_room
with_room none j i e = absurd (ground arith)
with_room (some t) j i e = elim (Bool-cases (ltb (u16 (t.req_count + 1)) t.capacity)) [
  | inl y ↦ (t, refl, y, some-injective i j (e ∙ rw y))
  | inr n ↦ absurd (ground (arith, e, n))
]

module _ (m : TunMgr) (v : Ordered m) where
  abbrev len : ℕ
  len = length m.sorted_tun_indies

  abbrev pos : ℕ → ℕ
  pos k = (m.current_tun_idx + k) % len

  pos-lt : (k : ℕ) → 1 ≤ len → pos k < m.capacity
  pos-lt k h = omega (arith, length-sorted m v, mod-lt (m.current_tun_idx + k) {m = len} h)

  Empty : ℕ → ℕ → Type 0
  Empty rounds d = (k : ℕ) → d ≤ k → k < d + rounds → at_position m (pos k) ≡ ok none

  Hit : ℕ → ℕ → Type 0
  Hit rounds d =
      (n : ℕ) × (i : ℕ) × (n < m.capacity)
      × (around m rounds d ≡ ok (some (n, i)))
      × (at_position m n ≡ ok (some i))

  -- The loop returns; it finds nothing where every round has found nothing.
  around_returns :
      (rounds d : ℕ)
      → rounds ≤ len
      → ((around m rounds d ≡ ok none) × Empty rounds d) ⊎ Hit rounds d
  unfolding around Empty Hit
  around_returns zero d h = inl (refl, λ k a b. absurd (omega arith))
  around_returns (suc rounds) d h =
      let (r, e, w) = at_position-Round m (pos d) v (pos-lt d (omega arith)) in
      elim (Option-cases r) [
        | inr (i, f) ↦
            let g : at_position m (pos d) ≡ ok (some i) = e ∙ ap ok f in
            inr (
              pos d,
              i,
              pos-lt d (omega arith),
              round-some m (pos d) i (around m rounds (d + 1)) g,
              g,
            )
        | inl f ↦
            let g : at_position m (pos d) ≡ ok none = e ∙ ap ok f in
            let past = round-none m (pos d) (around m rounds (d + 1)) g in
            elim (around_returns rounds (d + 1) (omega arith)) [
              | inl (q, all) ↦ inl (past ∙ q, now_or_later g all)
              | inr (n, i, l, q, at) ↦ inr (n, i, l, past ∙ q, at)
            ]
      ]
    where
      now_or_later :
          at_position m (pos d) ≡ ok none
          → ((k : ℕ) → d + 1 ≤ k → k < d + 1 + rounds → at_position m (pos k) ≡ ok none)
          → (k : ℕ) → d ≤ k
          → k < d + suc rounds
          → at_position m (pos k) ≡ ok none
      now_or_later g all k a b = elim (ℕ_discrete k d) [
        | yes e ↦ subst (λ x. at_position m (pos x) ≡ ok none) (sym e) g
        | no n ↦ all k (omega (arith, n)) (omega arith)
      ]

  -- Each position is that of some round.
  distance : (n : ℕ) → n < len → (k : ℕ) × (k < len) × (pos k ≡ n)
  distance n h = elim (dec_le m.current_tun_idx n) [
    | yes l ↦ (
      n - m.current_tun_idx,
      omega arith,
      mod-eq_of_lt {n = m.current_tun_idx + (n - m.current_tun_idx)} {m = len} (omega arith)
          ∙ omega arith,
    )
    | no l ↦ (
      len - m.current_tun_idx + n,
      omega (arith, l),
      mod-eq-sub-mod {n = m.current_tun_idx + (len - m.current_tun_idx + n)} {m = len}
            (omega (arith, inside))
          ∙ mod-eq_of_lt {n = m.current_tun_idx + (len - m.current_tun_idx + n) - len} {m = len}
              (omega (arith, inside))
          ∙ omega (arith, inside),
    )
  ]
    where
      inside : m.current_tun_idx ≤ len
      inside = omega (arith, v.current, length-sorted m v)

  abbrev Full : ℕ → Type 0
  Full i = (t : Option Tunnel) → get_elem? m.tunnels i ≡ some t → has_room t ≡ false

  Full-at :
      (n i : ℕ) → at_position m n ≡ ok none → get_elem? m.sorted_tun_indies n ≡ some i → Full i
  unfolding at_position
  Full-at n i e f t g = elim (Bool-cases (has_room t)) [
    | inr b ↦ b
    | inl b ↦ cc (rw (f, g, b) at e)
  ]

  all_full : Empty len 0 → any_room m.tunnels ≡ false
  unfolding Empty
  all_full h = no_room m.tunnels (λ i t e.
      upto-All Full m.capacity 0 i
        (All-Perm Full v.sorted (All_by_place Full m.sorted_tun_indies (λ n j f. place_full n j f)))
        (omega arith) (omega (arith, v.size, get_elem?-lt m.tunnels i t e)) t e)
    where
      place_full : (n j : ℕ) → get_elem? m.sorted_tun_indies n ≡ some j → Full j
      place_full n j f =
          let (k, l, q) = distance n (get_elem?-lt m.sorted_tun_indies n j f) in
          Full-at n j (subst (λ x. at_position m x ≡ ok none) q (h k (omega arith) (omega arith))) f

  Found-at :
      (n i : ℕ)
      → n < m.capacity
      → at_position m n ≡ ok (some i)
      → Found m (chosen m (some (n, i))).0 i
  unfolding chosen
  Found-at n i l e =
      let (r, f, w) = at_position-Round m n v l in
      let a : some i ≡ (if has_room w.entry then some w.idx else none) =
        some_answer (sym e ∙ f) ∙ w.answer in
      let (tun, has, room, same) = with_room w.entry w.idx i a in
      record {
        tun = tun;
        entry =
            subst (λ j. get_elem? m.tunnels j ≡ some (some tun)) (sym same) (w.found ∙ ap some has);
        room = room;
        place = n;
        stands = subst (λ j. get_elem? m.sorted_tun_indies n ≡ some j) (sym same) w.at;
        moved = ap (λ x. record m { current_tun_idx = x }) next;
      }
    where
      next : u16 ((n + 1) % len) ≡ (n + 1) % m.capacity
      next =
          ap (λ x. u16 ((n + 1) % x)) (length-sorted m v)
          ∙ omega (arith, v.small, mod-lt (n + 1) {m = m.capacity} (omega arith))

  -- In a manager whose order has each index of its table once, whose position lies in it, and whose
  -- capacity, the size of the table, is a u16, the search does not panic. It finds a tunnel with
  -- room, or no tunnel has any and nothing changes.
  pub alloc_returns :
      (p : TunMgr × Option ℕ) × (alloc_tunnel_for_req m ≡ ok p)
      × (((p.1 ≡ none) × (p.0 ≡ m) × (any_room m.tunnels ≡ false))
          ⊎ ((i : ℕ) × (p.1 ≡ some i) × Found m p.0 i))
  unfolding alloc_around chosen Hit
  alloc_returns = elim (around_returns len 0 (omega arith)) [
    | inl (e, all) ↦ ((m, none), alloc-around m v ∙ rw e, inl (refl, refl, all_full all))
    | inr (n, i, l, e, at) ↦
        (chosen m (some (n, i)), alloc-around m v ∙ rw e, inr (i, refl, Found-at n i l at))
  ]
