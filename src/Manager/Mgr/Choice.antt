-- ===== src/Manager/Mgr/Choice.antt =====
-- Which tunnel `alloc_tunnel_for_req` takes: the first with room from the current position on, once
-- around.
use native.Mathlib.Nat.{mod-eq_of_lt, mod-eq-sub-mod}
use mathlib.Core.List.Permᴰ
use mathlib.Core.List.{Permᴰ}
use mathlib.Core.Option.{some-injective}
use lproxy_cv.Prelude.{
  ℕ, zero, suc, ◌+◌, ◌-◌, ◌%◌, ◌≤◌, ◌<◌, ◌≡◌, refl, sym, ap, ◌∙◌, subst, ◌⊎◌, inl, inr, Option,
  none, some, List, [], ◌∷◌, arith, length, get_elem?, All, get_elem?-some, if◌then◌else◌,
}
use lproxy_cv.Prelude.Outcome.{Outcome, ok, err, panic, ◌>>=◌}
use lproxy_cv.Tunnels.Tunnel.{Tunnel}
use lproxy_cv.Manager.Mgr.{
  TunMgr, upto, has_room, at_position, round, search_from, or_else, chosen, find_tunnel,
  alloc_tunnel_for_req,
}

-- The order of the tunnels has each index once, and the position lies in it.
pub record Ordered (m : TunMgr) : Type 0 where
  pub size : length m.tunnels ≡ m.capacity
  pub sorted : Permᴰ m.sorted_tun_indies (upto m.capacity 0)
  pub current : m.current_tun_idx ≤ m.capacity
  pub small : m.capacity ≤ 65535

length-Perm : {l k : List ℕ} → Permᴰ l k → length l ≡ length k
length-Perm Permᴰ.nil = refl
length-Perm (Permᴰ.cons e d) = ap suc (length-Perm d)
length-Perm (Permᴰ.swap e f) = refl
length-Perm (Permᴰ.trans d e) = length-Perm d ∙ length-Perm e

pub All-Perm : (P : ℕ → Type 0) {l k : List ℕ} → Permᴰ l k → All P l → All P k
All-Perm P Permᴰ.nil a = a
All-Perm P (Permᴰ.cons e d) a = (subst P e a.0, All-Perm P d a.1)
All-Perm P (Permᴰ.swap e f) a = (subst P f a.1.0, (subst P e a.0, a.1.1))
All-Perm P (Permᴰ.trans d e) a = All-Perm P e (All-Perm P d a)

All-get : (P : ℕ → Type 0) (l : List ℕ) (n i : ℕ) → All P l → get_elem? l n ≡ some i → P i
All-get P [] n i a e = absurd (ground arith)
All-get P (x ∷ l) zero i a e = subst P (some-injective x i e) a.0
All-get P (x ∷ l) (suc n) i a e = All-get P l n i a.1 e

pub All_by_place :
    (P : ℕ → Type 0) (l : List ℕ) → ((n i : ℕ) → get_elem? l n ≡ some i → P i) → All P l
All_by_place P [] h = tt
All_by_place P (x ∷ l) h = (h 0 x refl, All_by_place P l (λ n. h (suc n)))

All-upto : (c n top : ℕ) → n + c ≤ top → All (λ i. i < top) (upto c n)
All-upto zero n top h = tt
All-upto (suc c) n top h = (omega arith, All-upto c (n + 1) top (omega arith))

pub upto-All : (P : ℕ → Type 0) (c n i : ℕ) → All P (upto c n) → n ≤ i → i < n + c → P i
upto-All P zero n i a h k = absurd (omega arith)
upto-All P (suc c) n i a h k = elim (here_or_later n i h) [
  | inl e ↦ subst P e a.0
  | inr l ↦ upto-All P c (n + 1) i a.1 l (omega arith)
]
  where
    here_or_later : (n i : ℕ) → n ≤ i → (n ≡ i) ⊎ (n + 1 ≤ i)
    here_or_later n i h = ground arith

length-upto : (c n : ℕ) → length (upto c n) ≡ c
length-upto zero n = refl
length-upto (suc c) n = ap suc (length-upto c (n + 1))

pub length-sorted : (m : TunMgr) → Ordered m → length m.sorted_tun_indies ≡ m.capacity
length-sorted m v = length-Perm v.sorted ∙ length-upto m.capacity 0

sorted-lt :
    (m : TunMgr) (n i : ℕ) → Ordered m → get_elem? m.sorted_tun_indies n ≡ some i → i < m.capacity
sorted-lt m n i v e =
    All-get (λ i. i < m.capacity) m.sorted_tun_indies n i
      (All-Perm (λ i. i < m.capacity) (Permᴰ.symm v.sorted)
        (All-upto m.capacity 0 m.capacity (omega arith)))
      e

-- A round at a position of the order: the index that stands there, if its tunnel has room.
pub record Round (m : TunMgr) (n : ℕ) (r : Option ℕ) : Type 0 where
  pub idx : ℕ
  pub entry : Option Tunnel
  pub at : get_elem? m.sorted_tun_indies n ≡ some idx
  pub found : get_elem? m.tunnels idx ≡ some entry
  pub answer : r ≡ (if has_room entry then some idx else none)

pub at_position-Round :
    (m : TunMgr) (n : ℕ)
    → Ordered m
    → n < m.capacity
    → (r : Option ℕ) × (at_position m n ≡ ok r) × Round m n r
unfolding at_position
at_position-Round m n v h =
    let (i, e) = get_elem?-some m.sorted_tun_indies n (omega (arith, length-sorted m v)) in
    let (t, f) = get_elem?-some m.tunnels i (omega (arith, v.size, sorted-lt m n i v e)) in
    (
      if has_room t then some i else none,
      rw (e, f),
      record { idx = i; entry = t; at = e; found = f; answer = refl },
    )

-- The two loops are one, over the positions from the current one on, modulo their number.
unfoldable pub around : TunMgr → ℕ → ℕ → Outcome ⊥ (Option (ℕ × ℕ))
around m zero d = ok none
around m (suc rounds) d =
    round m ((m.current_tun_idx + d) % length m.sorted_tun_indies) (around m rounds (d + 1))

unfoldable pub alloc_around : TunMgr → Outcome ⊥ (TunMgr × Option ℕ)
alloc_around m = do found ← around m (length m.sorted_tun_indies) 0; ok (chosen m found)

round-or_else :
    (m : TunMgr) (n : ℕ) (later second : Outcome ⊥ (Option (ℕ × ℕ)))
    → (round m n later >>= λ f. or_else f second) ≡ round m n (later >>= λ f. or_else f second)
unfolding round or_else
round-or_else m n later second = go (at_position m n)
  where
    go :
        (x : Outcome ⊥ (Option ℕ))
        → ((x >>= λ r. elim r as (λ _. Outcome ⊥ (Option (ℕ × ℕ))) [
          | none ↦ later
          | some i ↦ ok (some (n, i))
        ])
            >>= λ f. or_else f second)
          ≡ (x >>= λ r. elim r as (λ _. Outcome ⊥ (Option (ℕ × ℕ))) [
            | none ↦ later >>= λ f. or_else f second
            | some i ↦ ok (some (n, i))
          ])
    go (ok none) = refl
    go (ok (some i)) = refl
    go (err e) = refl
    go panic = refl

module _ (m : TunMgr) (v : Ordered m) where
  abbrev len : ℕ
  len = length m.sorted_tun_indies

  -- The rounds from a distance on whose positions are `n ..` without a turn.
  around-search :
      (rounds d n : ℕ)
      → ((k : ℕ) → d ≤ k → k < d + rounds → (m.current_tun_idx + k) % len ≡ n + (k - d))
      → around m rounds d ≡ search_from m rounds n
  unfolding around search_from
  around-search zero d n e = refl
  around-search (suc rounds) d n e =
      ap (λ x. round m x (around m rounds (d + 1)))
        (e d (omega arith) (omega arith) ∙ same_place n d)
      ∙ ap (round m n) (
          around-search rounds (d + 1) (n + 1)
            (λ k a b. e k (omega arith) (omega arith) ∙ later n k d a))
    where
      same_place : (n d : ℕ) → n + (d - d) ≡ n
      same_place n d = omega arith

      later : (n k d : ℕ) → d + 1 ≤ k → n + (k - d) ≡ n + 1 + (k - (d + 1))
      later n k d a = omega arith

  around-append :
      (a b d : ℕ) → around m (a + b) d ≡ (around m a d >>= λ f. or_else f (around m b (d + a)))
  unfolding around or_else
  around-append zero b d =
      ap (λ k. around m k d) {x = 0 + b} {y = b} (omega arith)
      ∙ ap (λ k. around m b k) {x = d} {y = d + 0} (omega arith)
  around-append (suc a) b d =
      ap (λ k. around m k d) {x = suc a + b} {y = suc (a + b)} (omega arith)
      ∙ ap (round m n) (around-append a b (d + 1))
      ∙ sym (round-or_else m n (around m a (d + 1)) (around m b (d + 1 + a)))
      ∙ ap (λ k. round m n (around m a (d + 1)) >>= λ f. or_else f (around m b k)) {x = d + 1 + a}
          {y = d + suc a} (omega arith)
    where
      n : ℕ
      n = (m.current_tun_idx + d) % len

  first_part :
      (k : ℕ)
      → 0 ≤ k
      → k < 0 + (len - m.current_tun_idx)
      → (m.current_tun_idx + k) % len ≡ m.current_tun_idx + (k - 0)
  first_part k a b = mod-eq_of_lt {n = m.current_tun_idx + k} {m = len} (omega arith) ∙ omega arith

  second_part :
      (k : ℕ)
      → len - m.current_tun_idx ≤ k
      → k < len - m.current_tun_idx + m.current_tun_idx
      → (m.current_tun_idx + k) % len ≡ 0 + (k - (len - m.current_tun_idx))
  second_part k a b =
      mod-eq-sub-mod {n = m.current_tun_idx + k} {m = len} (omega (arith, inside))
      ∙ mod-eq_of_lt {n = m.current_tun_idx + k - len} {m = len} (omega (arith, inside))
      ∙ omega (arith, inside)
    where
      inside : m.current_tun_idx ≤ len
      inside = omega (arith, v.current, length-sorted m v)

  find-around : find_tunnel m ≡ around m len 0
  unfolding find_tunnel
  find-around = sym (
      ap (λ k. around m k 0) (omega (arith, v.current, length-sorted m v))
      ∙ around-append (len - m.current_tun_idx) m.current_tun_idx 0
      ∙ ap (λ x. x >>= λ f. or_else f (around m m.current_tun_idx (0 + (len - m.current_tun_idx))))
          (around-search (len - m.current_tun_idx) 0 m.current_tun_idx first_part)
      ∙ ap (λ x. search_from m (len - m.current_tun_idx) m.current_tun_idx >>= λ f. or_else f x)
          (around-search m.current_tun_idx (0 + (len - m.current_tun_idx)) 0
            (λ k a b. second_part k (omega arith) (omega arith) ∙ omega arith)))

  -- In a manager whose order has each index once, the two loops of `alloc_tunnel_for_req` are one
  -- loop around the order of the tunnels, from the current position on, modulo their number.
  pub alloc-around : alloc_tunnel_for_req m ≡ alloc_around m
  unfolding alloc_tunnel_for_req alloc_around
  alloc-around = ap (λ r. r >>= λ found. ok (chosen m found)) find-around
