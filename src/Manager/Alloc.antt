-- ===== src/Manager/Alloc.antt =====
-- src/tunnels/tunmgr.rs: `alloc_tunnel_for_req`, two loops over the order of the tunnels.
use lproxy_cv.Prelude.{
  ℕ, zero, suc, ◌+◌, ◌-◌, ◌%◌, Bool, false, Option, none, some, ltb, if◌then◌else◌, length,
  get_elem?,
}
use lproxy_cv.Prelude.Outcome.{Outcome, ok, unwrap, ◌>>=◌}
use lproxy_cv.Tunnels.Reqq.{u16}
use lproxy_cv.Tunnels.Tunnel.{Tunnel}
use lproxy_cv.Manager.State.{TunMgr}

-- A tunnel with room, by the count and the capacity in u16.
unfoldable pub has_room : Option Tunnel → Bool
has_room none = false
has_room (some t) = ltb (u16 (t.req_count + 1)) t.capacity

-- The round of `alloc_tunnel_for_req` at position `n`: the index of a tunnel that can be had.
unfoldable pub at_position : TunMgr → ℕ → Outcome ⊥ (Option ℕ)
at_position m n = do
  tun_idx ← unwrap (get_elem? m.sorted_tun_indies n)
  tun2 ← unwrap (get_elem? m.tunnels tun_idx)
  ok (if has_room tun2 then some tun_idx else none)

-- The round, with what the rounds after it find: the position and the index.
unfoldable pub round : TunMgr → ℕ → Outcome ⊥ (Option (ℕ × ℕ)) → Outcome ⊥ (Option (ℕ × ℕ))
round m n later = do r ← at_position m n; elim r [ none ↦ later | some i ↦ ok (some (n, i)) ]

-- One of the two loops, from `n` for as many rounds.
unfoldable pub search_from : TunMgr → ℕ → ℕ → Outcome ⊥ (Option (ℕ × ℕ))
search_from m zero n = ok none
search_from m (suc rounds) n = round m n (search_from m rounds (n + 1))

-- The second loop, where the first has found nothing.
unfoldable pub or_else : Option (ℕ × ℕ) → Outcome ⊥ (Option (ℕ × ℕ)) → Outcome ⊥ (Option (ℕ × ℕ))
or_else none second = second
or_else (some p) second = ok (some p)

unfoldable pub chosen : TunMgr → Option (ℕ × ℕ) → TunMgr × Option ℕ
chosen m none = (m, none)
chosen m (some (n, i)) =
    (record m { current_tun_idx = u16 ((n + 1) % length m.sorted_tun_indies) }, some i)

-- The two loops, from the current position to the end and from the start to it.
unfoldable pub find_tunnel : TunMgr → Outcome ⊥ (Option (ℕ × ℕ))
find_tunnel m = do
  first ← search_from m (length m.sorted_tun_indies - m.current_tun_idx) m.current_tun_idx
  or_else first (search_from m m.current_tun_idx 0)

-- The index of the tunnel that is returned.
unfoldable pub alloc_tunnel_for_req : TunMgr → Outcome ⊥ (TunMgr × Option ℕ)
alloc_tunnel_for_req m = do found ← find_tunnel m; ok (chosen m found)
