-- ===== src/Manager/Mgr/Upkeep.antt =====
-- The table's upkeep: tunnels that come, go and are connected again, the keep-alive, the stop.
use mathlib.Core.List.{Permᴰ}
use lproxy_cv.Prelude.{
  ℕ, zero, suc, ◌+◌, ◌≤◌, ◌≡◌, refl, sym, ap, ◌∙◌, subst, ◌⊎◌, inl, inr, true, false, Option, none,
  some, List, [], ◌∷◌, map, arith, length-set, length-replicate, get_elem?, set, get_elem?-lt,
  get_elem?-set_self, if◌then◌else◌,
}
use lproxy_cv.Prelude.Outcome.{ok, panic}
use lproxy_cv.Tunnels.Reqq.{u16}
use lproxy_cv.Config.Tuncfg.{TunCfg}
use lproxy_cv.Tunnels.Tunnel.{
  Tunnel, TunStub, Effect, shut_down, on_closed, reset_busy, send_ping, close_rawfd,
}
use lproxy_cv.Tunnels.Tunnel
use lproxy_cv.Tunnels.Tunnel.Kept.{TunAt}
use lproxy_cv.Manager.Mgr.{
  TunMgr, upto, new, place, with_udpx, taken, on_tunnel_created, on_tunnel_closed,
}
use lproxy_cv.Manager.Mgr.Table.{MgrInv, EntryAt, set-Tuns, none-Tuns}

u16-upto : (c n : ℕ) → n + c ≤ 65536 → map u16 (upto c n) ≡ upto c n
u16-upto zero n h = refl
u16-upto (suc c) n h =
    let e : u16 n ≡ n = omega arith in rw e (ap (λ l. n ∷ l) (u16-upto c (n + 1) (omega arith)))

pub Perm-refl : (l : List ℕ) → Permᴰ l l
Perm-refl [] = Permᴰ.nil
Perm-refl (x ∷ l) = Permᴰ.cons refl (Perm-refl l)

-- A manager of at most 65535 tunnels is made with the invariant.
pub new-MgrInv : (n : ℕ) (cfg : TunCfg) → n ≤ 65535 → MgrInv (new n cfg)
unfolding new
new-MgrInv n cfg h = record {
  ordered = record {
    size = length-replicate n none;
    sorted =
        subst (λ l. Permᴰ l (upto n 0)) (sym (u16-upto n 0 (omega arith))) (Perm-refl (upto n 0));
    current = omega arith;
    small = h;
  };
  tuns = none-Tuns n 0;
}

table-MgrInv :
    (m : TunMgr) (i : ℕ) (t : Option Tunnel) (q : List ℕ)
    → MgrInv m
    → EntryAt i t
    → MgrInv (record m { tunnels = set m.tunnels i t; reconnect_queue = q })
table-MgrInv m i t q v w = record {
  ordered = record {
    size = length-set m.tunnels i t ∙ v.ordered.size;
    sorted = v.ordered.sorted;
    current = v.ordered.current;
    small = v.ordered.small;
  };
  tuns = set-Tuns m.tunnels 0 i t v.tuns (subst (λ k. EntryAt k t) (omega arith) w);
}

with_udpx-TunAt : (i : ℕ) (tx : Option ℕ) (t : Tunnel) → TunAt i t → TunAt i (with_udpx tx t)
unfolding with_udpx Tunnel.set_udpx_tx
with_udpx-TunAt i none t v = v
with_udpx-TunAt i (some tx) t v = record {
  place = v.place;
  requests = record {
    table = v.requests.table;
    small = v.requests.small;
    counted = v.requests.counted;
  };
  window = record {
    five = v.window.five;
    at = v.window.at;
    entries = v.window.entries;
    total = v.window.total;
  };
  pings = v.pings;
  room = v.room;
  below = v.below;
}

-- In a manager with the invariant that is not stopped, a tunnel that is well formed for its place
-- comes into the table if its place is empty, and the invariant is kept; where its place is taken,
-- the code panics.
pub on_tunnel_created-MgrInv :
    (m : TunMgr) (tun : Tunnel) (t : Option Tunnel)
    → MgrInv m
    → m.discarded ≡ false
    → TunAt tun.index tun
    → get_elem? m.tunnels tun.index ≡ some t
    → ((t ≡ none)
        × ((m' : TunMgr) × (on_tunnel_created m tun ≡ ok (m', true))
            × (get_elem? m'.tunnels tun.index ≡ some (some (with_udpx m.udpx_tx tun)))
            × MgrInv m'))
      ⊎ ((old : Tunnel) × (t ≡ some old) × (on_tunnel_created m tun ≡ panic))
unfolding on_tunnel_created place
on_tunnel_created-MgrInv m tun none v h w e = inl (
  refl,
  (
    record m { tunnels = set m.tunnels tun.index (some (with_udpx m.udpx_tx tun)) },
    simp (h, e),
    get_elem?-set_self m.tunnels tun.index (some (with_udpx m.udpx_tx tun))
        (get_elem?-lt m.tunnels tun.index none e),
    table-MgrInv m tun.index (some (with_udpx m.udpx_tx tun)) m.reconnect_queue v
        (with_udpx-TunAt tun.index m.udpx_tx tun w),
  ),
)
on_tunnel_created-MgrInv m tun (some old) v h w e = inr (old, refl, simp (h, e))

-- The index of a tunnel that has closed, in a manager with the invariant: the entry is empty, the
-- index is put in front of the reconnect queue unless the manager is stopped, and to close it again
-- changes nothing. Whether the manager is stopped does not change.
pub on_tunnel_closed-MgrInv :
    (m : TunMgr) (i : ℕ) (tun : Tunnel)
    → MgrInv m
    → get_elem? m.tunnels i ≡ some (some tun)
    → (m' : TunMgr) × (on_tunnel_closed m i ≡ ok (m', some (on_closed tun)))
      × MgrInv m'
      × (get_elem? m'.tunnels i ≡ some none)
      × (m'.reconnect_queue ≡ (if m.discarded then m.reconnect_queue else i ∷ m.reconnect_queue))
      × (m'.discarded ≡ m.discarded)
      × (on_tunnel_closed m' i ≡ ok (m', none))
unfolding on_tunnel_closed taken
on_tunnel_closed-MgrInv m i tun v e =
    let q = if m.discarded then m.reconnect_queue else u16 i ∷ m.reconnect_queue in
    let inside = get_elem?-lt m.tunnels i (some tun) e in
    let small : u16 i ≡ i = omega (arith, inside, v.ordered.size, v.ordered.small) in
    let empty = get_elem?-set_self m.tunnels i none inside in
    (
      record m { tunnels = set m.tunnels i none; reconnect_queue = q },
      rw e,
      table-MgrInv m i none q v tt,
      empty,
      ap (λ x. if m.discarded then m.reconnect_queue else x ∷ m.reconnect_queue) small,
      refl,
      rw empty,
    )
