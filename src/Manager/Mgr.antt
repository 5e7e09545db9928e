-- ===== src/Manager/Mgr.antt =====
-- src/tunnels/tunmgr.rs: `TunMgr`. A method returns the new state and what it does outside. The
-- table owns its tunnels: a task that holds one works on the entry of the table. The reconnect
-- queue is used as a stack, and its list has the back of the vector at the head.
pub mod Choice
pub mod Room
pub mod Table
pub mod Requests
pub mod Upkeep
pub mod Keepalive
pub mod Stopped
use lproxy_cv.Prelude.{
  ℕ, zero, suc, ◌+◌, ◌-◌, ◌%◌, Bool, true, false, ◌&&◌, Option, none, some, List, [], ◌∷◌, ◌++◌,
  map, ltb, leb, ◌==◌, if◌then◌else◌, length, get_elem?, set, replicate, same,
}
use lproxy_cv.Prelude.Maps
use lproxy_cv.Prelude.Outcome.{Outcome, ok, err, panic, unwrap, ◌>>=◌}
use lproxy_cv.Config.Tuncfg.{TunCfg}
use lproxy_cv.Wire.{ByteIo}
use lproxy_cv.Tunnels.Reqq.{Request, u16}
use lproxy_cv.Tunnels.Frames.{IpAddr, v4, v6}
use lproxy_cv.Tunnels.Tunnel.{
  Tunnel, TunStub, SocketAddr, Effect, on_closed, reset_busy, send_ping, close_rawfd,
}
use lproxy_cv.Tunnels.Tunnel
use lproxy_cv.Tunnels.Udp
pub use lproxy_cv.Manager.State.{MgrEffect, of_tunnel, connect, access_log, Accesses, TunMgr, upto}
unfoldable pub use lproxy_cv.Manager.State.{same_ip, same_pair}
unfoldable pub use lproxy_cv.Manager.Alloc.{
  has_room, at_position, round, search_from, or_else, chosen, find_tunnel, alloc_tunnel_for_req,
}

unfoldable pub new : ℕ → TunCfg → TunMgr
new tunnel_count cfg = record {
  relay_domain = cfg.relay_domain;
  relay_port = cfg.relay_port;
  url = cfg.tunnel_url;
  capacity = tunnel_count;
  tunnel_req_cap = cfg.tunnel_req_cap;
  request_quota = u16 cfg.request_quota;
  dns_server = cfg.default_dns_server;
  tunnels = replicate tunnel_count none;
  sorted_tun_indies = map u16 (upto tunnel_count 0);
  current_tun_idx = 0;
  reconnect_queue = [];
  discarded = false;
  keepalive_trigger = none;
  token = cfg.token;
  udpx_tx = none;
  access_log = [];
}

-- The trigger that `start_keepalive_timer` makes is an argument.
unfoldable pub init : TunMgr → ℕ → TunMgr × List MgrEffect
init m trigger = (record m { keepalive_trigger = some trigger }, map connect (upto m.capacity 0))

unfoldable pub update_tuncfg : TunMgr → TunCfg → TunMgr
update_tuncfg m cfg = record m {
  url = cfg.tunnel_url;
  relay_domain = cfg.relay_domain;
  relay_port = cfg.relay_port;
  request_quota = u16 cfg.request_quota;
}

unfoldable pub with_udpx : Option ℕ → Tunnel → Tunnel
with_udpx none t = t
with_udpx (some tx) t = Tunnel.set_udpx_tx t tx

place : TunMgr → Tunnel → Option Tunnel → Outcome ⊥ (TunMgr × Bool)
unfolding with_udpx
place m tun (some t) = panic
place m tun none =
    ok (record m { tunnels = set m.tunnels tun.index (some (with_udpx m.udpx_tx tun)) }, true)

-- `false` is `Err`.
unfoldable pub on_tunnel_created : TunMgr → Tunnel → Outcome ⊥ (TunMgr × Bool)
unfolding place
on_tunnel_created m tun =
    if m.discarded
    then ok (m, false)
    else (do t ← unwrap (get_elem? m.tunnels tun.index); place m tun t)

-- `on_tunnel_closed_interal`, once the entry was read.
taken : TunMgr → ℕ → Option Tunnel → TunMgr
taken m index none = m
taken m index (some t) = record m {
  tunnels = set m.tunnels index none;
  reconnect_queue = if m.discarded then m.reconnect_queue else u16 index ∷ m.reconnect_queue;
}

-- The tunnel's own `on_closed` is run on the tunnel that leaves the table, and returned.
unfoldable pub on_tunnel_closed : TunMgr → ℕ → Outcome ⊥ (TunMgr × Option Tunnel)
unfolding taken
on_tunnel_closed m index = do
  t ← unwrap (get_elem? m.tunnels index)
  ok (taken m index t, elim t [ none ↦ none | some tun ↦ some (on_closed tun) ])

unfoldable pub on_tunnel_build_error : TunMgr → ℕ → TunMgr
on_tunnel_build_error m index =
    if m.discarded then m else record m { reconnect_queue = u16 index ∷ m.reconnect_queue }

abbrev pub put_tunnel : TunMgr → ℕ → Tunnel → TunMgr
put_tunnel m i t = record m { tunnels = set m.tunnels i (some t) }

unfoldable pub log_access : TunMgr → IpAddr → IpAddr → TunMgr
log_access m peer_addr target_ip = record m {
  access_log = Maps.insert same_pair (peer_addr, target_ip) tt m.access_log;
}

-- `sort_by` under the order of the busy bytes, where a missing tunnel equals any.
unfoldable pub busy_of : Option Tunnel → Option ℕ
busy_of none = none
busy_of (some t) = some t.busy

reset : Option Tunnel → Option Tunnel
reset none = none
reset (some t) = some (reset_busy t)

-- The slice's sort, with the busy bytes by index, is a parameter: only that it returns the same
-- indices is relied on.
unfoldable pub sort_tunnels_by_busy : ((ℕ → Option (Option ℕ)) → List ℕ → List ℕ) → TunMgr → TunMgr
unfolding reset
sort_tunnels_by_busy sort_by m = record m {
  sorted_tun_indies =
      sort_by (λ i. elim (get_elem? m.tunnels i) [ none ↦ none | some t ↦ some (busy_of t) ])
        m.sorted_tun_indies;
  tunnels = map reset m.tunnels;
}

-- The whole queue, from its back.
unfoldable pub process_reconnect : TunMgr → TunMgr × List MgrEffect
process_reconnect m = (record m { reconnect_queue = [] }, map connect m.reconnect_queue)

keys_of : Accesses → List (IpAddr × IpAddr)
keys_of l = map (λ e. e.0) l

reported : Accesses → List MgrEffect
unfolding keys_of
reported [] = []
reported (e ∷ l) = access_log (keys_of (e ∷ l)) ∷ []

unfoldable pub report_access_log : TunMgr → TunMgr × List MgrEffect
unfolding reported
report_access_log m = (record m { access_log = [] }, reported m.access_log)

close_of : Option Tunnel → List MgrEffect
close_of none = []
close_of (some t) = map of_tunnel (close_rawfd t)

closes : List (Option Tunnel) → List MgrEffect
unfolding close_of
closes [] = []
closes (t ∷ ts) = close_of t ++ closes ts

unfoldable pub stop : TunMgr → TunMgr × List MgrEffect
unfolding closes
stop m =
    if m.discarded
    then (m, [])
    else (record m { discarded = true; keepalive_trigger = none }, closes m.tunnels)

set_udpx : ℕ → Option Tunnel → Option Tunnel
set_udpx tx none = none
set_udpx tx (some t) = some (Tunnel.set_udpx_tx t tx)

unfoldable pub set_udpx_tx : TunMgr → ℕ → TunMgr
unfolding set_udpx
set_udpx_tx m tx = record m { udpx_tx = some tx; tunnels = map (set_udpx tx) m.tunnels }

module _ (alive : ℕ → Bool) (io : ByteIo) where
  on_chosen :
      Request → IpAddr → ℕ → TunMgr → Option ℕ → Outcome ⊥ (TunMgr × Option TunStub × List Effect)
  on_chosen req ip port m none = ok (m, none, [])
  on_chosen req ip port m (some i) = do
    entry ← unwrap (get_elem? m.tunnels i)
    tun ← unwrap entry
    (tun', stub, effects) ← Tunnel.on_request_created alive io tun req ip port
    ok (put_tunnel m i tun', stub, effects)

  unfoldable pub on_request_created :
      TunMgr → Request → IpAddr → ℕ → Outcome ⊥ (TunMgr × Option TunStub × List Effect)
  unfolding on_chosen
  on_request_created m req ip port =
      if m.discarded
      then ok (m, none, [])
      else (do (m', i) ← alloc_tunnel_for_req m; on_chosen req ip port m' i)

  closed_in : TunMgr → TunStub → Option Tunnel → Outcome ⊥ (TunMgr × List Effect)
  closed_in m stub none = ok (m, [])
  closed_in m stub (some tun) = do
    (tun', effects) ← Tunnel.on_request_closed alive io tun stub
    ok (put_tunnel m stub.tun_idx tun', effects)

  unfoldable pub on_request_closed : TunMgr → TunStub → Outcome ⊥ (TunMgr × List Effect)
  unfolding closed_in
  on_request_closed m stub = do
    entry ← unwrap (get_elem? m.tunnels stub.tun_idx)
    closed_in m stub entry

  -- A tunnel after its ping, which closes its socket where the ping is refused.
  ping_one : (ℕ → ℕ) → Option Tunnel → Outcome ⊥ (Option Tunnel × List Effect)
  ping_one now none = ok (none, [])
  ping_one now (some t) = do
    (t', effects, go_on) ← send_ping alive io t (now t.index)
    ok (some t', effects ++ (if go_on then [] else close_rawfd t'))

  unfoldable pub send_pings :
      (ℕ → ℕ) → List (Option Tunnel) → Outcome ⊥ (List (Option Tunnel) × List Effect)
  unfolding ping_one
  send_pings now [] = ok ([], [])
  send_pings now (t ∷ ts) = do
    (t', effects) ← ping_one now t
    (ts', more) ← send_pings now ts
    ok (t' ∷ ts', effects ++ more)

  -- `now` is the time since the start of the tunnel at an index.
  unfoldable pub keepalive :
      ((ℕ → Option (Option ℕ)) → List ℕ → List ℕ)
      → TunMgr
      → (ℕ → ℕ)
      → Outcome ⊥ (TunMgr × List MgrEffect)
  keepalive sort_by m now = if m.discarded then ok (m, []) else (do
    let m1 = sort_tunnels_by_busy sort_by m
    (tunnels, pings) ← send_pings now m1.tunnels
    let m2 = process_reconnect (record m1 { tunnels = tunnels })
    let m3 = report_access_log m2.0
    ok (m3.0, map of_tunnel pings ++ (m2.1 ++ m3.1)))

  north_by :
      TunMgr → List ℕ → SocketAddr → SocketAddr → Option Tunnel → Outcome ⊥ (TunMgr × List Effect)
  north_by m msg src_addr dst_addr none = ok (m, [])
  north_by m msg src_addr dst_addr (some tun) = do
    effects ← Udp.udp_proxy_north io alive tun msg src_addr dst_addr
    ok (log_access m src_addr.ip dst_addr.ip, effects)

  -- The remainder by the number of tunnels panics where there is none.
  unfoldable pub udp_proxy_north :
      TunMgr → List ℕ → SocketAddr → SocketAddr → ℕ → Outcome ⊥ (TunMgr × List Effect)
  unfolding north_by
  udp_proxy_north m msg src_addr dst_addr hash_code = if length m.tunnels == 0 then panic else (do
    entry ← unwrap (get_elem? m.tunnels (hash_code % length m.tunnels))
    north_by m msg src_addr dst_addr entry)
