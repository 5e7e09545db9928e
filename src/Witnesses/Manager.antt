-- ===== src/Witnesses/Manager.antt =====
-- The theorems on the manager at a table of two places, the first with a tunnel of two slots.
use mathlib.Core.List.{Permᴰ}
use lproxy_cv.Prelude.{
  ℕ, ◌≡◌, refl, ◌⊎◌, true, false, Option, none, some, List, [], ◌∷◌, ◌++◌, arith, get_elem?,
}
use lproxy_cv.Prelude.Outcome.{ok, panic}
use lproxy_cv.Wire.{little}
use lproxy_cv.Tunnels.Reqq.{Reqq, new_request, new as new_reqq}
use lproxy_cv.Tunnels.Frames.{IpAddr, v4}
use lproxy_cv.Tunnels.Udp.RoundTrip.{IsIp, octets}
use lproxy_cv.Tunnels.Tunnel.{Tunnel, TunStub, Effect, send, new, on_closed}
use lproxy_cv.Tunnels.Tunnel.Requests.{TunInv, closed_message, new-TunInv}
use lproxy_cv.Tunnels.Tunnel.Rtt.{RttInv}
use lproxy_cv.Tunnels.Tunnel.Kept.{TunAt}
use lproxy_cv.Tunnels.Runs.{create, next, stop, reachable-TunInv}
use lproxy_cv.Manager.Mgr.{
  TunMgr, MgrEffect, connect, has_room, with_udpx, alloc_tunnel_for_req, on_tunnel_created,
  on_tunnel_closed, on_tunnel_build_error, on_request_created, on_request_closed, keepalive,
}
use lproxy_cv.Manager.Mgr
use lproxy_cv.Manager.Mgr.Choice.{Ordered, alloc_around, alloc-around}
use lproxy_cv.Manager.Mgr.Room.{any_room, Found, alloc_returns}
use lproxy_cv.Manager.Mgr.Table.{MgrInv}
use lproxy_cv.Manager.Mgr.Upkeep.{Perm-refl, on_tunnel_created-MgrInv}
use lproxy_cv.Manager.Mgr.Requests.{MgrCreated, on_request_created-MgrInv, mgr_request_closed_once}
use lproxy_cv.Manager.Mgr.Keepalive.{closed_reconnects}
use lproxy_cv.Manager.Mgr.Stopped.{Late, asked, lost, failed, ticks, run_late, Rests, stopped-Rests}
use lproxy_cv.Witnesses.{alive, incoming}
use lproxy_cv.Witnesses.Runs.{state, opened, stub, stub-Holds, created}

abbrev mgr : List (Option Tunnel) → TunMgr
mgr tunnels = record {
  relay_domain = [];
  relay_port = 443;
  url = [];
  capacity = 2;
  tunnel_req_cap = 2;
  request_quota = 10;
  dns_server = [];
  tunnels = tunnels;
  sorted_tun_indies = 1 ∷ 0 ∷ [];
  current_tun_idx = 1;
  reconnect_queue = [];
  discarded = false;
  keepalive_trigger = some 1;
  token = [];
  udpx_tx = none;
  access_log = [];
}

abbrev fresh : Tunnel
fresh = state 0 (record { elements = new_request 0 ∷ new_request 1 ∷ []; free = 0 ∷ 1 ∷ [] })

abbrev idle : TunMgr
idle = mgr (some fresh ∷ none ∷ [])

abbrev busy : TunMgr
busy = mgr (some opened ∷ none ∷ [])

ordered : (t : Option Tunnel) → Ordered (mgr (t ∷ none ∷ []))
ordered t = record {
  size = refl;
  sorted = Permᴰ.swap refl refl;
  current = omega arith;
  small = omega arith;
}

window : (n : ℕ) (q : Reqq) → RttInv (state n q)
window n q = omega arith

fresh-TunInv : TunInv fresh
unfolding new new_reqq
fresh-TunInv = new-TunInv 3 4 0 2 10 (omega arith)

fresh-TunAt : TunAt 0 fresh
fresh-TunAt = record {
  place = refl;
  requests = fresh-TunInv;
  window = window 0 fresh.requests;
  pings = omega arith;
  room = omega arith;
  below = omega arith;
}

opened-TunAt : TunAt 0 opened
opened-TunAt = record {
  place = refl;
  requests =
      reachable-TunInv alive little 3 4 0 2 10 opened (omega arith)
        (next (create incoming (some stub) created) stop);
  window = window 1 opened.requests;
  pings = omega arith;
  room = omega arith;
  below = omega arith;
}

idle-MgrInv : MgrInv idle
idle-MgrInv = record { ordered = ordered (some fresh); tuns = (fresh-TunAt, (tt, tt)) }

busy-MgrInv : MgrInv busy
busy-MgrInv = record { ordered = ordered (some opened); tuns = (opened-TunAt, (tt, tt)) }

abbrev target : IpAddr
target = v4 (10 ∷ 0 ∷ 0 ∷ 1 ∷ [])

target-IsIp : IsIp target
target-IsIp = octets 10 0 0 1 (omega arith) (omega arith) (omega arith) (omega arith)

alloc_returns_example :
    (p : TunMgr × Option ℕ) × (alloc_tunnel_for_req idle ≡ ok p)
    × (((p.1 ≡ none) × (p.0 ≡ idle) × (any_room idle.tunnels ≡ false))
        ⊎ ((i : ℕ) × (p.1 ≡ some i) × Found idle p.0 i))
alloc_returns_example = alloc_returns idle (ordered (some fresh))

alloc-around_example : alloc_tunnel_for_req idle ≡ alloc_around idle
alloc-around_example = alloc-around idle (ordered (some fresh))

on_request_created-MgrInv_example :
    (p : TunMgr × Option TunStub × List Effect) × (on_request_created alive little idle incoming
        target 80
      ≡ ok p)
    × MgrInv p.0
    × MgrCreated alive little idle target 80 p
on_request_created-MgrInv_example =
    on_request_created-MgrInv alive little idle incoming target 80 idle-MgrInv refl target-IsIp

mgr_request_closed_once_example :
    (m' : TunMgr) × (on_request_closed alive little busy stub
      ≡ ok (m', send alive 3 (closed_message alive little stub)))
    × MgrInv m'
    × (on_request_closed alive little m' stub ≡ ok (m', []))
mgr_request_closed_once_example =
    mgr_request_closed_once alive little busy stub busy-MgrInv
      (record { tun = opened; entry = refl; holds = stub-Holds })

abbrev second : Tunnel
second = record fresh { index = 1 }

second-TunAt : TunAt 1 second
second-TunAt = record {
  place = refl;
  requests = record { table = fresh-TunInv.table; small = omega arith; counted = omega arith };
  window = omega arith;
  pings = omega arith;
  room = omega arith;
  below = omega arith;
}

on_tunnel_created-MgrInv_example :
    ((◌≡◌ {A = Option Tunnel} none none)
      × ((m' : TunMgr) × (on_tunnel_created idle second ≡ ok (m', true))
          × (get_elem? m'.tunnels 1 ≡ some (some (with_udpx none second)))
          × MgrInv m'))
    ⊎ ((old : Tunnel) × (none ≡ some old) × (on_tunnel_created idle second ≡ panic))
on_tunnel_created-MgrInv_example =
    on_tunnel_created-MgrInv idle second none idle-MgrInv refl second-TunAt refl

abbrev now : ℕ → ℕ
now i = 1000

abbrev unsorted : (ℕ → Option (Option ℕ)) → List ℕ → List ℕ
unsorted order l = l

closed_reconnects_example :
    (m1 : TunMgr) × (on_tunnel_closed idle 0 ≡ ok (m1, some (on_closed fresh)))
    × ((m2 : TunMgr) × (before : List MgrEffect) × (after : List MgrEffect) × (keepalive alive
            little unsorted m1 now
          ≡ ok (m2, before ++ (connect 0 ∷ after)))
        × MgrInv m2)
closed_reconnects_example =
    closed_reconnects alive little now unsorted (λ order l. Perm-refl l) idle 0 fresh idle-MgrInv
      refl refl

-- A tunnel, a request, a loss, a failure and the timer behind a stop.
abbrev behind_stop : List Late
behind_stop =
    Late.created second ∷ asked incoming target 80 ∷ lost 0 ∷ failed 1 ∷ ticks unsorted now ∷ []

stopped-Rests_example :
    (m' : TunMgr) × (run_late alive little (Mgr.stop idle).0 behind_stop ≡ ok (m', []))
    × Rests idle m'
stopped-Rests_example =
    stopped-Rests alive little idle behind_stop (tt, (tt, (omega arith, (tt, (tt, tt)))))
