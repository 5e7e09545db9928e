-- ===== src/Witnesses.antt =====
-- The theorems at concrete states: two slots, the first in use, and short messages.
pub mod Messages
pub mod Xport
pub mod Dns
pub mod Runs
pub mod Manager
pub mod Service
pub mod Udpx
pub mod Forwarder
pub mod Config
pub mod Control
pub mod Sockets
use lproxy_cv.Prelude.{
  ℕ, ◌≡◌, refl, ◌≢◌, ◌+◌, ◌≤◌, ◌<◌, Bool, true, false, none, some, List, [], ◌∷◌, ◌++◌, arith, inr,
  inl, ◌⊎◌, length, get_elem?, get_elem?-set_ne,
}
use lproxy_cv.Prelude.Outcome.{ok, err, panic}
use lproxy_cv.Wire.{little, encode, le_bytes}
use lproxy_cv.Lws.Msg.{new_wmessage, bytes}
use lproxy_cv.Tunnels.Header.{
  Cmd, req_data, req_client_closed, req_server_closed, THeader, read_from, write_to, cmd_from,
  cmd_code,
}
use lproxy_cv.Tunnels.Header.Laws.{cmd_from-cmd_code, read_from-write_to}
use lproxy_cv.Tunnels.Reqq.{Request, Reqq, new, alloc, free, clear_all, u16_max, granted}
use lproxy_cv.Tunnels.Reqq.Invariant.{Inv, Alloc, Granted, alloc-Inv, free-Inv, new-Inv}
use lproxy_cv.Tunnels.Reqq.Stale.{
  free_twice, clear_all_stale, clear_all-alloc, alloc-free, free_of_free,
}
use lproxy_cv.Tunnels.Frames.{v4}
use lproxy_cv.Tunnels.Frames.Laws.{head_fields}
use lproxy_cv.Tunnels.Tunnel.{
  SocketAddr, Tunnel, TunStub, sent, send, stub_header, on_request_created_internal,
  on_request_closed, get_request_tx,
}
use lproxy_cv.Tunnels.Tunnel.Requests.{
  TunInv, Holds, Created, request_stub-TunInv, on_request_closed_once,
}

abbrev pub alive : ℕ → Bool
alive tx = true

abbrev pub used_slot : Request
used_slot = record { index = 0; tag = 1; request_tx = some 7; trigger = some 8; write_out = 0 }

abbrev pub free_slot : Request
free_slot = record { index = 1; tag = 0; request_tx = none; trigger = none; write_out = 0 }

abbrev pub incoming : Request
incoming = record { index = 0; tag = 0; request_tx = some 5; trigger = some 6; write_out = 0 }

abbrev slots : Reqq
slots = record { elements = used_slot ∷ free_slot ∷ []; free = 1 ∷ [] }

slots-Inv : Inv slots
slots-Inv = record { distinct = (tt, tt); slots = ((free_slot, refl, (refl, refl)), tt) }

abbrev pub tunnel : Tunnel
tunnel = record {
  tx = 3;
  udpx_tx = none;
  index = 0;
  requests = slots;
  capacity = 2;
  rtt_queue = 0 ∷ 0 ∷ 0 ∷ 0 ∷ 0 ∷ [];
  rtt_index = 0;
  rtt_sum = 0;
  req_count = 1;
  ping_count = 1;
  rawfd = 4;
  busy = 0;
  request_quota = 10;
}

pub tunnel-TunInv : TunInv tunnel
tunnel-TunInv = record { table = slots-Inv; small = omega arith; counted = refl }

abbrev pub stub : TunStub
stub = record { tunnel_tx = 3; tun_idx = 0; req_idx = 0; req_tag = 1; request_quota = 10 }

pub stub-Holds : Holds tunnel stub
stub-Holds = record {
  req = used_slot;
  at = refl;
  tagged = refl;
  busy = (λ e. absurd (omega (arith, e)), tt);
}

request_stub-TunInv_example :
    (p : Tunnel × _) × (on_request_created_internal tunnel incoming ≡ ok p)
    × TunInv p.0
    × Created tunnel incoming p
request_stub-TunInv_example = request_stub-TunInv tunnel incoming tunnel-TunInv

on_request_closed_once_example :
    (t' : Tunnel) × (on_request_closed alive little tunnel stub
      ≡ ok (t', send alive 3 (encode (head_fields 7 req_client_closed (stub_header stub)))))
    × TunInv t'
    × (t'.req_count + 1 ≡ 1)
    × (on_request_closed alive little t' stub ≡ ok (t', []))
on_request_closed_once_example =
    on_request_closed_once alive little tunnel stub tunnel-TunInv stub-Holds

clear_all-alloc_example : alloc (clear_all slots) incoming ≡ ok (clear_all slots, u16_max, u16_max)
clear_all-alloc_example = clear_all-alloc slots incoming
