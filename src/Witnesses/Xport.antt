-- ===== src/Witnesses/Xport.antt =====
-- The theorems on the tunnel for the peer's requests at two slots, the first in use.
use lproxy_cv.Prelude.{ℕ, ◌≡◌, refl, ◌+◌, Bool, true, false, none, some, [], ◌∷◌, ◌++◌, arith}
use lproxy_cv.Prelude.Outcome.{ok}
use lproxy_cv.Wire.{little, encode}
use lproxy_cv.Tunnels.Header.{req_server_closed, THeader}
use lproxy_cv.Tunnels.Frames.Laws.{head_fields}
use lproxy_cv.Xport.Slots.{XRequest, cleaning}
use lproxy_cv.Xport.Slots.Laws.{used}
use lproxy_cv.Xport.Tunnel.{
  XTunnel, send, created, on_request_closed, on_request_msg, on_request_recv_finished,
  on_tunnel_created, on_tunnel_closed,
}
use lproxy_cv.Xport.Tunnel.Count.{
  Covered, Opened, created_lem, xrequest_closed_once, on_tunnel_closed_stale,
}

abbrev alive : ℕ → Bool
alive tx = true

abbrev open_slot : XRequest
open_slot = record {
  index = 0;
  tag = 4;
  is_inused = true;
  request_tx = some 7;
  trigger = some 8;
  wait_task = some 1;
  rawfd = some 12;
}

abbrev idle_slot : XRequest
idle_slot = record open_slot { index = 1; is_inused = false; request_tx = none; trigger = none }

abbrev xtunnel : XTunnel
xtunnel = record {
  discarded = false;
  need_reconnect = false;
  tun_tx = some 3;
  keepalive_trigger = some 2;
  ping_count = 0;
  rawfd = some 5;
  req_count = 1;
  requests = open_slot ∷ idle_slot ∷ [];
  req_cap = 128;
}

xtunnel-Covered : Covered xtunnel
xtunnel-Covered = omega arith

created_lem_example : Opened xtunnel 20 1 9 8080 (created xtunnel 20 21 1 9 8080)
created_lem_example = created_lem xtunnel 20 21 1 9 8080 refl (omega arith) xtunnel-Covered

abbrev closed_header : THeader
closed_header = record { req_idx = 0; req_tag = 4 }

xrequest_closed_once_example :
    (t' : XTunnel) × (on_request_closed alive little xtunnel 0 4
      ≡ ok (
        t',
        cleaning open_slot
            ++ send alive 3 (encode (head_fields 7 req_server_closed closed_header)) 0,
      ))
    × Covered t'
    × (t'.req_count + 1 ≡ 1)
    × (on_request_closed alive little t' 0 4 ≡ ok (t', []))
xrequest_closed_once_example =
    xrequest_closed_once alive little xtunnel 3 0 4 open_slot refl refl refl refl (omega arith)
      xtunnel-Covered

on_tunnel_closed_stale_example :
    let lost = (on_tunnel_closed xtunnel).0 in
    let t' = (on_tunnel_created lost 9 6).0 in
    (used lost.requests ≡ 0)
    × (lost.req_count ≡ 1)
    × (t'.tun_tx ≡ some 6)
    × (used t'.requests ≡ 0)
    × (t'.req_count ≡ 1)
    × (on_request_msg alive little t' (1 ∷ []) 0 4 ≡ ok ([], false))
    × (on_request_recv_finished alive little t' 0 4 ≡ ok [])
    × (on_request_closed alive little t' 0 4 ≡ ok (t', []))
on_tunnel_closed_stale_example = on_tunnel_closed_stale alive little xtunnel (1 ∷ []) 0 4 9 6 refl
