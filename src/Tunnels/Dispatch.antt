-- ===== src/Tunnels/Dispatch.antt =====
-- src/tunnels/tunnel.rs: `on_tunnel_msg`, what a tunnel does with a message from its peer.
pub mod Closing
use lproxy_cv.Prelude.{
  ℕ, ◌+◌, ◌%◌, ◌^◌, Bool, true, false, Option, none, some, List, [], ◌∷◌, if◌then◌else◌, length,
}
use lproxy_cv.Prelude.Outcome.{Outcome, ok, unwrap, ◌>>=◌}
use lproxy_cv.Wire.{ByteIo, slice_from}
use lproxy_cv.Lws.Msg.{RMessage, new_wmessage}
use lproxy_cv.Tunnels.Header.{
  Cmd, req_data, req_server_finished, req_server_closed, ping, pong, udp_x, cmd_from, THeader,
  read_from, theader_size,
}
use lproxy_cv.Tunnels.Reqq.{Reqq, free}
use lproxy_cv.Tunnels.Tunnel.{
  Tunnel, Effect, sent, sub_u16, get_request_tx, free_request_tx, reply_ping, on_pong,
}
use lproxy_cv.Tunnels.Udp.{on_udpx_south}

-- The payload goes to the request's channel behind the head of the message.
to_request : (ℕ → Bool) → Option ℕ → RMessage → List Effect
to_request alive none msg = []
to_request alive (some tx) msg =
    if alive tx then sent tx (new_wmessage msg.buf (3 + theader_size)) ∷ [] else []

freed_by_server : Tunnel → Reqq × Bool → Tunnel
freed_by_server t (q, true) = record t { requests = q; req_count = sub_u16 t.req_count 1 }
freed_by_server t (q, false) = record t { requests = q }

module _ (alive : ℕ → Bool) (io : ByteIo) (now : ℕ) where
  open io use {read_with}

  -- `bs` is the message behind its command.
  unfoldable pub on_cmd : Cmd → Tunnel → RMessage → List ℕ → Outcome ⊥ (Tunnel × List Effect)
  unfolding to_request freed_by_server
  on_cmd ping t msg bs = reply_ping alive io t msg
  on_cmd pong t msg bs = do t' ← on_pong alive io t bs now; ok (t', [])
  on_cmd udp_x t msg bs = do effects ← on_udpx_south io alive t msg; ok (t, effects)
  on_cmd req_data t msg bs = do
    th ← read_from io bs
    ok (t, to_request alive (get_request_tx t th.req_idx th.req_tag) msg)
  on_cmd req_server_finished t msg bs = do
    th ← read_from io bs
    ok (free_request_tx t th.req_idx th.req_tag, [])
  on_cmd req_server_closed t msg bs = do
    th ← read_from io bs
    ok (freed_by_server t (free t.requests th.req_idx th.req_tag), [])
  on_cmd _ t msg bs = ok (t, [])

  unfoldable pub on_tunnel_msg : Tunnel → RMessage → Outcome ⊥ (Tunnel × List Effect)
  on_tunnel_msg t msg = do
    bs ← slice_from 2 msg.buf
    let t' : Tunnel = record t { busy = (t.busy + length bs) % 2 ^ 64 }
    code ← unwrap (read_with 1 bs 0)
    bs' ← slice_from 1 bs
    cmd ← cmd_from code
    on_cmd cmd t' msg bs'
