-- ===== src/Xport/Tunnel.antt =====
-- src/xport/xtunnel.rs and `proxy_request` of src/xport/xreqserv.rs: the tunnel's state and handlers.
-- A handler returns the new state and what it does outside; `now` is the time since the start in
-- milliseconds. The strings that only the connection to the server reads are left out.
pub mod Count
use lproxy_cv.Prelude.{
  ℕ, ◌+◌, ◌-◌, ◌%◌, ◌^◌, Bool, true, false, ◌&&◌, Option, none, some, List, [], ◌∷◌, ◌++◌, ltb, leb,
  ◌==◌, if◌then◌else◌, length, get_elem?, set, replicate,
}
use lproxy_cv.Prelude.Outcome.{Outcome, ok, unwrap, ensure, ◌>>=◌, ◌>>◌}
use lproxy_cv.Wire.{ByteIo, writes, behind, slice_from}
use lproxy_cv.Lws.Msg.{RMessage}
use lproxy_cv.Tunnels.Header.{
  Cmd, req_data, req_created, req_client_closed, req_client_finished, req_server_closed,
  req_server_finished, ping, pong, cmd_code, cmd_from, THeader, read_from, theader_size,
}
use lproxy_cv.Tunnels.Frames.{hsize, write_head, ping_frame}
use lproxy_cv.Xport.Slots.{
  Effect, sent, connect_tunnel, connect_port, XRequest, new_xreqq, shutdown, alloc, free, clear_all,
}

pub record XTunnel : Type 0 where
  pub discarded : Bool
  pub need_reconnect : Bool
  pub tun_tx : Option ℕ
  pub keepalive_trigger : Option ℕ
  pub ping_count : ℕ
  pub rawfd : Option ℕ
  pub req_count : ℕ
  pub requests : List XRequest
  pub req_cap : ℕ

abbrev pub new : XTunnel
new = record {
  discarded = false;
  need_reconnect = false;
  tun_tx = none;
  keepalive_trigger = none;
  ping_count = 0;
  rawfd = none;
  req_count = 0;
  requests = new_xreqq 128;
  req_cap = 128;
}

-- The trigger that `start_keepalive_timer` makes is an argument.
abbrev pub start : XTunnel → ℕ → XTunnel × List Effect
start t trigger = (record t { keepalive_trigger = some trigger }, connect_tunnel ∷ [])

unfoldable pub close_rawfd : XTunnel → XTunnel × List Effect
close_rawfd t = (record t { rawfd = none }, shutdown t.rawfd)

unfoldable pub stop : XTunnel → XTunnel × List Effect
stop t =
    if t.discarded
    then (t, [])
    else (record t { discarded = true; rawfd = none; keepalive_trigger = none }, shutdown t.rawfd)

-- `false` is the `Err` on which the caller shuts the new socket down.
unfoldable pub on_tunnel_created : XTunnel → ℕ → ℕ → XTunnel × Bool
on_tunnel_created t rawfd tx =
    if t.discarded then (t, false) else (record t { rawfd = some rawfd; tun_tx = some tx }, true)

abbrev pub cleared : XTunnel → XTunnel × List Effect
cleared t = let r = clear_all t.requests in (record t { requests = r.0 }, r.1)

was_open : Option ℕ → XTunnel → XTunnel × List Effect
was_open none t = cleared t
was_open (some tx) t = if t.discarded then (t, []) else cleared (record t { need_reconnect = true })

unfoldable pub on_tunnel_closed : XTunnel → XTunnel × List Effect
unfolding was_open
on_tunnel_closed t = was_open t.tun_tx (record t { rawfd = none; tun_tx = none })

unfoldable pub on_tunnel_build_error : XTunnel → XTunnel
on_tunnel_build_error t = if t.discarded then t else record t { need_reconnect = true }

unfoldable pub process_reconnect : XTunnel → XTunnel × List Effect
process_reconnect t =
    if t.need_reconnect
    then (record t { ping_count = 0; need_reconnect = false }, connect_tunnel ∷ [])
    else (t, [])

tx_of : Option XRequest → ℕ → Option ℕ
tx_of none req_tag = none
tx_of (some req) req_tag = if req.tag == req_tag then req.request_tx else none

unfoldable pub get_request_tx : XTunnel → ℕ → ℕ → Option ℕ
unfolding tx_of
get_request_tx t req_idx req_tag = tx_of (get_elem? t.requests req_idx) req_tag

drop_tx : Option XRequest → List XRequest → ℕ → ℕ → List XRequest
drop_tx none es req_idx req_tag = es
drop_tx (some req) es req_idx req_tag =
    if req.tag == req_tag then set es req_idx (record req { request_tx = none }) else es

-- The code writes only where the sender is there; to drop one that is not changes nothing.
unfoldable pub free_request_tx : XTunnel → ℕ → ℕ → XTunnel
unfolding drop_tx
free_request_tx t req_idx req_tag = record t {
  requests = drop_tx (get_elem? t.requests req_idx) t.requests req_idx req_tag;
}

valid : Option XRequest → ℕ → Bool
valid none req_tag = false
valid (some req) req_tag = if req.is_inused then req.tag == req_tag else false

unfoldable pub check_req_valid : XTunnel → ℕ → ℕ → Bool
unfolding valid
check_req_valid t req_idx req_tag = valid (get_elem? t.requests req_idx) req_tag

save_tx : Option XRequest → List XRequest → ℕ → ℕ → ℕ → ℕ → List XRequest × Bool
save_tx none es tx trigger req_idx req_tag = (es, false)
save_tx (some req) es tx trigger req_idx req_tag =
    if req.tag == req_tag
    then (set es req_idx (record req { request_tx = some tx; trigger = some trigger }), true)
    else (es, false)

-- `false` is `Err`.
unfoldable pub save_request_tx : XTunnel → ℕ → ℕ → ℕ → ℕ → XTunnel × Bool
unfolding save_tx
save_request_tx t tx trigger req_idx req_tag =
    if t.discarded
    then (t, false)
    else (let r = save_tx (get_elem? t.requests req_idx) t.requests tx trigger req_idx req_tag in
        (record t { requests = r.0 }, r.1))

-- `proxy_request`, with the channel end and the trigger that it makes.
unfoldable pub proxy_request : XTunnel → ℕ → ℕ → ℕ → ℕ → ℕ → XTunnel × List Effect × Bool
proxy_request t tx trigger req_idx req_tag port =
    let r = save_request_tx t tx trigger req_idx req_tag in
    (r.0, (if r.1 then connect_port req_idx req_tag port ∷ [] else []), r.1)

-- `ReqClientClosed`
unfoldable pub client_closed : XTunnel → ℕ → ℕ → XTunnel × List Effect
client_closed t req_idx req_tag =
    let r = free t.requests req_idx req_tag in
    (
      record t {
        requests = r.0;
        req_count = if r.2 && ltb 0 t.req_count then t.req_count - 1 else t.req_count;
      },
      r.1,
    )

-- `ReqCreated`
unfoldable pub created : XTunnel → ℕ → ℕ → ℕ → ℕ → ℕ → XTunnel × List Effect
created t tx trigger req_idx req_tag port =
    let a = alloc t.requests req_idx req_tag in
    let p = proxy_request (record t { requests = a.0 }) tx trigger req_idx req_tag port in
    (record p.0 { req_count = if p.2 then (t.req_count + 1) % 65536 else t.req_count }, a.1 ++ p.1)

module _ (alive : ℕ → Bool) where
  abbrev pub send : ℕ → List ℕ → ℕ → List Effect
  send tx buf cursor = if alive tx then sent tx buf cursor ∷ [] else []

  abbrev pub send_opt : Option ℕ → List ℕ → ℕ → List Effect
  send_opt none buf cursor = []
  send_opt (some tx) buf cursor = send tx buf cursor

  module _ (io : ByteIo) where
    open io use {read_with, write_with}

    send_ping_on : Option ℕ → XTunnel → ℕ → Outcome ⊥ (XTunnel × List Effect)
    send_ping_on none t now = ok (t, [])
    send_ping_on (some tx) t now = do
      buf ← ping_frame io now
      ok ((if alive tx then record t { ping_count = t.ping_count + 1 } else t), send tx buf 0)

    unfoldable pub send_ping : XTunnel → ℕ → Outcome ⊥ (XTunnel × List Effect)
    unfolding send_ping_on
    send_ping t now = if ltb 5 t.ping_count then ok (close_rawfd t) else send_ping_on t.tun_tx t now

    unfoldable pub keepalive : XTunnel → ℕ → Outcome ⊥ (XTunnel × List Effect)
    keepalive t now = if t.discarded then ok (t, []) else (do
      (t', effects) ← send_ping t now
      let r = process_reconnect t'
      ok (r.0, effects ++ r.1))

    reply_on : Option ℕ → XTunnel → RMessage → Outcome ⊥ (XTunnel × List Effect)
    reply_on none t msg = ok (t, [])
    reply_on (some tx) t msg = do
      vec ←
          behind 2 msg.buf
            λ bs. do (bs', off) ← writes write_with ((1, cmd_code pong) ∷ []) bs 0; ok bs'
      ok (t, send tx vec 0)

    unfoldable pub reply_ping : XTunnel → RMessage → Outcome ⊥ (XTunnel × List Effect)
    unfolding reply_on
    reply_ping t msg = reply_on t.tun_tx t msg

    unfoldable pub on_pong : XTunnel → List ℕ → ℕ → Outcome ⊥ XTunnel
    on_pong t bs now =
        if length bs == 8
        then (do
          timestamp ← unwrap (read_with 8 bs 0)
          ensure (leb timestamp now)
          ok (record t { ping_count = 0 }))
        else ok t

    closed_by :
        XTunnel
        → ℕ
        → THeader
        → List XRequest × List Effect × Bool
        → Outcome ⊥ (XTunnel × List Effect)
    closed_by t tx th (es, effects, false) = ok (record t { requests = es }, effects)
    closed_by t tx th (es, effects, true) = do
      buf ← write_head io hsize req_server_closed th (replicate hsize 0)
      ok (
        record t { requests = es; req_count = (t.req_count + 65536 - 1) % 65536 },
        effects ++ send tx buf 0,
      )

    closed_on : Option ℕ → XTunnel → THeader → Outcome ⊥ (XTunnel × List Effect)
    unfolding closed_by
    closed_on none t th = ok (t, [])
    closed_on (some tx) t th = closed_by t tx th (free t.requests th.req_idx th.req_tag)

    -- `on_request_connect_error` too.
    unfoldable pub on_request_closed : XTunnel → ℕ → ℕ → Outcome ⊥ (XTunnel × List Effect)
    unfolding closed_on
    on_request_closed t req_idx req_tag =
        if check_req_valid t req_idx req_tag
        then closed_on t.tun_tx t (record { req_idx = req_idx; req_tag = req_tag })
        else ok (t, [])

    finished_on : Option ℕ → THeader → Outcome ⊥ (List Effect)
    finished_on none th = ok []
    finished_on (some tx) th = do
      buf ← write_head io hsize req_server_finished th (replicate hsize 0)
      ok (send tx buf 0)

    unfoldable pub on_request_recv_finished : XTunnel → ℕ → ℕ → Outcome ⊥ (List Effect)
    unfolding finished_on
    on_request_recv_finished t req_idx req_tag =
        if check_req_valid t req_idx req_tag
        then finished_on t.tun_tx (record { req_idx = req_idx; req_tag = req_tag })
        else ok []

    msg_on : Option ℕ → List ℕ → THeader → Outcome ⊥ (List Effect × Bool)
    msg_on none vec th = ok ([], false)
    msg_on (some tx) vec th = do
      buf ← write_head io (length vec) req_data th vec
      ok (send tx buf 0, alive tx)

    unfoldable pub on_request_msg : XTunnel → List ℕ → ℕ → ℕ → Outcome ⊥ (List Effect × Bool)
    unfolding msg_on
    on_request_msg t vec req_idx req_tag =
        if check_req_valid t req_idx req_tag
        then msg_on t.tun_tx vec (record { req_idx = req_idx; req_tag = req_tag })
        else ok ([], false)

    -- `tx` and `trigger` are what `proxy_request` makes if the message opens a request.
    unfoldable pub on_tunnel_proxy_msg :
        Cmd → XTunnel → RMessage → ℕ → ℕ → Outcome ⊥ (XTunnel × List Effect)
    on_tunnel_proxy_msg cmd t msg tx trigger = do
      bs ← slice_from 3 msg.buf
      th ← read_from io bs
      bs' ← slice_from theader_size bs
      by_cmd cmd th bs'
      where
        by_cmd : Cmd → THeader → List ℕ → Outcome ⊥ (XTunnel × List Effect)
        by_cmd req_data th bs' =
            ok (t, send_opt (get_request_tx t th.req_idx th.req_tag) msg.buf (3 + theader_size))
        by_cmd req_client_finished th bs' = ok (free_request_tx t th.req_idx th.req_tag, [])
        by_cmd req_client_closed th bs' = ok (client_closed t th.req_idx th.req_tag)
        by_cmd req_created th bs' = do
          port ← unwrap (read_with 2 bs' 0)
          ok (created t tx trigger th.req_idx th.req_tag port)
        by_cmd _ th bs' = ok (t, [])

    unfoldable pub on_tunnel_msg :
        XTunnel → RMessage → ℕ → ℕ → ℕ → Outcome ⊥ (XTunnel × List Effect)
    on_tunnel_msg t msg tx trigger now = do
      bs ← slice_from 2 msg.buf
      code ← unwrap (read_with 1 bs 0)
      bs' ← slice_from 1 bs
      cmd ← cmd_from code
      by_cmd cmd bs'
      where
        by_cmd : Cmd → List ℕ → Outcome ⊥ (XTunnel × List Effect)
        by_cmd ping bs' = reply_ping t msg
        by_cmd pong bs' = do t' ← on_pong t bs' now; ok (t', [])
        by_cmd cmd bs' = on_tunnel_proxy_msg cmd t msg tx trigger
