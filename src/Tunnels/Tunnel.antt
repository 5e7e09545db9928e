-- ===== src/Tunnels/Tunnel.antt =====
-- src/tunnels/tunnel.rs: one tunnel, which carries the requests of its slots. A method returns the
-- new state and what it has done outside; `now` is the time since the tunnel's start in
-- milliseconds. An i64 is its bit pattern, below 2 ^ 64. Numbers wrap as in a release build.
pub mod Rtt
pub mod Requests
pub mod Kept
use lproxy_cv.Prelude.{
  ℕ, ◌+◌, ◌-◌, ◌*◌, ◌%◌, ◌^◌, Bool, true, false, Option, none, some, List, [], ◌∷◌, ltb, leb, ◌==◌,
  if◌then◌else◌, length, get_elem?, set, replicate,
}
use lproxy_cv.Prelude.Outcome.{Outcome, ok, unwrap, ensure, ◌>>=◌, ◌>>◌}
use lproxy_cv.Wire.{ByteIo, writes, behind}
use lproxy_cv.Lws.Msg.{RMessage, WMessage, new_wmessage}
use lproxy_cv.Tunnels.Header.{Cmd, pong, cmd_code, THeader}
use lproxy_cv.Tunnels.Reqq.{Request, Reqq, u16, u16_max, new as new_reqq, alloc, free, clear_all}
use lproxy_cv.Tunnels.Frames.{IpAddr, created_frame, closed_frame, ping_frame}

pub record SocketAddr : Type 0 where
  pub ip : IpAddr
  pub port : ℕ

-- What a method does outside: a message put on a channel, a datagram handed on, a socket shut down.
pub data Effect : Type 0 where
  sent : ℕ → WMessage → Effect
  udp_recv : ℕ → List ℕ → SocketAddr → SocketAddr → Effect
  shut_down : ℕ → Effect

pub record TunStub : Type 0 where
  pub tunnel_tx : ℕ
  pub tun_idx : ℕ
  pub req_idx : ℕ
  pub req_tag : ℕ
  pub request_quota : ℕ

pub record Tunnel : Type 0 where
  pub tx : ℕ
  pub udpx_tx : Option ℕ
  pub index : ℕ
  pub requests : Reqq
  pub capacity : ℕ
  pub rtt_queue : List ℕ
  pub rtt_index : ℕ
  pub rtt_sum : ℕ
  pub req_count : ℕ
  pub ping_count : ℕ
  pub rawfd : ℕ
  pub busy : ℕ
  pub request_quota : ℕ

unfoldable pub new : ℕ → ℕ → ℕ → ℕ → ℕ → Tunnel
new tx rawfd idx cap request_quota = record {
  tx = tx;
  udpx_tx = none;
  index = idx;
  requests = new_reqq cap;
  capacity = u16 cap;
  rtt_queue = replicate 5 0;
  rtt_index = 0;
  rtt_sum = 0;
  req_count = 0;
  ping_count = 0;
  rawfd = rawfd;
  busy = 0;
  request_quota = request_quota;
}

abbrev pub keep_alive_interval : ℕ
keep_alive_interval = 15 * 1000

-- `a - b` on u16
abbrev pub sub_u16 : ℕ → ℕ → ℕ
sub_u16 a b = (a + 65536 - b) % 65536

-- The window with its entry `removed` replaced.
abbrev pub with_rtt : Tunnel → ℕ → ℕ → Tunnel
with_rtt t rtt removed = record t {
  rtt_queue = set t.rtt_queue t.rtt_index rtt;
  rtt_index = (t.rtt_index + 1) % length t.rtt_queue;
  rtt_sum = (t.rtt_sum + rtt + 2 ^ 64 - removed) % 2 ^ 64;
}

unfoldable pub append_rtt : Tunnel → ℕ → Outcome ⊥ Tunnel
append_rtt t rtt = do
  removed ← unwrap (get_elem? t.rtt_queue t.rtt_index)
  ok (with_rtt t rtt removed)

unfoldable pub reset_busy : Tunnel → Tunnel
reset_busy t = record t { busy = 0 }

unfoldable pub tx_of : Option Request → ℕ → Option ℕ
tx_of none req_tag = none
tx_of (some req) req_tag = if req.tag == req_tag then req.request_tx else none

unfoldable pub get_request_tx : Tunnel → ℕ → ℕ → Option ℕ
unfolding tx_of
get_request_tx t req_idx req_tag = tx_of (get_elem? t.requests.elements req_idx) req_tag

drop_tx : Option Request → Reqq → ℕ → ℕ → Reqq
drop_tx none q req_idx req_tag = q
drop_tx (some req) q req_idx req_tag =
    if req.tag == req_tag
    then record q { elements = set q.elements req_idx (record req { request_tx = none }) }
    else q

-- The code writes only where the sender is there; to drop one that is not changes nothing.
unfoldable pub free_request_tx : Tunnel → ℕ → ℕ → Tunnel
unfolding drop_tx
free_request_tx t req_idx req_tag = record t {
  requests = drop_tx (get_elem? t.requests.elements req_idx) t.requests req_idx req_tag;
}

stub_of : Tunnel → Reqq × ℕ × ℕ → Tunnel × Option TunStub
stub_of t (q, idx, tag) = if idx == u16_max then (record t { requests = q }, none) else (
  record t { requests = q; req_count = u16 (t.req_count + 1) },
  some (record {
    tunnel_tx = t.tx;
    tun_idx = u16 t.index;
    req_idx = idx;
    req_tag = tag;
    request_quota = t.request_quota;
  }),
)

unfoldable pub on_request_created_internal : Tunnel → Request → Outcome ⊥ (Tunnel × Option TunStub)
unfolding stub_of
on_request_created_internal t req = do r ← alloc t.requests req; ok (stub_of t r)

unfoldable pub set_udpx_tx : Tunnel → ℕ → Tunnel
set_udpx_tx t tx = record t { udpx_tx = some tx }

unfoldable pub close_rawfd : Tunnel → List Effect
close_rawfd t = shut_down t.rawfd ∷ []

unfoldable pub on_closed : Tunnel → Tunnel
on_closed t = record t { requests = clear_all t.requests }

abbrev pub stub_header : TunStub → THeader
stub_header s = record { req_idx = s.req_idx; req_tag = s.req_tag }

-- Which channels have a receiver: `UnboundedSender::send` succeeds on those.
module _ (alive : ℕ → Bool) where
  abbrev pub send : ℕ → List ℕ → List Effect
  send tx buf = if alive tx then sent tx (new_wmessage buf 0) ∷ [] else []

  module _ (io : ByteIo) where
    open io use {read_with, write_with}

    announce :
        Tunnel → Option TunStub → IpAddr → ℕ → Outcome ⊥ (Tunnel × Option TunStub × List Effect)
    announce t none ip port = ok (t, none, [])
    announce t (some stub) ip port = do
      buf ← created_frame io (stub_header stub) ip port
      ok (t, some stub, send stub.tunnel_tx buf)

    unfoldable pub on_request_created :
        Tunnel → Request → IpAddr → ℕ → Outcome ⊥ (Tunnel × Option TunStub × List Effect)
    unfolding announce
    on_request_created t req ip port = do
      (t', stub) ← on_request_created_internal t req
      announce t' stub ip port

    closed_by : Tunnel → TunStub → Reqq × Bool → Outcome ⊥ (Tunnel × List Effect)
    closed_by t stub (q, false) = ok (record t { requests = q }, [])
    closed_by t stub (q, true) = do
      buf ← closed_frame io (stub_header stub)
      ok (record t { requests = q; req_count = sub_u16 t.req_count 1 }, send stub.tunnel_tx buf)

    unfoldable pub on_request_closed : Tunnel → TunStub → Outcome ⊥ (Tunnel × List Effect)
    unfolding closed_by
    on_request_closed t stub = closed_by t stub (free t.requests stub.req_idx stub.req_tag)

    unfoldable pub reply_ping : Tunnel → RMessage → Outcome ⊥ (Tunnel × List Effect)
    reply_ping t msg = do
      vec ←
          behind 2 msg.buf
            λ bs. do (bs', off) ← writes write_with ((1, cmd_code pong) ∷ []) bs 0; ok bs'
      ok (t, send t.tx vec)

    timed : Tunnel → List ℕ → ℕ → Outcome ⊥ Tunnel
    timed t bs now = do
      timestamp ← unwrap (read_with 8 bs 0)
      ensure (leb timestamp now)
      append_rtt (record t { ping_count = 0 }) (now - timestamp)

    unfoldable pub on_pong : Tunnel → List ℕ → ℕ → Outcome ⊥ Tunnel
    unfolding timed
    on_pong t bs now = if length bs == 8 then timed t bs now else ok t

    pinged : Tunnel → Outcome ⊥ Tunnel
    pinged t =
        let t' : Tunnel = record t { ping_count = (t.ping_count + 1) % 256 } in
        if ltb 0 t.ping_count then append_rtt t' (t.ping_count * keep_alive_interval) else ok t'

    pinging : Tunnel → ℕ → Outcome ⊥ (Tunnel × List Effect × Bool)
    unfolding pinged
    pinging t now = do
      buf ← ping_frame io now
      t' ← if alive t.tx then pinged t else ok t
      ok (t', send t.tx buf, true)

    -- `false` asks the caller to close the socket.
    unfoldable pub send_ping : Tunnel → ℕ → Outcome ⊥ (Tunnel × List Effect × Bool)
    unfolding pinging
    send_ping t now = if ltb 5 t.ping_count then ok (t, [], false) else pinging t now
