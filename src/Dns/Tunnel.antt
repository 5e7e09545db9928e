-- ===== src/Dns/Tunnel.antt =====
-- src/dns/dnstunnel.rs: `DnsTunnel`, a tunnel that carries DNS queries to the remote resolver and
-- its answers back. `now` is the time since the tunnel's start in milliseconds, an i64 is its bit
-- pattern, and `fuel` and `lower` are those of the DNS messages.
pub mod Queries
use lproxy_cv.Prelude.{
  ℕ, ◌+◌, ◌-◌, ◌*◌, ◌/◌, ◌%◌, ◌^◌, Bool, true, false, Option, none, some, List, [], ◌∷◌, ltb, leb,
  ◌==◌, if◌then◌else◌, length, get_elem?, set, replicate, ◌++◌,
}
use lproxy_cv.Prelude.Outcome.{Outcome, ok, err, panic, unwrap, ensure, ◌>>=◌, ◌>>◌}
use lproxy_cv.Wire.{ByteIo, writes, reads, behind, slice_from}
use lproxy_cv.Lws.Msg.{RMessage, WMessage, new_wmessage}
use lproxy_cv.Tunnels.Header.{Cmd, req_data, ping, pong, cmd_code, cmd_from}
use lproxy_cv.Tunnels.Frames.{IpAddr, v4, v6, ping_frame}
use lproxy_cv.Tunnels.Tunnel.{SocketAddr, Effect, sent, shut_down, keep_alive_interval, send}
use lproxy_cv.Tunnels.Udp.{copy_behind}
use lproxy_cv.Dns.Buffer.{Fail, end_of_buffer, label_too_long, no_a_record, looping, Buffer}
use lproxy_cv.Dns.Packet.{DnsPacket, from_buffer, octets_of}

pub record DnsTunnel : Type 0 where
  pub tx : ℕ
  pub index : ℕ
  pub rtt_queue : List ℕ
  pub rtt_index : ℕ
  pub rtt_sum : ℕ
  pub ping_count : ℕ
  pub udp_tx : Option ℕ
  pub rawfd : ℕ

-- Beside those of a tunnel: a datagram put on a channel, a packet given to `save_ipset`, a
-- connection begun for an index.
pub data DnsEffect : Type 0 where
  of_tunnel : Effect → DnsEffect
  datagram : ℕ → List ℕ → SocketAddr → DnsEffect
  save_ipset : DnsPacket → DnsEffect
  connect : ℕ → DnsEffect

unfoldable pub new : ℕ → ℕ → ℕ → ℕ → DnsTunnel
new tx rawfd udp_tx idx = record {
  tx = tx;
  index = idx;
  rtt_queue = replicate 5 0;
  rtt_index = 0;
  rtt_sum = 0;
  ping_count = 0;
  udp_tx = some udp_tx;
  rawfd = rawfd;
}

abbrev pub with_rtt : DnsTunnel → ℕ → ℕ → DnsTunnel
with_rtt t rtt rtt_remove = record t {
  rtt_queue = set t.rtt_queue t.rtt_index rtt;
  rtt_index = (t.rtt_index + 1) % length t.rtt_queue;
  rtt_sum = (t.rtt_sum + rtt + 2 ^ 64 - rtt_remove) % 2 ^ 64;
}

unfoldable pub append_rtt : DnsTunnel → ℕ → Outcome ⊥ DnsTunnel
append_rtt t rtt = do
  rtt_remove ← unwrap (get_elem? t.rtt_queue t.rtt_index)
  ok (with_rtt t rtt rtt_remove)

-- `a / n` on i64, for a positive `n`: towards zero.
abbrev pub div_i64 : ℕ → ℕ → ℕ
div_i64 a n = if ltb a (2 ^ 63) then a / n else (2 ^ 64 - (2 ^ 64 - a) / n) % 2 ^ 64

-- `a < b` on i64
abbrev pub ordinal : ℕ → ℕ
ordinal a = (a + 2 ^ 63) % 2 ^ 64

unfoldable pub get_rtt : DnsTunnel → Outcome ⊥ ℕ
get_rtt t = if length t.rtt_queue == 0 then panic else ok (div_i64 t.rtt_sum (length t.rtt_queue))

unfoldable pub close_rawfd : DnsTunnel → List DnsEffect
close_rawfd t = of_tunnel (shut_down t.rawfd) ∷ []

-- `u32::from(Ipv4Addr)`
abbrev pub u32_of : List ℕ → ℕ
u32_of (a ∷ b ∷ c ∷ d ∷ []) = a * 16777216 + b * 65536 + c * 256 + d
u32_of _ = 0

-- 0 for an IPv6 address
abbrev pub ip_of : IpAddr → ℕ
ip_of (v4 octets) = u32_of octets
ip_of (v6 segments) = 0

-- The message is an error for the parser (`none`), or a packet. A parse that does not end is `err`.
abbrev pub parsed : Outcome Fail (DnsPacket × Buffer) → Outcome Fail (Option DnsPacket)
parsed (ok p) = ok (some p.0)
parsed (err looping) = err looping
parsed (err end_of_buffer) = ok none
parsed (err label_too_long) = ok none
parsed (err no_a_record) = ok none
parsed panic = panic

unfoldable pub packet_of : (List ℕ → List ℕ) → ℕ → List ℕ → Outcome Fail (Option DnsPacket)
packet_of lower fuel message = parsed (from_buffer lower fuel (record { buf = message; pos = 0 }))

abbrev pub lift : {A : Type 0} → Outcome ⊥ A → Outcome Fail A
lift (ok a) = ok a
lift (err e) = absurd e
lift panic = panic

abbrev pub saves : Option DnsPacket → List DnsEffect
saves none = []
saves (some p) = save_ipset p ∷ []

module _ (io : ByteIo) where
  open io use {read_with, write_with}

  -- Length, command, port and IPv4 address, each with its width.
  abbrev pub query_head : ℕ → ℕ → ℕ → List (ℕ × ℕ)
  query_head total port ip = (2, total % 65536) ∷ (1, cmd_code req_data) ∷ (2, port) ∷ (4, ip) ∷ []

  unfoldable pub query_frame : List ℕ → SocketAddr → Outcome ⊥ (List ℕ)
  query_frame message addr = do
    let total = 9 + length message
    (b, off) ← writes write_with (query_head total addr.port (ip_of addr.ip)) (replicate total 0) 0
    copy_behind 9 b message

  module _ (alive : ℕ → Bool) where
    abbrev pub sends : ℕ → List ℕ → List DnsEffect
    sends tx buf = if alive tx then of_tunnel (sent tx (new_wmessage buf 0)) ∷ [] else []

    unfoldable pub on_dns_udp_msg : DnsTunnel → List ℕ → SocketAddr → Outcome ⊥ (List DnsEffect)
    on_dns_udp_msg t message addr = do buf ← query_frame message addr; ok (sends t.tx buf)

    pinged : DnsTunnel → Outcome ⊥ DnsTunnel
    pinged t =
        let t' : DnsTunnel = record t { ping_count = (t.ping_count + 1) % 256 } in
        if ltb 0 t.ping_count then append_rtt t' (t.ping_count * keep_alive_interval) else ok t'

    -- `false` asks the caller to close the socket.
    unfoldable pub send_ping : DnsTunnel → ℕ → Outcome ⊥ (DnsTunnel × List DnsEffect × Bool)
    unfolding pinged
    send_ping t now = if ltb 5 t.ping_count then ok (t, [], false) else (do
      buf ← ping_frame io now
      t' ← if alive t.tx then pinged t else ok t
      ok (t', sends t.tx buf, true))

    unfoldable pub reply_ping : DnsTunnel → RMessage → Outcome ⊥ (DnsTunnel × List DnsEffect)
    reply_ping t msg = do
      vec ←
          behind 2 msg.buf
            λ bs. do (bs', off) ← writes write_with ((1, cmd_code pong) ∷ []) bs 0; ok bs'
      ok (t, sends t.tx vec)

    timed : DnsTunnel → List ℕ → ℕ → Outcome ⊥ DnsTunnel
    timed t bs now = do
      timestamp ← unwrap (read_with 8 bs 0)
      ensure (leb timestamp now)
      append_rtt (record t { ping_count = 0 }) (now - timestamp)

    unfoldable pub on_pong : DnsTunnel → List ℕ → ℕ → Outcome ⊥ DnsTunnel
    unfolding timed
    on_pong t bs now = if length bs == 8 then timed t bs now else ok t

    module _ (lower : List ℕ → List ℕ) (fuel : ℕ) (now : ℕ) where
      -- The answer goes to the channel of the DNS socket, which must be live.
      handed : List ℕ → List ℕ → ℕ → Outcome Fail (List DnsEffect)
      handed (port ∷ ip32 ∷ []) bs tx = do
        content ← lift (slice_from 6 bs)
        p ← packet_of lower fuel content
        lift (ensure (alive tx))
        ok (
            saves p
            ++ (datagram tx content (record { ip = v4 (octets_of ip32); port = port }) ∷ []))
      handed _ bs tx = panic

      unfoldable pub on_data : List ℕ → Option ℕ → Outcome Fail (List DnsEffect)
      unfolding handed
      on_data bs none = ok []
      on_data bs (some tx) =
          if ltb (length bs) 6
          then ok []
          else (do (head, off) ← lift (reads read_with (2 ∷ 4 ∷ []) bs 0); handed head bs tx)

      -- `bs` is the message behind its command.
      unfoldable pub on_cmd :
          Cmd → DnsTunnel → RMessage → List ℕ → Outcome Fail (DnsTunnel × List DnsEffect)
      on_cmd ping t msg bs = lift (reply_ping t msg)
      on_cmd pong t msg bs = lift (do t' ← on_pong t bs now; ok (t', []))
      on_cmd req_data t msg bs = do effects ← on_data bs t.udp_tx; ok (t, effects)
      on_cmd _ t msg bs = ok (t, [])

      unfoldable pub on_tunnel_msg :
          DnsTunnel → RMessage → Outcome Fail (DnsTunnel × List DnsEffect)
      on_tunnel_msg t msg = do
        bs ← lift (slice_from 2 msg.buf)
        code ← lift (unwrap (read_with 1 bs 0))
        bs' ← lift (slice_from 1 bs)
        cmd ← lift (cmd_from code)
        on_cmd cmd t msg bs'
