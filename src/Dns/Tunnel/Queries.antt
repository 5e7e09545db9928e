-- ===== src/Dns/Tunnel/Queries.antt =====
-- A DNS message through a tunnel keeps its bytes and its IPv4 address.
use lproxy_cv.Prelude.{
  ℕ, ◌+◌, ◌*◌, ◌/◌, ◌%◌, ◌^◌, ◌<◌, ◌≡◌, refl, ap, ◌∙◌, Bool, true, false, Option, none, some, List,
  [], ◌∷◌, ◌++◌, arith, le→ltb, ltb, length, replicate, length-replicate,
}
use lproxy_cv.Prelude.Outcome.{ok}
use lproxy_cv.Wire.{ByteIo, encode, writes, reads, slice_from, le_bytes}
use lproxy_cv.Wire.Laws.{writes_lem, reads_lem, le_read_at, slice_from-append}
use lproxy_cv.Tunnels.Header.{req_data, cmd_code}
use lproxy_cv.Tunnels.Header.Laws.{cmd_from-cmd_code}
use lproxy_cv.Tunnels.Frames.{v4}
use lproxy_cv.Tunnels.Tunnel.{SocketAddr}
use lproxy_cv.Tunnels.Udp.RoundTrip.{replicate-add, copy_behind_lem}
use lproxy_cv.Dns.Packet.{DnsPacket, octets_of}
use lproxy_cv.Dns.Tunnel.{
  DnsTunnel, datagram, u32_of, ip_of, packet_of, saves, query_head, query_frame, handed, on_data,
  on_cmd, on_tunnel_msg,
}

octets_of-u32_of :
    (a b c d : ℕ)
    → a < 256
    → b < 256
    → c < 256
    → d < 256
    → octets_of (u32_of (a ∷ b ∷ c ∷ d ∷ [])) ≡ a ∷ b ∷ c ∷ d ∷ []
octets_of-u32_of a b c d ha hb hc hd =
    let n = a * 16777216 + b * 65536 + c * 256 + d in
    let e1 : n / 16777216 % 256 ≡ a = omega arith in
    let e2 : n / 65536 % 256 ≡ b = omega arith in
    let e3 : n / 256 % 256 ≡ c = omega arith in
    let e4 : n % 256 ≡ d = omega arith in rw (e1, e2, e3, e4)

module _ (io : ByteIo) where
  -- The message of a query: the length, the command, the address, and the query.
  pub query_frame_lem :
      (message : List ℕ) (addr : SocketAddr)
      → query_frame io message addr
        ≡ ok (encode (query_head io (9 + length message) addr.port (ip_of addr.ip)) ++ message)
  unfolding query_frame
  query_frame_lem message addr =
      let total = 9 + length message in
      let h = query_head io total addr.port (ip_of addr.ip) in
      let rm = replicate {A = ℕ} (length message) 0 in
      let e : writes io.write_with h (replicate total 0) 0 ≡ ok (encode h ++ rm, 9) =
        ap (λ z. writes io.write_with h z 0) (replicate-add 9 (length message))
        ∙ writes_lem io h [] (replicate 9 0) rm refl in
      rw e (copy_behind_lem (encode h) rm message 9 refl (length-replicate (length message) 0))

  module _ (alive : ℕ → Bool) (lower : List ℕ → List ℕ) (fuel now : ℕ) where
    on_data_lem :
        (port ip tx : ℕ) (content : List ℕ) (p : Option DnsPacket)
        → port < 65536
        → ip < 256 ^ 4
        → alive tx ≡ true
        → packet_of lower fuel content ≡ ok p
        → on_data io alive lower fuel now (encode ((2, port) ∷ (4, ip) ∷ []) ++ content) (some tx)
          ≡ ok (
              saves p
              ++ (datagram tx content (record { ip = v4 (octets_of ip); port = port }) ∷ []))
    unfolding on_data handed
    on_data_lem port ip tx content p hp hi live e =
        let bs = encode ((2, port) ∷ (4, ip) ∷ []) ++ content in
        let long : ltb (length bs) 6 ≡ false = le→ltb (length bs) 6 (omega arith) in
        let head : reads io.read_with (2 ∷ 4 ∷ []) bs 0 ≡ ok (port ∷ ip ∷ [], 6) =
          reads_lem io ((2, port) ∷ (4, ip) ∷ []) [] content (hp, (hi, tt)) in
        let rest : slice_from 6 bs ≡ ok content =
          slice_from-append (encode ((2, port) ∷ (4, ip) ∷ [])) content 6 refl in
        rw (long, head, rest, e, live)

    -- A message from an IPv4 address is packed by `on_dns_udp_msg`. If the parse of its bytes neither
    -- panics nor runs out of rounds, a tunnel with a live DNS socket that receives it back gives the
    -- packet, where there is one and no error, to `save_ipset`, and the same bytes for the same
    -- address to the socket. The tunnel does not change.
    pub on_tunnel_msg-query_frame :
        (t : DnsTunnel) (message : List ℕ) (a b c d port tx length_read : ℕ) (p : Option DnsPacket)
        → a < 256
        → b < 256
        → c < 256
        → d < 256
        → port < 65536
        → t.udp_tx ≡ some tx
        → alive tx ≡ true
        → packet_of lower fuel message ≡ ok p
        → let addr : SocketAddr = record { ip = v4 (a ∷ b ∷ c ∷ d ∷ []); port = port } in
          (buf : List ℕ) × (query_frame io message addr ≡ ok buf)
          × (on_tunnel_msg io alive lower fuel now t
                (record { buf = buf; cached_length = length_read; error = none })
              ≡ ok (t, saves p ++ (datagram tx message addr ∷ [])))
    unfolding on_tunnel_msg on_cmd cmd_code
    on_tunnel_msg-query_frame t message a b c d port tx length_read p ha hb hc hd hp sock live e =
        let addr : SocketAddr = record { ip = v4 (a ∷ b ∷ c ∷ d ∷ []); port = port } in
        let ip = u32_of (a ∷ b ∷ c ∷ d ∷ []) in
        let total = 9 + length message in
        let rest = encode ((2, port) ∷ (4, ip) ∷ []) ++ message in
        let code = cmd_code req_data % 256 in
        let read : io.read_with 1 (code ∷ rest) 0 ≡ some (cmd_code req_data) =
          io.read_with_lem 1 (code ∷ rest) 0 ∙ le_read_at [] (code ∷ []) rest 1 refl in
        (
          encode (query_head io total port ip) ++ message,
          query_frame_lem message addr,
          rw (
            slice_from-append (le_bytes 2 (total % 65536)) (code ∷ rest) 2 refl,
            read,
            slice_from-append (code ∷ []) rest 1 refl,
            cmd_from-cmd_code req_data,
            sock,
            on_data_lem port ip tx message p hp (omega arith) live e,
            octets_of-u32_of a b c d ha hb hc hd,
          ),
        )
