-- ===== src/Witnesses/Forwarder.antt =====
-- The theorems on the DNS proxy at a query for `g.cn` of identity 258.
use lproxy_cv.Prelude.{
  ℕ, ◌+◌, ◌≡◌, refl, ◌⊎◌, true, false, Option, none, some, List, [], ◌∷◌, ◌++◌, arith, length, map,
  All, same,
}
use lproxy_cv.Prelude.Maps
use lproxy_cv.Prelude.Outcome.{panic, ok}
use lproxy_cv.Wire.{little, encode}
use lproxy_cv.Tunnels.Frames.{v4}
use lproxy_cv.Tunnels.Tunnel.{SocketAddr}
use lproxy_cv.Dns.Header.{new_header, a, read_header, header_of, from_num, qtype_from}
use lproxy_cv.Dns.Names.{read_qname, scan, round}
use lproxy_cv.Dns.Packet.{DnsQuestion, DnsPacket, from_buffer, read_many, read_question}
use lproxy_cv.Dns.Domap.{has_domain}
use lproxy_cv.Dns.Domap
use lproxy_cv.Dns.Domap.Covers.{any_covers, counts, named, related, meets}
use lproxy_cv.Dns.Resolver.{
  LocalResolver, datagram, key_of, keepalive, invalid_tx, request, rebuilt, asked,
}
use lproxy_cv.Dns.Resolver.Pending.{older, Traffic, stop, lose, beat}
use lproxy_cv.Dns.Tunnel.{
  DnsTunnel, DnsEffect, ordinal, ip_of, query_head, query_frame, sends, saves, packet_of,
  on_tunnel_msg,
}
use lproxy_cv.Dns.Tunnel
use lproxy_cv.Dns.Tunnel.Queries.{on_tunnel_msg-query_frame}
use lproxy_cv.Dns.Forwarder.{
  Forwarder, FwEffect, of_dns, of_resolver, answer, update_domains, i64_max, alloc_tunnel_for_req,
  on_dns_udp_msg, on_resolver_udp_msg,
}
use lproxy_cv.Dns.Forwarder.Fastest.{Measured, AtLeast, IsFastest, alloc_tunnel_for_req-IsFastest}
use lproxy_cv.Dns.Forwarder.Bare.{short, bare_panics}
use lproxy_cv.Dns.Forwarder.Routing.{names_of, covered_goes_through, local_reply_reaches_asker}
use lproxy_cv.Dns.Buffer.{read_u16, read, get, get_range}
use lproxy_cv.Witnesses.{alive}
use lproxy_cv.Witnesses.Dns.{lower, name}

abbrev query : List ℕ
query =
    1 ∷ 2 ∷ 1 ∷ 0 ∷ 0 ∷ 1 ∷ 0 ∷ 0 ∷ 0 ∷ 0 ∷ 0 ∷ 0 ∷ 1 ∷ 103 ∷ 2 ∷ 99 ∷ 110 ∷ 0 ∷ 0 ∷ 1 ∷ 0 ∷ 1 ∷ []

abbrev question : DnsQuestion
question = record { name = name; qtype = a }

abbrev packet : DnsPacket
packet = record {
  header = record new_header { id = 258; recursion_desired = true; questions = 1 };
  questions = question ∷ [];
  answers = [];
  authorities = [];
  resources = [];
}

query_parses : packet_of lower 10 query ≡ ok (some packet)
unfolding packet_of from_buffer read_header read_u16 read read_many header_of read_question
    read_qname scan round get get_range from_num qtype_from
query_parses = refl

-- No question, and the header of an answer.
abbrev empty : List ℕ
empty = 1 ∷ 2 ∷ 0 ∷ 0 ∷ 0 ∷ 0 ∷ 0 ∷ 0 ∷ 0 ∷ 0 ∷ 0 ∷ 0 ∷ []

abbrev empty_packet : DnsPacket
empty_packet = record {
  header = record new_header { id = 258 };
  questions = [];
  answers = [];
  authorities = [];
  resources = [];
}

empty_parses : packet_of lower 10 empty ≡ ok (some empty_packet)
unfolding packet_of from_buffer read_header read_u16 read read_many header_of from_num
empty_parses = refl

abbrev client : SocketAddr
client = record { ip = v4 (192 ∷ 168 ∷ 1 ∷ 2 ∷ []); port = 5353 }

abbrev resolver : LocalResolver
resolver = record {
  tx = some 5;
  trigger = some 1;
  request_memo_history = [];
  request_memo = [];
  dns_server_addr = record { ip = v4 (192 ∷ 168 ∷ 1 ∷ 1 ∷ []); port = 53 };
  fw = some 0;
}

abbrev waiting : LocalResolver
waiting = record resolver { request_memo = (key_of name 258, client) ∷ [] }

abbrev later : LocalResolver
later = invalid_tx (keepalive waiting)

one_beat : Traffic alive name 258 1 waiting later
one_beat = beat (lose stop)

requested :
    request alive resolver none name 258 query client
    ≡ ok (waiting, datagram 5 query resolver.dns_server_addr ∷ [])
unfolding request rebuilt asked Maps.remove
requested = refl

no_older : older resolver name 258 ≡ none
unfolding Maps.get
no_older = refl

abbrev tunnel : DnsTunnel
tunnel = record {
  tx = 3;
  index = 1;
  rtt_queue = 10 ∷ 10 ∷ 10 ∷ 0 ∷ 0 ∷ [];
  rtt_index = 3;
  rtt_sum = 30;
  ping_count = 0;
  udp_tx = some 6;
  rawfd = 4;
}

abbrev forwarder : Forwarder
forwarder = record {
  relay_domain = [];
  relay_port = 443;
  dns_tun_url = [];
  dns_server = [];
  tunnels = none ∷ some tunnel ∷ [];
  reconnect_queue = 0 ∷ [];
  capacity = 2;
  server = record { tx = some 6; trigger = some 2 };
  discarded = false;
  keepalive_trigger = some 3;
  domap = Domap.new;
  lresolver = resolver;
  token = [];
  work_as_global = false;
}

measured : All Measured forwarder.tunnels
measured = (tt, (omega arith, tt))

alloc_tunnel_for_req-IsFastest_example :
    (r : Option DnsTunnel) × (alloc_tunnel_for_req forwarder ≡ ok r)
    × (((r ≡ none) × All (AtLeast (ordinal i64_max)) forwarder.tunnels)
        ⊎ IsFastest forwarder.tunnels (ordinal i64_max) r)
alloc_tunnel_for_req-IsFastest_example = alloc_tunnel_for_req-IsFastest forwarder measured

abbrev no_range : List ℕ → Option (List ℕ × ℕ)
no_range text = none

covered : any_covers (names_of no_range (name ∷ [])) name ≡ true
unfolding counts Domap.split_dot named related meets same
covered = refl

covered_goes_through_example :
    let fw' = (update_domains no_range forwarder (name ∷ [])).0 in
    (effects : List FwEffect) × (on_dns_udp_msg alive little lower 10 fw' none query client
      ≡ ok (fw', effects, true))
    × ((All (AtLeast (ordinal i64_max)) forwarder.tunnels × (effects ≡ []))
        ⊎ ((t : DnsTunnel) × IsFastest forwarder.tunnels (ordinal i64_max) (some t)
            × (effects
                ≡ map of_dns (
                    sends little alive t.tx (
                      encode (query_head little (9 + length query) client.port (ip_of client.ip))
                      ++ query)))))
covered_goes_through_example =
    covered_goes_through alive little lower 10 no_range forwarder (name ∷ []) none query client
      packet question [] refl measured query_parses refl covered

on_tunnel_msg-query_frame_example :
    (buf : List ℕ) × (query_frame little query client ≡ ok buf)
    × (on_tunnel_msg little alive lower 10 1000 tunnel
          (record { buf = buf; cached_length = 31; error = none })
        ≡ ok (tunnel, saves (some packet) ++ (Tunnel.datagram 6 query client ∷ [])))
on_tunnel_msg-query_frame_example =
    on_tunnel_msg-query_frame little alive lower 10 1000 tunnel query 192 168 1 2 5353 6 31
      (some packet) (omega arith) (omega arith) (omega arith) (omega arith) (omega arith) refl refl
      query_parses

abbrev asked_locally : Forwarder
asked_locally = record forwarder { lresolver = waiting }

abbrev answering : Forwarder
answering = record forwarder { lresolver = later }

not_held : has_domain Domap.new name ≡ false
unfolding has_domain Domap.split_dot Domap.has Domap.get
not_held = refl

asks :
    on_dns_udp_msg alive little lower 10 forwarder none query client
    ≡ ok (asked_locally, of_resolver (datagram 5 query resolver.dns_server_addr) ∷ [], true)
unfolding on_dns_udp_msg
asks = rw (query_parses, not_held, requested)

local_reply_reaches_asker_example :
    (fw3 : Forwarder) × (on_resolver_udp_msg alive little lower 10 answering query
      ≡ ok (fw3, answer 6 query client ∷ [], true))
local_reply_reaches_asker_example =
    local_reply_reaches_asker alive little lower 10 forwarder asked_locally answering 1 5 6 none
      query query client packet packet question question [] []
      (of_resolver (datagram 5 query resolver.dns_server_addr) ∷ []) true refl not_held refl
      no_older query_parses refl (omega arith) asks one_beat (omega arith) refl refl refl
      query_parses refl refl refl

bare_panics_example : on_resolver_udp_msg alive little lower 10 forwarder (1 ∷ 2 ∷ []) ≡ panic
bare_panics_example =
    bare_panics alive little lower 10 forwarder (1 ∷ 2 ∷ []) refl (short (1 ∷ 2 ∷ []) (omega arith))
