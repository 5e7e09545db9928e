-- ===== src/Dns/Forwarder.antt =====
-- src/dns/forwarder.rs and src/dns/udpserv.rs: `Forwarder`, which takes the queries of the local
-- network, sends those for the domains of the proxy through a tunnel and the others to the local
-- resolver, and hands the answers back. Channels and triggers are numbers. The sockets' set-up, and
-- the parse of an address and of a number by the standard library, are arguments.
pub mod Routing
pub mod Bare
pub mod Fastest
use lproxy_cv.Prelude.{
  ℕ, ◌+◌, ◌%◌, Bool, true, false, ◌&&◌, ◌||◌, not, Option, none, some, List, [], ◌∷◌, ◌++◌, map,
  ltb, leb, ◌==◌, if◌then◌else◌, length, get_elem?, set, replicate,
}
use lproxy_cv.Prelude.Outcome.{Outcome, ok, err, panic, unwrap, ◌>>=◌}
use lproxy_cv.Config.Tuncfg.{TunCfg}
use lproxy_cv.Wire.{ByteIo}
use lproxy_cv.Tunnels.Reqq.{u16}
use lproxy_cv.Tunnels.Frames.{IpAddr, v4, v6}
use lproxy_cv.Tunnels.Tunnel.{SocketAddr}
use lproxy_cv.Manager.Mgr.{upto}
use lproxy_cv.Dns.Buffer.{Fail}
use lproxy_cv.Dns.Packet.{DnsPacket, DnsQuestion, DnsRecord, a_record, aaaa_record}
use lproxy_cv.Dns.Domap.{SubDomain, insert_domain, has_domain}
use lproxy_cv.Dns.Domap
use lproxy_cv.Dns.Resolver.{LocalResolver, Datagram}
use lproxy_cv.Dns.Resolver
use lproxy_cv.Dns.Tunnel.{
  DnsTunnel, DnsEffect, connect, packet_of, lift, ordinal, get_rtt, send_ping, close_rawfd,
}
use lproxy_cv.Dns.Tunnel

-- The channel and the trigger of the DNS socket.
pub record UdpServer : Type 0 where
  pub tx : Option ℕ
  pub trigger : Option ℕ

pub record Forwarder : Type 0 where
  pub relay_domain : List ℕ
  pub relay_port : ℕ
  pub dns_tun_url : List ℕ
  pub dns_server : List ℕ
  pub tunnels : List (Option DnsTunnel)
  pub reconnect_queue : List ℕ
  pub capacity : ℕ
  pub server : UdpServer
  pub discarded : Bool
  pub keepalive_trigger : Option ℕ
  pub domap : SubDomain
  pub lresolver : LocalResolver
  pub token : List ℕ
  pub work_as_global : Bool

-- What is done outside: by a tunnel, by the resolver, an answer to a client, an address or a range
-- put into the kernel's sets (the first with the set's version), the addresses of domains reported.
pub data FwEffect : Type 0 where
  of_dns : DnsEffect → FwEffect
  of_resolver : Datagram → FwEffect
  answer : ℕ → List ℕ → SocketAddr → FwEffect
  add_iphash : Bool → List ℕ → FwEffect
  add_nethash : List ℕ → ℕ → FwEffect
  dns_add : List (IpAddr × List ℕ) → FwEffect

-- By the first octet.
abbrev pub is_usable : List ℕ → Bool
is_usable [] = false
is_usable (a ∷ rest) = not (a == 127) && not (leb 224 a && leb a 239)

-- `::1`, and a first segment of ff00 and above.
abbrev pub is_usable6 : List ℕ → Bool
is_usable6 [] = false
is_usable6 (a ∷ rest) = not (is_one a rest) && not (leb 65280 a)
  where
    is_one : ℕ → List ℕ → Bool
    is_one a (b ∷ c ∷ d ∷ e ∷ f ∷ g ∷ h ∷ []) =
        (a == 0) && (b == 0) && (c == 0) && (d == 0) && (e == 0) && (f == 0) && (g == 0) && (h == 1)
    is_one a _ = false

ranged : SubDomain → List ℕ → Option (List ℕ × ℕ) → SubDomain × List FwEffect
ranged domap it none = (insert_domain domap it, [])
ranged domap it (some (ipv4, mask)) = (
  domap,
  if is_usable ipv4
      then (if ltb mask 32 then add_nethash ipv4 mask else add_iphash false ipv4) ∷ []
      else [],
)

module _ (ipv4range_parse : List ℕ → Option (List ℕ × ℕ)) where
  domap_from : SubDomain → List (List ℕ) → SubDomain × List FwEffect
  unfolding ranged
  domap_from domap [] = (domap, [])
  domap_from domap (it ∷ domains) =
      let (domap', effects) = ranged domap it (ipv4range_parse it) in
      let (domap'', more) = domap_from domap' domains in (domap'', effects ++ more)

  unfoldable pub new_domap : List (List ℕ) → SubDomain × List FwEffect
  unfolding domap_from
  new_domap domain_array = domap_from Domap.new domain_array

  -- The address of the local resolver's server is what `parse` gives.
  unfoldable pub new : TunCfg → SocketAddr → List (List ℕ) → Forwarder × List FwEffect
  new cfg dns_server_address domain_array =
      let (domap, effects) = new_domap domain_array in
      (
        record {
          relay_domain = cfg.relay_domain;
          relay_port = cfg.relay_port;
          dns_tun_url = cfg.tunnel_url;
          dns_server = cfg.default_dns_server;
          tunnels = replicate cfg.dns_tunnel_number none;
          reconnect_queue = [];
          capacity = cfg.dns_tunnel_number;
          server = record { tx = none; trigger = none };
          discarded = false;
          keepalive_trigger = none;
          domap = domap;
          lresolver = Resolver.new dns_server_address;
          token = cfg.token;
          work_as_global = cfg.work_as_global;
        },
        effects,
      )

  unfoldable pub update_domains : Forwarder → List (List ℕ) → Forwarder × List FwEffect
  update_domains fw domain_array =
      let (domap, effects) = new_domap domain_array in (record fw { domap = domap }, effects)

-- Connections for the indices, if the DNS socket has a channel.
connects : Option ℕ → List ℕ → List FwEffect
connects none l = []
connects (some tx) l = map (λ i. of_dns (connect i)) l

unfoldable pub on_dns_udp_created : Forwarder → List FwEffect
unfolding connects
on_dns_udp_created fw = connects fw.server.tx (upto fw.capacity 0)

-- Once the entry was read; a tunnel that is there already is a panic, and `false` is `Err`.
place : Forwarder → DnsTunnel → Option DnsTunnel → Outcome ⊥ (Forwarder × Bool)
place fw tun (some t) = panic
place fw tun none = ok (record fw { tunnels = set fw.tunnels tun.index (some tun) }, true)

unfoldable pub on_tunnel_created : Forwarder → DnsTunnel → Outcome ⊥ (Forwarder × Bool)
unfolding place
on_tunnel_created fw tun =
    if fw.discarded
    then ok (fw, false)
    else (do t ← unwrap (get_elem? fw.tunnels tun.index); place fw tun t)

taken : Forwarder → ℕ → Option DnsTunnel → Forwarder
taken fw index none = fw
taken fw index (some t) = record fw {
  tunnels = set fw.tunnels index none;
  reconnect_queue = u16 index ∷ fw.reconnect_queue;
}

unfoldable pub on_tunnel_closed : Forwarder → ℕ → Outcome ⊥ Forwarder
unfolding taken
on_tunnel_closed fw index = do t ← unwrap (get_elem? fw.tunnels index); ok (taken fw index t)

unfoldable pub on_tunnel_build_error : Forwarder → ℕ → Forwarder
on_tunnel_build_error fw index =
    if fw.discarded then fw else record fw { reconnect_queue = u16 index ∷ fw.reconnect_queue }

unfoldable pub on_lresolver_udp_closed : Forwarder → Forwarder
on_lresolver_udp_closed fw = record fw { lresolver = Resolver.invalid_tx fw.lresolver }

unfoldable pub save_address : DnsRecord → List FwEffect
save_address (a_record domain addr ttl) = if is_usable addr then add_iphash false addr ∷ [] else []
save_address (aaaa_record domain addr ttl) =
    if is_usable6 addr then add_iphash true addr ∷ [] else []
save_address _ = []

unfoldable pub addresses : List DnsRecord → List (IpAddr × List ℕ)
addresses [] = []
addresses (a_record domain addr ttl ∷ l) = (v4 addr, domain) ∷ addresses l
addresses (aaaa_record domain addr ttl ∷ l) = (v6 addr, domain) ∷ addresses l
addresses (_ ∷ l) = addresses l

saved_addresses : List DnsRecord → List FwEffect
saved_addresses [] = []
saved_addresses (a ∷ l) = save_address a ++ saved_addresses l

unfoldable pub save_ipset : Forwarder → DnsPacket → List FwEffect
unfolding saved_addresses
save_ipset fw p =
    (if fw.work_as_global then [] else saved_addresses p.answers)
    ++ (dns_add (addresses p.answers) ∷ [])

-- The loop over the tunnels, with the one selected so far and its rtt.
fastest_after : List (Option DnsTunnel) → ℕ → Option DnsTunnel → Outcome ⊥ (Option DnsTunnel)
fastest_after [] rtt tselected = ok tselected
fastest_after (none ∷ ts) rtt tselected = fastest_after ts rtt tselected
fastest_after (some t ∷ ts) rtt tselected = do
  rtt_tun ← get_rtt t
  let selected = ltb (ordinal rtt_tun) (ordinal rtt)
  fastest_after ts (if selected then rtt_tun else rtt) (if selected then some t else tselected)

-- `i64::MAX`
abbrev pub i64_max : ℕ
i64_max = 9223372036854775807

unfoldable pub alloc_tunnel_for_req : Forwarder → Outcome ⊥ (Option DnsTunnel)
unfolding fastest_after
alloc_tunnel_for_req fw = fastest_after fw.tunnels i64_max none

-- The whole queue, from its back, if the DNS socket has a channel.
unfoldable pub process_reconnect : Forwarder → Option ℕ → Forwarder × List FwEffect
unfolding connects
process_reconnect fw none = (fw, [])
process_reconnect fw (some tx) =
    (record fw { reconnect_queue = [] }, connects (some tx) fw.reconnect_queue)

closes : List (Option DnsTunnel) → List FwEffect
closes [] = []
closes (none ∷ ts) = closes ts
closes (some t ∷ ts) = map of_dns (close_rawfd t) ++ closes ts

unfoldable pub stop : Forwarder → Forwarder × List FwEffect
unfolding closes
stop fw = if fw.discarded then (fw, []) else (
  record fw {
    discarded = true;
    keepalive_trigger = none;
    server = record { tx = none; trigger = none };
    lresolver = Resolver.stop fw.lresolver;
  },
  closes fw.tunnels,
)

module _ (alive : ℕ → Bool) (io : ByteIo) where
  -- A tunnel after its ping, which closes its socket where the ping is refused.
  ping_one : (ℕ → ℕ) → Option DnsTunnel → Outcome ⊥ (Option DnsTunnel × List DnsEffect)
  ping_one now none = ok (none, [])
  ping_one now (some t) = do
    (t', effects, go_on) ← send_ping io alive t (now t.index)
    ok (some t', effects ++ (if go_on then [] else close_rawfd t'))

  unfoldable pub send_pings :
      (ℕ → ℕ) → List (Option DnsTunnel) → Outcome ⊥ (List (Option DnsTunnel) × List DnsEffect)
  unfolding ping_one
  send_pings now [] = ok ([], [])
  send_pings now (t ∷ ts) = do
    (t', effects) ← ping_one now t
    (ts', more) ← send_pings now ts
    ok (t' ∷ ts', effects ++ more)

  -- `now` is the time since the start of the tunnel at an index.
  unfoldable pub keepalive : Forwarder → (ℕ → ℕ) → Outcome ⊥ (Forwarder × List FwEffect)
  keepalive fw now = if fw.discarded then ok (fw, []) else (do
    (tunnels, pings) ← send_pings now fw.tunnels
    let fw1 = record fw { lresolver = Resolver.keepalive fw.lresolver; tunnels = tunnels }
    let fw2 = process_reconnect fw1 fw1.server.tx
    ok (fw2.0, map of_dns pings ++ fw2.1))

  reply_on : Option ℕ → List ℕ → SocketAddr → List FwEffect
  reply_on none bm sa = []
  reply_on (some tx) bm sa = if alive tx then answer tx bm sa ∷ [] else []

  -- `UdpServer.reply`
  unfoldable pub reply : UdpServer → List ℕ → SocketAddr → List FwEffect
  unfolding reply_on
  reply s bm sa = reply_on s.tx bm sa

  through : List ℕ → SocketAddr → Option DnsTunnel → Outcome ⊥ (List FwEffect)
  through message src_addr none = ok []
  through message src_addr (some tun) = do
    effects ← Tunnel.on_dns_udp_msg io alive tun message src_addr
    ok (map of_dns effects)

  -- By the first question; `opened` is what a socket's set-up gives, if the resolver needs one.
  routed :
      Forwarder
      → Option (ℕ × ℕ)
      → List ℕ
      → SocketAddr
      → ℕ
      → List DnsQuestion
      → Outcome ⊥ (Forwarder × List FwEffect)
  unfolding through
  routed fw opened message src_addr id [] = ok (fw, [])
  routed fw opened message src_addr id (q ∷ questions) =
      if fw.work_as_global || has_domain fw.domap q.name
      then (do
        tun ← alloc_tunnel_for_req fw
        effects ← through message src_addr tun
        ok (fw, effects))
      else (do
        (r, sent) ← Resolver.request alive fw.lresolver opened q.name id message src_addr
        ok (record fw { lresolver = r }, map of_resolver sent))

  -- The answer goes to the address that asked.
  answered : Forwarder → List ℕ → LocalResolver × Option SocketAddr → Forwarder × List FwEffect
  answered fw message (r, none) = (record fw { lresolver = r }, [])
  answered fw message (r, some sa) = (record fw { lresolver = r }, reply fw.server message sa)

  module _ (lower : List ℕ → List ℕ) (fuel : ℕ) where
    asked_by :
        Forwarder
        → Option (ℕ × ℕ)
        → List ℕ
        → SocketAddr
        → Option DnsPacket
        → Outcome Fail (Forwarder × List FwEffect × Bool)
    unfolding routed
    asked_by fw opened message src_addr none = ok (fw, [], true)
    asked_by fw opened message src_addr (some p) = do
      (fw', effects) ← lift (routed fw opened message src_addr p.header.id p.questions)
      ok (fw', effects, true)

    -- `false` ends the loop of the caller.
    unfoldable pub on_dns_udp_msg :
        Forwarder
        → Option (ℕ × ℕ)
        → List ℕ
        → SocketAddr
        → Outcome Fail (Forwarder × List FwEffect × Bool)
    unfolding asked_by
    on_dns_udp_msg fw opened message src_addr =
        if fw.discarded
        then ok (fw, [], false)
        else (do p ← packet_of lower fuel message; asked_by fw opened message src_addr p)

    resolved :
        Forwarder → List ℕ → Option DnsPacket → Outcome Fail (Forwarder × List FwEffect × Bool)
    unfolding answered
    resolved fw message none = ok (fw, [], true)
    resolved fw message (some p) = do
      q ← lift (unwrap (get_elem? p.questions 0))
      let (fw', effects) = answered fw message (Resolver.take fw.lresolver q.name p.header.id)
      ok (fw', effects, true)

    unfoldable pub on_resolver_udp_msg :
        Forwarder → List ℕ → Outcome Fail (Forwarder × List FwEffect × Bool)
    unfolding resolved
    on_resolver_udp_msg fw message =
        if fw.discarded
        then ok (fw, [], false)
        else (do p ← packet_of lower fuel message; resolved fw message p)
