-- ===== src/Dns/Forwarder/Routing.antt =====
-- Which way a query goes, and that the answer of the local resolver comes back to who asked.
use lproxy_cv.Prelude.{
  ℕ, ◌+◌, ◌≤◌, ◌<◌, ◌≡◌, refl, ap, ◌∙◌, subst, ◌⊎◌, inl, inr, Bool, true, false, Option-cases,
  Option, none, some, List, [], ◌∷◌, ◌++◌, ◌||◌, map, length, All,
}
use lproxy_cv.Prelude.Outcome.{ok}
use lproxy_cv.Wire.{ByteIo, encode}
use lproxy_cv.Tunnels.Tunnel.{SocketAddr}
use lproxy_cv.Dns.Packet.{DnsPacket, DnsQuestion}
use lproxy_cv.Dns.Domap.{SubDomain, has_domain, insert_domain}
use lproxy_cv.Dns.Domap
use lproxy_cv.Dns.Domap.Covers.{insert_all, any_covers, has_domain_lem}
use lproxy_cv.Dns.Resolver.{LocalResolver, Datagram}
use lproxy_cv.Dns.Resolver
use lproxy_cv.Dns.Resolver.Pending.{older, Traffic, request_lem, reply_finds_asker}
use lproxy_cv.Dns.Tunnel.{
  DnsTunnel, DnsEffect, of_tunnel, ordinal, ip_of, query_head, packet_of, lift, sends,
}
use lproxy_cv.Dns.Tunnel
use lproxy_cv.Dns.Tunnel.Queries.{query_frame_lem}
use lproxy_cv.Dns.Forwarder.{
  Forwarder, FwEffect, of_dns, of_resolver, answer, ranged, domap_from, new_domap, update_domains,
  i64_max, alloc_tunnel_for_req, reply, reply_on, through, routed, answered, asked_by,
  on_dns_udp_msg, resolved, on_resolver_udp_msg,
}
use lproxy_cv.Dns.Forwarder.Fastest.{Measured, AtLeast, IsFastest, alloc_tunnel_for_req-IsFastest}

-- The entries that are no ranges of addresses.
abbrev pub names_of : (List ℕ → Option (List ℕ × ℕ)) → List (List ℕ) → List (List ℕ)
names_of parse [] = []
names_of parse (d ∷ ds) = kept d (parse d) (names_of parse ds)
  where
    kept : List ℕ → Option (List ℕ × ℕ) → List (List ℕ) → List (List ℕ)
    kept d none rest = d ∷ rest
    kept d (some r) rest = rest

domap_from_lem :
    (parse : List ℕ → Option (List ℕ × ℕ)) (root : SubDomain) (ds : List (List ℕ))
    → (domap_from parse root ds).0 ≡ insert_all root (names_of parse ds)
unfolding domap_from ranged
domap_from_lem parse root [] = refl
domap_from_lem parse root (d ∷ ds) = elim (Option-cases (parse d)) [
  | inl e ↦ rw e (domap_from_lem parse (insert_domain root d) ds)
  | inr (r, e) ↦ rw e (domap_from_lem parse root ds)
]

updated_domap :
    (parse : List ℕ → Option (List ℕ × ℕ)) (fw : Forwarder) (ds : List (List ℕ)) (name : List ℕ)
    → has_domain (update_domains parse fw ds).0.domap name ≡ any_covers (names_of parse ds) name
unfolding update_domains new_domap
updated_domap parse fw ds name =
    ap (λ root. has_domain root name) (domap_from_lem parse Domap.new ds)
    ∙ has_domain_lem (names_of parse ds) name

or_true : (a b : Bool) → b ≡ true → (a || b) ≡ true
or_true true b e = refl
or_true false b e = e

module _ (alive : ℕ → Bool) (io : ByteIo) (lower : List ℕ → List ℕ) (fuel : ℕ) where
  through_lem :
      (fw : Forwarder) (message : List ℕ) (src_addr : SocketAddr)
      → All Measured fw.tunnels
      → (r : Option DnsTunnel) × (effects : List FwEffect) × (alloc_tunnel_for_req fw ≡ ok r)
        × (through alive io message src_addr r ≡ ok effects)
        × ((All (AtLeast (ordinal i64_max)) fw.tunnels × (effects ≡ []))
            ⊎ ((t : DnsTunnel) × IsFastest fw.tunnels (ordinal i64_max) (some t)
                × (effects
                    ≡ map of_dns (
                        sends io alive t.tx (
                          encode
                            (query_head io (9 + length message) src_addr.port (ip_of src_addr.ip))
                          ++ message)))))
  unfolding through Tunnel.on_dns_udp_msg
  through_lem fw message src_addr h =
      let (r, e, s) = alloc_tunnel_for_req-IsFastest fw h in
      elim s [
        | inl (n, all) ↦ (none, [], e ∙ ap ok n, refl, inl (all, refl))
        | inr f ↦
            let g : IsFastest fw.tunnels (ordinal i64_max) (some f.tun) =
              subst (IsFastest fw.tunnels (ordinal i64_max)) f.result f in
            (
              some f.tun,
              _,
              e ∙ ap ok f.result,
              rw (query_frame_lem io message src_addr) refl,
              inr (f.tun, g, refl),
            )
      ]

  tunnelled :
      (fw : Forwarder) (opened : Option (ℕ × ℕ)) (message : List ℕ) (src_addr : SocketAddr)
      (p : DnsPacket) (q : DnsQuestion) (qs : List DnsQuestion)
      → fw.discarded ≡ false
      → All Measured fw.tunnels
      → packet_of lower fuel message ≡ ok (some p)
      → p.questions ≡ q ∷ qs
      → (fw.work_as_global || has_domain fw.domap q.name) ≡ true
      → (effects : List FwEffect) × (on_dns_udp_msg alive io lower fuel fw opened message src_addr
          ≡ ok (fw, effects, true))
        × ((All (AtLeast (ordinal i64_max)) fw.tunnels × (effects ≡ []))
            ⊎ ((t : DnsTunnel) × IsFastest fw.tunnels (ordinal i64_max) (some t)
                × (effects
                    ≡ map of_dns (
                        sends io alive t.tx (
                          encode
                            (query_head io (9 + length message) src_addr.port (ip_of src_addr.ip))
                          ++ message)))))
  unfolding on_dns_udp_msg asked_by routed
  tunnelled fw opened message src_addr p q qs live h e f c =
      let (r, effects, a, g, s) = through_lem fw message src_addr h in
      (effects, simp (live, e, f, c, a, g), s)

  -- In a forwarder that is not stopped, whose tunnels have a window, and whose domains were set to
  -- a list, a query for a name that one of the list covers, entries for address ranges apart, goes
  -- to the first tunnel of the least mean round-trip time, if there is one below the greatest i64,
  -- as the message of `on_dns_udp_msg`; it is not given to the local resolver and no state changes.
  pub covered_goes_through :
      (parse : List ℕ → Option (List ℕ × ℕ)) (fw : Forwarder) (ds : List (List ℕ))
      (opened : Option (ℕ × ℕ)) (message : List ℕ) (src_addr : SocketAddr) (p : DnsPacket)
      (q : DnsQuestion) (qs : List DnsQuestion)
      → fw.discarded ≡ false
      → All Measured fw.tunnels
      → packet_of lower fuel message ≡ ok (some p)
      → p.questions ≡ q ∷ qs
      → any_covers (names_of parse ds) q.name ≡ true
      → let fw' = (update_domains parse fw ds).0 in
        (effects : List FwEffect) × (on_dns_udp_msg alive io lower fuel fw' opened message src_addr
          ≡ ok (fw', effects, true))
        × ((All (AtLeast (ordinal i64_max)) fw.tunnels × (effects ≡ []))
            ⊎ ((t : DnsTunnel) × IsFastest fw.tunnels (ordinal i64_max) (some t)
                × (effects
                    ≡ map of_dns (
                        sends io alive t.tx (
                          encode
                            (query_head io (9 + length message) src_addr.port (ip_of src_addr.ip))
                          ++ message)))))
  unfolding update_domains
  covered_goes_through parse fw ds opened message src_addr p q qs live h e f c =
      tunnelled (update_domains parse fw ds).0 opened message src_addr p q qs live h e f (
        or_true fw.work_as_global (has_domain (update_domains parse fw ds).0.domap q.name)
          (updated_domap parse fw ds q.name ∙ c))

  -- A query that the local resolver gets.
  asks_locally :
      (fw fw1 : Forwarder) (opened : Option (ℕ × ℕ)) (message : List ℕ) (src_addr : SocketAddr)
      (p : DnsPacket) (q : DnsQuestion) (qs : List DnsQuestion) (effects : List FwEffect)
      (go_on : Bool)
      → fw.discarded ≡ false
      → (fw.work_as_global || has_domain fw.domap q.name) ≡ false
      → packet_of lower fuel message ≡ ok (some p)
      → p.questions ≡ q ∷ qs
      → on_dns_udp_msg alive io lower fuel fw opened message src_addr ≡ ok (fw1, effects, go_on)
      → (asked : List Datagram) × (Resolver.request alive fw.lresolver opened q.name p.header.id
            message src_addr
          ≡ ok (fw1.lresolver, asked))
  unfolding on_dns_udp_msg asked_by routed
  asks_locally fw fw1 opened message src_addr p q qs effects go_on live other e f asks =
      let ((r, asked), g, history, memo) =
        request_lem alive fw.lresolver opened q.name p.header.id message src_addr in
      let runs : on_dns_udp_msg alive io lower fuel fw opened message src_addr
          ≡ ok (record fw { lresolver = r }, map of_resolver asked, true) =
        simp (live, e, f, other, g) in
      let ends : (record fw { lresolver = r }) ≡ fw1 = cc in
      (asked, g ∙ ap (λ x. ok (x, asked)) (ap (λ x. x.lresolver) ends))

  -- A query of a forwarder that is not stopped and not global, for a name that its domains do not
  -- hold, while the local resolver has a channel and its history no address for the query: after
  -- any requests and replies of the resolver for other queries, losses of its socket and at most
  -- one keep-alive, a reply of the same identity whose first question has the same name is asked, on
  -- the live channel of the DNS socket, to the address that asked.
  pub local_reply_reaches_asker :
      (fw fw1 fw2 : Forwarder) (n tx utx : ℕ) (opened : Option (ℕ × ℕ))
      (query answer_bytes : List ℕ) (src_addr : SocketAddr) (p p' : DnsPacket) (q q' : DnsQuestion)
      (qs qs' : List DnsQuestion) (effects : List FwEffect) (go_on : Bool)
      → fw.discarded ≡ false
      → (fw.work_as_global || has_domain fw.domap q.name) ≡ false
      → fw.lresolver.tx ≡ some tx
      → older fw.lresolver q.name p.header.id ≡ none
      → packet_of lower fuel query ≡ ok (some p)
      → p.questions ≡ q ∷ qs
      → p.header.id < 65536
      → on_dns_udp_msg alive io lower fuel fw opened query src_addr ≡ ok (fw1, effects, go_on)
      → Traffic alive q.name p.header.id n fw1.lresolver fw2.lresolver
      → n ≤ 1
      → fw2.discarded ≡ false
      → fw2.server.tx ≡ some utx
      → alive utx ≡ true
      → packet_of lower fuel answer_bytes ≡ ok (some p')
      → p'.questions ≡ q' ∷ qs'
      → q'.name ≡ q.name
      → p'.header.id ≡ p.header.id
      → (fw3 : Forwarder) × (on_resolver_udp_msg alive io lower fuel fw2 answer_bytes
          ≡ ok (fw3, answer utx answer_bytes src_addr ∷ [], true))
  unfolding on_resolver_udp_msg resolved answered reply reply_on
  local_reply_reaches_asker fw fw1 fw2 n tx utx opened query answer_bytes src_addr p p' q q' qs qs'
        effects go_on live other chan old e f small asks t l live2 sock ulive e' f' same_name
        same_id =
      let (asked, g) =
        asks_locally fw fw1 opened query src_addr p q qs effects go_on live other e f asks in
      let finds : (Resolver.take fw2.lresolver q.name p.header.id).1 ≡ some src_addr =
        reply_finds_asker alive q.name p.header.id small src_addr n tx fw.lresolver fw1.lresolver
          fw2.lresolver opened query asked chan old g t l in
      let r = (Resolver.take fw2.lresolver q.name p.header.id).0 in
      let took : Resolver.take fw2.lresolver q'.name p'.header.id ≡ (r, some src_addr) =
        ap (λ x. Resolver.take fw2.lresolver x p'.header.id) same_name
        ∙ ap (Resolver.take fw2.lresolver q.name) same_id
        ∙ ap (λ a. (r, a)) finds in
      (record fw2 { lresolver = r }, simp (live2, e', f', took, sock, ulive))
