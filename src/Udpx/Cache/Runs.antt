-- ===== src/Udpx/Cache/Runs.antt =====
-- The caches that a run of the methods leads to.
use lproxy_cv.Prelude.{ℕ, ◌≡◌, ap, subst, Bool, Option, List}
use lproxy_cv.Prelude.Outcome.{ok}
use lproxy_cv.Tunnels.Tunnel.{SocketAddr}
use lproxy_cv.Udpx.Cache.{
  DelayQueue, UdpEffect, Cache, new, cleanup, remove, poll_purge, keepalive_ended,
  on_udp_proxy_south,
}
use lproxy_cv.Udpx.Cache.Timed.{CacheInv}
use lproxy_cv.Udpx.Cache.Methods.{
  new-CacheInv, cleanup-CacheInv, poll_purge-CacheInv, ended-CacheInv, remove-CacheInv,
  on_udp_proxy_south-CacheInv,
}

module _ (D : DelayQueue) (alive : ℕ → Bool) where
  -- What happens to a cache: a datagram from the peer, the end of a socket's task, the purge of
  -- expired elements and its end, the stop of the manager.
  pub data CacheStep : Cache D → Cache D → Type 0 where
    south :
        {c c' : Cache D} (opened : Option (ℕ × ℕ × ℕ)) (msg : List ℕ)
        (src_addr dst_addr : SocketAddr) (effects : List UdpEffect)
        → on_udp_proxy_south D alive c opened msg src_addr dst_addr ≡ ok (c', effects)
        → CacheStep c c'
    ended : {c c' : Cache D} (src_addr : SocketAddr) → remove D c src_addr ≡ ok c' → CacheStep c c'
    purge : {c : Cache D} (rounds : ℕ) → CacheStep c (poll_purge D rounds c).0
    clean : {c : Cache D} → CacheStep c (cleanup D c).0
    rest : {c : Cache D} → CacheStep c (keepalive_ended D c)

  pub data Run : Cache D → Cache D → Type 0 where
    stop : {c : Cache D} → Run c c
    next : {c c1 c2 : Cache D} → CacheStep c c1 → Run c1 c2 → Run c c2

  CacheStep-CacheInv : (c c' : Cache D) → CacheStep c c' → CacheInv D c → CacheInv D c'
  CacheStep-CacheInv c c' (south opened msg src_addr dst_addr effects e) v =
      let (c1, sent, f, w, d) =
        on_udp_proxy_south-CacheInv D alive c opened msg src_addr dst_addr v in
      let ends : ◌≡◌ {A = Cache D × List UdpEffect} (c1, sent) (c', effects) = cc (e, f) in
      subst (CacheInv D) (ap (λ p. p.0) ends) w
  CacheStep-CacheInv c c' (ended src_addr e) v =
      let (c1, f, w) = remove-CacheInv D c src_addr v in
      let ends : c1 ≡ c' = cc (e, f) in subst (CacheInv D) ends w
  CacheStep-CacheInv c _ (purge rounds) v = poll_purge-CacheInv D rounds c v
  CacheStep-CacheInv c _ clean v = cleanup-CacheInv D c
  CacheStep-CacheInv c _ rest v = ended-CacheInv D c v

  Run-CacheInv : (c c' : Cache D) → Run c c' → CacheInv D c → CacheInv D c'
  Run-CacheInv c c' stop v = v
  Run-CacheInv c c' (next {c1 = c1} s r) v = Run-CacheInv c1 c' r (CacheStep-CacheInv c c1 s v)

  -- In every cache that a run of steps from the new one leads to, the entries and the elements of
  -- the delay queue belong to each other.
  pub reachable-CacheInv : (c : Cache D) → Run (new D) c → CacheInv D c
  reachable-CacheInv c r = Run-CacheInv (new D) c r (new-CacheInv D)
