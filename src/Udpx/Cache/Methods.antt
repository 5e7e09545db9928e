-- ===== src/Udpx/Cache/Methods.antt =====
-- What the methods of the cache do with it, and the caches that they lead to.
use lproxy_cv.Prelude.{
  ℕ, zero, suc, ◌≡◌, refl, sym, ap, ◌∙◌, subst, ◌⊎◌, inl, inr, Bool, Option-cases, Option, none,
  some, List, [], ◌∷◌, ◌++◌, if◌then◌else◌,
}
use mathlib.Core.Option.{some-injective}
use lproxy_cv.Prelude.Maps
use lproxy_cv.Prelude.Outcome.{ok}
use lproxy_cv.Tunnels.Tunnel.{SocketAddr}
use lproxy_cv.Udpx.Cache.{
  same_addr, DelayQueue, UStub, Entry, UdpEffect, task_keepalive, ttl_secs, new_stub, Cache, new,
  insert, got, get, cleanup, removed, remove, purge_one, poll_purge, keepalive_ended, to_stub,
  build_ustub, found_or_built, on_udp_proxy_south,
}
use lproxy_cv.Udpx.Cache.Timed.{
  same_addr-IsEq, Timed-move, Owned, CacheInv, queued_entry, insert-CacheInv, taken-CacheInv,
}

module _ (D : DelayQueue) where
  open D use {Queue, queued}

  pub new-CacheInv : CacheInv D (new D)
  unfolding new Maps.get
  new-CacheInv = record {
    timed = λ a. tt;
    owned = λ k. subst (Owned D [] k) (sym (D.queued-empty k)) tt;
  }

  reset-CacheInv :
      (c : Cache D) (k : ℕ)
      → CacheInv D c
      → CacheInv D (record c { expirations = D.reset c.expirations k ttl_secs })
  reset-CacheInv c k v =
      let q = D.reset c.expirations k ttl_secs in
      record {
        timed = λ a.
            Timed-move D c.expirations q a (Maps.get same_addr c.entries a)
              (λ key e. D.queued-reset c.expirations k ttl_secs key ∙ e) (v.timed a);
        owned = λ key.
            subst (Owned D c.entries key) (sym (D.queued-reset c.expirations k ttl_secs key))
              (v.owned key);
      }

  -- A look-up in a cache with the invariant.
  get-CacheInv :
      (c : Cache D) (a : SocketAddr)
      → CacheInv D c
      → (c' : Cache D) × (r : Option UStub) × (get D c a ≡ ok (c', r))
        × CacheInv D c'
        × (c'.entries ≡ c.entries)
        × (c'.is_in_keepalive ≡ c.is_in_keepalive)
        × (((r ≡ none) × (Maps.get same_addr c.entries a ≡ none))
            ⊎ ((e : Entry) × (r ≡ some e.stub) × (Maps.get same_addr c.entries a ≡ some e)))
  unfolding get got
  get-CacheInv c a v = elim (Option-cases (Maps.get same_addr c.entries a)) [
    | inl n ↦ (c, none, rw n, v, refl, refl, inl (refl, n))
    | inr (e, f) ↦ (
      record c { expirations = D.reset c.expirations e.delay ttl_secs },
      some e.stub,
      rw (f, queued_entry D c a e v f),
      reset-CacheInv c e.delay v,
      refl,
      refl,
      inr (e, refl, f),
    )
  ]

  -- The end of a socket's task, in a cache with the invariant.
  pub remove-CacheInv :
      (c : Cache D) (a : SocketAddr)
      → CacheInv D c
      → (c' : Cache D) × (remove D c a ≡ ok c') × CacheInv D c'
  unfolding remove removed
  remove-CacheInv c a v = elim (Option-cases (Maps.get same_addr c.entries a)) [
    | inl n ↦ (c, rw n, v)
    | inr (e, f) ↦ (
      record c {
        entries = Maps.remove same_addr a c.entries;
        expirations = D.remove c.expirations e.delay;
      },
      rw (f, queued_entry D c a e v f),
      taken-CacheInv D c a e.delay (D.remove c.expirations e.delay) e v f refl
          (D.queued-remove c.expirations e.delay),
    )
  ]

  insert_lem :
      (c : Cache D) (a : SocketAddr) (s : UStub)
      → (e : Entry) × (Maps.get same_addr (insert D c a s).0.entries a ≡ some e)
        × (e.stub ≡ s)
        × ((insert D c a s).1 ≡ (if c.is_in_keepalive then [] else task_keepalive ∷ []))
  unfolding insert
  insert_lem c a s =
      let new : Entry = record { stub = s; delay = (D.insert c.expirations a ttl_secs).1 } in
      (
        new,
        Maps.get-insert same_addr same_addr-IsEq a a new c.entries
            ∙ ap (λ b. if b then some new else Maps.get same_addr c.entries a)
                (same_addr-IsEq.reflexive a),
        refl,
        refl,
      )

  pub cleanup-CacheInv : (c : Cache D) → CacheInv D (cleanup D c).0
  unfolding cleanup Maps.get
  cleanup-CacheInv c = record {
    timed = λ a. tt;
    owned = λ k. subst (Owned D [] k) (sym (D.queued-clear c.expirations k)) tt;
  }

  pub poll_purge-CacheInv :
      (rounds : ℕ) (c : Cache D) → CacheInv D c → CacheInv D (poll_purge D rounds c).0
  unfolding poll_purge purge_one
  poll_purge-CacheInv zero c v = v
  poll_purge-CacheInv (suc rounds) c v = elim (D.expired c.expirations) [
    | inl n ↦ rw (poll_purge, n) v
    | inr (q, k, a, e, has, rest) ↦
        let (entry, f, d) = subst (Owned D c.entries k) has (v.owned k) in
        rw (poll_purge, e)
          (poll_purge-CacheInv rounds (purge_one D c q a).0
            (taken-CacheInv D c a k q entry v f d rest))
  ]

  pub ended-CacheInv : (c : Cache D) → CacheInv D c → CacheInv D (keepalive_ended D c)
  unfolding keepalive_ended
  ended-CacheInv c v = record { timed = v.timed; owned = v.owned }

  module _ (alive : ℕ → Bool) where
    -- A datagram goes to the channel of the entry of its source, or of the stub that is built for
    -- the source, if its socket can be made.
    abbrev pub Delivered :
        Cache D → Option (ℕ × ℕ × ℕ) → List ℕ → SocketAddr → SocketAddr → List UdpEffect → Type 0
    Delivered c opened msg src_addr dst_addr effects =
        ((e : Entry) × (Maps.get same_addr c.entries src_addr ≡ some e)
          × (effects ≡ to_stub D alive (some e.stub) msg dst_addr))
        ⊎ ((Maps.get same_addr c.entries src_addr ≡ none)
            × (((opened ≡ none) × (effects ≡ []))
                ⊎ ((s : UStub) × (new_stub src_addr opened ≡ some s)
                    × (effects
                        ≡ (if c.is_in_keepalive then [] else task_keepalive ∷ [])
                          ++ to_stub D alive (some s) msg dst_addr))))

    -- A look-up that has found nothing, and what is built then.
    missing :
        (c : Cache D) (opened : Option (ℕ × ℕ × ℕ)) (src_addr : SocketAddr)
        → CacheInv D c
        → Maps.get same_addr c.entries src_addr ≡ none
        → (c' : Cache D) × (r : Option UStub) × (started : List UdpEffect) × (found_or_built D alive
              c none src_addr opened
            ≡ ok (c', r, started))
          × CacheInv D c'
          × (((opened ≡ none) × (r ≡ none) × (started ≡ []))
              ⊎ ((s : UStub) × (new_stub src_addr opened ≡ some s)
                  × (r ≡ some s)
                  × (started ≡ (if c.is_in_keepalive then [] else task_keepalive ∷ []))))
    unfolding found_or_built build_ustub new_stub
    missing c none src_addr v n =
        let (c1, r, e, v1, kept, running, s) = get-CacheInv c src_addr v in
        (
          c1,
          r,
          [],
          rw e,
          v1,
          elim s [
            | inl (empty, m) ↦ inl (refl, empty, refl)
            | inr (x, y, f) ↦ absurd (nothing x f)
          ],
        )
      where
        nothing : (x : Entry) → Maps.get same_addr c.entries src_addr ≡ some x → ⊥
        nothing x f = cc (n, f)
    missing c (some (rawfd, tx, trigger)) src_addr v n =
        let s : UStub = record {
          rawfd = rawfd;
          tx = some tx;
          trigger = some trigger;
          src_addr = src_addr;
        } in
        let c1 = (insert D c src_addr s).0 in
        let (new, f, stub, starts) = insert_lem c src_addr s in
        let (c2, r, e, v2, kept, running, looked) =
          get-CacheInv c1 src_addr (insert-CacheInv D c src_addr s v n) in
        (
          c2,
          r,
          (insert D c src_addr s).1,
          rw e,
          v2,
          elim looked [
            | inl (empty, m) ↦ absurd (present new f m)
            | inr (x, y, g) ↦ inr (
              s,
              refl,
              y ∙ ap (λ (z : Entry). some z.stub) (some-injective x new (sym g ∙ f)) ∙ ap some stub,
              starts,
            )
          ],
        )
      where
        present :
            (x : Entry)
            → Maps.get same_addr
                (insert D c src_addr (record {
                  rawfd = rawfd;
                  tx = some tx;
                  trigger = some trigger;
                  src_addr = src_addr;
                })).0.entries
                src_addr
              ≡ some x
            → Maps.get same_addr
                (insert D c src_addr (record {
                  rawfd = rawfd;
                  tx = some tx;
                  trigger = some trigger;
                  src_addr = src_addr;
                })).0.entries
                src_addr
              ≡ none
            → ⊥
        present x f m = cc (f, m)

    -- In a cache with the invariant a datagram is handled without a panic and the invariant is kept.
    -- The datagram goes to the socket of its source address, if there is one; otherwise a socket
    -- is made, and the datagram goes to it, or, if it cannot be made, nowhere.
    pub on_udp_proxy_south-CacheInv :
        (c : Cache D) (opened : Option (ℕ × ℕ × ℕ)) (msg : List ℕ) (src_addr dst_addr : SocketAddr)
        → CacheInv D c
        → (c' : Cache D) × (effects : List UdpEffect) × (on_udp_proxy_south D alive c opened msg
              src_addr dst_addr
            ≡ ok (c', effects))
          × CacheInv D c'
          × Delivered c opened msg src_addr dst_addr effects
    unfolding on_udp_proxy_south found_or_built build_ustub new_stub to_stub
    on_udp_proxy_south-CacheInv c opened msg src_addr dst_addr v =
        let (c1, r, e, v1, kept, running, s) = get-CacheInv c src_addr v in
        elim s [
          | inr (x, y, f) ↦
              (c1, to_stub D alive (some x.stub) msg dst_addr, rw (e, y), v1, inl (x, f, refl))
          | inl (y, n) ↦
              let (c2, stub, started, g, v2, built) =
                missing c1 opened src_addr v1 (ap (λ l. Maps.get same_addr l src_addr) kept ∙ n) in
              (
                c2,
                started ++ to_stub D alive stub msg dst_addr,
                rw (e, y, g),
                v2,
                inr (
                  n,
                  elim built [
                    | inl (a, b, d) ↦ inl (a, rw (b, d))
                    | inr (u, a, b, d) ↦ inr (u, a, rw (b, d, running))
                  ],
                ),
              )
        ]
