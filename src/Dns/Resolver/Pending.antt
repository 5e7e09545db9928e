-- ===== src/Dns/Resolver/Pending.antt =====
-- Who asked: a reply finds the address of its query while at most one keep-alive passes, whatever
-- else is asked and answered, and not after two.
use lproxy_cv.Prelude.{
  ℕ, suc, ◌≤◌, ◌<◌, ◌≡◌, ◌≢◌, ◌⊎◌, refl, ap, ◌∙◌, subst, inl, inr, Bool, true, false, Bool-cases,
  Option-cases, Option, none, some, List, [], ◌∷◌, arith, if◌then◌else◌, same, same→≡, same_refl,
}
use lproxy_cv.Prelude.Maps
use lproxy_cv.Prelude.Maps.{IsEq, same-IsEq}
use lproxy_cv.Prelude.Outcome.{ok}
use lproxy_cv.Tunnels.Tunnel.{SocketAddr}
use lproxy_cv.Dns.Resolver.{
  Memo, LocalResolver, Datagram, set_tx, start, try_rebuild, invalid_tx, key_of, take_found, take,
  drained, keepalive, rebuilt, asked, request,
}
use lproxy_cv.Dns.Resolver.Keys.{key_of-injective}

-- The addresses that are kept for a query, the older first.
abbrev pub older : LocalResolver → List ℕ → ℕ → Option SocketAddr
older r q i = Maps.get same r.request_memo_history (key_of q i)

abbrev pub newer : LocalResolver → List ℕ → ℕ → Option SocketAddr
newer r q i = Maps.get same r.request_memo (key_of q i)

get-drained : (k : List ℕ) (l : Memo) → Maps.get same (drained l) k ≡ Maps.get same l k
unfolding drained Maps.get
get-drained k [] = refl
get-drained k ((k', v) ∷ l) =
    Maps.get-insert same same-IsEq k' k v (drained l)
    ∙ ap (λ x. if same k' k then some v else x) (get-drained k l)

pub keepalive_lem :
    (r : LocalResolver) (q : List ℕ) (i : ℕ)
    → (older (keepalive r) q i ≡ newer r q i) × (newer (keepalive r) q i ≡ none)
unfolding keepalive Maps.get
keepalive_lem r q i = (get-drained (key_of q i) r.request_memo, refl)

taken_none :
    (r : LocalResolver) (q : List ℕ) (i : ℕ)
    → older r q i ≡ none
    → newer r q i ≡ none
    → (take r q i).1 ≡ none
unfolding take take_found
taken_none r q i e f = rw e f

-- After two keep-alives without a request in between, the reply to any query finds no address.
pub take-keepalive_twice :
    (r : LocalResolver) (q : List ℕ) (i : ℕ) → (take (keepalive (keepalive r)) q i).1 ≡ none
take-keepalive_twice r q i =
    let (a, b) = keepalive_lem (keepalive r) q i in
    let (c, d) = keepalive_lem r q i in taken_none (keepalive (keepalive r)) q i (a ∙ d) b

-- A query of another name or another identity.
abbrev pub Other : List ℕ → ℕ → List ℕ → ℕ → Type 0
Other q i q' i' = (i' < 65536) × ((q' ≢ q) ⊎ (i' ≢ i))

Other-key :
    (q q' : List ℕ) (i i' : ℕ)
    → i < 65536
    → Other q i q' i'
    → same (key_of q' i') (key_of q i) ≡ false
Other-key q q' i i' h (l, o) = elim (Bool-cases (same (key_of q' i') (key_of q i))) [
  | inr n ↦ n
  | inl y ↦
      let (a, b) = key_of-injective q' q i' i l h (same→≡ (key_of q' i') (key_of q i) y) in
      elim o [ inl d ↦ absurd (d a) | inr d ↦ absurd (d b) ]
]

-- What is kept for a query is kept by a reply to another.
take-Other :
    (r : LocalResolver) (q q' : List ℕ) (i i' : ℕ)
    → i < 65536
    → Other q i q' i'
    → (older (take r q' i').0 q i ≡ older r q i) × (newer (take r q' i').0 q i ≡ newer r q i)
unfolding take take_found
take-Other r q q' i i' h o =
    let n = Other-key q q' i i' h o in
    elim (Option-cases (Maps.get same r.request_memo_history (key_of q' i'))) [
      | inl e ↦
          rw e
            (refl, Maps.get-remove same same-IsEq (key_of q' i') (key_of q i) r.request_memo ∙ rw n)
      | inr (a, e) ↦ rw e (
        Maps.get-remove same same-IsEq (key_of q' i') (key_of q i) r.request_memo_history ∙ rw n,
        refl,
      )
    ]

rebuilt_lem :
    (r : LocalResolver) (opened : Option (ℕ × ℕ)) (tx fw : Option ℕ)
    → r.fw ≡ fw
    → (p : LocalResolver × Bool) × (rebuilt r opened tx fw ≡ ok p)
      × (p.0.request_memo ≡ r.request_memo)
      × (p.0.request_memo_history ≡ r.request_memo_history)
unfolding rebuilt try_rebuild start set_tx
rebuilt_lem r opened (some tx) fw e = ((r, true), refl, refl, refl)
rebuilt_lem r opened none none e = ((r, false), refl, refl, refl)
rebuilt_lem r none none (some rf) e = ((record r { fw = none }, false), rw e, refl, refl)
rebuilt_lem r (some (tx, trigger)) none (some rf) e =
    ((set_tx (record r { fw = some rf }) tx trigger, true), rw e, refl, refl)

module _ (alive : ℕ → Bool) where
  -- A request returns; it keeps the history, and the newer address of its own query at most.
  pub request_lem :
      (r : LocalResolver) (opened : Option (ℕ × ℕ)) (q : List ℕ) (i : ℕ) (bm : List ℕ)
      (src : SocketAddr)
      → (p : LocalResolver × List Datagram) × (request alive r opened q i bm src ≡ ok p)
        × (p.0.request_memo_history ≡ r.request_memo_history)
        × ((p.0.request_memo ≡ r.request_memo)
            ⊎ (p.0.request_memo ≡ Maps.insert same (key_of q i) src r.request_memo))
  unfolding request asked
  request_lem r opened q i bm src =
      let ((r', go_on), e, memo, history) = rebuilt_lem r opened r.tx r.fw refl in
      elim (Bool-cases go_on) [
        | inr n ↦ ((r', []), rw (e, n), history, inl memo)
        | inl y ↦
            let (p, f, h, m) = sending r' r'.tx in (p, rw (e, y) (ap ok f), h ∙ history, m memo)
      ]
    where
      sending :
          (r' : LocalResolver) (tx : Option ℕ)
          → (p : LocalResolver × List Datagram) × (asked alive r' (key_of q i) bm src tx ≡ p)
            × (p.0.request_memo_history ≡ r'.request_memo_history)
            × (r'.request_memo ≡ r.request_memo
                → (p.0.request_memo ≡ r.request_memo)
                  ⊎ (p.0.request_memo ≡ Maps.insert same (key_of q i) src r.request_memo))
      sending r' none = ((r', []), refl, refl, λ m. inl m)
      sending r' (some tx) = (
        asked alive r' (key_of q i) bm src (some tx),
        refl,
        refl,
        λ m. inr (ap (Maps.insert same (key_of q i) src) m),
      )

  -- What may happen between a request and its reply, with the number of keep-alives: requests and
  -- replies for other queries, and the loss of the socket.
  pub data Traffic (q : List ℕ) (i : ℕ) : ℕ → LocalResolver → LocalResolver → Type 0 where
    stop : {r : LocalResolver} → Traffic q i 0 r r
    ask :
        {n : ℕ} {r r1 r' : LocalResolver} (opened : Option (ℕ × ℕ)) (q' : List ℕ) (i' : ℕ)
        (bm : List ℕ) (src : SocketAddr) (sent : List Datagram)
        → Other q i q' i'
        → request alive r opened q' i' bm src ≡ ok (r1, sent)
        → Traffic q i n r1 r'
        → Traffic q i n r r'
    reply :
        {n : ℕ} {r r' : LocalResolver} (q' : List ℕ) (i' : ℕ)
        → Other q i q' i'
        → Traffic q i n (take r q' i').0 r'
        → Traffic q i n r r'
    lose : {n : ℕ} {r r' : LocalResolver} → Traffic q i n (invalid_tx r) r' → Traffic q i n r r'
    beat :
        {n : ℕ} {r r' : LocalResolver} → Traffic q i n (keepalive r) r' → Traffic q i (suc n) r r'

  module _ (q : List ℕ) (i : ℕ) (h : i < 65536) (src : SocketAddr) where
    -- The address is kept for `n` more keep-alives.
    Waits : ℕ → LocalResolver → Type 0
    Waits n r =
        ((older r q i ≡ none) × (newer r q i ≡ some src)) ⊎ ((n ≡ 0) × (older r q i ≡ some src))

    Waits-same :
        (n : ℕ) (r r' : LocalResolver)
        → older r' q i ≡ older r q i
        → newer r' q i ≡ newer r q i
        → Waits n r
        → Waits n r'
    unfolding Waits
    Waits-same n r r' e f (inl (a, b)) = inl (e ∙ a, f ∙ b)
    Waits-same n r r' e f (inr (a, b)) = inr (a, e ∙ b)

    request-Other :
        (r r1 : LocalResolver) (opened : Option (ℕ × ℕ)) (q' : List ℕ) (i' : ℕ) (bm : List ℕ)
        (a : SocketAddr) (sent : List Datagram)
        → Other q i q' i'
        → request alive r opened q' i' bm a ≡ ok (r1, sent)
        → (older r1 q i ≡ older r q i) × (newer r1 q i ≡ newer r q i)
    request-Other r r1 opened q' i' bm a sent o e =
        let (p, f, history, memo) = request_lem r opened q' i' bm a in
        let ends : p ≡ (r1, sent) = cc in
        subst (λ x. (older x q i ≡ older r q i) × (newer x q i ≡ newer r q i)) (ap (λ x. x.0) ends)
          (
            ap (λ m. Maps.get same m (key_of q i)) history,
            elim memo [
              | inl m ↦ ap (λ l. Maps.get same l (key_of q i)) m
              | inr m ↦
                  ap (λ l. Maps.get same l (key_of q i)) m
                  ∙ Maps.get-insert same same-IsEq (key_of q' i') (key_of q i) a r.request_memo
                  ∙ ap (λ b. if b then some a else newer r q i) (Other-key q q' i i' h o)
            ],
          )

    request_live :
        (tx : ℕ) (r r1 : LocalResolver) (opened : Option (ℕ × ℕ)) (bm : List ℕ)
        (sent : List Datagram)
        → r.tx ≡ some tx
        → request alive r opened q i bm src ≡ ok (r1, sent)
        → (older r1 q i ≡ older r q i) × (newer r1 q i ≡ some src)
    unfolding request rebuilt asked
    request_live tx r r1 opened bm sent live e =
        let asks : request alive r opened q i bm src
            ≡ ok (asked alive r (key_of q i) bm src (some tx)) =
          simp live in
        let ends : asked alive r (key_of q i) bm src (some tx) ≡ (r1, sent) = cc in
        subst (λ x. (older x q i ≡ older r q i) × (newer x q i ≡ some src)) (ap (λ x. x.0) ends)
          (
            refl,
            Maps.get-insert same same-IsEq (key_of q i) (key_of q i) src r.request_memo
                ∙ ap (λ b. if b then some src else newer r q i) (same_refl (key_of q i)),
          )

    taken : (r : LocalResolver) → Waits 0 r → (take r q i).1 ≡ some src
    unfolding Waits take take_found
    taken r (inl (a, b)) = rw a b
    taken r (inr (a, b)) = rw b

    traffic-Waits :
        (n : ℕ) (r r' : LocalResolver) → n ≤ 1 → Waits n r → Traffic q i n r r' → Waits 0 r'
    unfolding Waits invalid_tx
    traffic-Waits n r r' l w stop = w
    traffic-Waits n r r' l w (ask {r1 = r1} opened q' i' bm a sent o e t) =
        let (x, y) = request-Other r r1 opened q' i' bm a sent o e in
        traffic-Waits n r1 r' l (Waits-same n r r1 x y w) t
    traffic-Waits n r r' l w (reply q' i' o t) =
        let (x, y) = take-Other r q q' i i' h o in
        traffic-Waits n (take r q' i').0 r' l (Waits-same n r (take r q' i').0 x y w) t
    traffic-Waits n r r' l w (lose t) =
        traffic-Waits n (invalid_tx r) r' l (Waits-same n r (invalid_tx r) refl refl w) t
    traffic-Waits _ r r' l w (beat {n = n} t) =
        let (x, y) = keepalive_lem r q i in
        elim w [
          | inr (z, a) ↦ absurd (omega arith)
          | inl (a, b) ↦ traffic-Waits n (keepalive r) r' (omega arith) (inr (omega arith, x ∙ b)) t
        ]

    -- A query of a resolver with a channel, for which the history keeps no address: after any
    -- requests and replies for other queries, losses of the socket, and at most one keep-alive, the
    -- reply finds the address that asked.
    pub reply_finds_asker :
        (n tx : ℕ) (r r1 r2 : LocalResolver) (opened : Option (ℕ × ℕ)) (bm : List ℕ)
        (sent : List Datagram)
        → r.tx ≡ some tx
        → older r q i ≡ none
        → request alive r opened q i bm src ≡ ok (r1, sent)
        → Traffic q i n r1 r2
        → n ≤ 1
        → (take r2 q i).1 ≡ some src
    unfolding Waits
    reply_finds_asker n tx r r1 r2 opened bm sent live e f t l =
        let (a, b) = request_live tx r r1 opened bm sent live f in
        taken r2 (traffic-Waits n r1 r2 l (inl (a ∙ e, b)) t)
