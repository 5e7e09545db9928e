-- ===== src/Tunnels/Tunnel/Requests.antt =====
-- The requests of a tunnel: its count of them agrees with its slots, and a stub is good until the
-- request is closed once.
use lproxy_cv.Prelude.{
  ℕ, ◌+◌, ◌≤◌, ◌<◌, ◌≡◌, refl, sym, ap, subst, ◌∙◌, inl, inr, ◌≢◌, Bool, true, false, Option, none,
  some, List, [], ◌∷◌, arith, ◌==◌, ==_iff, length, get_elem?, set, length-set, get_elem?-lt,
}
use lproxy_cv.Prelude.Outcome.{ok}
use lproxy_cv.Wire.{ByteIo, encode}
use lproxy_cv.Tunnels.Header.{req_client_closed}
use lproxy_cv.Tunnels.Reqq.{Request, Reqq, u16, u16_max, clean_req, granted, free}
use lproxy_cv.Tunnels.Reqq.Invariant.{Inv, IsOutside, Alloc, alloc-Inv, free-Inv, new-Inv}
use lproxy_cv.Tunnels.Reqq.Stale.{free_match, free_mismatch, free_twice, Granted-slot}
use lproxy_cv.Tunnels.Reqq.Pigeonhole.{length-free-lt}
use lproxy_cv.Tunnels.Frames.Laws.{closed_frame_lem, head_fields}
use lproxy_cv.Tunnels.Tunnel.{
  Tunnel, TunStub, new, stub_of, tx_of, get_request_tx, on_request_created_internal,
  on_request_closed, closed_by, stub_header, sub_u16, send,
}

-- The slots are well formed and addressable by a u16 other than the failure's, and every slot is
-- either free or counted.
pub record TunInv (t : Tunnel) : Type 0 where
  pub table : Inv t.requests
  pub small : length t.requests.elements ≤ 65535
  pub counted : t.req_count + length t.requests.free ≡ length t.requests.elements

-- The slot that the stub names is in use under the stub's tag.
pub record Holds (t : Tunnel) (s : TunStub) : Type 0 where
  pub req : Request
  pub at : get_elem? t.requests.elements s.req_idx ≡ some req
  pub tagged : req.tag ≡ s.req_tag
  pub busy : IsOutside s.req_idx t.requests.free

-- A request is refused, with no change, or has a stub that holds a slot, counts one more, and its
-- sender is found by the stub.
abbrev pub Created : Tunnel → Request → Tunnel × Option TunStub → Type 0
Created t req (t', none) = (t.requests.free ≡ []) × (t' ≡ t)
Created t req (t', some s) =
    Holds t' s
    × (t'.req_count ≡ t.req_count + 1)
    × (get_request_tx t' s.req_idx s.req_tag ≡ req.request_tx)
    × (s.tunnel_tx ≡ t.tx)

stub_of-Created :
    (t : Tunnel) (req : Request) (p : Reqq × ℕ × ℕ)
    → TunInv t
    → Inv p.0
    → Alloc t.requests req p
    → TunInv (stub_of t p).0 × Created t req (stub_of t p)
unfolding stub_of get_request_tx
stub_of-Created t req (q, idx, tag) v w (inl (e, eq, ei, et)) = rw ((==_iff idx u16_max).1 ei) (
  record {
    table = w;
    small = omega (arith, v.small, ap (λ x. length x.elements) eq);
    counted = omega (arith, v.counted, ap (λ x. length x.elements) eq, ap (λ x. length x.free) eq);
  },
  (e, ap (λ x. record t { requests = x }) eq),
)
stub_of-Created t req (q, idx, tag) v w (inr g) =
    let at : idx ≡ g.slot = Granted-slot t.requests q req idx tag g v.small in
    let below : g.slot < length t.requests.elements =
      get_elem?-lt t.requests.elements g.slot g.req g.was_clean.0 in
    let other : (idx == u16_max) ≡ false = ground (arith, at, below, v.small) in
    let held : get_elem? q.elements idx ≡ some (granted g.req req) =
      subst (λ i. get_elem? q.elements i ≡ some (granted g.req req)) (sym at) g.holds in
    rw other (
      record {
        table = w;
        small = omega (arith, v.small, g.size);
        counted = omega (arith, v.small, v.counted, g.size, ap length g.was_free);
      },
      (
        record {
          req = granted g.req req;
          at = held;
          tagged = sym g.names.1;
          busy = subst (λ i. IsOutside i q.free) (sym at) g.taken;
        },
        omega (arith, v.small, v.counted, ap length g.was_free),
        rw (held, tx_of, (==_iff (u16 (g.req.tag + 1)) tag).1 (sym g.names.1)) refl,
        refl,
      ),
    )

-- In a tunnel with the invariant, to create a request does not panic and keeps the invariant; it is
-- refused, with no change, only where no slot is free, and otherwise the stub holds a slot, one
-- more request is counted, and the request's sender is found by the stub.
pub request_stub-TunInv :
    (t : Tunnel) (req : Request)
    → TunInv t
    → (p : Tunnel × Option TunStub) × (on_request_created_internal t req ≡ ok p)
      × TunInv p.0
      × Created t req p
unfolding on_request_created_internal
request_stub-TunInv t req v =
    let (r, e, w, a) = alloc-Inv t.requests req v.table in
    let (i, c) = stub_of-Created t req r v w a in (stub_of t r, rw e, i, c)

-- The slots after the request of `s` was closed.
abbrev pub closed_slot : Tunnel → TunStub → Request → Reqq
closed_slot t s r = record {
  elements = set t.requests.elements s.req_idx (clean_req r);
  free = s.req_idx ∷ t.requests.free;
}

abbrev pub closed_tunnel : Tunnel → TunStub → Request → Tunnel
closed_tunnel t s r = record t { requests = closed_slot t s r; req_count = sub_u16 t.req_count 1 }

pub freed :
    (t : Tunnel) (s : TunStub) (h : Holds t s)
    → free t.requests s.req_idx s.req_tag ≡ (closed_slot t s h.req, true)
freed t s h =
    free_match t.requests s.req_idx s.req_tag h.req h.at ((==_iff h.req.tag s.req_tag).1 h.tagged)

pub busy_counted : (t : Tunnel) (s : TunStub) → Holds t s → TunInv t → 1 ≤ t.req_count
busy_counted t s h v = omega (
  arith,
  v.counted,
  length-free-lt t.requests s.req_idx v.table
      (get_elem?-lt t.requests.elements s.req_idx h.req h.at) h.busy,
)

pub closed_tunnel-TunInv :
    (t : Tunnel) (s : TunStub) (h : Holds t s) → TunInv t → TunInv (closed_tunnel t s h.req)
closed_tunnel-TunInv t s h v = record {
  table =
      subst (λ p. Inv p.0) (freed t s h) (free-Inv t.requests s.req_idx s.req_tag v.table h.busy);
  small = omega (arith, v.small, length-set t.requests.elements s.req_idx (clean_req h.req));
  counted = omega (
    arith,
    v.small,
    v.counted,
    busy_counted t s h v,
    length-set t.requests.elements s.req_idx (clean_req h.req),
  );
}

module _ (alive : ℕ → Bool) (io : ByteIo) where
  abbrev pub closed_message : TunStub → List ℕ
  closed_message s = encode (head_fields 7 req_client_closed (stub_header s))

  pub on_request_closed_lem :
      (t : Tunnel) (s : TunStub) (h : Holds t s)
      → on_request_closed alive io t s
        ≡ ok (closed_tunnel t s h.req, send alive s.tunnel_tx (closed_message s))
  unfolding on_request_closed
  on_request_closed_lem t s h =
      ap (closed_by alive io t s) (freed t s h) ∙ rw (closed_frame_lem io (stub_header s))

  pub on_request_closed_again :
      (t : Tunnel) (s : TunStub) (h : Holds t s)
      → on_request_closed alive io (closed_tunnel t s h.req) s ≡ ok (closed_tunnel t s h.req, [])
  unfolding on_request_closed
  on_request_closed_again t s h =
      ap (closed_by alive io (closed_tunnel t s h.req) s)
        (free_twice t.requests (closed_slot t s h.req) s.req_idx s.req_tag (freed t s h))

  -- In a tunnel with the invariant, to close a request that the stub holds does not panic, keeps
  -- the invariant, counts one less and sends the close to the tunnel's channel, if that is live;
  -- closing it again changes and sends nothing.
  pub on_request_closed_once :
      (t : Tunnel) (s : TunStub)
      → TunInv t
      → Holds t s
      → (t' : Tunnel) × (on_request_closed alive io t s
          ≡ ok (t', send alive s.tunnel_tx (closed_message s)))
        × TunInv t'
        × (t'.req_count + 1 ≡ t.req_count)
        × (on_request_closed alive io t' s ≡ ok (t', []))
  on_request_closed_once t s v h = (
    closed_tunnel t s h.req,
    on_request_closed_lem t s h,
    closed_tunnel-TunInv t s h v,
    omega (arith, v.small, v.counted, busy_counted t s h v),
    on_request_closed_again t s h,
  )

  -- To close a request under a tag that its slot no longer has changes and sends nothing.
  pub on_request_closed_stale :
      (t : Tunnel) (s : TunStub) (r : Request)
      → get_elem? t.requests.elements s.req_idx ≡ some r
      → r.tag ≢ s.req_tag
      → on_request_closed alive io t s ≡ ok (t, [])
  unfolding on_request_closed
  on_request_closed_stale t s r e n =
      ap (closed_by alive io t s) (free_mismatch t.requests s.req_idx s.req_tag r e (ground arith))

pub new-TunInv : (tx rawfd idx cap quota : ℕ) → cap ≤ 65535 → TunInv (new tx rawfd idx cap quota)
unfolding new
new-TunInv tx rawfd idx cap quota h =
    let (v, made, listed) = new-Inv cap in
    record { table = v; small = omega (arith, made); counted = omega (arith, made, listed) }
