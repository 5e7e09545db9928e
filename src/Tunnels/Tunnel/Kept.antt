-- ===== src/Tunnels/Tunnel/Kept.antt =====
-- What stays of a tunnel while its requests come and go: its place, its capacity, its slots.
use lproxy_cv.Prelude.{
  ℕ, ◌+◌, ◌%◌, ◌^◌, ◌≤◌, All, Bool, ◌<◌, ◌≡◌, refl, sym, ap, ◌∙◌, subst, inl, inr, Bool-cases,
  Option, none, some, List, arith, length, length-set, ◌==◌,
}
use lproxy_cv.Prelude.Outcome.{ok}
use lproxy_cv.Tunnels.Reqq.{Request, Reqq, u16, u16_max, clean_req}
use lproxy_cv.Tunnels.Reqq.Invariant.{Alloc, alloc-Inv}
use lproxy_cv.Tunnels.Tunnel.{
  Tunnel, TunStub, stub_of, on_request_created_internal, on_request_created, announce, stub_header,
  send,
}
use lproxy_cv.Wire.{ByteIo}
use lproxy_cv.Tunnels.Frames.{IpAddr, created_frame}
use lproxy_cv.Tunnels.Frames.Laws.{created_frame_v4, created_frame_v6}
use lproxy_cv.Tunnels.Udp.RoundTrip.{IsIp, octets, segments}
use lproxy_cv.Tunnels.Tunnel.Rtt.{RttInv, sum}
use lproxy_cv.Tunnels.Tunnel.Requests.{TunInv, Holds, Created, request_stub-TunInv, closed_tunnel}

pub record Kept (t t' : Tunnel) : Type 0 where
  pub index : t'.index ≡ t.index
  pub capacity : t'.capacity ≡ t.capacity
  pub slots : length t'.requests.elements ≡ length t.requests.elements
  pub pings : t'.ping_count ≡ t.ping_count
  pub queue : t'.rtt_queue ≡ t.rtt_queue
  pub rtt_at : t'.rtt_index ≡ t.rtt_index
  pub rtt_total : t'.rtt_sum ≡ t.rtt_sum

-- The stub names the tunnel's place.
abbrev pub Placed : Tunnel → Option TunStub → Type 0
Placed t none = Unit {0}
Placed t (some s) = s.tun_idx ≡ u16 t.index

size_of_Alloc :
    (q : Reqq) (req : Request) (p : Reqq × ℕ × ℕ)
    → Alloc q req p
    → length p.0.elements ≡ length q.elements
size_of_Alloc q req p (inl a) = ap (λ x. length x.elements) a.1
size_of_Alloc q req p (inr g) = g.size

stub_of-Kept :
    (t : Tunnel) (p : Reqq × ℕ × ℕ)
    → length p.0.elements ≡ length t.requests.elements
    → Kept t (stub_of t p).0 × Placed t (stub_of t p).1
unfolding stub_of
stub_of-Kept t (q, idx, tag) h = elim (Bool-cases (idx == u16_max)) [
  | inl e ↦ rw e (
    record {
      index = refl;
      capacity = refl;
      slots = h;
      pings = refl;
      queue = refl;
      rtt_at = refl;
      rtt_total = refl;
    },
    tt,
  )
  | inr e ↦ rw e (
    record {
      index = refl;
      capacity = refl;
      slots = h;
      pings = refl;
      queue = refl;
      rtt_at = refl;
      rtt_total = refl;
    },
    refl,
  )
]

pub created-Kept :
    (t : Tunnel) (req : Request) (p : Tunnel × Option TunStub)
    → TunInv t
    → on_request_created_internal t req ≡ ok p
    → Kept t p.0 × Placed t p.1
unfolding on_request_created_internal
created-Kept t req p v h =
    let (r, e, w, a) = alloc-Inv t.requests req v.table in
    let same : stub_of t r ≡ p = cc (rw e at h) in
    subst (λ x. Kept t x.0 × Placed t x.1) same
      (stub_of-Kept t r (size_of_Alloc t.requests req r a))

pub closed_tunnel-Kept : (t : Tunnel) (s : TunStub) (r : Request) → Kept t (closed_tunnel t s r)
closed_tunnel-Kept t s r = record {
  index = refl;
  capacity = refl;
  slots = length-set t.requests.elements s.req_idx (clean_req r);
  pings = refl;
  queue = refl;
  rtt_at = refl;
  rtt_total = refl;
}

-- A tunnel of the table at `i`: its place, its requests, the window of its round-trip times, and
-- that it has a slot for each request of its capacity, and
-- that one more request can be counted.
pub record TunAt (i : ℕ) (t : Tunnel) : Type 0 where
  pub place : t.index ≡ i
  pub requests : TunInv t
  pub window : RttInv t
  pub pings : t.ping_count ≤ 6
  pub room : t.capacity ≤ length t.requests.elements
  pub below : t.req_count ≤ 65534

pub Kept-TunAt :
    (i : ℕ) (t t' : Tunnel) → TunAt i t → Kept t t' → TunInv t' → t'.req_count ≤ 65534 → TunAt i t'
Kept-TunAt i t t' v k w b = record {
  place = k.index ∙ v.place;
  requests = w;
  window = record {
    five = ap length k.queue ∙ v.window.five;
    at = omega (arith, k.rtt_at, v.window.at);
    entries = subst (All (λ r. r < 2 ^ 64)) (sym k.queue) v.window.entries;
    total = k.rtt_total ∙ v.window.total ∙ ap (λ q. sum q % 2 ^ 64) (sym k.queue);
  };
  pings = omega (arith, k.pings, v.pings);
  room = omega (arith, k.capacity, k.slots, v.room);
  below = b;
}

pub created_frame_some :
    (io : ByteIo) (s : TunStub) (ip : IpAddr) (port : ℕ)
    → IsIp ip
    → (buf : List ℕ) × (created_frame io (stub_header s) ip port ≡ ok buf)
created_frame_some io s _ port (octets a b c d ha hb hc hd) =
    (_, created_frame_v4 io (stub_header s) a b c d port)
created_frame_some io s _ port (segments a b c d e f g h hs) =
    (_, created_frame_v6 io (stub_header s) a b c d e f g h port)

-- What a tunnel with room makes of a request.
pub record Opened (alive : ℕ → Bool) (io : ByteIo) (i : ℕ) (t : Tunnel) (req : Request)
    (ip : IpAddr) (port : ℕ) : Type 0 where
  pub tun : Tunnel
  pub stub : TunStub
  pub buf : List ℕ
  pub runs : on_request_created alive io t req ip port ≡ ok (tun, some stub, send alive t.tx buf)
  pub message : created_frame io (stub_header stub) ip port ≡ ok buf
  pub kept : TunAt i tun
  pub holds : Holds tun stub
  pub place : stub.tun_idx ≡ u16 i
  pub channel : stub.tunnel_tx ≡ t.tx

pub on_request_created-Opened :
    (alive : ℕ → Bool) (io : ByteIo) (i : ℕ) (t : Tunnel) (req : Request) (ip : IpAddr) (port : ℕ)
    → TunAt i t
    → t.req_count + 1 < t.capacity
    → IsIp ip
    → Opened alive io i t req ip port
unfolding on_request_created announce
on_request_created-Opened alive io i t req ip port v h a =
    let (p, e, w, c) = request_stub-TunInv t req v.requests in
    let (k, n) = created-Kept t req p v.requests e in go p.0 p.1 e w c k n
  where
    go :
        (t' : Tunnel) (r : Option TunStub)
        → on_request_created_internal t req ≡ ok (t', r)
        → TunInv t'
        → Created t req (t', r)
        → Kept t t'
        → Placed t r
        → Opened alive io i t req ip port
    go t' none e w c k n = absurd (omega (arith, h, v.room, v.requests.counted, ap length c.0))
    go t' (some s) e w c k n =
        let (buf, f) = created_frame_some io s ip port a in
        record {
          tun = t';
          stub = s;
          buf = buf;
          runs = rw (e, f, c.3);
          message = f;
          kept = Kept-TunAt i t t' v k w (omega (arith, c.1, h, v.room, v.requests.small));
          holds = c.0;
          place = n ∙ ap u16 v.place;
          channel = c.3;
        }
