-- ===== src/Manager/Mgr/Requests.antt =====
-- A request through the manager: `on_request_created` and `on_request_closed`.
use native.Mathlib.Nat.{mod-lt}
use lproxy_cv.Prelude.{
  ℕ, zero, suc, ◌+◌, ◌%◌, ◌≤◌, ◌<◌, ◌≡◌, refl, sym, ap, ◌∙◌, subst, ◌⊎◌, inl, inr, Bool, true,
  false, Option, none, some, List, [], ◌∷◌, ◌||◌, arith, ltb→lt, length-set, get_elem?, set,
  get_elem?-lt, get_elem?-set_self,
}
use lproxy_cv.Prelude.Outcome.{ok}
use lproxy_cv.Wire.{ByteIo}
use lproxy_cv.Tunnels.Reqq.{Request, u16}
use lproxy_cv.Tunnels.Frames.{IpAddr, created_frame}
use lproxy_cv.Tunnels.Udp.RoundTrip.{IsIp}
use lproxy_cv.Tunnels.Tunnel.{Tunnel, TunStub, stub_header, send}
use lproxy_cv.Tunnels.Tunnel
use lproxy_cv.Tunnels.Tunnel.Requests.{
  Holds, closed_tunnel, closed_tunnel-TunInv, closed_message, busy_counted, on_request_closed_lem,
  on_request_closed_again,
}
use lproxy_cv.Tunnels.Tunnel.Kept.{TunAt, Kept-TunAt, closed_tunnel-Kept, on_request_created-Opened}
use lproxy_cv.Manager.Mgr.{
  TunMgr, has_room, put_tunnel, on_chosen, on_request_created, closed_in, on_request_closed,
}
use lproxy_cv.Manager.Mgr.Room.{any_room, Found, alloc_returns}
use lproxy_cv.Manager.Mgr.Table.{MgrInv, EntryAt, entry_lem, set-Tuns}

-- The stub names a tunnel of the table, which holds a slot under it.
pub record HoldsAt (m : TunMgr) (s : TunStub) : Type 0 where
  pub tun : Tunnel
  pub entry : get_elem? m.tunnels s.tun_idx ≡ some (some tun)
  pub holds : Holds tun s

put-MgrInv : (m : TunMgr) (i : ℕ) (t : Tunnel) → MgrInv m → TunAt i t → MgrInv (put_tunnel m i t)
put-MgrInv m i t v w = record {
  ordered = record {
    size = length-set m.tunnels i (some t) ∙ v.ordered.size;
    sorted = v.ordered.sorted;
    current = v.ordered.current;
    small = v.ordered.small;
  };
  tuns = set-Tuns m.tunnels 0 i (some t) v.tuns (subst (λ k. EntryAt k (some t)) (omega arith) w);
}

moved-MgrInv :
    (m : TunMgr) (p : ℕ)
    → MgrInv m
    → 1 ≤ m.capacity
    → MgrInv (record m { current_tun_idx = p % m.capacity })
moved-MgrInv m p v h = record {
  ordered = record {
    size = v.ordered.size;
    sorted = v.ordered.sorted;
    current = omega (arith, mod-lt p {m = m.capacity} h);
    small = v.ordered.small;
  };
  tuns = v.tuns;
}

entry_any_room :
    (ts : List (Option Tunnel)) (i : ℕ) (t : Option Tunnel)
    → get_elem? ts i ≡ some t
    → has_room t ≡ true
    → any_room ts ≡ true
entry_any_room [] i t e h = absurd (ground arith)
entry_any_room (x ∷ ts) zero t e h = cc (e, h)
entry_any_room (x ∷ ts) (suc i) t e h = rw (entry_any_room ts i t e h) (or_true (has_room x))
  where
    or_true : (b : Bool) → (b || true) ≡ true
    or_true true = refl
    or_true false = refl

set-set :
    (ts : List (Option Tunnel)) (i : ℕ) (x : Option Tunnel) → set (set ts i x) i x ≡ set ts i x
set-set [] i x = refl
set-set (t ∷ ts) zero x = refl
set-set (t ∷ ts) (suc i) x = ap (λ l. t ∷ l) (set-set ts i x)

has_room-lt :
    (i : ℕ) (t : Tunnel) → TunAt i t → has_room (some t) ≡ true → t.req_count + 1 < t.capacity
unfolding has_room
has_room-lt i t v h = omega (arith, ltb→lt (u16 (t.req_count + 1)) t.capacity h, v.below)

module _ (alive : ℕ → Bool) (io : ByteIo) where
  -- The request is refused, with no change, and no tunnel has room; or a tunnel of the table holds
  -- a slot under its stub, and the tunnel's channel has the message, if it is live.
  abbrev pub MgrCreated :
      TunMgr → IpAddr → ℕ → TunMgr × Option TunStub × List Tunnel.Effect → Type 0
  MgrCreated m ip port (m', stub, effects) =
      ((any_room m.tunnels ≡ false) × (m' ≡ m) × (stub ≡ none) × (effects ≡ []))
      ⊎ ((any_room m.tunnels ≡ true)
          × ((s : TunStub) × (stub ≡ some s)
              × HoldsAt m' s
              × ((buf : List ℕ) × (created_frame io (stub_header s) ip port ≡ ok buf)
                  × (effects ≡ send alive s.tunnel_tx buf))))

  chosen_opens :
      (m m' : TunMgr) (req : Request) (ip : IpAddr) (port i : ℕ)
      → MgrInv m
      → IsIp ip
      → Found m m' i
      → (p : TunMgr × Option TunStub × List Tunnel.Effect) × (on_chosen alive io req ip port m'
            (some i)
          ≡ ok p)
        × MgrInv p.0
        × MgrCreated m ip port p
  unfolding on_chosen
  chosen_opens m m' req ip port i v a f =
      let w = entry_lem m i (some f.tun) v f.entry in
      let o =
        on_request_created-Opened alive io i f.tun req ip port w (has_room-lt i f.tun w f.room) a in
      let inside : i < m.capacity =
        omega (arith, v.ordered.size, get_elem?-lt m.tunnels i (some f.tun) f.entry) in
      let small : u16 i ≡ i = omega (arith, v.ordered.small) in
      let e : get_elem? m'.tunnels i ≡ some (some f.tun) =
        ap (λ x. get_elem? x.tunnels i) f.moved ∙ f.entry in
      let u : MgrInv m' =
        subst MgrInv (sym f.moved) (moved-MgrInv m (f.place + 1) v (omega arith)) in
      (
        (put_tunnel m' i o.tun, some o.stub, send alive f.tun.tx o.buf),
        rw (e, o.runs),
        put-MgrInv m' i o.tun u o.kept,
        inr (
          entry_any_room m.tunnels i (some f.tun) f.entry f.room,
          (
            o.stub,
            refl,
            record {
              tun = o.tun;
              entry =
                  ap (get_elem? (set m'.tunnels i (some o.tun))) (o.place ∙ small)
                  ∙ get_elem?-set_self m'.tunnels i (some o.tun)
                      (get_elem?-lt m'.tunnels i (some f.tun) e);
              holds = o.holds;
            },
            (o.buf, o.message, ap (λ tx. send alive tx o.buf) (sym o.channel)),
          ),
        ),
      )

  -- In a manager with the invariant that is not stopped, to create a request for an address of the
  -- standard library does not panic and keeps the invariant. It is refused, with no change, only
  -- where no tunnel has room. Otherwise a tunnel of the table holds a slot under the stub, and the
  -- message of the request goes to the stub's channel, if that is live.
  pub on_request_created-MgrInv :
      (m : TunMgr) (req : Request) (ip : IpAddr) (port : ℕ)
      → MgrInv m
      → m.discarded ≡ false
      → IsIp ip
      → (p : TunMgr × Option TunStub × List Tunnel.Effect) × (on_request_created alive io m req ip
            port
          ≡ ok p)
        × MgrInv p.0
        × MgrCreated m ip port p
  unfolding on_request_created on_chosen
  on_request_created-MgrInv m req ip port v h a =
      let ((m', i), e, r) = alloc_returns m v.ordered in
      elim r [
        | inl (n, same, full) ↦
            ((m, none, []), simp (h, e, n, same), v, inl (full, refl, refl, refl))
        | inr (j, n, f) ↦
            let (p, g, w, c) = chosen_opens m m' req ip port j v a f in (p, simp (h, e, n, g), w, c)
      ]

  -- In a manager with the invariant, to close the request of a stub under which a tunnel of the
  -- table holds a slot does not panic, keeps the invariant and sends the close to the channel that
  -- the stub names, if that is live; closing it again changes and sends nothing.
  pub mgr_request_closed_once :
      (m : TunMgr) (s : TunStub)
      → MgrInv m
      → HoldsAt m s
      → (m' : TunMgr) × (on_request_closed alive io m s
          ≡ ok (m', send alive s.tunnel_tx (closed_message alive io s)))
        × MgrInv m'
        × (on_request_closed alive io m' s ≡ ok (m', []))
  unfolding on_request_closed closed_in
  mgr_request_closed_once m s v h =
      let t' = closed_tunnel h.tun s h.holds.req in
      let w = entry_lem m s.tun_idx (some h.tun) v h.entry in
      let there : get_elem? (set m.tunnels s.tun_idx (some t')) s.tun_idx ≡ some (some t') =
        get_elem?-set_self m.tunnels s.tun_idx (some t')
          (get_elem?-lt m.tunnels s.tun_idx (some h.tun) h.entry) in
      (
        put_tunnel m s.tun_idx t',
        rw (h.entry, on_request_closed_lem alive io h.tun s h.holds),
        put-MgrInv m s.tun_idx t' v (
            Kept-TunAt s.tun_idx h.tun t' w (closed_tunnel-Kept h.tun s h.holds.req)
              (closed_tunnel-TunInv h.tun s h.holds w.requests)
              (omega (arith, w.below, busy_counted h.tun s h.holds w.requests))),
        rw (there, on_request_closed_again alive io h.tun s h.holds)
            (ap (λ x. ok (record m { tunnels = x }, [])) (set-set m.tunnels s.tun_idx (some t'))),
      )
