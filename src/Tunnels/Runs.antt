-- ===== src/Tunnels/Runs.antt =====
-- src/tunnels/tunnel.rs: the life of a tunnel as a sequence of steps, each of them a handler's run.
use lproxy_cv.Prelude.{ℕ, ◌≤◌, ◌<◌, ◌≡◌, sym, ap, ◌∙◌, subst, Bool, Option, List, []}
use lproxy_cv.Prelude.Outcome.{Outcome, ok, err, panic}
use lproxy_cv.Wire.{ByteIo}
use lproxy_cv.Tunnels.Header.{req_server_closed}
use lproxy_cv.Tunnels.Reqq.{Request}
use lproxy_cv.Tunnels.Tunnel.{
  Tunnel, TunStub, Effect, new, stub_header, on_request_created_internal, on_request_closed,
}
use lproxy_cv.Tunnels.Tunnel.Requests.{
  TunInv, Holds, request_stub-TunInv, on_request_closed_once, new-TunInv,
}
use lproxy_cv.Tunnels.Dispatch.{on_tunnel_msg}
use lproxy_cv.Tunnels.Dispatch.Closing.{peer_msg, req_server_closed_frees}

state_of : {A : Type 0} → Tunnel → Outcome ⊥ (Tunnel × A) → Tunnel
state_of t (ok p) = p.0
state_of t (err e) = t
state_of t panic = t

-- Two answers of one run leave the same state.
same_state :
    {A : Type 0} {m : Outcome ⊥ (Tunnel × A)} {t u : Tunnel} {x y : A}
    → m ≡ ok (t, x)
    → m ≡ ok (u, y)
    → t ≡ u
unfolding state_of
same_state {t} e f = ap (state_of t) (sym e ∙ f)

-- A request is created, or one that is in use is closed by its owner or by the peer.
pub data Step (alive : ℕ → Bool) (io : ByteIo) : Tunnel → Tunnel → Type 0 where
  create :
      {t t' : Tunnel} (req : Request) (s : Option TunStub)
      → on_request_created_internal t req ≡ ok (t', s)
      → Step alive io t t'
  close :
      {t t' : Tunnel} (s : TunStub) (effects : List Effect)
      → Holds t s
      → on_request_closed alive io t s ≡ ok (t', effects)
      → Step alive io t t'
  peer_close :
      {t t' : Tunnel} (now total : ℕ) (s : TunStub) (effects : List Effect)
      → Holds t s
      → s.req_idx < 65536
      → s.req_tag < 65536
      → on_tunnel_msg alive io now t (peer_msg total req_server_closed (stub_header s) [])
        ≡ ok (t', effects)
      → Step alive io t t'

pub data Run (alive : ℕ → Bool) (io : ByteIo) : Tunnel → Tunnel → Type 0 where
  stop : {t : Tunnel} → Run alive io t t
  next : {t u v : Tunnel} → Step alive io t u → Run alive io u v → Run alive io t v

module _ (alive : ℕ → Bool) (io : ByteIo) where
  Step-TunInv : (t t' : Tunnel) → Step alive io t t' → TunInv t → TunInv t'
  Step-TunInv t t' (create req s e) v =
      let (p, f, i, c) = request_stub-TunInv t req v in subst TunInv (same_state f e) i
  Step-TunInv t t' (close s effects h e) v =
      let (u, f, i, n, again) = on_request_closed_once alive io t s v h in
      subst TunInv (same_state f e) i
  Step-TunInv t t' (peer_close now total s effects h hi ht e) v =
      let (u, f, i, n, gone) = req_server_closed_frees alive io now t s total hi ht v h in
      subst TunInv (same_state f e) i

  Run-TunInv : (t t' : Tunnel) → Run alive io t t' → TunInv t → TunInv t'
  Run-TunInv t t' stop v = v
  Run-TunInv t t' (next {u = u} s r) v = Run-TunInv u t' r (Step-TunInv t u s v)

  -- From a new tunnel of at most 65535 slots, every sequence of steps, in which requests are created
  -- and those in use are closed by either side, leads to a tunnel with the invariant.
  pub reachable-TunInv :
      (tx rawfd idx cap quota : ℕ) (t : Tunnel)
      → cap ≤ 65535
      → Run alive io (new tx rawfd idx cap quota) t
      → TunInv t
  reachable-TunInv tx rawfd idx cap quota t h r =
      Run-TunInv (new tx rawfd idx cap quota) t r (new-TunInv tx rawfd idx cap quota h)
