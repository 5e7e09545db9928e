-- ===== src/Manager/Mgr/Stopped.antt =====
-- What a manager does after `stop`, whatever messages are still on their way to it.
use lproxy_cv.Prelude.{
  ℕ, zero, suc, subst, ◌<◌, ◌≡◌, refl, sym, ◌∙◌, inl, inr, Bool, true, false, Option, none, some,
  List, [], ◌∷◌, ◌++◌, map, All, Bool-cases, length, length-set, get_elem?, get_elem?-some, set,
}
use lproxy_cv.Prelude.Outcome.{Outcome, ok, ◌>>=◌}
use lproxy_cv.Wire.{ByteIo}
use lproxy_cv.Tunnels.Reqq.{Request}
use lproxy_cv.Tunnels.Frames.{IpAddr}
use lproxy_cv.Tunnels.Tunnel.{Tunnel, TunStub}
use lproxy_cv.Manager.Mgr.{
  TunMgr, MgrEffect, of_tunnel, on_tunnel_created, on_tunnel_closed, taken, on_tunnel_build_error,
  on_request_created, keepalive, stop, closes,
}

-- A tunnel is connected, a request comes, a connection is lost, one could not be made, the timer
-- fires, the manager is stopped.
pub data Late : Type 0 where
  created : Tunnel → Late
  asked : Request → IpAddr → ℕ → Late
  lost : ℕ → Late
  failed : ℕ → Late
  ticks : ((ℕ → Option (Option ℕ)) → List ℕ → List ℕ) → (ℕ → ℕ) → Late
  stopped : Late

-- What comes of it: a tunnel is taken into the table, a request gets a stub, or an effect.
pub data Seen : Type 0 where
  took : Seen
  gave : TunStub → Seen
  did : MgrEffect → Seen

abbrev pub placed : Bool → List Seen
placed true = took ∷ []
placed false = []

abbrev pub granted : Option TunStub → List Seen
granted none = []
granted (some stub) = gave stub ∷ []

-- The index of a lost tunnel lies in the table.
abbrev pub Known : ℕ → Late → Type 0
Known n (created tun) = Unit {0}
Known n (asked req ip port) = Unit {0}
Known n (lost index) = index < n
Known n (failed index) = Unit {0}
Known n (ticks sort_by now) = Unit {0}
Known n stopped = Unit {0}

-- A tunnel in the table of `m'` was there in that of `m`; both queue the same indices.
pub record Rests (m m' : TunMgr) : Type 0 where
  pub stays : m'.discarded ≡ true
  pub size : length m'.tunnels ≡ length m.tunnels
  pub queue : m'.reconnect_queue ≡ m.reconnect_queue
  pub no_new :
      (i : ℕ) (t : Tunnel)
      → get_elem? m'.tunnels i ≡ some (some t)
      → get_elem? m.tunnels i ≡ some (some t)

Rests-refl : (m : TunMgr) → m.discarded ≡ true → Rests m m
Rests-refl m d = record { stays = d; size = refl; queue = refl; no_new = λ i t h. h }

Rests-trans : {a b c : TunMgr} → Rests a b → Rests b c → Rests a c
Rests-trans x y = record {
  stays = y.stays;
  size = y.size ∙ x.size;
  queue = y.queue ∙ x.queue;
  no_new = λ i t h. x.no_new i t (y.no_new i t h);
}

set-none :
    (xs : List (Option Tunnel)) (k i : ℕ) (t : Tunnel)
    → get_elem? (set xs k none) i ≡ some (some t)
    → get_elem? xs i ≡ some (some t)
set-none [] k i t h = h
set-none (x ∷ xs) zero zero t h = absurd (cc h)
set-none (x ∷ xs) zero (suc i) t h = h
set-none (x ∷ xs) (suc k) zero t h = h
set-none (x ∷ xs) (suc k) (suc i) t h = set-none xs k i t h

taken-Rests :
    (m : TunMgr) (index : ℕ) (t : Option Tunnel) → m.discarded ≡ true → Rests m (taken m index t)
unfolding taken
taken-Rests m index none d = Rests-refl m d
taken-Rests m index (some t) d = record {
  stays = d;
  size = length-set m.tunnels index none;
  queue = simp d;
  no_new = λ i u h. set-none m.tunnels index i u h;
}

Known-size : (n k : ℕ) (ls : List Late) → k ≡ n → All (Known n) ls → All (Known k) ls
Known-size n k ls e h = subst (λ x. All (Known x) ls) (sym e) h

stop-Rests : (m : TunMgr) → Rests m (stop m).0
unfolding stop
stop-Rests m = elim (Bool-cases m.discarded) [
  | inl y ↦
      let e : stop m ≡ (m, []) = simp y refl in subst (λ p. Rests m p.0) (sym e) (Rests-refl m y)
  | inr n ↦
      let m' = record m { discarded = true; keepalive_trigger = none } in
      let e : stop m ≡ (m', closes m.tunnels) = simp n refl in
      subst (λ p. Rests m p.0) (sym e)
        (record { stays = refl; size = refl; queue = refl; no_new = λ i t h. h })
]

module _ (alive : ℕ → Bool) (io : ByteIo) where
  unfoldable pub late : TunMgr → Late → Outcome ⊥ (TunMgr × List Seen)
  late m (created tun) = do (m', took_it) ← on_tunnel_created m tun; ok (m', placed took_it)
  late m (asked req ip port) = do
    (m', stub, effects) ← on_request_created alive io m req ip port
    ok (m', granted stub ++ map (λ e. did (of_tunnel e)) effects)
  late m (lost index) = do (m', t) ← on_tunnel_closed m index; ok (m', [])
  late m (failed index) = ok (on_tunnel_build_error m index, [])
  late m (ticks sort_by now) = do
    (m', effects) ← keepalive alive io sort_by m now
    ok (m', map did effects)
  late m stopped = let r = stop m in ok (r.0, map did r.1)

  unfoldable pub run_late : TunMgr → List Late → Outcome ⊥ (TunMgr × List Seen)
  run_late m [] = ok (m, [])
  run_late m (l ∷ ls) = do (m1, seen) ← late m l; (m2, more) ← run_late m1 ls; ok (m2, seen ++ more)

  late-Rests :
      (m : TunMgr) (l : Late)
      → m.discarded ≡ true
      → Known (length m.tunnels) l
      → (m' : TunMgr) × (late m l ≡ ok (m', [])) × Rests m m'
  unfolding late on_tunnel_created on_request_created on_tunnel_closed on_tunnel_build_error
      keepalive stop
  late-Rests m (created tun) d k = (m, simp d refl, Rests-refl m d)
  late-Rests m (asked req ip port) d k = (m, simp d refl, Rests-refl m d)
  late-Rests m (lost index) d k =
      let (t, at) = get_elem?-some m.tunnels index k in
      (taken m index t, rw at refl, taken-Rests m index t d)
  late-Rests m (failed index) d k = (m, simp d refl, Rests-refl m d)
  late-Rests m (ticks sort_by now) d k = (m, simp d refl, Rests-refl m d)
  late-Rests m stopped d k = (m, simp d refl, Rests-refl m d)

  run_late-Rests :
      (m : TunMgr) (ls : List Late)
      → m.discarded ≡ true
      → All (Known (length m.tunnels)) ls
      → (m' : TunMgr) × (run_late m ls ≡ ok (m', [])) × Rests m m'
  unfolding run_late
  run_late-Rests m [] d k = (m, refl, Rests-refl m d)
  run_late-Rests m (l ∷ ls) d (k, ks) =
      let (m1, e, r) = late-Rests m l d k in
      let (m2, f, r2) = run_late-Rests m1 ls r.stays (Known-size _ _ ls r.size ks) in
      (m2, rw (e, f) refl, Rests-trans r r2)

  -- After a stop, whatever comes in whatever order, tunnels that were connected, requests,
  -- connections that were lost, at indices of the table, or could not be made, the timer, another
  -- stop: nothing panics, no tunnel is taken, no request gets a stub, and nothing is done. The
  -- manager stays stopped, no index is queued for a connection, and a tunnel in its table was there
  -- before the stop.
  pub stopped-Rests :
      (m : TunMgr) (ls : List Late)
      → All (Known (length m.tunnels)) ls
      → (m' : TunMgr) × (run_late (stop m).0 ls ≡ ok (m', [])) × Rests m m'
  stopped-Rests m ls k =
      let s = stop-Rests m in
      let (m', e, r) = run_late-Rests (stop m).0 ls s.stays (Known-size _ _ ls s.size k) in
      (m', e, Rests-trans s r)
