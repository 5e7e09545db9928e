-- ===== src/Service/Control/Requests/Runs.antt =====
-- Sequences of what a service does and of what then comes of it, in any order: an instruction that
-- was fired is processed, a reply comes, a download ends, the threads are started, a timer fires.
use lproxy_cv.Prelude.{
  ℕ, ◌≤◌, ◌≡◌, refl, sym, ◌∙◌, Bool, true, false, Option, none, some, List, [], ◌∷◌, ◌++◌, All,
  All-append, All-get_elem?, arith, get_elem?, map, subst, ap, ltb, length, ◌&&◌,
}
use lproxy_cv.Prelude.Outcome.{Outcome, ok, ◌>>=◌}
use lproxy_cv.Tunnels.Frames.{IpAddr}
use lproxy_cv.Config.Tuncfg.{TunCfg, AuthResp, Json, server_url}
use lproxy_cv.Htp.Http.{HttpResponse}
use lproxy_cv.Service.Subservice.{SubServiceCtl, SubEffect, tunnels_per_mgr, start_subservice}
use lproxy_cv.Service.Subservice.Threads.{Thread, ctls, all_ready, tunmgr_threads, other_threads}
use lproxy_cv.Service.Subservice.Started.{begun_with, comes_to, start_subservice_lem}
use lproxy_cv.Service.Subservice.Threads
use lproxy_cv.Service.State.{
  Instruction, auth, start_sub_services, server_cfg_monitor, restart, access_log, dns_add, FilePath,
  Service, ServiceEffect, fired, post_later, auth_request, monitor_request, download, start_threads,
  monitor_timer, state_starting, Environment,
}
use lproxy_cv.Service.Control.{new, start, fire_instruction, threads_started, monitor_fires}
use lproxy_cv.Service.Control.Lifecycle.{IsWhole}
use lproxy_cv.Service.Control.Requests.{
  downloaded, parse_auth_reply, auth_replied, monitor_replied, process_instruction,
}
use lproxy_cv.Service.Control.Requests.Handlers.{
  ins_needs_cfg, HasCfg, ServInv, GoesOn, IsReady, later-GoesOn, do_auth-GoesOn, start_sub-GoesOn,
  monitor_fires-GoesOn, threads_started-GoesOn, do_restart-GoesOn, fire-IsReady,
}
use lproxy_cv.Service.Control.Requests.Downloads.{downloaded-GoesOn}
use lproxy_cv.Service.Control.Requests.Replied.{
  auth_replied-GoesOn, monitor_replied-GoesOn, do_cfg_monitor-GoesOn,
}

module _ (env : Environment) {Value : Type 0} (json : Json Value) (show_ip : IpAddr → List ℕ) where
  -- What becomes of an effect, in the state that the service then has. The server does not ask for
  -- an upgrade before there is a configuration; the threads are those that `start_subservice` keeps.
  pub data Becomes (s : Service)
      : ServiceEffect → Outcome ⊥ (Service × List ServiceEffect) → Type 0 where
    processed :
        (tx : ℕ) (ins : Instruction) (tx' trigger : ℕ)
        → Becomes s (fired tx ins) (process_instruction env show_ip tx' trigger s ins)
    posted :
        (secs : ℕ) (ins : Instruction)
        → Becomes s (post_later secs ins) (ok (s, fire_instruction env s ins))
    authorised :
        (body dns : List ℕ) (response : Option HttpResponse)
        → ((given : HttpResponse) (rsp : AuthResp)
            → response ≡ some given
            → parse_auth_reply env json given ≡ ok (some rsp)
            → (rsp.need_upgrade && ltb 0 (length rsp.upgrade_url)) ≡ true
            → HasCfg s)
        → Becomes s (auth_request body dns) (auth_replied env json s response)
    monitored :
        (url body dns : List ℕ) (response : Option HttpResponse)
        → Becomes s (monitor_request url body dns) (monitor_replied env json s response)
    loaded :
        (f g : FilePath) (url dns : List ℕ) (response : Option HttpResponse) (created done : Bool)
        → Becomes s (download f g url dns) (ok (downloaded env s f g response created done))
    started :
        (tx : ℕ) (cfg : TunCfg) (domains : List (List ℕ)) (init : ℕ → Option Bool) (cpus : ℕ)
        (cs : Option (List SubServiceCtl)) (es : List SubEffect) (trigger : ℕ)
        → 1 ≤ cpus
        → start_subservice env.alive env.panicked init cpus cfg domains ≡ ok (cs, es)
        → Becomes s (start_threads tx cfg domains) (threads_started env s cs trigger)
    fires : Becomes s monitor_timer (do es ← monitor_fires env s; ok (s, es))

  -- A service, and all that it has done: from the start of a new one on, any of it may go on, also
  -- more than once, and the threads may fire a record of accesses or of names.
  pub data Reach : Service → List ServiceEffect → Type 0 where
    begun :
        (uuid hardcore_dns : List ℕ) (tx trigger : ℕ) (s : Service) (es : List ServiceEffect)
        → start env (new uuid hardcore_dns) tx trigger ≡ ok (s, es)
        → Reach s es
    goes_on :
        (s : Service) (es : List ServiceEffect) (i : ℕ) (e : ServiceEffect)
        (o : Outcome ⊥ (Service × List ServiceEffect)) (s' : Service) (es' : List ServiceEffect)
        → Reach s es
        → get_elem? es i ≡ some e
        → Becomes s e o
        → o ≡ ok (s', es')
        → Reach s' (es ++ es')
    from_thread :
        (s : Service) (es : List ServiceEffect) (v : List (IpAddr × IpAddr))
        (da : List (List ℕ × IpAddr)) (tx : ℕ)
        → Reach s es
        → Reach s (es ++ (fired tx (access_log v) ∷ fired tx (dns_add da) ∷ []))

  ok_inj :
      {a b : Option (List SubServiceCtl) × List SubEffect}
      → ◌≡◌ {A = Outcome ⊥ (Option (List SubServiceCtl) × List SubEffect)} (ok a) (ok b)
      → a ≡ b
  ok_inj h = cc h

  pair_inj :
      {a b : Service × List ServiceEffect}
      → ◌≡◌ {A = Outcome ⊥ (Service × List ServiceEffect)} (ok a) (ok b)
      → a ≡ b
  pair_inj h = cc h

  some_inj : {a b : List SubServiceCtl} → some a ≡ some b → a ≡ b
  some_inj h = cc h

  none-some : {a : List SubServiceCtl} → none ≡ some a → ⊥
  none-some h = cc h

  ctls-IsWhole : (ts : List Thread) → All IsWhole (ctls ts)
  ctls-IsWhole [] = tt
  ctls-IsWhole (t ∷ ts) = ((t.0, t.0, refl, refl), ctls-IsWhole ts)

  module _ (sound : (h : ℕ) → env.panicked h ≡ false) (known : env.is_url server_url ≡ true) where
    kept-IsWhole :
        (init : ℕ → Option Bool) (cpus : ℕ) (cfg : TunCfg) (domains : List (List ℕ))
        (cs : Option (List SubServiceCtl)) (es : List SubEffect)
        → 1 ≤ cpus
        → start_subservice env.alive env.panicked init cpus cfg domains ≡ ok (cs, es)
        → (l : List SubServiceCtl) → cs ≡ some l
        → All IsWhole l
    kept-IsWhole init cpus cfg domains cs es n e l k =
        let ms = tunmgr_threads cpus 0 (tunnels_per_mgr cfg cpus) in
        let os =
          other_threads cpus (ltb 0 (length cfg.xport_url)) domains
            (map (λ t. t.0) (Threads.started init ms)) in
        only (begun_with env.alive env.panicked sound init ms os)
          (all_ready init ms && all_ready init os)
          (ok_inj
            (sym (start_subservice_lem env.alive env.panicked sound init cpus cfg domains n) ∙ e))
      where
        only :
            (ts : List Thread) (all : Bool)
            → comes_to env.alive env.panicked sound init ts all ≡ (cs, es)
            → All IsWhole l
        only ts true h =
            subst (All IsWhole) (some_inj (ap (λ x. x.0) h ∙ k))
              (ctls-IsWhole (Threads.started init ts))
        only ts false h = absurd (none-some (ap (λ x. x.0) h ∙ k))

    module _ (exe : List ℕ) (rest : FilePath) (place : env.current_exe ≡ exe ∷ rest) where
      process-GoesOn :
          (s : Service) (ins : Instruction) (tx trigger : ℕ)
          → (ins_needs_cfg ins ≡ true → HasCfg s)
          → ServInv s
          → GoesOn s (process_instruction env show_ip tx trigger s ins)
      unfolding process_instruction
      process-GoesOn s auth tx trigger c i = do_auth-GoesOn env s known i
      process-GoesOn s start_sub_services tx trigger c i = start_sub-GoesOn env s (c refl) i
      process-GoesOn s server_cfg_monitor tx trigger c i = do_cfg_monitor-GoesOn env s (c refl) i
      process-GoesOn s restart tx trigger c i = do_restart-GoesOn env s tx trigger sound i
      process-GoesOn s (access_log v) tx trigger c i =
          (_, _, refl, λ h. h, record { whole = i.whole; has_tx = i.has_tx }, tt)
      process-GoesOn s (dns_add da) tx trigger c i =
          (_, _, refl, λ h. h, record { whole = i.whole; has_tx = i.has_tx }, tt)

      Becomes-GoesOn :
          {s : Service} {e : ServiceEffect} {o : Outcome ⊥ (Service × List ServiceEffect)}
          → Becomes s e o
          → IsReady s e
          → ServInv s
          → GoesOn s o
      Becomes-GoesOn {s} (processed tx ins tx' trigger) r i = process-GoesOn s ins tx' trigger r i
      Becomes-GoesOn {s} (posted secs ins) r i = later-GoesOn env s ins i r
      Becomes-GoesOn {s} (authorised body dns response h) r i =
          auth_replied-GoesOn env exe rest place json s response h i
      Becomes-GoesOn {s} (monitored url body dns response) r i =
          monitor_replied-GoesOn env exe rest place json s response (r refl) i
      Becomes-GoesOn {s} (loaded f g url dns response created done) r i =
          downloaded-GoesOn env exe rest place s f g response created done i
      Becomes-GoesOn {s} (started tx cfg domains init cpus cs es trigger n e) r i =
          threads_started-GoesOn env s cs trigger (r refl) i
            (kept-IsWhole init cpus cfg domains cs es n e)
      Becomes-GoesOn {s} fires r i = monitor_fires-GoesOn env s (r refl) i

      begun-ServInv :
          (uuid hardcore_dns : List ℕ) (tx trigger : ℕ) (s : Service) (es : List ServiceEffect)
          → start env (new uuid hardcore_dns) tx trigger ≡ ok (s, es)
          → ServInv s × All (IsReady s) es
      unfolding start new
      begun-ServInv uuid hardcore_dns tx trigger s es e =
          let s1 = record (new uuid hardcore_dns) {
            state = state_starting;
            instruction_trigger = some trigger;
            ins_tx = some tx;
          } in
          subst (λ p. ServInv p.0 × All (IsReady p.0) p.1) (pair_inj e)
            (
              record { whole = tt; has_tx = (tx, refl) },
              (
                (λ n. absurd (ground (arith, n))),
                fire-IsReady env s1 auth (λ n. absurd (ground (arith, n))),
              ),
            )

      IsReady-still :
          (s s' : Service) (es : List ServiceEffect)
          → (HasCfg s → HasCfg s')
          → All (IsReady s) es
          → All (IsReady s') es
      IsReady-still s s' [] c h = tt
      IsReady-still s s' (e ∷ es) c (r, h) = ((λ n. c (r n)), IsReady-still s s' es c h)

      Reach-ServInv :
          {s : Service} {es : List ServiceEffect} → Reach s es → ServInv s × All (IsReady s) es
      Reach-ServInv (begun uuid hardcore_dns tx trigger s es e) =
          begun-ServInv uuid hardcore_dns tx trigger s es e
      Reach-ServInv (goes_on s es i e o s' es' r at b k) =
          let (inv, ready) = Reach-ServInv r in
          let (s1, es1, k1, c, inv1, ready1) =
            Becomes-GoesOn b (All-get_elem? (IsReady s) es i at ready) inv in
          subst (λ p. ServInv p.0 × All (IsReady p.0) (es ++ p.1)) (pair_inj (sym k1 ∙ k))
            (inv1, All-append (IsReady s1) es es1 (IsReady-still s s1 es c ready) ready1)
      Reach-ServInv (from_thread s es v da tx r) =
          let (inv, ready) = Reach-ServInv r in
          (
            inv,
            All-append (IsReady s) es _ ready
                ((λ n. absurd (ground (arith, n))), ((λ n. absurd (ground (arith, n))), tt)),
          )

      -- In every state that is reached, whatever the service has done can be gone on with: what
      -- becomes of it is no panic. No thread ends by a panic, the server's address is a URL, the
      -- program has a path, and the server asks for no upgrade before the service has a
      -- configuration.
      pub reachable_goes_on :
          (s : Service) (es : List ServiceEffect) (i : ℕ) (e : ServiceEffect)
          (o : Outcome ⊥ (Service × List ServiceEffect))
          → Reach s es
          → get_elem? es i ≡ some e
          → Becomes s e o
          → (s' : Service) × (es' : List ServiceEffect) × (o ≡ ok (s', es'))
      reachable_goes_on s es i e o r at b =
          let (inv, ready) = Reach-ServInv r in
          let (s', es', k, c, inv', ready') =
            Becomes-GoesOn b (All-get_elem? (IsReady s) es i at ready) inv in
          (s', es', k)
