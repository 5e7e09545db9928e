-- ===== src/Service/Control/Requests/Handlers.antt =====
-- Every handler of the service, where its panics cannot happen.
use lproxy_cv.Prelude.{
  ℕ, ◌≡◌, refl, inl, inr, Bool, true, false, Option, none, some, List, [], ◌∷◌, ◌++◌, map, reverse,
  All, All-append, arith, Bool-cases, ltb, if◌then◌else◌, length,
}
use mathlib.Core.List.{reverse_aux}
use lproxy_cv.Prelude.Outcome.{Outcome, ok, ◌>>=◌}
use lproxy_cv.Config.Tuncfg.{TunCfg, AuthReq, server_url, default_server, auth_json, format_macs}
use lproxy_cv.Config.Tuncfg.Replies.{format_macs-listed}
use lproxy_cv.Service.Subservice.{SubServiceCtl, SubEffect}
use lproxy_cv.Service.State.{
  Instruction, auth, start_sub_services, server_cfg_monitor, restart, access_log, dns_add,
  state_starting, state_running, Service, ServiceEffect, fired, post_later, auth_request,
  monitor_request, report_request, download, set_ipset, uci_me, set_iptables_rules,
  set_iptables_rules_for_global, set_ip_rules, start_threads, monitor_timer, of_sub, sys,
  write_file, fileto_excecutable, call_bash_to_restart, Environment,
}
use lproxy_cv.Service.Control.{
  restore_sys, config_sys, fire_on, fire_instruction, do_restart, do_start_subservices,
  take_domains, threads_started, monitor_fires,
}
use lproxy_cv.Service.Control.Lifecycle.{
  IsWhole, stops_of, joins_of, restart_effects, do_restart_lem,
}
use lproxy_cv.Service.Control.Requests.{fetch_all_macs, do_auth}

abbrev pub HasCfg : Service → Type 0
HasCfg s = (cfg : TunCfg) × (s.tuncfg ≡ some cfg)

abbrev pub ins_needs_cfg : Instruction → Bool
ins_needs_cfg start_sub_services = true
ins_needs_cfg server_cfg_monitor = true
ins_needs_cfg auth = false
ins_needs_cfg restart = false
ins_needs_cfg (access_log v) = false
ins_needs_cfg (dns_add da) = false

-- What can only be gone on with when there is a configuration.
abbrev pub needs_cfg : ServiceEffect → Bool
needs_cfg (fired tx ins) = ins_needs_cfg ins
needs_cfg (post_later secs ins) = ins_needs_cfg ins
needs_cfg (monitor_request url body dns) = true
needs_cfg (start_threads tx cfg domains) = true
needs_cfg monitor_timer = true
needs_cfg (auth_request body dns) = false
needs_cfg (report_request url body dns) = false
needs_cfg (download f s url dns) = false
needs_cfg (of_sub e) = false
needs_cfg (sys c) = false
needs_cfg (write_file f body) = false
needs_cfg (fileto_excecutable f) = false
needs_cfg (call_bash_to_restart f) = false

abbrev pub IsReady : Service → ServiceEffect → Type 0
IsReady s e = needs_cfg e ≡ true → HasCfg s

-- The subservices run, and there is a channel for instructions.
pub record ServInv (s : Service) : Type 0 where
  pub whole : All IsWhole s.subservices
  pub has_tx : (tx : ℕ) × (s.ins_tx ≡ some tx)

-- An outcome from `s` that is no panic, keeps the invariant and a configuration, and leaves nothing
-- to do that waits for a configuration which is not there.
abbrev pub GoesOn : Service → Outcome ⊥ (Service × List ServiceEffect) → Type 0
GoesOn s o =
    (s' : Service) × (es : List ServiceEffect) × (o ≡ ok (s', es))
    × (HasCfg s → HasCfg s')
    × ServInv s'
    × All (IsReady s') es

abbrev pub IsFree : ServiceEffect → Type 0
IsFree e = needs_cfg e ≡ false

pub IsFree-IsReady : (s : Service) (es : List ServiceEffect) → All IsFree es → All (IsReady s) es
IsFree-IsReady s [] h = tt
IsFree-IsReady s (e ∷ es) (h, hs) = (λ n. absurd (ground (arith, h, n)), IsFree-IsReady s es hs)

pub HasCfg-IsReady : (s : Service) (es : List ServiceEffect) → HasCfg s → All (IsReady s) es
HasCfg-IsReady s [] c = tt
HasCfg-IsReady s (e ∷ es) c = (λ n. c, HasCfg-IsReady s es c)

All-reverse_aux :
    (cs ds : List SubServiceCtl) → All IsWhole cs → All IsWhole ds → All IsWhole (reverse_aux cs ds)
All-reverse_aux [] ds h k = k
All-reverse_aux (c ∷ cs) ds (w, h) k = All-reverse_aux cs (c ∷ ds) h (w, k)

of_sub-IsFree : (es : List SubEffect) → All IsFree (map of_sub es)
of_sub-IsFree [] = tt
of_sub-IsFree (e ∷ es) = (refl, of_sub-IsFree es)

module _ (env : Environment) where
  fire_on-IsReady :
      (s : Service) (ins : Instruction) (tx : Option ℕ)
      → (ins_needs_cfg ins ≡ true → HasCfg s)
      → All (IsReady s) (fire_on env tx ins)
  unfolding fire_on
  fire_on-IsReady s ins none h = tt
  fire_on-IsReady s ins (some tx) h = elim (Bool-cases (env.alive tx)) [
    | inl e ↦ rw e (h, tt)
    | inr e ↦ rw e tt
  ]

  pub fire-IsReady :
      (s : Service) (ins : Instruction)
      → (ins_needs_cfg ins ≡ true → HasCfg s)
      → All (IsReady s) (fire_instruction env s ins)
  unfolding fire_instruction
  fire-IsReady s ins h = fire_on-IsReady s ins s.ins_tx h

  -- Nothing is changed.
  pub stays :
      (s : Service) (es : List ServiceEffect)
      → ServInv s
      → All (IsReady s) es
      → GoesOn s (ok (s, es))
  stays s es i h = (s, es, refl, λ c. c, i, h)

  pub later-GoesOn :
      (s : Service) (ins : Instruction)
      → ServInv s
      → (ins_needs_cfg ins ≡ true → HasCfg s)
      → GoesOn s (ok (s, fire_instruction env s ins))
  later-GoesOn s ins i h = stays s _ i (fire-IsReady s ins h)

  -- An outcome that is known.
  pub goes :
      (s s' : Service) (es : List ServiceEffect) {o : Outcome ⊥ (Service × List ServiceEffect)}
      → o ≡ ok (s', es)
      → (HasCfg s → HasCfg s')
      → ServInv s'
      → All (IsReady s') es
      → GoesOn s o
  goes s s' es e c i h = (s', es, e, c, i, h)

  auth_json_returns : (r : AuthReq) → (t : List ℕ) × (auth_json r ≡ ok t)
  unfolding auth_json
  auth_json_returns r = through _ (format_macs r) (format_macs-listed r)
    where
      through :
          (f : List ℕ → List ℕ) (o : Outcome ⊥ (List ℕ)) {m : List ℕ}
          → o ≡ ok m
          → (t : List ℕ) × ((do macs ← o; ok (f macs)) ≡ ok t)
      through f o {m} e = (f m, rw e refl)

  pub asked :
      (s : Service)
      → env.is_url server_url ≡ true
      → s.is_upgrading ≡ false
      → (a d : List ℕ) × (do_auth env s ≡ ok (auth_request a d ∷ []))
  unfolding do_auth
  asked s k u =
      let r : AuthReq = record {
        uuid = s.uuid;
        current_version = env.version;
        arch = env.arch;
        macs = fetch_all_macs env.show_mac env.mac_addresses;
      } in
      let (t, e) = auth_json_returns r in
      (
        t,
        if ltb 0 (length s.default_dns_server) then s.default_dns_server else default_server,
        simp (u, k, e) refl,
      )

  pub do_auth-GoesOn :
      (s : Service)
      → env.is_url server_url ≡ true
      → ServInv s
      → GoesOn s (do es ← do_auth env s; ok (s, es))
  do_auth-GoesOn s k i = elim (Bool-cases s.is_upgrading) [
    | inl u ↦
        goes s s (post_later 30 auth ∷ []) (unfold do_auth in simp u refl) (λ c. c) i
          (IsFree-IsReady s (post_later 30 auth ∷ []) (refl, tt))
    | inr u ↦
        let (a, d, e) = asked s k u in
        goes s s (auth_request a d ∷ []) (rw e refl) (λ c. c) i
          (IsFree-IsReady s (auth_request a d ∷ []) (refl, tt))
  ]

  pub start_sub-GoesOn :
      (s : Service) → HasCfg s → ServInv s → GoesOn s (do_start_subservices env s)
  start_sub-GoesOn s (cfg, e) i =
      let (tx, t) = i.has_tx in
      let s' = record s { domains = none } in
      let es =
        sys set_ipset ∷ start_threads tx cfg (take_domains env s.domains) ∷ sys uci_me ∷ [] in
      goes s s' es (unfold do_start_subservices in simp (e, t) refl) (λ c. c)
        (record { whole = i.whole; has_tx = i.has_tx }) (HasCfg-IsReady s' es (cfg, e))

  pub monitor_fires-GoesOn :
      (s : Service) → HasCfg s → ServInv s → GoesOn s (do es ← monitor_fires env s; ok (s, es))
  monitor_fires-GoesOn s (cfg, e) i =
      let es =
        if ltb 0 (length cfg.cfg_monitor_url)
        then fire_instruction env s server_cfg_monitor
        else [] in
      goes s s es (unfold monitor_fires in simp e refl) (λ c. c) i (HasCfg-IsReady s es (cfg, e))

  pub threads_started-GoesOn :
      (s : Service) (cs : Option (List SubServiceCtl)) (trigger : ℕ)
      → HasCfg s
      → ServInv s
      → ((l : List SubServiceCtl) → cs ≡ some l → All IsWhole l)
      → GoesOn s (threads_started env s cs trigger)
  unfolding threads_started
  threads_started-GoesOn s none trigger c i w =
      stays s (post_later 5 auth ∷ []) i (HasCfg-IsReady s (post_later 5 auth ∷ []) c)
  threads_started-GoesOn s (some cs) trigger (cfg, e) i w =
      let s' = record s {
        subservices = s.subservices ++ reverse cs;
        state = state_running;
        monitor_trigger = some trigger;
      } in
      let es =
        (if cfg.work_as_global then sys set_iptables_rules_for_global else sys set_iptables_rules)
        ∷ sys set_ip_rules
        ∷ monitor_timer
        ∷ [] in
      goes s s' es (unfold config_sys in simp e refl) (λ c. c)
        (record {
          whole =
              All-append IsWhole s.subservices (reverse cs) i.whole
                (All-reverse_aux cs [] (w cs refl) tt);
          has_tx = i.has_tx;
        })
        (HasCfg-IsReady s' es (cfg, e))

  pub do_restart-GoesOn :
      (s : Service) (tx trigger : ℕ)
      → ((h : ℕ) → env.panicked h ≡ false)
      → ServInv s
      → GoesOn s (do_restart env s tx trigger)
  unfolding restore_sys
  do_restart-GoesOn s tx trigger sound i =
      let s' = record s {
        state = state_starting;
        subservices = [];
        ins_tx = some tx;
        monitor_trigger = none;
        instruction_trigger = some trigger;
      } in
      let ended = map of_sub (stops_of env.alive s.subservices ++ joins_of s.subservices) in
      (
        s',
        restart_effects env s tx,
        do_restart_lem env s tx trigger sound i.whole,
        λ c. c,
        record { whole = tt; has_tx = (tx, refl) },
        IsFree-IsReady s' (restart_effects env s tx) (
            All-append IsFree (ended ++ restore_sys s) _
              (All-append IsFree ended (restore_sys s) (of_sub-IsFree _)
                (refl, (refl, (refl, (refl, (refl, tt))))))
              (refl, begun (env.alive tx))),
      )
    where
      begun : (b : Bool) → All IsFree (if b then fired tx auth ∷ [] else [])
      begun true = (refl, tt)
      begun false = tt
