-- ===== src/Service/Control/Lifecycle.antt =====
-- How a service starts, restarts and stops.
use lproxy_cv.Prelude.{
  ℕ, ◌≡◌, refl, Bool, false, none, some, List, [], ◌∷◌, ◌++◌, map, reverse, All, if◌then◌else◌,
}
use lproxy_cv.Prelude.Outcome.{ok, ◌>>=◌}
use lproxy_cv.Config.Tuncfg.{TunCfg}
use lproxy_cv.Service.Subservice.{
  SubServiceCtl, SubEffect, stop, sent, joined, send_cmd, send_stops, join_all, cleanup_subservices,
}
use lproxy_cv.Service.State.{
  auth, state_starting, state_running, Service, ServiceEffect, uci_default, set_iptables_rules,
  set_iptables_rules_for_global, set_ip_rules, fired, monitor_timer, of_sub, sys, Environment,
}
use lproxy_cv.Service.Control.{
  new, replace_user_default_dns_server, get_upgrade_target_filepath, restore_sys, config_sys,
  fire_instruction, start, do_restart, do_start_subservices, threads_started,
}
use lproxy_cv.Service.Control

-- A subservice that runs: its thread can be waited for, and its channel is there.
abbrev pub IsWhole : SubServiceCtl → Type 0
IsWhole c = (h : ℕ) × (tx : ℕ) × (c.handler ≡ some h) × (c.ctl_tx ≡ some tx)

abbrev pub stops_of : (ℕ → Bool) → List SubServiceCtl → List SubEffect
stops_of alive [] = []
stops_of alive (c ∷ cs) =
    elim c.ctl_tx [ none ↦ [] | some tx ↦ if alive tx then sent tx stop ∷ [] else [] ]
    ++ stops_of alive cs

abbrev pub joins_of : List SubServiceCtl → List SubEffect
joins_of [] = []
joins_of (c ∷ cs) = elim c.handler [ none ↦ [] | some h ↦ joined h ∷ [] ] ++ joins_of cs

module _ (alive : ℕ → Bool) (panicked : ℕ → Bool) (sound : (h : ℕ) → panicked h ≡ false) where
  untold : SubServiceCtl → SubServiceCtl
  untold c = record c { ctl_tx = none }

  send_stops-whole :
      (cs : List SubServiceCtl)
      → All IsWhole cs
      → send_stops alive cs ≡ ok (map untold cs, stops_of alive cs)
  unfolding send_stops send_cmd untold
  send_stops-whole [] w = refl
  send_stops-whole (c ∷ cs) ((h, tx, eh, et), w) = rw (et, send_stops-whole cs w)

  join_all-whole :
      (cs : List SubServiceCtl)
      → All IsWhole cs
      → (cs' : List SubServiceCtl) × (join_all alive panicked (map untold cs)
          ≡ ok (cs', joins_of cs))
  unfolding join_all untold
  join_all-whole [] w = ([], refl)
  join_all-whole (c ∷ cs) ((h, tx, eh, et), w) =
      let (cs', e) = join_all-whole cs w in
      (record c { handler = none; ctl_tx = none } ∷ cs', rw (eh, sound h, e))

  pub cleanup-whole :
      (cs : List SubServiceCtl)
      → All IsWhole cs
      → (cs' : List SubServiceCtl) × (cleanup_subservices alive panicked cs
          ≡ ok (cs', stops_of alive cs ++ joins_of cs))
  unfolding cleanup_subservices
  cleanup-whole cs w = let (cs', e) = join_all-whole cs w in (cs', rw (send_stops-whole cs w, e))

module _ (env : Environment) where
  -- What a restart does: all the threads are told to stop, then waited for, the system is restored,
  -- and the service starts anew.
  abbrev pub restart_effects : Service → ℕ → List ServiceEffect
  restart_effects s tx =
      (map of_sub (stops_of env.alive s.subservices ++ joins_of s.subservices) ++ restore_sys s)
      ++ (sys (uci_default s.default_dns_server)
          ∷ (if env.alive tx then fired tx auth ∷ [] else []))

  -- A service whose subservices run, and whose threads do not end by a panic, restarts without a
  -- panic, in whatever state it is: `restart_effects` says what it does. It has then no subservice
  -- and no timer, is starting, and keeps its configuration.
  pub do_restart_lem :
      (s : Service) (tx trigger : ℕ)
      → ((h : ℕ) → env.panicked h ≡ false)
      → All IsWhole s.subservices
      → do_restart env s tx trigger
        ≡ ok (
          record s {
            state = state_starting;
            subservices = [];
            ins_tx = some tx;
            monitor_trigger = none;
            instruction_trigger = some trigger;
          },
          restart_effects s tx,
        )
  unfolding do_restart start Control.stop fire_instruction
  do_restart_lem s tx trigger sound w =
      let (cs', e) = cleanup-whole env.alive env.panicked sound s.subservices w in rw e refl

  -- A service that is stopped while its threads are being started runs again as soon as they are:
  -- it keeps them, and has no instruction trigger. Its subservices so far run, no thread ends by a
  -- panic, and it has a configuration.
  pub stopped_runs_again :
      (s : Service) (cfg : TunCfg) (cs : List SubServiceCtl) (trigger : ℕ)
      → ((h : ℕ) → env.panicked h ≡ false)
      → All IsWhole s.subservices
      → s.tuncfg ≡ some cfg
      → (s' : Service) × (effects : List ServiceEffect) × ((do
        (s1, ended) ← Control.stop env s
        threads_started env s1 (some cs) trigger)
          ≡ ok (s', effects))
        × (s'.state ≡ state_running)
        × (s'.subservices ≡ reverse cs)
        × (s'.instruction_trigger ≡ none)
  unfolding Control.stop threads_started config_sys
  stopped_runs_again s cfg cs trigger sound w c =
      let (cs', e) = cleanup-whole env.alive env.panicked sound s.subservices w in
      (
        record s {
          state = state_running;
          subservices = reverse cs;
          monitor_trigger = some trigger;
          instruction_trigger = none;
        },
        (if cfg.work_as_global then sys set_iptables_rules_for_global else sys set_iptables_rules)
            ∷ sys set_ip_rules
            ∷ monitor_timer
            ∷ [],
        rw (e, c),
        refl,
        refl,
        refl,
      )
