-- ===== src/Service/Control.antt =====
-- src/service/service.rs: `Service`, by its methods and by what its tasks do when they are done. A
-- method returns the new state and what it does outside.
pub mod Requests
pub mod Lifecycle
use lproxy_cv.Prelude.{
  ℕ, ◌+◌, Bool, true, false, ◌&&◌, ◌||◌, not, Option, none, some, List, [], ◌∷◌, ◌++◌, map, reverse,
  ltb, ◌==◌, if◌then◌else◌, length, codes, same,
}
use lproxy_cv.Prelude.Outcome.{Outcome, ok, panic, unwrap, ◌>>=◌}
use lproxy_cv.Config.Tuncfg.{TunCfg, default_server, without_port}
use lproxy_cv.Service.Acclog
use lproxy_cv.Service.Subservice.{
  SubServiceCtl, SubServiceCtlCmd, domains_update, tuncfg_update, SubServiceType, forwarder,
  tun_mgr, reg_mgr, xtunnel, udpx, SubEffect, send_cmd, cleanup_subservices,
}
use lproxy_cv.Service.State.{
  Instruction, auth, start_sub_services, server_cfg_monitor, state_stopped, state_starting,
  state_running, FilePath, Service, uci_default, uci_me, set_ipset, unset_ipset, set_iptables_rules,
  set_iptables_rules_for_global, unset_iptables_rules, unset_iptables_rules_for_global,
  set_ip_rules, unset_ip_rules, ServiceEffect, fired, post_later, start_threads, monitor_timer,
  of_sub, sys, Environment,
}

unfoldable pub new : List ℕ → List ℕ → Service
new uuid hardcore_dns = record {
  state = state_stopped;
  subservices = [];
  ins_tx = none;
  tuncfg = none;
  monitor_trigger = none;
  instruction_trigger = none;
  domains = none;
  is_upgrading = false;
  uuid = uuid;
  default_dns_server =
      if ltb 0 (length hardcore_dns) then without_port hardcore_dns else default_server;
  user_specify_dns_server = ltb 0 (length hardcore_dns);
  acc_log = Acclog.new;
}

unfoldable pub replace_user_default_dns_server : Service → TunCfg → TunCfg
replace_user_default_dns_server s cfg =
    if s.user_specify_dns_server
    then record cfg { default_dns_server = s.default_dns_server }
    else cfg

unfoldable pub restore_sys : Service → List ServiceEffect
restore_sys s =
    sys unset_iptables_rules
    ∷ sys unset_iptables_rules_for_global
    ∷ sys unset_ip_rules
    ∷ sys unset_ipset
    ∷ sys (uci_default s.default_dns_server)
    ∷ []

unfoldable pub config_sys : Service → Outcome ⊥ (List ServiceEffect)
config_sys s = do
  tuncfg ← unwrap s.tuncfg
  ok (
      (if tuncfg.work_as_global then sys set_iptables_rules_for_global else sys set_iptables_rules)
      ∷ sys set_ip_rules
      ∷ [])

beside : FilePath → List ℕ → Bool → Option (FilePath × FilePath)
beside above other false = none
beside above other true = some (codes "lproxy-cv" ∷ other ∷ above, codes "lps.sh" ∷ above)

-- The program's file and the script, in the directory beside the program's own: `a` for `b` and the
-- other way round. `parent` of the root panics.
unfoldable pub get_upgrade_target_filepath :
    FilePath → Bool → Outcome ⊥ (Option (FilePath × FilePath))
unfolding beside
get_upgrade_target_filepath [] dir_exists = panic
get_upgrade_target_filepath (exe ∷ []) dir_exists = ok none
get_upgrade_target_filepath (exe ∷ dir ∷ above) dir_exists = ok (
    if same dir (codes "b")
    then beside above (codes "a") dir_exists
    else if same dir (codes "a")
    then beside above (codes "b") dir_exists
    else none)

module _ (env : Environment) where
  open env use {alive, panicked}

  fire_on : Option ℕ → Instruction → List ServiceEffect
  fire_on none ins = []
  fire_on (some tx) ins = if alive tx then fired tx ins ∷ [] else []

  unfoldable pub fire_instruction : Service → Instruction → List ServiceEffect
  unfolding fire_on
  fire_instruction s ins = fire_on s.ins_tx ins

  -- The channel and the trigger that it makes are arguments.
  unfoldable pub start : Service → ℕ → ℕ → Outcome ⊥ (Service × List ServiceEffect)
  start s tx trigger =
      if s.state == state_stopped
      then (let s1 = record s {
        state = state_starting;
        instruction_trigger = some trigger;
        ins_tx = some tx;
      } in
          ok (s1, sys (uci_default s.default_dns_server) ∷ fire_instruction s1 auth))
      else panic

  unfoldable pub stop : Service → Outcome ⊥ (Service × List ServiceEffect)
  stop s = do
    (subservices, ended) ← cleanup_subservices alive panicked s.subservices
    ok (
      record s {
        state = state_stopped;
        monitor_trigger = none;
        instruction_trigger = none;
        subservices = [];
      },
      map of_sub ended ++ restore_sys s,
    )

  unfoldable pub do_restart : Service → ℕ → ℕ → Outcome ⊥ (Service × List ServiceEffect)
  do_restart s tx trigger = do
    (s1, ended) ← stop s
    (s2, begun) ← start s1 tx trigger
    ok (s2, ended ++ begun)

  take_domains : Option (List (List ℕ)) → List (List ℕ)
  take_domains none = []
  take_domains (some domains) = domains

  unfoldable pub do_start_subservices : Service → Outcome ⊥ (Service × List ServiceEffect)
  unfolding take_domains
  do_start_subservices s = do
    cfg ← unwrap s.tuncfg
    service_tx ← unwrap s.ins_tx
    ok (
      record s { domains = none },
      sys set_ipset ∷ start_threads service_tx cfg (take_domains s.domains) ∷ sys uci_me ∷ [],
    )

  -- What `start_subservice` came to; the trigger of the timer is an argument.
  unfoldable pub threads_started :
      Service → Option (List SubServiceCtl) → ℕ → Outcome ⊥ (Service × List ServiceEffect)
  threads_started s none trigger = ok (s, post_later 5 auth ∷ [])
  threads_started s (some subservices) trigger = do
    let s1 = record s { subservices = s.subservices ++ reverse subservices; state = state_running }
    rules ← config_sys s1
    ok (record s1 { monitor_trigger = some trigger }, rules ++ (monitor_timer ∷ []))

  -- The timer fires.
  unfoldable pub monitor_fires : Service → Outcome ⊥ (List ServiceEffect)
  monitor_fires s = do
    cfg ← unwrap s.tuncfg
    ok (if ltb 0 (length cfg.cfg_monitor_url) then fire_instruction s server_cfg_monitor else [])

  told : Option ℕ → SubServiceCtlCmd → List ServiceEffect
  told none cmd = []
  told (some tx) cmd = map of_sub (send_cmd alive tx cmd)

  is_forwarder : SubServiceType → Bool
  is_forwarder forwarder = true
  is_forwarder _ = false

  is_tun_mgr : SubServiceType → Bool
  is_tun_mgr tun_mgr = true
  is_tun_mgr _ = false

  -- The first forwarder with a channel.
  unfoldable pub notify_forwarder_update_domains :
      List SubServiceCtl → List (List ℕ) → List ServiceEffect
  unfolding told is_forwarder
  notify_forwarder_update_domains [] domains = []
  notify_forwarder_update_domains (ss ∷ subservices) domains =
      let rest = notify_forwarder_update_domains subservices domains in
      elim ss.ctl_tx [
        | none ↦ rest
        | some tx ↦ if is_forwarder ss.sstype then told (some tx) (domains_update domains) else rest
      ]

  -- All tunnel managers with a channel.
  unfoldable pub notify_subservice_update_cfg : List SubServiceCtl → TunCfg → List ServiceEffect
  unfolding told is_tun_mgr
  notify_subservice_update_cfg [] tuncfg = []
  notify_subservice_update_cfg (ss ∷ subservices) tuncfg =
      (if is_tun_mgr ss.sstype then told ss.ctl_tx (tuncfg_update tuncfg) else [])
      ++ notify_subservice_update_cfg subservices tuncfg
