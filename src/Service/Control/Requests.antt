-- ===== src/Service/Control/Requests.antt =====
-- src/service/service.rs: what `Service` asks of the server and does with the replies, and the
-- dispatch of the instructions. The values of serde_json are an interface.
pub mod Replies
pub mod Handlers
pub mod Downloads
pub mod Replied
pub mod Runs
use lproxy_cv.Prelude.{
  ℕ, ◌+◌, Bool, true, false, ◌&&◌, ◌||◌, not, Option, none, some, List, [], ◌∷◌, ◌++◌, map, ltb,
  ◌==◌, if◌then◌else◌, length, codes,
}
use lproxy_cv.Prelude.Outcome.{Outcome, ok, panic, unwrap, ensure, ◌>>=◌, ◌>>◌}
use lproxy_cv.Tunnels.Frames.{IpAddr}
use lproxy_cv.Config.Tuncfg.{
  TunCfg, AuthReq, CfgMonitorReq, AuthResp, Json, auth_json, monitor_json, from_json_str,
  server_url, default_server,
}
use lproxy_cv.Htp.Http.{HttpResponse}
use lproxy_cv.Service.Acclog
use lproxy_cv.Service.State.{
  Instruction, auth, start_sub_services, server_cfg_monitor, restart, access_log, dns_add, FilePath,
  Service, ServiceEffect, post_later, auth_request, monitor_request, report_request, download,
  write_file, fileto_excecutable, call_bash_to_restart, Environment,
}
use lproxy_cv.Service.Control.{
  replace_user_default_dns_server, get_upgrade_target_filepath, fire_instruction, do_restart,
  do_start_subservices, notify_forwarder_update_domains, notify_subservice_update_cfg,
}

-- A network card without an address.
is_zero : List ℕ → Bool
is_zero (a ∷ b ∷ c ∷ d ∷ e ∷ f ∷ rest) =
    (a == 0) && (b == 0) && (c == 0) && (d == 0) && (e == 0) && (f == 0)
is_zero _ = false

unfoldable pub fetch_all_macs : (List ℕ → List ℕ) → List (List ℕ) → List (List ℕ)
unfolding is_zero
fetch_all_macs show_mac [] = []
fetch_all_macs show_mac (mac_bytes ∷ addresses) =
    let macs = fetch_all_macs show_mac addresses in
    if is_zero mac_bytes then macs else show_mac mac_bytes ∷ macs

-- The configuration is kept.
unfoldable pub save_cfg : Service → TunCfg → Service
save_cfg s cfg = record s { tuncfg = some cfg }

module _ (env : Environment) where
  open env use {
    is_url, lossy, version, arch, mac_addresses, show_mac, current_exe, dir_exists, write_to_bytes,
  }

  -- The address of the server must be a URL.
  unfoldable pub do_auth : Service → Outcome ⊥ (List ServiceEffect)
  do_auth s = if s.is_upgrading then ok (post_later 30 auth ∷ []) else (do
    let dns_server =
        if ltb 0 (length s.default_dns_server) then s.default_dns_server else default_server
    ensure (is_url server_url)
    arstr ← auth_json (record {
      uuid = s.uuid;
      current_version = version;
      arch = arch;
      macs = fetch_all_macs show_mac mac_addresses;
    })
    ok (auth_request arstr dns_server ∷ []))

  downloading :
      Service → FilePath → FilePath → List ℕ → Bool → Outcome ⊥ (Service × List ServiceEffect)
  downloading s filepath scriptpath url false = ok (record s { is_upgrading = false }, [])
  downloading s filepath scriptpath url true = do
    cfg ← unwrap s.tuncfg
    ok (
      record s { is_upgrading = true },
      download filepath scriptpath url cfg.default_dns_server ∷ [],
    )

  unfoldable pub do_download :
      Service → FilePath → FilePath → List ℕ → Outcome ⊥ (Service × List ServiceEffect)
  unfolding downloading
  do_download s filepath scriptpath url =
      if s.is_upgrading then ok (s, []) else downloading s filepath scriptpath url (is_url url)

  -- To the other directory, if there is one.
  download_to :
      Service → List ℕ → Option (FilePath × FilePath) → Outcome ⊥ (Service × List ServiceEffect)
  download_to s url none = ok (s, [])
  download_to s url (some (filepath, scriptpath)) = do_download s filepath scriptpath url

  unfoldable pub upgrade : Service → List ℕ → Outcome ⊥ (Service × List ServiceEffect)
  unfolding download_to
  upgrade s url = do dir ← get_upgrade_target_filepath current_exe dir_exists; download_to s url dir

  written : FilePath → FilePath → List ℕ → Bool → Bool → List ServiceEffect
  written filepath scriptpath body created done =
      if created
      then (if done
          then write_file filepath body
            ∷ fileto_excecutable filepath
            ∷ call_bash_to_restart scriptpath
            ∷ []
          else write_file filepath body ∷ [])
      else []

  -- What is done with a download: whether the file could be created and written are arguments.
  unfoldable pub downloaded :
      Service
      → FilePath
      → FilePath
      → Option HttpResponse
      → Bool
      → Bool
      → Service × List ServiceEffect
  unfolding written
  downloaded s filepath scriptpath none created done = (record s { is_upgrading = false }, [])
  downloaded s filepath scriptpath (some response) created done = (
    record s { is_upgrading = false },
    elim response.body [
      | none ↦ []
      | some body ↦
          if response.status == 200 then written filepath scriptpath body created done else []
    ],
  )

  unfoldable pub reporting : List ℕ → List ℕ → List ℕ → List ServiceEffect
  reporting url body dns_server = if is_url url then report_request url body dns_server ∷ [] else []

  -- Whether there is no URL or token, and whether there is nothing to report.
  report_by : Service → TunCfg → List ℕ → Bool → Bool → Service × List ServiceEffect
  report_by s cfg url true empty = (record s { acc_log = Acclog.clear_log s.acc_log }, [])
  report_by s cfg url false true = (s, [])
  report_by s cfg url false false = (
    record s { acc_log = Acclog.clear_log s.acc_log },
    reporting url (write_to_bytes (Acclog.dump_to_pb s.acc_log)) cfg.default_dns_server,
  )

  unfoldable pub do_access_report : Service → Outcome ⊥ (Service × List ServiceEffect)
  unfolding report_by
  do_access_report s = do
    cfg ← unwrap s.tuncfg
    let url = cfg.cfg_access_report_url ++ (codes "?tok=" ++ cfg.token)
    ok (
        report_by s cfg url (ltb (length url) 1 || ltb (length cfg.token) 1)
          (Acclog.is_empty s.acc_log))

  -- `None` in `domains_ver` cannot be met: the configuration was read before.
  unfoldable pub do_cfg_monitor : Service → Outcome ⊥ (Service × List ServiceEffect)
  do_cfg_monitor s = do
    cfg ← unwrap s.tuncfg
    let url = cfg.cfg_monitor_url ++ (codes "?tok=" ++ cfg.token)
    let arstr =
        monitor_json
          (record { current_version = version; domains_ver = cfg.domains_ver; arch = arch })
    if ltb (length url) 1 || ltb (length cfg.token) 1 || not (is_url url) then ok (s, []) else (do
      (s1, report) ← do_access_report s
      ok (s1, monitor_request url arstr cfg.default_dns_server ∷ report))

  module _ {Value : Type 0} (json : Json Value) where
    unfoldable pub parse_auth_reply : HttpResponse → Outcome ⊥ (Option AuthResp)
    parse_auth_reply response =
        if response.status == 200
        then elim response.body [ none ↦ ok none | some body ↦ from_json_str json (lossy body) ]
        else ok none

    -- A configuration in the reply to `Auth`.
    unfoldable pub configured : Service → TunCfg → Outcome ⊥ (Service × List ServiceEffect)
    configured s cfg = do
      domains ← unwrap cfg.domain_array
      let s1 = record s { domains = some domains }
      let s2 = save_cfg s1 (replace_user_default_dns_server s1 (record cfg { domain_array = none }))
      ok (s2, fire_instruction env s2 start_sub_services)

    retried : Outcome ⊥ (Service × List ServiceEffect) → Outcome ⊥ (Service × List ServiceEffect)
    retried o = do (s, effects) ← o; ok (s, effects ++ (post_later 30 auth ∷ []))

    to_configure : Service → Option TunCfg → Outcome ⊥ (Service × List ServiceEffect)
    unfolding retried
    to_configure s none = retried (ok (s, []))
    to_configure s (some cfg) = configured s cfg

    auth_parsed : Service → Option AuthResp → Outcome ⊥ (Service × List ServiceEffect)
    unfolding to_configure
    auth_parsed s none = retried (ok (s, []))
    auth_parsed s (some rsp) =
        if rsp.error == 0
        then (if rsp.need_upgrade && ltb 0 (length rsp.upgrade_url)
            then retried (upgrade s rsp.upgrade_url)
            else to_configure s rsp.tuncfg)
        else retried (ok (s, []))

    -- The reply to the request of `do_auth`; `none` is `Err`.
    unfoldable pub auth_replied :
        Service → Option HttpResponse → Outcome ⊥ (Service × List ServiceEffect)
    unfolding auth_parsed
    auth_replied s none = ok (s, post_later 15 auth ∷ [])
    auth_replied s (some response) = do rsp ← parse_auth_reply response; auth_parsed s rsp

    new_domains : Service → Option (List (List ℕ)) → List ServiceEffect
    new_domains s none = []
    new_domains s (some domains) =
        if ltb 0 (length domains)
        then notify_forwarder_update_domains env s.subservices domains
        else []

    updated : Service → Option TunCfg → Service × List ServiceEffect
    unfolding new_domains
    updated s none = (s, [])
    updated s (some cfg) =
        let cfg1 = replace_user_default_dns_server s (record cfg { domain_array = none }) in
        (
          save_cfg s cfg1,
          new_domains s cfg.domain_array ++ notify_subservice_update_cfg env s.subservices cfg1,
        )

    monitor_parsed : Service → Option AuthResp → Outcome ⊥ (Service × List ServiceEffect)
    unfolding updated
    monitor_parsed s none = ok (s, [])
    monitor_parsed s (some rsp) =
        if rsp.error == 0
        then (do
          let (s1, notices) = updated s rsp.tuncfg
          (s2, more) ←
              if rsp.need_upgrade && ltb 0 (length rsp.upgrade_url)
              then upgrade s1 rsp.upgrade_url
              else ok (s1, if rsp.restart then fire_instruction env s1 restart else [])
          ok (s2, notices ++ more))
        else ok (s, [])

    -- The reply to the request of `do_cfg_monitor`; `none` is `Err`.
    unfoldable pub monitor_replied :
        Service → Option HttpResponse → Outcome ⊥ (Service × List ServiceEffect)
    unfolding monitor_parsed
    monitor_replied s none = ok (s, [])
    monitor_replied s (some response) = do rsp ← parse_auth_reply response; monitor_parsed s rsp

  -- The channel and the trigger of a restart, and the text of an address, are arguments.
  unfoldable pub process_instruction :
      (IpAddr → List ℕ) → ℕ → ℕ → Service → Instruction → Outcome ⊥ (Service × List ServiceEffect)
  process_instruction show_ip tx trigger s auth = do effects ← do_auth s; ok (s, effects)
  process_instruction show_ip tx trigger s start_sub_services = do_start_subservices env s
  process_instruction show_ip tx trigger s server_cfg_monitor = do_cfg_monitor s
  process_instruction show_ip tx trigger s restart = do_restart env s tx trigger
  process_instruction show_ip tx trigger s (access_log v) =
      ok (record s { acc_log = Acclog.log show_ip s.acc_log v }, [])
  process_instruction show_ip tx trigger s (dns_add da) =
      ok (record s { acc_log = Acclog.domain_add s.acc_log da }, [])
