-- ===== src/Witnesses/Control.antt =====
-- The theorems on the service, its threads and the responses, at a small environment.
use lproxy_cv.Prelude.{
  ℕ, ◌≡◌, refl, Bool, true, false, ◌&&◌, if◌then◌else◌, Option, none, some, List, [], ◌∷◌, ◌++◌,
  map, arith, ltb, length, codes, same, position, starts_with,
}
use lproxy_cv.Prelude.Outcome.{ok, ◌>>=◌}
use lproxy_cv.Tunnels.Frames.{IpAddr}
use lproxy_cv.Config.Tuncfg.{TunCfg, AuthResp, tuncfg_of}
use lproxy_cv.Htp.Http.{HttpResponse, mentions, parse}
use lproxy_cv.Htp.Http.Responses.{status_line, parse_ok}
use lproxy_cv.Service.Subservice.{SubServiceCtl, tun_mgr, tunnels_per_mgr, start_subservice}
use lproxy_cv.Service.Subservice.Threads.{all_ready, tunmgr_threads, other_threads}
use lproxy_cv.Service.Subservice.Started.{begun_with, comes_to, start_subservice_lem}
use lproxy_cv.Service.Subservice.Threads
use lproxy_cv.Service.State.{
  auth, state_starting, state_running, fired, sys, uci_default, Service, ServiceEffect, Environment,
}
use lproxy_cv.Service.Control.{
  new, replace_user_default_dns_server, start, do_restart, threads_started, fire_instruction,
}
use lproxy_cv.Service.Control
use lproxy_cv.Service.Control.Lifecycle.{restart_effects, do_restart_lem, stopped_runs_again}
use lproxy_cv.Service.Control.Requests.{process_instruction}
use lproxy_cv.Service.Control.Requests.Runs.{processed, begun, reachable_goes_on}
use lproxy_cv.Witnesses.Config.{config, json, reply_bytes}

abbrev env : Environment
env = record {
  is_url = λ s. true;
  lossy = λ l. l;
  version = codes "0.1.0";
  arch = codes "mips";
  mac_addresses = [];
  show_mac = λ m. m;
  current_exe = codes "lproxy-cv" ∷ codes "a" ∷ codes "opt" ∷ [];
  dir_exists = true;
  write_to_bytes = λ report. [];
  alive = λ tx. true;
  panicked = λ h. false;
}

abbrev show_ip : IpAddr → List ℕ
show_ip ip = []

abbrev response_with : List ℕ → HttpResponse
response_with body = record { status = 200; header = none; body = some body }

abbrev cfg_of : List ℕ → TunCfg
cfg_of s = tuncfg_of json (config s) []

abbrev reply_with_cfg : Bool → List ℕ → AuthResp
reply_with_cfg upgrade s = record {
  error = 0;
  token = [];
  restart = false;
  need_upgrade = upgrade;
  upgrade_url = s;
  tuncfg = some (cfg_of s);
}

abbrev fresh : Service
fresh = new (codes "1") (codes "9.9.9.9")

abbrev ctl : ℕ → SubServiceCtl
ctl n = record { handler = some n; ctl_tx = some n; sstype = tun_mgr }

-- No response, and one that reports an error of the server.
abbrev out_of_service : HttpResponse
out_of_service = record { status = 503; header = none; body = none }

abbrev all_up : ℕ → Option Bool
all_up n = some true

abbrev running : Service
running = record fresh {
  state = state_running;
  subservices = ctl 6 ∷ ctl 7 ∷ [];
  tuncfg = some (cfg_of reply_bytes);
}

do_restart_lem_example :
    do_restart env running 8 9
    ≡ ok (
      record running {
        state = state_starting;
        subservices = [];
        ins_tx = some 8;
        monitor_trigger = none;
        instruction_trigger = some 9;
      },
      restart_effects env running 8,
    )
do_restart_lem_example =
    do_restart_lem env running 8 9 (λ h. refl) ((6, 6, refl, refl), ((7, 7, refl, refl), tt))

stopped_runs_again_example :
    (s' : Service) × (effects : List ServiceEffect) × ((do
      (s1, ended) ← Control.stop env running
      threads_started env s1 (some (ctl 8 ∷ [])) 9)
      ≡ ok (s', effects))
    × (s'.state ≡ state_running)
    × (s'.subservices ≡ ctl 8 ∷ [])
    × (s'.instruction_trigger ≡ none)
stopped_runs_again_example =
    stopped_runs_again env running (cfg_of reply_bytes) (ctl 8 ∷ []) 9 (λ h. refl)
      ((6, 6, refl, refl), ((7, 7, refl, refl), tt)) refl

-- The third thread cannot be started.
abbrev third_fails : ℕ → Option Bool
third_fails n = if ltb n 3 then some true else some false

start_subservice_lem_example :
    let cfg = cfg_of reply_bytes in
    let ms = tunmgr_threads 2 0 (tunnels_per_mgr cfg 2) in
    let os =
      other_threads 2
        (ltb 0 (length cfg.xport_url))
        []
        (map (λ t. t.0) (Threads.started third_fails ms)) in
    start_subservice (λ tx. true) (λ h. false) third_fails 2 cfg []
    ≡ ok (
        comes_to
          (λ tx. true)
          (λ h. false)
          (λ h. refl)
          third_fails
          (begun_with (λ tx. true) (λ h. false) (λ h. refl) third_fails ms os)
          (all_ready third_fails ms && all_ready third_fails os))
start_subservice_lem_example =
    start_subservice_lem (λ tx. true) (λ h. false) (λ h. refl) third_fails 2 (cfg_of reply_bytes) []
      (omega arith)

-- A new service that was started, before its first instruction is processed.
abbrev starting : Service
starting = record fresh { state = state_starting; instruction_trigger = some 4; ins_tx = some 3 }

begun_at :
    start env fresh 3 4
    ≡ ok (starting, sys (uci_default fresh.default_dns_server) ∷ fired 3 auth ∷ [])
unfolding start new fire_instruction
begun_at = refl

reachable_goes_on_example :
    (s' : Service) × (es' : List ServiceEffect) × (process_instruction env show_ip 5 6 starting auth
      ≡ ok (s', es'))
reachable_goes_on_example =
    reachable_goes_on env json show_ip (λ h. refl) refl (codes "lproxy-cv")
      (codes "a" ∷ codes "opt" ∷ []) refl starting _ 1 (fired 3 auth)
      (process_instruction env show_ip 5 6 starting auth)
      (begun (codes "1") (codes "9.9.9.9") 3 4 starting _ begun_at) refl (processed 3 auth 5 6)

abbrev parse_200 : List ℕ → Option ℕ
parse_200 s = if same s (codes "200") then some 200 else none

abbrev ok_head : List ℕ
ok_head = status_line 49 (codes "200") (13 ∷ 10 ∷ codes "Server: x")

parsed_200 : parse_200 (codes "200") ≡ some 200
unfolding same
parsed_200 = refl

one_head : position (13 ∷ 10 ∷ 13 ∷ 10 ∷ []) (ok_head ++ (13 ∷ 10 ∷ 13 ∷ [])) ≡ none
unfolding position starts_with
one_head = refl

no_gzip : mentions parse_200 (λ l. l) (λ l. none) ok_head (codes "gzip") ≡ false
unfolding position starts_with
no_gzip = refl

parse_ok_example :
    parse parse_200 (λ l. l) (λ l. none) (ok_head ++ ((13 ∷ 10 ∷ 13 ∷ 10 ∷ []) ++ (1 ∷ 2 ∷ [])))
    ≡ ok (record { status = 200; header = some ok_head; body = some (1 ∷ 2 ∷ []) })
parse_ok_example =
    parse_ok parse_200 (λ l. l) (λ l. none) 49 50 (48 ∷ 48 ∷ []) (13 ∷ 10 ∷ codes "Server: x")
      (1 ∷ 2 ∷ []) (1 ∷ 2 ∷ []) 200
      ((omega arith, omega arith), ((omega arith, omega arith), ((omega arith, omega arith), tt)))
      parsed_200 one_head refl (rw no_gzip refl)
