-- ===== src/Service/Control/Requests/Replies.antt =====
-- How a new service comes to its configuration and runs.
use lproxy_cv.Prelude.{
  ◌++◌, Bool, Option, ◌==◌, ltb, map, first_part, ℕ, ◌≡◌, refl, false, none, some, List, [], ◌∷◌,
  length,
}
use lproxy_cv.Prelude.Outcome.{Outcome, ok, ◌>>=◌}
use lproxy_cv.Tunnels.Frames.{IpAddr}
use lproxy_cv.Config.Tuncfg.{TunCfg, AuthResp, Json}
use lproxy_cv.Htp.Http.{HttpResponse}
use lproxy_cv.Service.Subservice.{SubServiceCtl, tunnels_per_mgr, start_subservice}
use lproxy_cv.Service.Subservice.Threads.{Thread, tunmgr_threads, other_threads}
use lproxy_cv.Service.Control.Requests.Handlers.{asked}
use lproxy_cv.Service.State.{start_sub_services, start_threads, Service, ServiceEffect, Environment}
use lproxy_cv.Service.Control.{
  replace_user_default_dns_server, start, threads_started, fire_instruction,
}
use lproxy_cv.Service.Control.Requests.{
  do_auth, save_cfg, configured, to_configure, auth_parsed, auth_replied, parse_auth_reply,
  process_instruction,
}

-- The DNS server of a service: the user's, without a port, if there is one.
abbrev pub server_of : List ℕ → List ℕ → List ℕ
server_of [] given = given
server_of (b ∷ bs) given = first_part 58 (b ∷ bs)

-- The threads of a configuration: the tunnel managers, then the others.
abbrev pub threads_of : ℕ → TunCfg → List (List ℕ) → List Thread
threads_of cpus cfg domains =
    let ms = tunmgr_threads cpus 0 (tunnels_per_mgr cfg cpus) in
    ms ++ other_threads cpus (ltb 0 (length cfg.xport_url)) domains (map (λ t. t.0) ms)

module _ (env : Environment) where
  module _ {Value : Type 0} (json : Json Value) where
    abbrev pub with_cfg : Service → TunCfg → List (List ℕ) → Service
    with_cfg s cfg domains = record s {
      domains = some domains;
      tuncfg = some (replace_user_default_dns_server s (record cfg { domain_array = none }));
    }

    -- A configuration without an upgrade is kept, with its domains beside it, and the start of the
    -- subservices is fired.
    pub configured_lem :
        (s : Service) (response : HttpResponse) (rsp : AuthResp) (cfg : TunCfg)
        (domains : List (List ℕ))
        → parse_auth_reply env json response ≡ ok (some rsp)
        → rsp.error ≡ 0
        → rsp.need_upgrade ≡ false
        → rsp.tuncfg ≡ some cfg
        → cfg.domain_array ≡ some domains
        → auth_replied env json s (some response)
          ≡ ok (with_cfg s cfg domains, fire_instruction env s start_sub_services)
    unfolding auth_replied auth_parsed to_configure configured save_cfg fire_instruction
        replace_user_default_dns_server
    configured_lem s response rsp cfg domains r e n t d = simp (r, e, n, t, d) refl

    -- A response that brings no configuration, and asks for no upgrade.
    pub data Useless : Option HttpResponse → Type 0 where
      no_response : Useless none
      unreadable :
          (response : HttpResponse)
          → parse_auth_reply env json response ≡ ok none
          → Useless (some response)
      refused :
          (response : HttpResponse) (rsp : AuthResp)
          → parse_auth_reply env json response ≡ ok (some rsp)
          → (rsp.error == 0) ≡ false
          → Useless (some response)
      no_cfg :
          (response : HttpResponse) (rsp : AuthResp)
          → parse_auth_reply env json response ≡ ok (some rsp)
          → rsp.error ≡ 0
          → rsp.need_upgrade ≡ false
          → rsp.tuncfg ≡ none
          → Useless (some response)

    -- Requests one after the other, each with the response to it.
    abbrev pub attempts :
        Service → List (Option HttpResponse) → Outcome ⊥ (Service × List ServiceEffect)
    attempts s [] = ok (s, [])
    attempts s (response ∷ rs) = do
      asked ← do_auth env s
      (s1, es) ← auth_replied env json s response
      (s2, more) ← attempts s1 rs
      ok (s2, asked ++ (es ++ more))

    -- The threads that the first start among the effects begins.
    abbrev pub begin_threads :
        (ℕ → Option Bool) → ℕ → List ServiceEffect → Outcome ⊥ (Option (List SubServiceCtl))
    begin_threads init cpus (first ∷ start_threads tx cfg domains ∷ es) = do
      (cs, done) ← start_subservice env.alive env.panicked init cpus cfg domains
      ok cs
    begin_threads init cpus es = ok none

    -- The service is started, asks until a response is useful, processes the instruction that this
    -- fires, and its threads are started.
    abbrev pub first_run :
        (ℕ → Option Bool)
        → ℕ
        → (IpAddr → List ℕ)
        → ℕ
        → ℕ
        → ℕ
        → Service
        → List (Option HttpResponse)
        → HttpResponse
        → Outcome ⊥ (Service × List ServiceEffect)
    first_run init cpus show_ip tx trigger1 trigger2 s rs response = do
      (s1, e1) ← start env s tx trigger1
      (s2, e2) ← attempts s1 rs
      asked_last ← do_auth env s2
      (s3, e3) ← auth_replied env json s2 (some response)
      (s4, e4) ← process_instruction env show_ip tx trigger1 s3 start_sub_services
      cs ← begin_threads init cpus e4
      (s5, e5) ← threads_started env s4 cs trigger2
      ok (s5, e3)
