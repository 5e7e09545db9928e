-- ===== src/Service/Control/Requests/Replied.antt =====
-- The replies of the server, where their panics cannot happen.
use lproxy_cv.Prelude.{
  ℕ, ◌≡◌, refl, ap, ◌∙◌, inl, inr, Bool, true, false, ◌&&◌, ◌||◌, not, Option, none, some, List, [],
  ◌∷◌, ◌++◌, All-append, Bool-cases, Option-cases, ltb, ◌==◌, length, codes,
}
use lproxy_cv.Prelude.Outcome.{Outcome, ok, ◌>>=◌}
use lproxy_cv.Config.Tuncfg.{TunCfg, AuthResp, Json, monitor_json}
use lproxy_cv.Config.Tuncfg.Replies.{UsableIn, IsUsable, from_json_str-UsableIn}
use lproxy_cv.Htp.Http.{HttpResponse}
use lproxy_cv.Service.Acclog
use lproxy_cv.Service.State.{
  auth, start_sub_services, Service, ServiceEffect, post_later, monitor_request, Environment,
  FilePath,
}
use lproxy_cv.Service.Control.{replace_user_default_dns_server, fire_instruction}
use lproxy_cv.Service.Control.Requests.{
  save_cfg, report_by, do_access_report, do_cfg_monitor, parse_auth_reply, configured, retried,
  to_configure, auth_parsed, auth_replied, updated, monitor_parsed, monitor_replied,
}
use lproxy_cv.Service.Control.Requests.Handlers.{
  HasCfg, ServInv, GoesOn, IsReady, IsFree-IsReady, HasCfg-IsReady, fire-IsReady, goes, stays,
}
use lproxy_cv.Service.Control.Requests.Downloads.{kept, upgrade-GoesOn}

module _ (env : Environment) where
  module _ (exe : List ℕ) (rest : FilePath) (place : env.current_exe ≡ exe ∷ rest) where
    module _ {Value : Type 0} (json : Json Value) where
      parse_returns :
          (response : HttpResponse)
          → (r : Option AuthResp) × (parse_auth_reply env json response ≡ ok r) × UsableIn r
      unfolding parse_auth_reply
      parse_returns response = elim (Bool-cases (response.status == 200)) [
        | inr e ↦ (none, simp e refl, tt)
        | inl e ↦ elim (Option-cases response.body) [
          | inl n ↦ (none, simp (e, n) refl, tt)
          | inr (body, n) ↦
              let (r, p, u) = from_json_str-UsableIn json (env.lossy body) in (r, simp (e, n) p, u)
        ]
      ]

      retried-GoesOn :
          (s : Service) (o : Outcome ⊥ (Service × List ServiceEffect))
          → GoesOn s o
          → GoesOn s (retried env json o)
      unfolding retried
      retried-GoesOn s o (s', es, e, c, i, r) = (
        s',
        es ++ (post_later 30 auth ∷ []),
        rw e refl,
        c,
        i,
        All-append (IsReady s') es (post_later 30 auth ∷ []) r
            (IsFree-IsReady s' (post_later 30 auth ∷ []) (refl, tt)),
      )

      configured-GoesOn :
          (s : Service) (cfg : TunCfg)
          → IsUsable cfg
          → ServInv s
          → GoesOn s (configured env json s cfg)
      unfolding configured save_cfg
      configured-GoesOn s cfg u i =
          let (domains, e) = u.has_domains in
          let s1 = record s { domains = some domains } in
          let kept_cfg = replace_user_default_dns_server s1 (record cfg { domain_array = none }) in
          let s' = record s1 { tuncfg = some kept_cfg } in
          goes env s s' (fire_instruction env s' start_sub_services) (simp e refl)
            (λ c. (kept_cfg, refl)) (kept i refl refl)
            (fire-IsReady env s' start_sub_services (λ n. (kept_cfg, refl)))

      to_configure-GoesOn :
          (s : Service) (o : Option TunCfg)
          → ((cfg : TunCfg) → o ≡ some cfg → IsUsable cfg)
          → ServInv s
          → GoesOn s (to_configure env json s o)
      unfolding to_configure
      to_configure-GoesOn s none u i = retried-GoesOn s _ (stays env s [] i tt)
      to_configure-GoesOn s (some cfg) u i = configured-GoesOn s cfg (u cfg refl) i

      -- A reply that asks for an upgrade.
      abbrev pub asks_upgrade : AuthResp → Bool
      asks_upgrade rsp = rsp.need_upgrade && ltb 0 (length rsp.upgrade_url)

      auth_parsed-GoesOn :
          (s : Service) (r : Option AuthResp)
          → UsableIn r
          → ((rsp : AuthResp) → r ≡ some rsp → asks_upgrade rsp ≡ true → HasCfg s)
          → ServInv s
          → GoesOn s (auth_parsed env json s r)
      unfolding auth_parsed
      auth_parsed-GoesOn s none u h i = retried-GoesOn s _ (stays env s [] i tt)
      auth_parsed-GoesOn s (some rsp) u h i = elim (Bool-cases (rsp.error == 0)) [
        | inr e ↦ simp e (retried-GoesOn s _ (stays env s [] i tt))
        | inl e ↦ elim (Bool-cases (asks_upgrade rsp)) [
          | inl a ↦
              simp (e, a)
                (retried-GoesOn s _
                  (upgrade-GoesOn env exe rest place s rsp.upgrade_url (h rsp refl a) i))
          | inr a ↦ simp (e, a) (to_configure-GoesOn s rsp.tuncfg u i)
        ]
      ]

      -- Whatever the reply is, unless it asks for an upgrade before there is a configuration.
      pub auth_replied-GoesOn :
          (s : Service) (response : Option HttpResponse)
          → ((given : HttpResponse) (rsp : AuthResp)
              → response ≡ some given
              → parse_auth_reply env json given ≡ ok (some rsp)
              → asks_upgrade rsp ≡ true
              → HasCfg s)
          → ServInv s
          → GoesOn s (auth_replied env json s response)
      unfolding auth_replied
      auth_replied-GoesOn s none h i =
          stays env s (post_later 15 auth ∷ []) i
            (IsFree-IsReady s (post_later 15 auth ∷ []) (refl, tt))
      auth_replied-GoesOn s (some response) h i =
          let (r, p, u) = parse_returns response in
          rw p (auth_parsed-GoesOn s r u (λ rsp e a. h response rsp refl (p ∙ ap ok e) a) i)

      updated-keeps :
          (s : Service) (o : Option TunCfg)
          → HasCfg s
          → ServInv s
          → HasCfg (updated env json s o).0 × ServInv (updated env json s o).0
      unfolding updated save_cfg
      updated-keeps s none c i = (c, i)
      updated-keeps s (some cfg) c i = ((_, refl), kept i refl refl)

      then_more :
          (s s1 : Service) (notices : List ServiceEffect)
          (o : Outcome ⊥ (Service × List ServiceEffect))
          → HasCfg s1
          → GoesOn s1 o
          → GoesOn s (do (s2, more) ← o; ok (s2, notices ++ more))
      then_more s s1 notices o c (s', es, e, k, i, r) =
          (s', notices ++ es, rw e refl, λ _. k c, i, HasCfg-IsReady s' (notices ++ es) (k c))

      monitor_parsed-GoesOn :
          (s : Service) (r : Option AuthResp)
          → HasCfg s
          → ServInv s
          → GoesOn s (monitor_parsed env json s r)
      unfolding monitor_parsed
      monitor_parsed-GoesOn s none c i = stays env s [] i tt
      monitor_parsed-GoesOn s (some rsp) c i =
          let (c1, i1) = updated-keeps s rsp.tuncfg c i in
          let s1 = (updated env json s rsp.tuncfg).0 in
          elim (Bool-cases (rsp.error == 0)) [
            | inr e ↦ simp e (stays env s [] i tt)
            | inl e ↦ simp e (
                then_more s s1 _ _ c1 (elim (Bool-cases (asks_upgrade rsp)) [
                  | inl a ↦ simp a (upgrade-GoesOn env exe rest place s1 rsp.upgrade_url c1 i1)
                  | inr a ↦ simp a (stays env s1 _ i1 (HasCfg-IsReady s1 _ c1))
                ]))
          ]

      pub monitor_replied-GoesOn :
          (s : Service) (response : Option HttpResponse)
          → HasCfg s
          → ServInv s
          → GoesOn s (monitor_replied env json s response)
      unfolding monitor_replied
      monitor_replied-GoesOn s none c i = stays env s [] i tt
      monitor_replied-GoesOn s (some response) c i =
          let (r, p, u) = parse_returns response in rw p (monitor_parsed-GoesOn s r c i)

  report_by-keeps :
      (s : Service) (cfg : TunCfg) (url : List ℕ) (a b : Bool)
      → HasCfg s
      → ServInv s
      → HasCfg (report_by env s cfg url a b).0 × ServInv (report_by env s cfg url a b).0
  unfolding report_by
  report_by-keeps s cfg url true b c i = (c, kept i refl refl)
  report_by-keeps s cfg url false true c i = (c, i)
  report_by-keeps s cfg url false false c i = (c, kept i refl refl)

  access_report-GoesOn : (s : Service) → HasCfg s → ServInv s → GoesOn s (do_access_report env s)
  unfolding do_access_report
  access_report-GoesOn s (cfg, e) i =
      let url = cfg.cfg_access_report_url ++ (codes "?tok=" ++ cfg.token) in
      let r =
        report_by env s cfg url (ltb (length url) 1 || ltb (length cfg.token) 1)
          (Acclog.is_empty s.acc_log) in
      let (c, j) =
        report_by-keeps s cfg url (ltb (length url) 1 || ltb (length cfg.token) 1)
          (Acclog.is_empty s.acc_log) (cfg, e) i in
      goes env s r.0 r.1 (simp e refl) (λ _. c) j (HasCfg-IsReady r.0 r.1 c)

  pub do_cfg_monitor-GoesOn : (s : Service) → HasCfg s → ServInv s → GoesOn s (do_cfg_monitor env s)
  unfolding do_cfg_monitor
  do_cfg_monitor-GoesOn s (cfg, e) i =
      let url = cfg.cfg_monitor_url ++ (codes "?tok=" ++ cfg.token) in
      elim (Bool-cases (ltb (length url) 1 || ltb (length cfg.token) 1 || not (env.is_url url))) [
        | inl n ↦ goes env s s [] (simp (e, n) refl) (λ c. c) i tt
        | inr n ↦
            let (s', es, a, k, j, r) = access_report-GoesOn s (cfg, e) i in
            let body = monitor_json (record {
              current_version = env.version;
              domains_ver = cfg.domains_ver;
              arch = env.arch;
            }) in
            let es' = monitor_request url body cfg.default_dns_server ∷ es in
            goes env s s' es' (simp (e, n, a) refl) k j (HasCfg-IsReady s' es' (k (cfg, e)))
      ]
