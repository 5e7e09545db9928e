-- ===== src/Service/Control/Requests/Downloads.antt =====
-- The downloads, where their panics cannot happen.
use lproxy_cv.Prelude.{
  ℕ, ◌≡◌, refl, sym, ◌∙◌, subst, inl, inr, Bool, true, false, Option, none, some, List, [], ◌∷◌,
  All, Bool-cases, ◌==◌, if◌then◌else◌,
}
use lproxy_cv.Prelude.Outcome.{ok}
use lproxy_cv.Htp.Http.{HttpResponse}
use lproxy_cv.Service.State.{Service, ServiceEffect, download, Environment, FilePath}
use lproxy_cv.Service.Control.{get_upgrade_target_filepath}
use lproxy_cv.Service.Control.Requests.{
  downloading, do_download, download_to, upgrade, written, downloaded,
}
use lproxy_cv.Service.Control.Requests.Handlers.{
  HasCfg, ServInv, GoesOn, IsFree, IsFree-IsReady, HasCfg-IsReady, goes, stays,
}

target_returns :
    (exe : List ℕ) (rest : FilePath) (made : Bool)
    → (o : Option (FilePath × FilePath)) × (get_upgrade_target_filepath (exe ∷ rest) made ≡ ok o)
unfolding get_upgrade_target_filepath
target_returns exe [] made = (none, refl)
target_returns exe (dir ∷ above) made = (_, refl)

-- The same subservices, channel and configuration.
pub kept :
    {s s' : Service}
    → ServInv s
    → s'.subservices ≡ s.subservices
    → s'.ins_tx ≡ s.ins_tx
    → ServInv s'
kept i a b = record { whole = subst (All _) (sym a) i.whole; has_tx = (i.has_tx.0, b ∙ i.has_tx.1) }

module _ (env : Environment) where
  downloading-GoesOn :
      (s : Service) (f g : FilePath) (url : List ℕ) (b : Bool)
      → HasCfg s
      → ServInv s
      → GoesOn s (downloading env s f g url b)
  unfolding downloading
  downloading-GoesOn s f g url false c i =
      goes env s (record s { is_upgrading = false }) [] refl (λ c. c) (kept i refl refl) tt
  downloading-GoesOn s f g url true (cfg, e) i =
      let s' = record s { is_upgrading = true } in
      goes env s s' (download f g url cfg.default_dns_server ∷ []) (simp e refl) (λ c. c)
        (kept i refl refl)
        (HasCfg-IsReady s' (download f g url cfg.default_dns_server ∷ []) (cfg, e))

  do_download-GoesOn :
      (s : Service) (f g : FilePath) (url : List ℕ)
      → HasCfg s
      → ServInv s
      → GoesOn s (do_download env s f g url)
  unfolding do_download
  do_download-GoesOn s f g url c i = elim (Bool-cases s.is_upgrading) [
    | inl u ↦ goes env s s [] (simp u refl) (λ c. c) i tt
    | inr u ↦
        let (s', es, e, k, j, r) = downloading-GoesOn s f g url (env.is_url url) c i in
        (s', es, simp u e, k, j, r)
  ]

  download_to-GoesOn :
      (s : Service) (url : List ℕ) (o : Option (FilePath × FilePath))
      → HasCfg s
      → ServInv s
      → GoesOn s (download_to env s url o)
  unfolding download_to
  download_to-GoesOn s url none c i = stays env s [] i tt
  download_to-GoesOn s url (some (f, g)) c i = do_download-GoesOn s f g url c i

  module _ (exe : List ℕ) (rest : FilePath) (place : env.current_exe ≡ exe ∷ rest) where
    pub upgrade-GoesOn :
        (s : Service) (url : List ℕ) → HasCfg s → ServInv s → GoesOn s (upgrade env s url)
    unfolding upgrade
    upgrade-GoesOn s url c i =
        let (o, t) = target_returns exe rest env.dir_exists in
        let (s', es, e, k, j, r) = download_to-GoesOn s url o c i in
        (s', es, simp (place, t) e, k, j, r)

    pub downloaded-GoesOn :
        (s : Service) (f g : FilePath) (response : Option HttpResponse) (created done : Bool)
        → ServInv s
        → GoesOn s (ok (downloaded env s f g response created done))
    unfolding downloaded
    downloaded-GoesOn s f g none created done i =
        goes env s (record s { is_upgrading = false }) [] refl (λ c. c) (kept i refl refl) tt
    downloaded-GoesOn s f g (some response) created done i =
        let s' = record s { is_upgrading = false } in
        goes env s s' _ refl (λ c. c) (kept i refl refl)
          (IsFree-IsReady s' _ (body_free response.body))
      where
        written_free :
            (body : List ℕ) (b created done : Bool)
            → All IsFree (if b then written env f g body created done else [])
        written_free body false created done = tt
        written_free body true false done = tt
        written_free body true true false = (refl, tt)
        written_free body true true true = (refl, (refl, (refl, tt)))

        body_free :
            (o : Option (List ℕ))
            → All IsFree (elim o as (λ _. List ServiceEffect) [
              | none ↦ []
              | some body ↦ if response.status == 200 then written env f g body created done else []
            ])
        body_free none = tt
        body_free (some body) = written_free body (response.status == 200) created done
