-- ===== src/Service/Subservice/Commands.antt =====
-- src/service/subservice.rs: what the five kinds of threads do with a command, and the loop over the
-- commands of a thread's channel.
use lproxy_cv.Prelude.{ℕ, ◌≡◌, refl, Bool, true, false, Option, List, [], ◌∷◌, ◌++◌, map}
use mathlib.Core.Path.{fun_ext}
use lproxy_cv.Prelude.Outcome.{Outcome, ok, ◌>>=◌}
use lproxy_cv.Wire.{ByteIo}
use lproxy_cv.Dns.Forwarder.{Forwarder, FwEffect}
use lproxy_cv.Dns.Forwarder
use lproxy_cv.Xport.Tunnel.{XTunnel}
use lproxy_cv.Xport.Tunnel
use lproxy_cv.Xport.Slots
use lproxy_cv.Requests.ReqMgr.{ReqMgr}
use lproxy_cv.Requests.ReqMgr
use lproxy_cv.Manager.Mgr.{TunMgr, MgrEffect, of_tunnel}
use lproxy_cv.Manager.Mgr
use lproxy_cv.Udpx.Cache.{DelayQueue, UdpEffect}
use lproxy_cv.Udpx.Cache
use lproxy_cv.Udpx.Manager.{UdpXMgr}
use lproxy_cv.Udpx.Manager
use lproxy_cv.Service.Subservice.{
  SubServiceCtlCmd, stop, tcp_tunnel, domains_update, tuncfg_update, udp_proxy, udp_recv,
  set_udp_tx,
}

-- The state behind a command, what was done, and whether the loop goes on.
abbrev pub Handled : Type 0 → Type 0 → Type 0
Handled S E = Outcome ⊥ (S × List E × Bool)

unfoldable pub forwarder_cmd :
    (List ℕ → Option (List ℕ × ℕ)) → Forwarder → SubServiceCtlCmd → Handled Forwarder FwEffect
forwarder_cmd parse f stop = let (f', e) = Forwarder.stop f in ok (f', e, false)
forwarder_cmd parse f (domains_update domains) =
    let (f', e) = Forwarder.update_domains parse f domains in ok (f', e, true)
forwarder_cmd parse f cmd = ok (f, [], true)

-- An unknown command ends this loop too.
unfoldable pub xtunnel_cmd : XTunnel → SubServiceCtlCmd → Handled XTunnel Slots.Effect
xtunnel_cmd t stop = let (t', e) = Tunnel.stop t in ok (t', e, false)
xtunnel_cmd t cmd = ok (t, [], false)

unfoldable pub reqmgr_cmd : ReqMgr → SubServiceCtlCmd → Handled ReqMgr ⊥
reqmgr_cmd m stop = ok (ReqMgr.stop m, [], false)
reqmgr_cmd m cmd = ok (m, [], true)

module _ (D : DelayQueue) (alive : ℕ → Bool) where
  -- What the set-up of a socket gives is an argument.
  unfoldable pub udpx_cmd :
      Option (ℕ × ℕ × ℕ) → UdpXMgr D → SubServiceCtlCmd → Handled (UdpXMgr D) UdpEffect
  udpx_cmd opened m stop = let (m', e) = Manager.stop D m in ok (m', e, false)
  udpx_cmd opened m (udp_recv msg src_addr dst_addr) = do
    (cache, e) ← Cache.on_udp_proxy_south D alive m.cache opened msg src_addr dst_addr
    ok (record m { cache = cache }, e, true)
  udpx_cmd opened m cmd = ok (m, [], true)

-- Beside the effects of the manager: a socket that is served from now on.
pub data TunMgrEffect : Type 0 where
  of_mgr : MgrEffect → TunMgrEffect
  serve_sock : ℕ → TunMgrEffect

module _ (alive : ℕ → Bool) (io : ByteIo) where
  unfoldable pub tunmgr_cmd : TunMgr → SubServiceCtlCmd → Handled TunMgr TunMgrEffect
  tunmgr_cmd m stop = let (m', e) = Mgr.stop m in ok (m', map of_mgr e, false)
  tunmgr_cmd m (tcp_tunnel t) = ok (m, serve_sock t ∷ [], true)
  tunmgr_cmd m (tuncfg_update tuncfg) = ok (Mgr.update_tuncfg m tuncfg, [], true)
  tunmgr_cmd m (udp_proxy msg src_addr dst_addr hash_code) = do
    (m', e) ← Mgr.udp_proxy_north alive io m msg src_addr dst_addr hash_code
    ok (m', map (λ x. of_mgr (of_tunnel x)) e, true)
  tunmgr_cmd m (set_udp_tx tx) = ok (Mgr.set_udpx_tx m tx, [], true)
  tunmgr_cmd m cmd = ok (m, [], true)

carry_on :
    {S E : Type 0} → (S → Outcome ⊥ (S × List E)) → S × List E × Bool → Outcome ⊥ (S × List E)
carry_on rest (s1, done, true) = do (s2, more) ← rest s1; ok (s2, done ++ more)
carry_on rest (s1, done, false) = ok (s1, done)

-- `while let Some(cmd) = rx.next().await`, over the commands that come.
unfoldable pub serve :
    {S E : Type 0}
    → (S → SubServiceCtlCmd → Handled S E)
    → S
    → List SubServiceCtlCmd
    → Outcome ⊥ (S × List E)
unfolding carry_on
serve handle s [] = ok (s, [])
serve handle s (cmd ∷ cmds) = handle s cmd >>= carry_on (λ s1. serve handle s1 cmds)

serve_ended :
    {S E : Type 0} (handle : S → SubServiceCtlCmd → Handled S E)
    → ((s : S) → (s' : S) × (e : List E) × (handle s stop ≡ ok (s', e, false)))
    → (s : S) (before after : List SubServiceCtlCmd)
    → serve handle s (before ++ stop ∷ after) ≡ serve handle s (before ++ stop ∷ [])
unfolding serve
serve_ended handle ends s [] after = let (s', e, h) = ends s in rw h refl
serve_ended handle ends s (cmd ∷ before) after =
    rw (fun_ext (λ s1. serve_ended handle ends s1 before after))
