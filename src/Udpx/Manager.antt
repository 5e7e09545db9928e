-- ===== src/Udpx/Manager.antt =====
-- src/udpx/udpxmgr.rs: `UdpXMgr`, which hands the datagrams of the local network to the tunnel
-- managers and those of the tunnels to the cache. A server is whether it runs; the hash of a pair of
-- addresses, and whether a server could be started, are arguments.
use lproxy_cv.Prelude.{
  ℕ, ◌%◌, Bool, true, false, List, [], ◌∷◌, ◌++◌, ltb, if◌then◌else◌, length, get_elem?,
}
use lproxy_cv.Prelude.Outcome.{Outcome, ok, unwrap, ◌>>=◌}
use lproxy_cv.Tunnels.Tunnel.{SocketAddr}
use lproxy_cv.Service.Subservice.{udp_proxy, set_udp_tx, SubEffect, send_cmd}
use lproxy_cv.Udpx.Cache.{DelayQueue, Cache, UdpEffect}
use lproxy_cv.Udpx.Cache

module _ (D : DelayQueue) where
  pub record UdpXMgr : Type 0 where
    pub tmstubs : List ℕ
    pub ctl_tx : ℕ
    pub server : Bool
    pub server6 : Bool
    pub cache : Cache D

  abbrev pub new : List ℕ → ℕ → UdpXMgr
  new tmstubs ctl_tx = record {
    tmstubs = tmstubs;
    ctl_tx = ctl_tx;
    server = false;
    server6 = false;
    cache = Cache.new D;
  }

  unfoldable pub stop : UdpXMgr → UdpXMgr × List UdpEffect
  stop m =
      let (cache, closed) = Cache.cleanup D m.cache in
      (record m { tmstubs = []; server = false; server6 = false; cache = cache }, closed)

  module _ (alive : ℕ → Bool) where
    set_txs : ℕ → List ℕ → List SubEffect
    set_txs ctl_tx [] = []
    set_txs ctl_tx (tm ∷ tms) = send_cmd alive tm (set_udp_tx ctl_tx) ++ set_txs ctl_tx tms

    -- `false` is `Err`, where the first server or the second one could not be started.
    unfoldable pub init : Bool → Bool → UdpXMgr → UdpXMgr × List SubEffect × Bool
    unfolding set_txs
    init started started6 m =
        let sets = set_txs m.ctl_tx m.tmstubs in
        if started
        then (record m { server = true; server6 = started6 }, sets, started6)
        else (m, sets, false)

    unfoldable pub on_udp_msg_forward :
        (SocketAddr → SocketAddr → ℕ)
        → UdpXMgr
        → List ℕ
        → SocketAddr
        → SocketAddr
        → Outcome ⊥ (List SubEffect)
    on_udp_msg_forward calc_hash_code m msg src_addr dst_addr =
        if ltb (length m.tmstubs) 1 then ok [] else (do
          let hash_code = calc_hash_code src_addr dst_addr
          tx ← unwrap (get_elem? m.tmstubs (hash_code % length m.tmstubs))
          ok (send_cmd alive tx (udp_proxy msg src_addr dst_addr hash_code)))
