-- ===== src/Manager/State.antt =====
-- src/tunnels/tunmgr.rs: the state of `TunMgr`, and what it does outside.
use lproxy_cv.Prelude.{ℕ, zero, suc, ◌+◌, Bool, false, ◌&&◌, Option, List, [], ◌∷◌, same}
use lproxy_cv.Tunnels.Frames.{IpAddr, v4, v6}
use lproxy_cv.Tunnels.Tunnel.{Tunnel, Effect}

-- `==` of IP addresses.
unfoldable pub same_ip : IpAddr → IpAddr → Bool
same_ip (v4 a) (v4 b) = same a b
same_ip (v6 a) (v6 b) = same a b
same_ip (v4 a) (v6 b) = false
same_ip (v6 a) (v4 b) = false

unfoldable pub same_pair : IpAddr × IpAddr → IpAddr × IpAddr → Bool
same_pair (a, b) (c, d) = same_ip a c && same_ip b d

-- Beside the effects of its tunnels: a connection begun for an index, and the accesses reported.
pub data MgrEffect : Type 0 where
  of_tunnel : Effect → MgrEffect
  connect : ℕ → MgrEffect
  access_log : List (IpAddr × IpAddr) → MgrEffect

-- A set is the map from its members to the unit.
abbrev pub Accesses : Type 0
Accesses = List ((IpAddr × IpAddr) × Unit {0})

pub record TunMgr : Type 0 where
  pub relay_domain : List ℕ
  pub relay_port : ℕ
  pub url : List ℕ
  pub capacity : ℕ
  pub tunnel_req_cap : ℕ
  pub request_quota : ℕ
  pub dns_server : List ℕ
  pub tunnels : List (Option Tunnel)
  pub sorted_tun_indies : List ℕ
  pub current_tun_idx : ℕ
  pub reconnect_queue : List ℕ
  pub discarded : Bool
  pub keepalive_trigger : Option ℕ
  pub token : List ℕ
  pub udpx_tx : Option ℕ
  pub access_log : Accesses

-- The numbers `n ..` of as many rounds.
abbrev pub upto : ℕ → ℕ → List ℕ
upto zero n = []
upto (suc rounds) n = n ∷ upto rounds (n + 1)
