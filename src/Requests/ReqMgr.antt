-- ===== src/Requests/ReqMgr.antt =====
-- src/requests/reqmgr.rs: `ReqMgr`. A tunnel manager is its channel, a connection a number.
pub mod InTurn
use lproxy_cv.Prelude.{
  ℕ, ◌+◌, ◌%◌, Bool, true, false, List, [], ◌∷◌, ◌++◌, leb, if◌then◌else◌, length, get_elem?,
}
use lproxy_cv.Prelude.Outcome.{Outcome, ok, unwrap, ◌>>=◌}

pub record ReqMgr : Type 0 where
  pub tmstubs : List ℕ
  pub tmindex : ℕ
  pub accepted : ℕ

-- `SubServiceCtlCmd::TcpTunnel` put on a channel.
pub data Handed : Type 0 where
  tcp_tunnel : ℕ → ℕ → Handed

unfoldable pub new : List ℕ → ReqMgr
new tmstubs = record { tmstubs = tmstubs; tmindex = 0; accepted = 0 }

-- The two servers are stopped with it.
unfoldable pub stop : ReqMgr → ReqMgr
stop m = record m { tmstubs = [] }

module _ (alive : ℕ → Bool) where
  abbrev pub handed : ℕ → ℕ → List Handed
  handed tx tcpstream = if alive tx then tcp_tunnel tx tcpstream ∷ [] else []

  unfoldable pub on_accept_tcpstream : ReqMgr → ℕ → Outcome ⊥ (ReqMgr × List Handed)
  on_accept_tcpstream m tcpstream = if leb (length m.tmstubs) m.tmindex then ok (m, []) else (do
    tx ← unwrap (get_elem? m.tmstubs m.tmindex)
    ok (
      record m {
        tmindex = (m.tmindex + 1) % length m.tmstubs;
        accepted = (m.accepted + 1) % 18446744073709551616;
      },
      handed tx tcpstream,
    ))

  -- The connections in turn.
  unfoldable pub accept_all : ReqMgr → List ℕ → Outcome ⊥ (ReqMgr × List Handed)
  accept_all m [] = ok (m, [])
  accept_all m (tcpstream ∷ tcpstreams) = do
    (m1, effects) ← on_accept_tcpstream m tcpstream
    (m2, more) ← accept_all m1 tcpstreams
    ok (m2, effects ++ more)
