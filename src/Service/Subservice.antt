-- ===== src/Service/Subservice.antt =====
-- src/service/subservice.rs: the threads of the program, the commands that they take, how all of
-- them are started and stopped. A thread and the channel of its commands have one number. Whether
-- the component of a thread could be started (`none`: the thread panicked before it reported), which
-- channels have a receiver and which threads end by a panic are arguments.
pub mod Threads
pub mod Started
pub mod Commands
use lproxy_cv.Prelude.{
  ℕ, zero, suc, ◌+◌, ◌/◌, Bool, true, false, ◌||◌, not, Option, none, some, List, [], ◌∷◌, ◌++◌,
  map, ltb, ◌==◌, if◌then◌else◌, length,
}
use lproxy_cv.Prelude.Outcome.{Outcome, ok, panic, unwrap, ◌>>=◌}
use lproxy_cv.Tunnels.Tunnel.{SocketAddr}
use lproxy_cv.Config.Tuncfg.{TunCfg}

pub data SubServiceCtlCmd : Type 0 where
  stop : SubServiceCtlCmd
  tcp_tunnel : ℕ → SubServiceCtlCmd
  domains_update : List (List ℕ) → SubServiceCtlCmd
  tuncfg_update : TunCfg → SubServiceCtlCmd
  udp_proxy : List ℕ → SocketAddr → SocketAddr → ℕ → SubServiceCtlCmd
  udp_recv : List ℕ → SocketAddr → SocketAddr → SubServiceCtlCmd
  set_udp_tx : ℕ → SubServiceCtlCmd

pub data SubServiceType : Type 0 where
  forwarder : SubServiceType
  reg_mgr : SubServiceType
  tun_mgr : SubServiceType
  xtunnel : SubServiceType
  udpx : SubServiceType

pub record SubServiceCtl : Type 0 where
  pub handler : Option ℕ
  pub ctl_tx : Option ℕ
  pub sstype : SubServiceType

-- What a thread is started with: domains, the channels of the tunnel managers, a count of tunnels.
pub data Job : Type 0 where
  for_forwarder : List (List ℕ) → Job
  for_xtunnel : Job
  for_reqmgr : List ℕ → Job
  for_udpx : List ℕ → Job
  for_tunmgr : ℕ → Job

abbrev pub type_of : Job → SubServiceType
type_of (for_forwarder domains) = forwarder
type_of for_xtunnel = xtunnel
type_of (for_reqmgr tmstubs) = reg_mgr
type_of (for_udpx tmstubs) = udpx
type_of (for_tunmgr tunnels_count) = tun_mgr

pub data SubEffect : Type 0 where
  spawned : ℕ → Job → SubEffect
  sent : ℕ → SubServiceCtlCmd → SubEffect
  joined : ℕ → SubEffect

-- What `start_forwarder` and its like return.
abbrev pub ctl_of : ℕ → Job → SubServiceCtl
ctl_of n job = record { handler = some n; ctl_tx = some n; sstype = type_of job }

-- What the thread reports: a tunnel manager that could not be started reports success too.
unfoldable pub reported : Job → Option Bool → Option Bool
reported job none = none
reported (for_forwarder domains) (some done) = some done
reported for_xtunnel (some done) = some done
reported (for_reqmgr tmstubs) (some done) = some done
reported (for_udpx tmstubs) (some done) = some done
reported (for_tunmgr tunnels_count) (some done) = some true

unfoldable pub to_future : Option Bool → SubServiceCtl → Option SubServiceCtl
to_future none ctrl = none
to_future (some true) ctrl = some ctrl
to_future (some false) ctrl = none

-- The subservices so far, whether all could be started, and what was done.
pub record Starting : Type 0 where
  pub subservices : List SubServiceCtl
  pub failed : Bool
  pub done : List SubEffect

unfoldable pub tunnels_per_mgr : TunCfg → ℕ → ℕ
tunnels_per_mgr cfg cpus = if ltb (cfg.tunnel_number / cpus) 1 then 1 else cfg.tunnel_number / cpus

-- The subservice is kept, or the failure noted.
noted : Starting → ℕ → Job → Option SubServiceCtl → Starting
noted st n job (some c) = record st {
  subservices = st.subservices ++ (c ∷ []);
  done = st.done ++ (spawned n job ∷ []);
}
noted st n job none = record st { failed = true; done = st.done ++ (spawned n job ∷ []) }

module _ (init : ℕ → Option Bool) where
  -- A thread is started and its report awaited.
  unfoldable pub start_one : Starting → ℕ → Job → Starting
  unfolding noted
  start_one st n job = noted st n job (to_future (reported job (init n)) (ctl_of n job))

  -- The stream of `start_tunmgr`, from the thread `n` on.
  unfoldable pub start_tunmgrs : ℕ → ℕ → ℕ → Starting → Starting
  start_tunmgrs zero n tunnels_count st = st
  start_tunmgrs (suc rounds) n tunnels_count st =
      start_tunmgrs rounds (n + 1) tunnels_count (start_one st n (for_tunmgr tunnels_count))

  -- A division by zero where the machine has no processor.
  unfoldable pub start_tunmgr : TunCfg → ℕ → Outcome ⊥ Starting
  start_tunmgr cfg cpus =
      if cpus == 0
      then panic
      else ok (
          start_tunmgrs cpus 0 (tunnels_per_mgr cfg cpus)
            (record { subservices = []; failed = false; done = [] }))

  -- The next one, unless one before it has failed.
  unfoldable pub then_one : Starting → ℕ → Job → Starting
  then_one st n job = if st.failed then st else start_one st n job

-- The channels of the subservices, for `tmstubs`.
unfoldable pub stubs_of : List SubServiceCtl → Outcome ⊥ (List ℕ)
stubs_of [] = ok []
stubs_of (s ∷ ss) = do tx ← unwrap s.ctl_tx; tmstubs ← stubs_of ss; ok (tx ∷ tmstubs)

module _ (alive : ℕ → Bool) where
  unfoldable pub send_cmd : ℕ → SubServiceCtlCmd → List SubEffect
  send_cmd tx cmd = if alive tx then sent tx cmd ∷ [] else []

  -- The first loop of `cleanup_subservices`.
  unfoldable pub send_stops : List SubServiceCtl → Outcome ⊥ (List SubServiceCtl × List SubEffect)
  send_stops [] = ok ([], [])
  send_stops (s ∷ ss) = do
    tx ← unwrap s.ctl_tx
    (ss', more) ← send_stops ss
    ok (record s { ctl_tx = none } ∷ ss', send_cmd tx stop ++ more)

  module _ (panicked : ℕ → Bool) where
    join : ℕ → Outcome ⊥ (List SubEffect)
    join h = if panicked h then panic else ok (joined h ∷ [])

    -- The second loop.
    unfoldable pub join_all : List SubServiceCtl → Outcome ⊥ (List SubServiceCtl × List SubEffect)
    unfolding join
    join_all [] = ok ([], [])
    join_all (s ∷ ss) = do
      h ← unwrap s.handler
      first ← join h
      (ss', more) ← join_all ss
      ok (record s { handler = none } ∷ ss', first ++ more)

    unfoldable pub cleanup_subservices :
        List SubServiceCtl → Outcome ⊥ (List SubServiceCtl × List SubEffect)
    cleanup_subservices ss = do
      (ss1, stops) ← send_stops ss
      (ss2, joins) ← join_all ss1
      ok (ss2, stops ++ joins)

    -- `none` is `Err`.
    finished : Starting → Outcome ⊥ (Option (List SubServiceCtl) × List SubEffect)
    finished st =
        if st.failed
        then (do (ss, ended) ← cleanup_subservices st.subservices; ok (none, st.done ++ ended))
        else ok (some st.subservices, st.done)

    -- The threads behind those of the tunnel managers.
    unfoldable pub start_others :
        (ℕ → Option Bool) → ℕ → Bool → List (List ℕ) → List ℕ → Starting → Starting
    start_others init cpus with_xport domains tmstubs st =
        let st1 = then_one init st cpus (for_reqmgr tmstubs) in
        let st2 = then_one init st1 (cpus + 1) (for_forwarder domains) in
        let st3 = then_one init st2 (cpus + 2) (for_udpx tmstubs) in
        if with_xport then then_one init st3 (cpus + 3) for_xtunnel else st3

    unfoldable pub start_subservice :
        (ℕ → Option Bool)
        → ℕ
        → TunCfg
        → List (List ℕ)
        → Outcome ⊥ (Option (List SubServiceCtl) × List SubEffect)
    unfolding finished
    start_subservice init cpus cfg domains = do
      st ← start_tunmgr init cfg cpus
      tmstubs ← if st.failed then ok [] else stubs_of st.subservices
      finished (start_others init cpus (ltb 0 (length cfg.xport_url)) domains tmstubs st)
