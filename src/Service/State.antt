-- ===== src/Service/State.antt =====
-- src/service/service.rs: the state of `Service`, its instructions, what it does outside, and what it
-- asks of its surroundings.
use lproxy_cv.Prelude.{ℕ, Bool, Option, List}
use lproxy_cv.Tunnels.Frames.{IpAddr}
use lproxy_cv.Config.Tuncfg.{TunCfg}
use lproxy_cv.Service.Acclog.{AccLog, AccDomain}
use lproxy_cv.Service.Subservice.{SubServiceCtl, SubEffect}

pub data Instruction : Type 0 where
  auth : Instruction
  start_sub_services : Instruction
  server_cfg_monitor : Instruction
  restart : Instruction
  access_log : List (IpAddr × IpAddr) → Instruction
  dns_add : List (List ℕ × IpAddr) → Instruction

abbrev pub state_stopped : ℕ
state_stopped = 0

abbrev pub state_starting : ℕ
state_starting = 1

abbrev pub state_running : ℕ
state_running = 2

-- A file's path is its components, the last one first.
abbrev pub FilePath : Type 0
FilePath = List (List ℕ)

pub record Service : Type 0 where
  pub state : ℕ
  pub subservices : List SubServiceCtl
  pub ins_tx : Option ℕ
  pub tuncfg : Option TunCfg
  pub monitor_trigger : Option ℕ
  pub instruction_trigger : Option ℕ
  pub domains : Option (List (List ℕ))
  pub is_upgrading : Bool
  pub uuid : List ℕ
  pub default_dns_server : List ℕ
  pub user_specify_dns_server : Bool
  pub acc_log : AccLog

-- The settings of the system that are changed by external commands.
pub data SysCmd : Type 0 where
  uci_default : List ℕ → SysCmd
  uci_me : SysCmd
  set_ipset : SysCmd
  unset_ipset : SysCmd
  set_iptables_rules : SysCmd
  set_iptables_rules_for_global : SysCmd
  unset_iptables_rules : SysCmd
  unset_iptables_rules_for_global : SysCmd
  set_ip_rules : SysCmd
  unset_ip_rules : SysCmd

-- An instruction put on a channel or to be put on it after some seconds; requests to the server with
-- their body and the DNS server; a download with the paths of its file and of the script; the start
-- of the threads; the timer; the commands to threads; and what a download does in the end.
pub data ServiceEffect : Type 0 where
  fired : ℕ → Instruction → ServiceEffect
  post_later : ℕ → Instruction → ServiceEffect
  auth_request : List ℕ → List ℕ → ServiceEffect
  monitor_request : List ℕ → List ℕ → List ℕ → ServiceEffect
  report_request : List ℕ → List ℕ → List ℕ → ServiceEffect
  download : FilePath → FilePath → List ℕ → List ℕ → ServiceEffect
  start_threads : ℕ → TunCfg → List (List ℕ) → ServiceEffect
  monitor_timer : ServiceEffect
  of_sub : SubEffect → ServiceEffect
  sys : SysCmd → ServiceEffect
  write_file : FilePath → List ℕ → ServiceEffect
  fileto_excecutable : FilePath → ServiceEffect
  call_bash_to_restart : FilePath → ServiceEffect

-- What the libraries and the system decide: which texts are URLs, the lossy conversion to a string,
-- the version and the architecture, the addresses of the network cards (none if they cannot be
-- read) and their text, the program's own path, whether the other directory is there or could be
-- made, the bytes of a report, which channels have a receiver and which threads end by a panic.
pub record Environment : Type 0 where
  pub is_url : List ℕ → Bool
  pub lossy : List ℕ → List ℕ
  pub version : List ℕ
  pub arch : List ℕ
  pub mac_addresses : List (List ℕ)
  pub show_mac : List ℕ → List ℕ
  pub current_exe : FilePath
  pub dir_exists : Bool
  pub write_to_bytes : List AccDomain → List ℕ
  pub alive : ℕ → Bool
  pub panicked : ℕ → Bool
