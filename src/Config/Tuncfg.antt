-- ===== src/Config/Tuncfg.antt =====
-- src/config/tuncfg.rs: the configuration, the requests to the server and its reply. The values of
-- serde_json are an interface with the documented law that the code relies on.
pub mod Replies
use lproxy_cv.Prelude.{
  ℕ, ◌+◌, ◌-◌, ◌%◌, Bool, true, false, ◌≡◌, Option, none, some, List, [], ◌∷◌, ◌++◌, ltb,
  if◌then◌else◌, length, get_elem?, codes, contains, first_part, zero, suc,
}
use lproxy_cv.Prelude.Outcome.{Outcome, ok, unwrap, ◌>>=◌}

pub record TunCfg : Type 0 where
  pub tunnel_number : ℕ
  pub tunnel_url : List ℕ
  pub tunnel_req_cap : ℕ
  pub relay_domain : List ℕ
  pub relay_port : ℕ
  pub dns_tunnel_number : ℕ
  pub domains_ver : List ℕ
  pub domain_array : Option (List (List ℕ))
  pub default_dns_server : List ℕ
  pub request_quota : ℕ
  pub xport_url : List ℕ
  pub token : List ℕ
  pub cfg_monitor_url : List ℕ
  pub cfg_access_report_url : List ℕ
  pub work_as_global : Bool

abbrev pub server_url : List ℕ
server_url = codes "https://abc.com/xyz"

-- `DEFAULT_DNS_SERVER`
abbrev pub default_server : List ℕ
default_server = codes "223.5.5.5"

pub record AuthReq : Type 0 where
  pub uuid : List ℕ
  pub current_version : List ℕ
  pub arch : List ℕ
  pub macs : List (List ℕ)

-- A text between quotation marks.
abbrev pub quoted : List ℕ → List ℕ
quoted s = 34 ∷ (s ++ (34 ∷ []))

-- The rounds `i ..` of the loop of `format_macs`; `len - 1` is reached with a `len` above 0 only.
format_from : List (List ℕ) → ℕ → ℕ → List ℕ → Outcome ⊥ (List ℕ)
format_from all zero i macs = ok macs
format_from all (suc rounds) i macs = do
  mac ← unwrap (get_elem? all i)
  let macs1 = macs ++ quoted mac
  format_from all rounds (i + 1) (if ltb i (length all - 1) then macs1 ++ (44 ∷ []) else macs1)

unfoldable pub format_macs : AuthReq → Outcome ⊥ (List ℕ)
unfolding format_from
format_macs r = format_from r.macs (length r.macs) 0 []

-- `"key":"value"`
abbrev pub member : List ℕ → List ℕ → List ℕ
member key value = quoted key ++ (58 ∷ quoted value)

abbrev pub comma : List ℕ → List ℕ → List ℕ
comma a b = a ++ (44 ∷ b)

-- The braces stand around the members.
abbrev pub braced : List ℕ → List ℕ
braced s = 123 ∷ (s ++ (125 ∷ []))

unfoldable pub auth_json : AuthReq → Outcome ⊥ (List ℕ)
auth_json r = do
  macs ← format_macs r
  ok (
      braced (
        comma (member (codes "uuid") r.uuid) (
          comma (member (codes "current_version") r.current_version)
            (comma (member (codes "arch") r.arch) (codes " \"macs\":[" ++ (macs ++ (93 ∷ [])))))))

pub record CfgMonitorReq : Type 0 where
  pub current_version : List ℕ
  pub domains_ver : List ℕ
  pub arch : List ℕ

unfoldable pub monitor_json : CfgMonitorReq → List ℕ
monitor_json r = braced (
    comma (member (codes "current_version") r.current_version)
      (comma (member (codes "domains_ver") r.domains_ver) (member (codes "arch") r.arch)))

-- `error` is the 64 bits of an i64.
pub record AuthResp : Type 0 where
  pub error : ℕ
  pub token : List ℕ
  pub restart : Bool
  pub need_upgrade : Bool
  pub upgrade_url : List ℕ
  pub tuncfg : Option TunCfg

-- `serde_json::Value`: `v[key]`, the tests and the conversions.
pub record Json (Value : Type 0) : Type 0 where
  pub from_str : List ℕ → Option Value
  pub entry : Value → List ℕ → Value
  pub is_string : Value → Bool
  pub is_object : Value → Bool
  pub as_str : Value → Option (List ℕ)
  pub as_i64 : Value → Option ℕ
  pub as_u64 : Value → Option ℕ
  pub as_bool : Value → Option Bool
  pub as_array : Value → Option (List Value)
  pub as_str_of_string : (v : Value) → is_string v ≡ true → (s : List ℕ) × (as_str v ≡ some s)

abbrev pub or_default {ℓ} : {A : Type ℓ} → A → Option A → A
or_default d none = d
or_default d (some a) = a

-- A port behind a colon is cut off.
unfoldable pub without_port : List ℕ → List ℕ
without_port s = if contains 58 s then first_part 58 s else s

module _ {Value : Type 0} (json : Json Value) where
  open json use {from_str, entry, is_string, is_object, as_str, as_i64, as_u64, as_bool, as_array}

  unfoldable pub token_of : Value → Outcome ⊥ (List ℕ)
  token_of v = if is_string v then unwrap (as_str v) else ok []

  -- The texts of an array, the other values left out.
  unfoldable pub texts : List Value → List (List ℕ)
  texts [] = []
  texts (vv ∷ t_array) = elim (as_str vv) [ none ↦ texts t_array | some t ↦ t ∷ texts t_array ]

  unfoldable pub tuncfg_of : Value → List ℕ → TunCfg
  tuncfg_of v token = record {
    tunnel_number = or_default 2 (as_u64 (entry v (codes "tunnel_number")));
    tunnel_url = or_default (codes "wss://127.0.0.1/tun") (as_str (entry v (codes "tunnel_url")));
    tunnel_req_cap = or_default 100 (as_u64 (entry v (codes "tunnel_req_cap")));
    relay_domain = or_default (codes "127.0.0.1") (as_str (entry v (codes "relay_domain")));
    relay_port = elim (as_u64 (entry v (codes "relay_port"))) [ none ↦ 12345 | some t ↦ t % 65536 ];
    dns_tunnel_number = or_default 1 (as_u64 (entry v (codes "dns_tunnel_number")));
    domains_ver = or_default (codes "0.1.0") (as_str (entry v (codes "domains_ver")));
    domain_array = some (texts (or_default [] (as_array (entry v (codes "domain_array")))));
    default_dns_server =
        without_port (or_default default_server (as_str (entry v (codes "local_dns_server"))));
    request_quota = or_default 100 (as_u64 (entry v (codes "request_quota")));
    xport_url = or_default [] (as_str (entry v (codes "xport_url")));
    token = token;
    cfg_monitor_url = or_default [] (as_str (entry v (codes "cfg_monitor_url")));
    cfg_access_report_url = or_default [] (as_str (entry v (codes "cfg_access_report_url")));
    work_as_global = or_default false (as_bool (entry v (codes "work_as_global")));
  }

  unfoldable pub reply_with : Value → Value → List ℕ → AuthResp
  reply_with v v_tuncfg token = record {
    error = or_default 0 (as_i64 (entry v (codes "error")));
    token = token;
    restart = or_default false (as_bool (entry v (codes "restart")));
    need_upgrade = or_default false (as_bool (entry v (codes "need_upgrade")));
    upgrade_url = or_default [] (as_str (entry v (codes "upgrade_url")));
    tuncfg = if is_object v_tuncfg then some (tuncfg_of v_tuncfg token) else none;
  }

  unfoldable pub reply_of : Option Value → Outcome ⊥ (Option AuthResp)
  unfolding token_of reply_with
  reply_of none = ok none
  reply_of (some v) = do
    token ← token_of (entry v (codes "token"))
    ok (some (reply_with v (entry v (codes "tuncfg")) token))

  unfoldable pub from_json_str : List ℕ → Outcome ⊥ (Option AuthResp)
  unfolding reply_of
  from_json_str s = reply_of (from_str s)
