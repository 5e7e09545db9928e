-- ===== src/Witnesses/Config.antt =====
-- The theorem on the server's replies at a JSON value of few members.
use lproxy_cv.Prelude.{
  ℕ, ◌≡◌, refl, Bool, true, false, if◌then◌else◌, Option, none, some, starts_with, List, [], ◌∷◌,
  codes, same,
}
use lproxy_cv.Prelude.Outcome.{ok}
use lproxy_cv.Config.Tuncfg.{AuthResp, Json, from_json_str}
use lproxy_cv.Config.Tuncfg.Replies.{UsableIn, from_json_str-UsableIn}

-- `null`, a string, a truth value, or one of two objects: a reply and the configuration in it.
pub data Value : Type 0 where
  null : Value
  text : List ℕ → Value
  flag : Bool → Value
  reply : List ℕ → Value
  config : List ℕ → Value

-- A reply that begins with an exclamation mark asks for an upgrade.
abbrev pub entry_of : Value → List ℕ → Value
entry_of null key = null
entry_of (text s) key = null
entry_of (flag b) key = null
entry_of (reply s) key =
    if same key (codes "need_upgrade")
    then flag (starts_with (33 ∷ []) s)
    else (if same key (codes "upgrade_url")
        then text s
        else (if same key (codes "tuncfg") then config s else null))
entry_of (config s) key = if same key (codes "local_dns_server") then text s else null

abbrev pub is_text : Value → Bool
is_text null = false
is_text (text s) = true
is_text (flag b) = false
is_text (reply s) = false
is_text (config s) = false

abbrev pub is_map : Value → Bool
is_map null = false
is_map (text s) = false
is_map (flag b) = false
is_map (reply s) = true
is_map (config s) = true

abbrev pub text_of : Value → Option (List ℕ)
text_of null = none
text_of (text s) = some s
text_of (flag b) = none
text_of (reply s) = none
text_of (config s) = none

abbrev pub flag_of : Value → Option Bool
flag_of null = none
flag_of (text s) = none
flag_of (flag b) = some b
flag_of (reply s) = none
flag_of (config s) = none

pub text_of_text : (v : Value) → is_text v ≡ true → (s : List ℕ) × (text_of v ≡ some s)
text_of_text null h = absurd (cc h)
text_of_text (text s) h = (s, refl)
text_of_text (flag b) h = absurd (cc h)
text_of_text (reply s) h = absurd (cc h)
text_of_text (config s) h = absurd (cc h)

abbrev pub json : Json Value
json = record {
  from_str = λ s. some (reply s);
  entry = entry_of;
  is_string = is_text;
  is_object = is_map;
  as_str = text_of;
  as_i64 = λ v. none;
  as_u64 = λ v. none;
  as_bool = flag_of;
  as_array = λ v. none;
  as_str_of_string = text_of_text;
}

abbrev pub reply_bytes : List ℕ
reply_bytes = codes "8.8.8.8:53"

from_json_str-UsableIn_example :
    (r : Option AuthResp) × (from_json_str json reply_bytes ≡ ok r) × UsableIn r
from_json_str-UsableIn_example = from_json_str-UsableIn json reply_bytes
