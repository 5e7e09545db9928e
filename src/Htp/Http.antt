-- ===== src/Htp/Http.antt =====
-- src/htp/http.rs: the head of a request and the parse of a response. A string is its UTF-8 bytes.
-- The url crate, the lossy conversion to a string, the parse of an i32 (as its 32 bits) and gzip are
-- arguments; sockets, TLS and the time limit are left out.
pub mod Responses
use lproxy_cv.Prelude.{
  ℕ, ◌+◌, ◌-◌, Bool, true, false, ◌&&◌, ◌||◌, Option, none, some, List, [], ◌∷◌, ◌++◌, ltb, leb,
  ◌==◌, if◌then◌else◌, length, take, drop, get_elem?, codes, same, digits, position,
}
use lproxy_cv.Prelude.Outcome.{Outcome, ok, panic, unwrap, ◌>>=◌}

pub record HttpResponse : Type 0 where
  pub status : ℕ
  pub header : Option (List ℕ)
  pub body : Option (List ℕ)

-- What the accessors of a parsed `Url` give.
pub record Url : Type 0 where
  pub scheme : List ℕ
  pub host : Option (List ℕ)
  pub path : List ℕ
  pub query : Option (List ℕ)

unfoldable pub is_secure : Url → Bool
is_secure u = same u.scheme (codes "https")

abbrev pub crlf : List ℕ
crlf = 13 ∷ 10 ∷ []

abbrev pub query_of : Option (List ℕ) → List ℕ
query_of none = []
query_of (some q) = 63 ∷ q

unfoldable pub to_http_header : Url → ℕ → Outcome ⊥ (List ℕ)
to_http_header u content_size = do
  let method = if ltb 0 content_size then codes "POST" else codes "GET"
  let path = u.path ++ query_of u.query
  host ← unwrap u.host
  ok (
      method
      ++ (32
          ∷ (path
              ++ (codes " HTTP/1.0"
                  ++ (crlf
                      ++ (codes "Host: "
                          ++ (host
                              ++ (crlf
                                  ++ (codes "Accept-Encoding: gzip"
                                      ++ (crlf
                                          ++ (codes "Content-Length: "
                                              ++ (digits 20 content_size
                                                  ++ (32
                                                      ∷ (crlf
                                                          ++ (codes
                                                            "Content-Type: application/json; charset=utf-8 "
                                                            ++ (crlf ++ crlf))))))))))))))))

-- `is_char_boundary`: the end, or a byte that does not continue a character.
is_char_boundary : List ℕ → ℕ → Bool
is_char_boundary s i = (i == length s) || begins (get_elem? s i)
  where
    begins : Option ℕ → Bool
    begins none = false
    begins (some b) = ltb b 128 || leb 192 b

-- `&s[from ..]` of a string.
str_from : ℕ → List ℕ → Outcome ⊥ (List ℕ)
unfolding is_char_boundary
str_from from s = if is_char_boundary s from then ok (drop from s) else panic

-- `&s[from .. to]`
str_between : ℕ → ℕ → List ℕ → Outcome ⊥ (List ℕ)
unfolding is_char_boundary
str_between from to s =
    if leb from to && is_char_boundary s from && is_char_boundary s to
    then ok (take (to - from) (drop from s))
    else panic

module _ (parse_i32 : List ℕ → Option ℕ) where
  abbrev pub number_of : List ℕ → ℕ
  number_of status_str = elim (parse_i32 status_str) [ none ↦ 0 | some i ↦ i ]

  status_behind : List ℕ → ℕ → Option ℕ → Outcome ⊥ ℕ
  unfolding str_between
  status_behind header_str pos1 none = ok 0
  status_behind header_str pos1 (some pos2) = do
    status_str ← str_between pos1 (pos1 + pos2) header_str
    ok (number_of status_str)

  status_at : List ℕ → Option ℕ → Outcome ⊥ ℕ
  unfolding status_behind str_from
  status_at header_str none = ok 0
  status_at header_str (some found) = do
    next ← str_from (found + 9) header_str
    status_behind header_str (found + 9) (position (codes " OK") next)

  unfoldable pub extract_status : List ℕ → Outcome ⊥ ℕ
  unfolding status_at
  extract_status header_str = status_at header_str (position (codes "HTTP/1.") header_str)

  module _ (lossy : List ℕ → List ℕ) (gunzip : List ℕ → Option (List ℕ)) where
    -- `contains` of a text.
    abbrev pub mentions : List ℕ → List ℕ → Bool
    mentions s needle = elim (position needle s) [ none ↦ false | some pos ↦ true ]

    body_of : Bool → List ℕ → Outcome ⊥ (List ℕ)
    body_of true bb = unwrap (gunzip bb)
    body_of false bb = ok bb

    parsed : List ℕ → Option ℕ → Outcome ⊥ HttpResponse
    unfolding body_of
    parsed bytes none = ok (record { status = 0; header = none; body = none })
    parsed bytes (some pos) = do
      let s = lossy (take pos bytes)
      status ← extract_status s
      body ← body_of (mentions s (codes "gzip")) (drop (pos + 4) bytes)
      ok (record { status = status; header = some s; body = some body })

    unfoldable pub parse : List ℕ → Outcome ⊥ HttpResponse
    unfolding parsed
    parse bytes = parsed bytes (position (crlf ++ crlf) bytes)
