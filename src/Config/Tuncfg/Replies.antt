-- ===== src/Config/Tuncfg/Replies.antt =====
-- What the rest of the program relies on in a reply of the server.
use lproxy_cv.Prelude.{
  ℕ, suc, ◌+◌, ◌-◌, ◌%◌, ◌<◌, ◌≡◌, refl, sym, ap, subst, ◌∙◌, inl, inr, Bool, true, false, Option,
  none, some, List, [], ◌∷◌, ◌++◌, arith, codes, contains, contains-first_part, Bool-cases, ltb,
  if◌then◌else◌, length, get_elem?, append_assoc, le→ltb, lt→ltb, length-append,
}
use lproxy_cv.Prelude.Outcome.{ok}
use lproxy_cv.Config.Tuncfg.{
  TunCfg, AuthReq, AuthResp, Json, without_port, token_of, reply_with, reply_of, tuncfg_of,
  from_json_str, format_macs, format_from, quoted,
}

-- The list of domains is there, the DNS server is named without a port, the port is a u16.
pub record IsUsable (cfg : TunCfg) : Type 0 where
  pub has_domains : (domains : List (List ℕ)) × (cfg.domain_array ≡ some domains)
  pub no_port : contains 58 cfg.default_dns_server ≡ false
  pub port_u16 : cfg.relay_port < 65536

-- What a reply holds is usable.
abbrev pub UsableIn : Option AuthResp → Type 0
UsableIn none = Unit {0}
UsableIn (some r) = (cfg : TunCfg) → r.tuncfg ≡ some cfg → IsUsable cfg

contains-without_port : (s : List ℕ) → contains 58 (without_port s) ≡ false
unfolding without_port
contains-without_port s = elim (Bool-cases (contains 58 s)) [
  | inl e ↦ rw e (contains-first_part 58 s)
  | inr e ↦ rw (e, e)
]

module _ {Value : Type 0} (json : Json Value) where
  tuncfg_of-IsUsable : (v : Value) (token : List ℕ) → IsUsable (tuncfg_of json v token)
  unfolding tuncfg_of
  tuncfg_of-IsUsable v token = record {
    has_domains = (_, refl);
    no_port = contains-without_port _;
    port_u16 = small (json.as_u64 (json.entry v (codes "relay_port")));
  }
    where
      small : (o : Option ℕ) → elim o as (λ _. ℕ) [ none ↦ 12345 | some t ↦ t % 65536 ] < 65536
      small none = omega arith
      small (some t) = omega arith

  token_of_returns : (v : Value) → (t : List ℕ) × (token_of json v ≡ ok t)
  unfolding token_of
  token_of_returns v = elim (Bool-cases (json.is_string v)) [
    | inl e ↦ let (t, h) = json.as_str_of_string v e in (t, rw (e, h))
    | inr e ↦ ([], rw e)
  ]

  given :
      (b : Bool) {c cfg : TunCfg}
      → IsUsable c
      → (if b then some c else none) ≡ some cfg
      → IsUsable cfg
  given true {c} {cfg} u e = subst IsUsable (cc e) u
  given false u e = absurd (ground (arith, e))

  reply_with-UsableIn : (v w : Value) (t : List ℕ) → UsableIn (some (reply_with json v w t))
  unfolding reply_with
  reply_with-UsableIn v w t cfg e = given (json.is_object w) (tuncfg_of-IsUsable w t) e

  reply_of-UsableIn :
      (v : Option Value) → (r : Option AuthResp) × (reply_of json v ≡ ok r) × UsableIn r
  unfolding reply_of
  reply_of-UsableIn none = (none, refl, tt)
  reply_of-UsableIn (some v) =
      let (t, h) = token_of_returns (json.entry v (codes "token")) in
      (
        some (reply_with json v (json.entry v (codes "tuncfg")) t),
        rw h refl,
        reply_with-UsableIn v (json.entry v (codes "tuncfg")) t,
      )

  -- A reply of the server is read without a panic, whatever its bytes. A configuration in it has a
  -- list of domains, names its DNS server without a colon, and its port is a u16.
  pub from_json_str-UsableIn :
      (s : List ℕ) → (r : Option AuthResp) × (from_json_str json s ≡ ok r) × UsableIn r
  unfolding from_json_str
  from_json_str-UsableIn s = reply_of-UsableIn (json.from_str s)

-- The addresses between quotation marks, with commas in between.
abbrev pub listed : List (List ℕ) → List ℕ
listed [] = []
listed (mac ∷ []) = quoted mac
listed (mac ∷ mac2 ∷ macs) = quoted mac ++ (44 ∷ listed (mac2 ∷ macs))

get_elem?-behind :
    (front : List (List ℕ)) (x : List ℕ) (xs : List (List ℕ))
    → get_elem? (front ++ x ∷ xs) (length front) ≡ some x
get_elem?-behind [] x xs = refl
get_elem?-behind (y ∷ front) x xs = get_elem?-behind front x xs

length-snoc : (front : List (List ℕ)) (x : List ℕ) → length (front ++ x ∷ []) ≡ length front + 1
length-snoc [] x = refl
length-snoc (y ∷ front) x = omega (arith, length-snoc front x)

format_from-listed :
    (all front : List (List ℕ)) (x : List ℕ) (rest : List (List ℕ)) (i : ℕ) (macs : List ℕ)
    → all ≡ front ++ x ∷ rest
    → i ≡ length front
    → format_from all (suc (length rest)) i macs ≡ ok (macs ++ listed (x ∷ rest))
unfolding format_from
format_from-listed all front x [] i macs e n = rw (
  e,
  n,
  get_elem?-behind front x [],
  le→ltb (length front) (length (front ++ x ∷ []) - 1) (omega (arith, length-snoc front x)),
)
format_from-listed all front x (y ∷ rest) i macs e n =
    let found : get_elem? all i ≡ some x = rw (e, n) (get_elem?-behind front x (y ∷ rest)) in
    let inside : ltb i (length all - 1) ≡ true =
      rw (e, n) (lt→ltb _ _ (omega (arith, length-append front (x ∷ y ∷ rest)))) in
    rw (found, inside)
      (format_from-listed all (front ++ x ∷ []) y rest (i + 1) ((macs ++ quoted x) ++ (44 ∷ []))
          (e ∙ sym (append_assoc front (x ∷ []) (y ∷ rest))) (omega (arith, n, length-snoc front x))
        ∙ ap ok (regroup macs (quoted x) (listed (y ∷ rest))))
  where
    regroup : (a b c : List ℕ) → ((a ++ b) ++ (44 ∷ [])) ++ c ≡ a ++ (b ++ (44 ∷ c))
    regroup a b c = simp append_assoc

-- `format_macs` puts the addresses between quotation marks and a comma between each two, and does
-- not panic.
pub format_macs-listed : (r : AuthReq) → format_macs r ≡ ok (listed r.macs)
unfolding format_macs
format_macs-listed r = go r.macs
  where
    go : (l : List (List ℕ)) → format_from l (length l) 0 [] ≡ ok (listed l)
    go [] = refl
    go (x ∷ l) = format_from-listed (x ∷ l) [] x l 0 [] refl refl
