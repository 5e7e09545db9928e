-- ===== src/Dns/Domap.antt =====
-- src/dns/domap.rs: the set of the domains that the proxy sends through the tunnel, a trie over the
-- labels of a name from the last to the first. A label is the list of its bytes.
pub mod Covers
use lproxy_cv.Prelude.{
  same, ℕ, Bool, true, false, ◌&&◌, ◌||◌, Option, none, some, List, [], ◌∷◌, ◌++◌, reverse, ltb,
  ◌==◌, if◌then◌else◌, length,
}

abbrev pub Label : Type 0
Label = List ℕ

mutual
  pub data SubDomain : Type 0 where
    sub_domain : Bool → Subdomains → SubDomain

  -- The map from a label to the node below: its entries, each label once.
  pub data Subdomains : Type 0 where
    no_entry : Subdomains
    entry : Label → SubDomain → Subdomains → Subdomains

abbrev pub new : SubDomain
new = sub_domain false no_entry

unfoldable pub leaf : SubDomain → Bool
leaf (sub_domain l cs) = l

unfoldable pub next_subdomains : SubDomain → Subdomains
next_subdomains (sub_domain l cs) = cs

unfoldable pub get : Subdomains → Label → Option SubDomain
get no_entry domain = none
get (entry k s cs) domain = let rest = get cs domain in if same k domain then some s else rest

-- The map after its entry for `domain`, made where it is missing, has become `s`.
unfoldable pub put : Subdomains → Label → SubDomain → Subdomains
put no_entry domain s = entry domain s no_entry
put (entry k s' cs) domain s =
    let rest = put cs domain s in if same k domain then entry k s cs else entry k s' rest

unfoldable pub get_or_insert : Option SubDomain → SubDomain
get_or_insert none = new
get_or_insert (some s) = s

unfoldable pub set_leaf : SubDomain → SubDomain
set_leaf (sub_domain l cs) = sub_domain true cs

-- `insert` at the label `domain`, with the labels behind it.
unfoldable pub insert : SubDomain → Label → List Label → SubDomain
insert (sub_domain l cs) domain [] =
    sub_domain l (put cs domain (set_leaf (get_or_insert (get cs domain))))
insert (sub_domain l cs) domain (next ∷ rest) =
    sub_domain l (put cs domain (insert (get_or_insert (get cs domain)) next rest))

found : Option SubDomain → Bool
found none = false
found (some s) = true

-- `has` at the label `domain`, with the labels behind it.
unfoldable pub has : SubDomain → Label → List Label → Bool
unfolding found
has (sub_domain l cs) domain [] = found (get cs domain)
has (sub_domain l cs) domain (next ∷ rest) = elim (get cs domain) [
  | none ↦ false
  | some s ↦ let deeper = has s next rest in if leaf s then true else deeper
]

-- `str::split(".")`: the parts between the dots, of which there is at least one.
push_front : ℕ → List Label → List Label
push_front c [] = (c ∷ []) ∷ []
push_front c (part ∷ parts) = (c ∷ part) ∷ parts

unfoldable pub split_dot : List ℕ → List Label
unfolding push_front
split_dot [] = [] ∷ []
split_dot (c ∷ cs) = let rest = split_dot cs in if c == 46 then [] ∷ rest else push_front c rest

-- `DomainMap.insert`, from the reversed parts.
insert_parts : SubDomain → List Label → SubDomain
insert_parts root [] = root
insert_parts root (top ∷ []) = root
insert_parts root (top ∷ next ∷ rest) =
    if ltb (length top) 1 then root else insert root top (next ∷ rest)

unfoldable pub insert_domain : SubDomain → List ℕ → SubDomain
unfolding insert_parts
insert_domain root domain = insert_parts root (reverse (split_dot domain))

has_parts : SubDomain → List Label → Bool
has_parts root [] = false
has_parts root (top ∷ []) = false
has_parts root (top ∷ next ∷ rest) = has root top (next ∷ rest)

-- `DomainMap.has`
unfoldable pub has_domain : SubDomain → List ℕ → Bool
unfolding has_parts
has_domain root domain = has_parts root (reverse (split_dot domain))
