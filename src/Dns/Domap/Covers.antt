-- ===== src/Dns/Domap/Covers.antt =====
-- What the set of domains answers: a name is found exactly where it lies below a domain of the set,
-- or a domain of the set below it.
use lproxy_cv.Prelude.{
  same, same→≡, same_refl, ℕ, ◌≡◌, refl, sym, ap, ◌∙◌, inl, inr, Bool, true, false, ◌&&◌, ◌||◌,
  Option, none, some, List, [], ◌∷◌, reverse, ltb, if◌then◌else◌, length, not, Option-cases,
  Bool-cases,
}
use lproxy_cv.Dns.Domap.{
  Label, SubDomain, sub_domain, Subdomains, no_entry, entry, new, leaf, get, put, get_or_insert,
  set_leaf, insert, has, found, split_dot, insert_parts, insert_domain, has_parts, has_domain,
}

-- One label path begins with the other.
unfoldable pub meets : Label → List Label → Label → List Label → Bool
meets x [] y ys = same x y
meets x (x' ∷ xs) y [] = same x y
meets x (x' ∷ xs) y (y' ∷ ys) = same x y && meets x' xs y' ys

get-put_self : (cs : Subdomains) (k : Label) (s : SubDomain) → get (put cs k s) k ≡ some s
unfolding get put
get-put_self no_entry k s = rw (same_refl k)
get-put_self (entry k' s' cs) k s = elim (Bool-cases (same k' k)) [
  | inl e ↦ rw (e, e)
  | inr e ↦ rw (e, e) (get-put_self cs k s)
]

get-put_ne :
    (cs : Subdomains) (k j : Label) (s : SubDomain)
    → same k j ≡ false
    → get (put cs k s) j ≡ get cs j
unfolding get put
get-put_ne no_entry k j s h = rw h
get-put_ne (entry k' s' cs) k j s h = elim (Bool-cases (same k' k)) [
  | inl e ↦ rw (e, same→≡ k' k e, h)
  | inr e ↦ rw (e, get-put_ne cs k j s h)
]

-- What is found below the entry `o` of a map, with the labels `ys` behind it.
abbrev reach : Option SubDomain → List Label → Bool
reach none ys = false
reach (some s) [] = true
reach (some s) (y ∷ ys) = if leaf s then true else has s y ys

has-reach :
    (l : Bool) (cs : Subdomains) (y : Label) (ys : List Label)
    → has (sub_domain l cs) y ys ≡ reach (get cs y) ys
unfolding has
has-reach l cs y [] = elim (Option-cases (get cs y)) [
  | inl e ↦ rw (e, found)
  | inr (s, e) ↦ rw (e, found)
]
has-reach l cs y (y' ∷ ys) = elim (Option-cases (get cs y)) [
  | inl e ↦ rw (has, e)
  | inr (s, e) ↦ rw (has, e)
]

leaf-insert : (t : SubDomain) (x : Label) (xs : List Label) → leaf (insert t x xs) ≡ leaf t
unfolding insert leaf
leaf-insert (sub_domain l cs) x [] = refl
leaf-insert (sub_domain l cs) x (x' ∷ xs) = refl

leaf-set_leaf : (t : SubDomain) → leaf (set_leaf t) ≡ true
unfolding set_leaf leaf
leaf-set_leaf (sub_domain l cs) = refl

has-new : (y : Label) (ys : List Label) → has new y ys ≡ false
unfolding has get found
has-new y [] = refl
has-new y (y' ∷ ys) = refl

abbrev below : List Label → List Label → Bool
below [] ys = true
below (x ∷ xs) [] = true
below (x ∷ xs) (y ∷ ys) = meets x xs y ys

and_true : (b : Bool) → (b && true) ≡ b
and_true true = refl
and_true false = refl

meets-below :
    (x : Label) (xs : List Label) (y : Label) (ys : List Label)
    → meets x xs y ys ≡ (same x y && below xs ys)
unfolding meets
meets-below x [] y ys = sym (and_true (same x y))
meets-below x (x' ∷ xs) y [] = sym (and_true (same x y))
meets-below x (x' ∷ xs) y (y' ∷ ys) = refl

or_true : (b : Bool) → (b || true) ≡ true
or_true true = refl
or_true false = refl

or_false : (b : Bool) → (b || false) ≡ b
or_false true = refl
or_false false = refl

-- The lookup below an entry that an insertion has replaced by `s`.
insert_at :
    (l : Bool) (cs : Subdomains) (x : Label) (xs : List Label) (s : SubDomain)
    → ((ys : List Label) → reach (some s) ys ≡ (reach (get cs x) ys || below xs ys))
    → (y : Label) (ys : List Label)
    → has (sub_domain l (put cs x s)) y ys ≡ (has (sub_domain l cs) y ys || meets x xs y ys)
insert_at l cs x xs s h y ys =
    rw (has-reach l (put cs x s) y ys, has-reach l cs y ys, meets-below x xs y ys)
      (elim (Bool-cases (same x y)) [
        | inl e ↦ rw (e, sym (same→≡ x y e), get-put_self cs x s) (h ys)
        | inr e ↦ rw (e, get-put_ne cs x y s e, or_false (reach (get cs y) ys))
      ])

leaf_below :
    (o : Option SubDomain) (ys : List Label)
    → reach (some (set_leaf (get_or_insert o))) ys ≡ (reach o ys || true)
leaf_below o [] = rw (or_true (reach o []))
leaf_below o (y ∷ ys) = rw (leaf-set_leaf (get_or_insert o), or_true (reach o (y ∷ ys)))

node_below :
    (x : Label) (xs : List Label)
    → ((t : SubDomain) (y : Label) (ys : List Label)
        → has (insert t x xs) y ys ≡ (has t y ys || meets x xs y ys))
    → (o : Option SubDomain) (ys : List Label)
    → reach (some (insert (get_or_insert o) x xs)) ys ≡ (reach o ys || below (x ∷ xs) ys)
unfolding get_or_insert leaf meets
node_below x xs h o [] = rw (or_true (reach o []))
node_below x xs h none (y ∷ ys) = rw (leaf-insert new x xs, h new y ys, has-new y ys, leaf)
node_below x xs h (some s) (y ∷ ys) = elim (Bool-cases (leaf s)) [
  | inl e ↦ rw (leaf-insert s x xs, e)
  | inr e ↦ rw (leaf-insert s x xs, e, h s y ys)
]

-- After the insertion of a path a path is found exactly if it was found before, or one of the two
-- paths begins with the other.
pub has-insert :
    (t : SubDomain) (x : Label) (xs : List Label) (y : Label) (ys : List Label)
    → has (insert t x xs) y ys ≡ (has t y ys || meets x xs y ys)
unfolding insert
has-insert (sub_domain l cs) x [] y ys = insert_at l cs x [] _ (leaf_below (get cs x)) y ys
has-insert (sub_domain l cs) x (x' ∷ xs) y ys =
    insert_at l cs x (x' ∷ xs) _
      (node_below x' xs (λ t y' ys'. has-insert t x' xs y' ys') (get cs x)) y ys

-- A domain of which `insert_domain` takes note: two labels at least, and a last one that is not empty.
unfoldable pub counts : List Label → Bool
counts [] = false
counts (top ∷ []) = false
counts (top ∷ next ∷ rest) = not (ltb (length top) 1)

unfoldable pub named : List Label → Bool
named [] = false
named (top ∷ []) = false
named (top ∷ next ∷ rest) = true

unfoldable pub related : List Label → List Label → Bool
related [] ys = false
related (x ∷ xs) [] = false
related (x ∷ xs) (y ∷ ys) = meets x xs y ys

and_false : (a b : Bool) → (a && false && b) ≡ false
and_false true b = refl
and_false false b = refl

parts_lem :
    (root : SubDomain) (p q : List Label)
    → has_parts (insert_parts root p) q ≡ (has_parts root q || (counts p && named q && related p q))
unfolding insert_parts has_parts counts named related
parts_lem root p [] = sym (and_false (counts p) (related p []))
parts_lem root p (y ∷ []) = sym (and_false (counts p) (related p (y ∷ [])))
parts_lem root [] (y ∷ y' ∷ ys) = sym (or_false _)
parts_lem root (x ∷ []) (y ∷ y' ∷ ys) = sym (or_false _)
parts_lem root (x ∷ x' ∷ xs) (y ∷ y' ∷ ys) = elim (Bool-cases (ltb (length x) 1)) [
  | inl e ↦ rw (e, or_false (has root y (y' ∷ ys)))
  | inr e ↦ rw e (has-insert root x (x' ∷ xs) y (y' ∷ ys))
]

-- The domain `d` of the set covers the name `name`: both have labels enough, and the labels of one
-- begin, from the top level, with the labels of the other.
abbrev pub covers : List ℕ → List ℕ → Bool
covers d name =
    let p = reverse (split_dot d) in
    let q = reverse (split_dot name) in counts p && named q && related p q

abbrev pub insert_all : SubDomain → List (List ℕ) → SubDomain
insert_all root [] = root
insert_all root (d ∷ ds) = insert_all (insert_domain root d) ds

abbrev pub any_covers : List (List ℕ) → List ℕ → Bool
any_covers [] name = false
any_covers (d ∷ ds) name = covers d name || any_covers ds name

or_assoc : (a b c : Bool) → ((a || b) || c) ≡ (a || (b || c))
or_assoc true b c = refl
or_assoc false b c = refl

insert_all-has :
    (ds : List (List ℕ)) (root : SubDomain) (name : List ℕ)
    → has_domain (insert_all root ds) name ≡ (has_domain root name || any_covers ds name)
unfolding has_domain insert_domain
insert_all-has [] root name = sym (or_false _)
insert_all-has (d ∷ ds) root name =
    insert_all-has ds (insert_domain root d) name
    ∙ ap (λ b. b || any_covers ds name)
        (parts_lem root (reverse (split_dot d)) (reverse (split_dot name)))
    ∙ or_assoc (has_domain root name) (covers d name) (any_covers ds name)

new_domain : (name : List ℕ) → has_domain new name ≡ false
unfolding has_domain has_parts
new_domain name = go (reverse (split_dot name))
  where
    go : (q : List Label) → has_parts new q ≡ false
    go [] = refl
    go (top ∷ []) = refl
    go (top ∷ next ∷ rest) = has-new top (next ∷ rest)

-- The set that the insertion of the domains `ds` in turn makes holds a name exactly if one of them
-- covers it.
pub has_domain_lem :
    (ds : List (List ℕ)) (name : List ℕ) → has_domain (insert_all new ds) name ≡ any_covers ds name
has_domain_lem ds name =
    insert_all-has ds new name ∙ ap (λ b. b || any_covers ds name) (new_domain name)
