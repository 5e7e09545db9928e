-- ===== src/Service/Acclog/Accessed.antt =====
-- Who has reached what, after the answers and the accesses that were reported.
use lproxy_cv.Prelude.{
  ℕ, ◌≡◌, refl, ap, ◌∙◌, inl, inr, Bool, true, false, ◌&&◌, ◌||◌, Bool-cases, Option, none, some,
  List, [], ◌∷◌, arith, if◌then◌else◌, same, same→≡, same_refl,
}
use lproxy_cv.Prelude.Maps
use lproxy_cv.Prelude.Maps.{IsEq, same-IsEq}
use lproxy_cv.Tunnels.Frames.{IpAddr, v4, v6}
use lproxy_cv.Manager.Mgr.{same_ip}
use lproxy_cv.Service.Acclog.{AccLog, set_of, named, name_of, log_one, log, domain_add}

pub same_ip-IsEq : IsEq same_ip
unfolding same_ip
same_ip-IsEq = record { sound = sound; reflexive = reflexive }
  where
    sound : (a b : IpAddr) → same_ip a b ≡ true → a ≡ b
    sound (v4 a) (v4 b) h = ap v4 (same→≡ a b h)
    sound (v6 a) (v6 b) h = ap v6 (same→≡ a b h)
    sound (v4 a) (v6 b) h = absurd (ground arith)
    sound (v6 a) (v4 b) h = absurd (ground arith)

    reflexive : (a : IpAddr) → same_ip a a ≡ true
    reflexive (v4 a) = same_refl a
    reflexive (v6 a) = same_refl a

is_some : {A : Type 0} → Option A → Bool
is_some none = false
is_some (some a) = true

-- Whether the address `src` is kept for the name `domain`.
unfoldable pub has_reached : AccLog → List ℕ → IpAddr → Bool
unfolding is_some
has_reached l domain src =
    is_some (Maps.get same_ip (set_of (Maps.get same l.acc_domains domain)) src)

-- Whether one of the accesses is from `src` to an address of the name `domain`.
abbrev pub any_access : (IpAddr → List ℕ) → List (IpAddr × IpAddr) → List ℕ → IpAddr → Bool
any_access name [] domain src = false
any_access name ((s, d) ∷ v) domain src =
    (same (name d) domain && same_ip s src) || any_access name v domain src

-- The name that the last of the answers has for an address.
abbrev pub last_name : List (List ℕ × IpAddr) → IpAddr → Option (List ℕ) → Option (List ℕ)
last_name [] ip old = old
last_name ((name, a) ∷ v) ip old = last_name v ip (if same_ip a ip then some name else old)

domain_add_lem :
    (v : List (List ℕ × IpAddr)) (l : AccLog) (ip : IpAddr)
    → Maps.get same_ip (domain_add l v).domains ip ≡ last_name v ip (Maps.get same_ip l.domains ip)
unfolding domain_add
domain_add_lem [] l ip = refl
domain_add_lem ((name, a) ∷ v) l ip =
    domain_add_lem v (record l { domains = Maps.insert same_ip a name l.domains }) ip
    ∙ ap (last_name v ip) (Maps.get-insert same_ip same_ip-IsEq a ip name l.domains)

domain_add_keeps :
    (v : List (List ℕ × IpAddr)) (l : AccLog) → (domain_add l v).acc_domains ≡ l.acc_domains
unfolding domain_add
domain_add_keeps [] l = refl
domain_add_keeps ((name, a) ∷ v) l =
    domain_add_keeps v (record l { domains = Maps.insert same_ip a name l.domains })

or_false : (a : Bool) → a ≡ (a || false)
or_false true = refl
or_false false = refl

or_swap : (a b c : Bool) → ((a || b) || c) ≡ (b || (a || c))
or_swap true true c = refl
or_swap true false c = refl
or_swap false b c = refl

module _ (show_ip : IpAddr → List ℕ) where
  log_one-has_reached :
      (l : AccLog) (s d : IpAddr) (domain : List ℕ) (src : IpAddr)
      → has_reached (log_one show_ip l s d) domain src
        ≡ ((same (name_of show_ip l d) domain && same_ip s src) || has_reached l domain src)
  unfolding has_reached log_one set_of is_some
  log_one-has_reached l s d domain src =
      let k = name_of show_ip l d in
      let kept = set_of (Maps.get same l.acc_domains k) in
      ap (λ o. is_some (Maps.get same_ip (set_of o) src))
        (Maps.get-insert same same-IsEq k domain (Maps.insert same_ip s tt kept) l.acc_domains)
      ∙ elim (Bool-cases (same k domain)) [
        | inr n ↦ rw n
        | inl y ↦ rw y (
            ap is_some (Maps.get-insert same_ip same_ip-IsEq s src tt kept)
            ∙ elim (Bool-cases (same_ip s src)) [
              | inl e ↦ rw e
              | inr n ↦ rw n (
                  ap (λ d. is_some (Maps.get same_ip (set_of (Maps.get same l.acc_domains d)) src))
                    (same→≡ k domain y))
            ])
      ]

  log-has_reached :
      (v : List (IpAddr × IpAddr)) (l : AccLog) (domain : List ℕ) (src : IpAddr)
      → has_reached (log show_ip l v) domain src
        ≡ (has_reached l domain src || any_access (name_of show_ip l) v domain src)
  unfolding log log_one name_of
  log-has_reached [] l domain src = or_false (has_reached l domain src)
  log-has_reached ((s, d) ∷ v) l domain src =
      log-has_reached v (log_one show_ip l s d) domain src
      ∙ ap (λ b. b || any_access (name_of show_ip l) v domain src)
          (log_one-has_reached l s d domain src)
      ∙ or_swap (same (name_of show_ip l d) domain && same_ip s src) (has_reached l domain src)
          (any_access (name_of show_ip l) v domain src)

  -- The name under which an address is logged after the answers `records`.
  abbrev pub told_name : AccLog → List (List ℕ × IpAddr) → IpAddr → List ℕ
  told_name l records d = named show_ip (last_name records d (Maps.get same_ip l.domains d)) d

  any_access_ext :
      (f g : IpAddr → List ℕ) (v : List (IpAddr × IpAddr)) (domain : List ℕ) (src : IpAddr)
      → ((d : IpAddr) → f d ≡ g d)
      → any_access f v domain src ≡ any_access g v domain src
  any_access_ext f g [] domain src h = refl
  any_access_ext f g ((s, d) ∷ v) domain src h =
      ap (λ n. (same n domain && same_ip s src) || any_access f v domain src) (h d)
      ∙ ap (λ b. (same (g d) domain && same_ip s src) || b) (any_access_ext f g v domain src h)

  -- After the answers `records` and then the accesses `v` were reported, an address is kept for a
  -- name exactly if it was kept before, or one of the accesses is from it to an address whose name,
  -- by the last of the answers for it and else as before, is that name.
  pub log-domain_add :
      (l : AccLog) (records : List (List ℕ × IpAddr)) (v : List (IpAddr × IpAddr)) (domain : List ℕ)
      (src : IpAddr)
      → has_reached (log show_ip (domain_add l records) v) domain src
        ≡ (has_reached l domain src || any_access (told_name l records) v domain src)
  unfolding has_reached name_of
  log-domain_add l records v domain src =
      log-has_reached v (domain_add l records) domain src
      ∙ ap
          (λ m.
            is_some (Maps.get same_ip (set_of (Maps.get same m domain)) src)
            || any_access (name_of show_ip (domain_add l records)) v domain src)
          (domain_add_keeps records l)
      ∙ ap (λ b. has_reached l domain src || b)
          (any_access_ext (name_of show_ip (domain_add l records)) (told_name l records) v domain
            src (λ d. ap (λ o. named show_ip o d) (domain_add_lem records l d)))
