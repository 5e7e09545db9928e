-- ===== src/Manager/Mgr/Table.antt =====
-- The table of the tunnels: what holds of each of them, by its place.
use mathlib.Core.Option.{some-injective}
use lproxy_cv.Prelude.{
  ℕ, zero, suc, ◌+◌, ◌≡◌, subst, Option, none, some, List, [], ◌∷◌, arith, get_elem?, set,
  replicate, map,
}
use lproxy_cv.Tunnels.Tunnel.{Tunnel}
use lproxy_cv.Tunnels.Tunnel.Kept.{TunAt}
use lproxy_cv.Manager.Mgr.{TunMgr}
use lproxy_cv.Manager.Mgr.Choice.{Ordered}

abbrev pub EntryAt : ℕ → Option Tunnel → Type 0
EntryAt i none = Unit {0}
EntryAt i (some t) = TunAt i t

-- The tunnels of the places `i ..`.
abbrev pub Tuns : ℕ → List (Option Tunnel) → Type 0
Tuns i [] = Unit {0}
Tuns i (t ∷ ts) = EntryAt i t × Tuns (i + 1) ts

-- The manager's order and its tunnels are well formed.
pub record MgrInv (m : TunMgr) : Type 0 where
  pub ordered : Ordered m
  pub tuns : Tuns 0 m.tunnels

get_elem?-Tuns :
    (ts : List (Option Tunnel)) (b i : ℕ) (t : Option Tunnel)
    → Tuns b ts
    → get_elem? ts i ≡ some t
    → EntryAt (b + i) t
get_elem?-Tuns [] b i t v e = absurd (ground arith)
get_elem?-Tuns (x ∷ ts) b zero t v e =
    subst (λ k. EntryAt k t) (here b) (subst (EntryAt b) (some-injective x t e) v.0)
  where
    here : (b : ℕ) → b ≡ b + 0
    here b = omega arith
get_elem?-Tuns (x ∷ ts) b (suc i) t v e =
    subst (λ k. EntryAt k t) (there b i) (get_elem?-Tuns ts (b + 1) i t v.1 e)
  where
    there : (b i : ℕ) → b + 1 + i ≡ b + suc i
    there b i = omega arith

-- The entry of a place.
pub entry_lem :
    (m : TunMgr) (i : ℕ) (t : Option Tunnel)
    → MgrInv m
    → get_elem? m.tunnels i ≡ some t
    → EntryAt i t
entry_lem m i t v e =
    subst (λ k. EntryAt k t) (omega arith) (get_elem?-Tuns m.tunnels 0 i t v.tuns e)

pub set-Tuns :
    (ts : List (Option Tunnel)) (b i : ℕ) (t : Option Tunnel)
    → Tuns b ts
    → EntryAt (b + i) t
    → Tuns b (set ts i t)
set-Tuns [] b i t v h = v
set-Tuns (x ∷ ts) b zero t v h = (subst (λ k. EntryAt k t) (here b) h, v.1)
  where
    here : (b : ℕ) → b + 0 ≡ b
    here b = omega arith
set-Tuns (x ∷ ts) b (suc i) t v h =
    (v.0, set-Tuns ts (b + 1) i t v.1 (subst (λ k. EntryAt k t) (there b i) h))
  where
    there : (b i : ℕ) → b + suc i ≡ b + 1 + i
    there b i = omega arith

pub none-Tuns : (n b : ℕ) → Tuns b (replicate n none)
none-Tuns zero b = tt
none-Tuns (suc n) b = (tt, none-Tuns n (b + 1))

pub map-Tuns :
    (f : Option Tunnel → Option Tunnel)
    → ((i : ℕ) (t : Option Tunnel) → EntryAt i t → EntryAt i (f t))
    → (ts : List (Option Tunnel)) (b : ℕ) → Tuns b ts
    → Tuns b (map f ts)
map-Tuns f h [] b v = tt
map-Tuns f h (t ∷ ts) b v = (h b t v.0, map-Tuns f h ts (b + 1) v.1)
