-- ===== src/Tunnels/Reqq/Invariant.antt =====
-- The invariant of the slots: the free list names free slots of the table, each once.
use lproxy_cv.Prelude.{
  ℕ, zero, suc, ◌+◌, ◌-◌, ◌≤◌, ◌<◌, ◌≡◌, refl, subst, ◌∙◌, ◌≢◌, ◌⊎◌, inl, inr, none, some, List, [],
  ◌∷◌, ◌++◌, arith, ◌==◌, length, get_elem?, set, All, length-append, length-set, get_elem?-lt,
  get_elem?-set_self, get_elem?-set_ne, get_elem?-some, Option-cases, Bool-cases,
}
use lproxy_cv.Prelude.Outcome.{ok}
use lproxy_cv.Tunnels.Reqq.{
  Request, Reqq, u16, u16_max, new_request, clean_req, new_loop, new, alloc_from, alloc, free_slot,
  free, granted, clear_all,
}

abbrev pub IsOutside : ℕ → List ℕ → Type 0
IsOutside i [] = Unit {0}
IsOutside i (j ∷ js) = (i ≢ j) × IsOutside i js

abbrev pub IsDistinct : List ℕ → Type 0
IsDistinct [] = Unit {0}
IsDistinct (j ∷ js) = IsOutside j js × IsDistinct js

abbrev pub IsClean : Request → Type 0
IsClean r = (r.request_tx ≡ none) × (r.trigger ≡ none)

-- Slot `i` stands in the table and holds no handle.
abbrev pub FreeSlot : List Request → ℕ → Type 0
FreeSlot es i = (r : Request) × (get_elem? es i ≡ some r) × IsClean r

pub record Inv (q : Reqq) : Type 0 where
  pub distinct : IsDistinct q.free
  pub slots : All (FreeSlot q.elements) q.free

-- A write to a slot that is not in the list leaves the listed slots as they are.
pub All-FreeSlot-set :
    (es : List Request) (i : ℕ) (r : Request) (js : List ℕ)
    → IsOutside i js
    → All (FreeSlot es) js
    → All (FreeSlot (set es i r)) js
All-FreeSlot-set es i r [] o h = tt
All-FreeSlot-set es i r (j ∷ js) o ((x, e, c), hs) =
    ((x, get_elem?-set_ne es i j r o.0 ∙ e, c), All-FreeSlot-set es i r js o.1 hs)

pub set-FreeSlot :
    (es : List Request) (i : ℕ) (r : Request) → i < length es → IsClean r → FreeSlot (set es i r) i
set-FreeSlot es i r h c = (r, get_elem?-set_self es i r h, c)

-- A slot is granted: it was free, it holds the request's handles under the next tag, no other slot
-- changes, and it is free no longer.
pub record Granted (q : Reqq) (req2 : Request) (q' : Reqq) (idx tag : ℕ) : Type 0 where
  pub slot : ℕ
  pub req : Request
  pub was_free : q.free ≡ slot ∷ q'.free
  pub was_clean : (get_elem? q.elements slot ≡ some req) × IsClean req
  pub names : (idx ≡ u16 slot) × (tag ≡ u16 (req.tag + 1))
  pub holds : get_elem? q'.elements slot ≡ some (granted req req2)
  pub table : q'.elements ≡ set q.elements slot (granted req req2)
  pub size : length q'.elements ≡ length q.elements
  pub taken : IsOutside slot q'.free

-- The result of `alloc`: refused with no change, or granted.
abbrev pub Alloc : Reqq → Request → Reqq × ℕ × ℕ → Type 0
Alloc q req2 (q', idx, tag) =
    ((q.free ≡ []) × (q' ≡ q) × (idx ≡ u16_max) × (tag ≡ u16_max)) ⊎ Granted q req2 q' idx tag

-- On a table with the invariant `alloc` returns without a panic, keeps the invariant, and either
-- refuses, with no change, where no slot is free, or grants the first free slot as `Granted`
-- describes it.
pub alloc-Inv :
    (q : Reqq) (req2 : Request)
    → Inv q
    → (p : Reqq × ℕ × ℕ) × (alloc q req2 ≡ ok p) × Inv p.0 × Alloc q req2 p
unfolding alloc
alloc-Inv q req2 v = go q.free refl v.distinct v.slots
  where
    go :
        (js : List ℕ)
        → q.free ≡ js
        → IsDistinct js
        → All (FreeSlot q.elements) js
        → (p : Reqq × ℕ × ℕ) × (alloc_from js q req2 ≡ ok p) × Inv p.0 × Alloc q req2 p
    go [] e d h = ((q, u16_max, u16_max), refl, v, inl (e, refl, refl, refl))
    go (i ∷ js) e d ((r, er, c), hs) = (
      (record { elements = set q.elements i (granted r req2); free = js }, u16 i, u16 (r.tag + 1)),
      rw er,
      record { distinct = d.1; slots = All-FreeSlot-set q.elements i _ js d.0 hs },
      inr (record {
        slot = i;
        req = r;
        was_free = e;
        was_clean = (er, c);
        names = (refl, refl);
        holds = get_elem?-set_self q.elements i _ (get_elem?-lt q.elements i r er);
        table = refl;
        size = length-set q.elements i _;
        taken = d.0;
      }),
    )

-- On a table with the invariant, `free` of a slot that is not in the free list keeps the invariant,
-- whatever the tag.
pub free-Inv : (q : Reqq) (i tag : ℕ) → Inv q → IsOutside i q.free → Inv (free q i tag).0
unfolding free
free-Inv q i tag v o = elim (Option-cases (get_elem? q.elements i)) [
  | inl e ↦ rw (e, free_slot) v
  | inr (r, e) ↦ elim (Bool-cases (r.tag == tag)) [
    | inr n ↦ rw (e, free_slot, n) v
    | inl y ↦
        rw (e, free_slot, y)
          (record {
            distinct = (o, v.distinct);
            slots = (
              set-FreeSlot q.elements i (clean_req r) (get_elem?-lt q.elements i r e) (refl, refl),
              All-FreeSlot-set q.elements i _ q.free o v.slots,
            );
          })
  ]
]

pub clear_all-Inv : (q : Reqq) → Inv (clear_all q)
unfolding clear_all
clear_all-Inv q = record { distinct = tt; slots = tt }

-- The rounds of `new`: slots so far, and the free list counts down from `size`.
record Filling (n size : ℕ) (q : Reqq) : Type 0 where
  made : length q.elements ≡ n
  listed : length q.free ≡ n
  clean : (i : ℕ) (r : Request) → get_elem? q.elements i ≡ some r → IsClean r
  within : All (λ i. (size ≤ i + n) × (i < size)) q.free
  once : IsDistinct q.free

get_elem?-append_one :
    (es : List Request) (x : Request) (i : ℕ) (r : Request)
    → IsClean x
    → ((j : ℕ) (s : Request) → get_elem? es j ≡ some s → IsClean s)
    → get_elem? (es ++ (x ∷ [])) i ≡ some r
    → IsClean r
get_elem?-append_one [] x zero r cx h e = ground arith
get_elem?-append_one [] x (suc i) r cx h e = absurd (ground arith)
get_elem?-append_one (y ∷ es) x zero r cx h e = h zero r e
get_elem?-append_one (y ∷ es) x (suc i) r cx h e =
    get_elem?-append_one es x i r cx (λ j. h (suc j)) e

-- All indices of the list are above `i`, so `i` is new.
IsOutside_above :
    (i n size : ℕ) (js : List ℕ)
    → i + n < size
    → All (λ j. (size ≤ j + n) × (j < size)) js
    → IsOutside i js
IsOutside_above i n size [] h a = tt
IsOutside_above i n size (j ∷ js) h (b, a) = (omega arith, IsOutside_above i n size js h a)

within_more :
    (n size : ℕ) (js : List ℕ)
    → All (λ j. (size ≤ j + n) × (j < size)) js
    → All (λ j. (size ≤ j + (n + 1)) × (j < size)) js
within_more n size [] a = tt
within_more n size (j ∷ js) (b, a) = ((omega arith, b.1), within_more n size js a)

Filling-step :
    (n size : ℕ) (q : Reqq)
    → n < size
    → Filling n size q
    → Filling (n + 1) size (record {
      elements = q.elements ++ (new_request (u16 n) ∷ []);
      free = (size - 1 - n) ∷ q.free;
    })
Filling-step n size q h v = record {
  made = omega (arith, length-append q.elements (new_request (u16 n) ∷ []), v.made);
  listed = omega (arith, v.listed);
  clean = λ i r e. get_elem?-append_one q.elements _ i r (refl, refl) v.clean e;
  within = ((omega arith, omega arith), within_more n size q.free v.within);
  once = (IsOutside_above (size - 1 - n) n size q.free (omega arith) v.within, v.once);
}

new_loop-Filling :
    (rounds n size : ℕ) (q : Reqq)
    → n + rounds ≡ size
    → Filling n size q
    → Filling size size (new_loop rounds n size q)
unfolding new_loop
new_loop-Filling zero n size q e v = subst (λ k. Filling k size q) (omega arith) v
new_loop-Filling (suc rounds) n size q e v =
    new_loop-Filling rounds (n + 1) size _ (omega arith) (Filling-step n size q (omega arith) v)

Filling-slots :
    (size : ℕ) (es : List Request) (js : List ℕ)
    → length es ≡ size
    → ((i : ℕ) (r : Request) → get_elem? es i ≡ some r → IsClean r)
    → All (λ j. (size ≤ j + size) × (j < size)) js
    → All (FreeSlot es) js
Filling-slots size es [] e c a = tt
Filling-slots size es (j ∷ js) e c (b, a) =
    let (r, h) = get_elem?-some es j (omega arith) in
    ((r, h, c j r h), Filling-slots size es js e c a)

-- A new table has the invariant and the asked number of slots, and they are all free.
pub new-Inv :
    (size : ℕ)
    → Inv (new size) × (length (new size).elements ≡ size) × (length (new size).free ≡ size)
unfolding new
new-Inv size = (
  record { distinct = v.once; slots = Filling-slots size _ _ v.made v.clean v.within },
  v.made,
  v.listed,
)
  where
    v : Filling size size (new_loop size 0 size (record { elements = []; free = [] }))
    v = new_loop-Filling size 0 size _ (omega arith) (record {
      made = refl;
      listed = refl;
      clean = λ i r e. absurd (ground arith);
      within = tt;
      once = tt;
    })
