-- ===== src/Udpx/Cache/Timed.antt =====
-- The entries of the cache and the elements of the delay queue belong to each other.
use lproxy_cv.Prelude.{
  ℕ, ◌≡◌, refl, sym, ap, ◌∙◌, subst, inl, inr, Bool, true, false, ◌&&◌, Bool-cases, Option, none,
  some, List, arith, ◌==◌, ==_iff, ==_refl, if◌then◌else◌,
}
use mathlib.Core.Option.{some-injective}
use lproxy_cv.Prelude.Maps
use lproxy_cv.Prelude.Maps.{IsEq}
use lproxy_cv.Tunnels.Tunnel.{SocketAddr}
use lproxy_cv.Manager.Mgr.{same_ip}
use lproxy_cv.Service.Acclog.Accessed.{same_ip-IsEq}
use lproxy_cv.Udpx.Cache.{same_addr, DelayQueue, UStub, Entry, ttl_secs, Cache, insert}

pub same_addr-IsEq : IsEq same_addr
unfolding same_addr
same_addr-IsEq = record { sound = sound; reflexive = reflexive }
  where
    both : (a b : Bool) → (a && b) ≡ true → (a ≡ true) × (b ≡ true)
    both true b e = (refl, e)
    both false b e = absurd (ground arith)

    sound : (a b : SocketAddr) → (same_ip a.ip b.ip && (a.port == b.port)) ≡ true → a ≡ b
    sound a b h =
        let (x, y) = both (same_ip a.ip b.ip) (a.port == b.port) h in
        let i : a.ip ≡ b.ip = same_ip-IsEq.sound a.ip b.ip x in
        let p : a.port ≡ b.port = (==_iff a.port b.port).0 y in
        ap (λ z. record { ip = z; port = a.port }) i ∙ ap (λ z. record { ip = b.ip; port = z }) p

    reflexive : (a : SocketAddr) → (same_ip a.ip a.ip && (a.port == a.port)) ≡ true
    reflexive a = rw (same_ip-IsEq.reflexive a.ip, ==_refl a.port)

module _ (D : DelayQueue) where
  open D use {Queue, queued}

  -- An entry's key is queued for its address.
  abbrev pub Timed : Queue → SocketAddr → Option Entry → Type 0
  Timed q a none = Unit {0}
  Timed q a (some e) = queued q e.delay ≡ some a

  -- An element of the queue is that of the entry of its address.
  abbrev pub Owned : List (SocketAddr × Entry) → ℕ → Option SocketAddr → Type 0
  Owned l k none = Unit {0}
  Owned l k (some a) = (e : Entry) × (Maps.get same_addr l a ≡ some e) × (e.delay ≡ k)

  pub record CacheInv (c : Cache D) : Type 0 where
    pub timed : (a : SocketAddr) → Timed c.expirations a (Maps.get same_addr c.entries a)
    pub owned : (k : ℕ) → Owned c.entries k (queued c.expirations k)

  pub Timed-move :
      (q q' : Queue) (a : SocketAddr) (o : Option Entry)
      → ((key : ℕ) → queued q key ≡ some a → queued q' key ≡ some a)
      → Timed q a o
      → Timed q' a o
  Timed-move q q' a none f t = tt
  Timed-move q q' a (some e) f t = f e.delay t

  Owned-move :
      (l l' : List (SocketAddr × Entry)) (k : ℕ) (o : Option SocketAddr)
      → ((a : SocketAddr) (e : Entry)
          → Maps.get same_addr l a ≡ some e
          → e.delay ≡ k
          → Maps.get same_addr l' a ≡ some e)
      → Owned l k o
      → Owned l' k o
  Owned-move l l' k none f w = tt
  Owned-move l l' k (some a) f (e, g, d) = (e, f a e g d, d)

  -- The element of an entry.
  pub queued_entry :
      (c : Cache D) (a : SocketAddr) (e : Entry)
      → CacheInv c
      → Maps.get same_addr c.entries a ≡ some e
      → queued c.expirations e.delay ≡ some a
  queued_entry c a e v h = subst (Timed c.expirations a) h (v.timed a)

  if_yes : {A : Type 0} (b : Bool) (x y : A) → b ≡ true → (if b then x else y) ≡ x
  if_yes b x y e = rw e

  if_no : {A : Type 0} (b : Bool) (x y : A) → b ≡ false → (if b then x else y) ≡ y
  if_no b x y e = rw e

  -- An entry that is absent is put in with an element of the queue.
  pub insert-CacheInv :
      (c : Cache D) (a : SocketAddr) (s : UStub)
      → CacheInv c
      → Maps.get same_addr c.entries a ≡ none
      → CacheInv (insert D c a s).0
  unfolding insert
  insert-CacheInv c a s v h =
      let made = D.insert c.expirations a ttl_secs in
      let new : Entry = record { stub = s; delay = made.1 } in
      let l = Maps.insert same_addr a new c.entries in
      record {
        timed = λ b. elim (Bool-cases (same_addr a b)) [
          | inl y ↦
              subst (Timed made.0 b)
                (sym
                  (lookup b ∙ if_yes (same_addr a b) (some new) (Maps.get same_addr c.entries b) y))
                (D.queued-insert c.expirations a ttl_secs made.1
                  ∙ if_yes (made.1 == made.1) (some a) (queued c.expirations made.1)
                      (==_refl made.1)
                  ∙ ap some (same_addr-IsEq.sound a b y))
          | inr n ↦
              subst (Timed made.0 b)
                (sym
                  (lookup b ∙ if_no (same_addr a b) (some new) (Maps.get same_addr c.entries b) n))
                (Timed-move c.expirations made.0 b (Maps.get same_addr c.entries b)
                  (λ key e. elim (Bool-cases (made.1 == key)) [
                    | inl y ↦ absurd (vacant key b ((==_iff made.1 key).0 y) e)
                    | inr m ↦
                        D.queued-insert c.expirations a ttl_secs key
                        ∙ if_no (made.1 == key) (some a) (queued c.expirations key) m
                        ∙ e
                  ])
                  (v.timed b))
        ];
        owned = λ key. elim (Bool-cases (made.1 == key)) [
          | inl y ↦
              subst (Owned l key)
                (sym (
                  D.queued-insert c.expirations a ttl_secs key
                  ∙ if_yes (made.1 == key) (some a) (queued c.expirations key) y))
                (
                  new,
                  lookup a
                      ∙ if_yes (same_addr a a) (some new) (Maps.get same_addr c.entries a)
                          (same_addr-IsEq.reflexive a),
                  (==_iff made.1 key).0 y,
                )
          | inr n ↦
              subst (Owned l key)
                (sym (
                  D.queued-insert c.expirations a ttl_secs key
                  ∙ if_no (made.1 == key) (some a) (queued c.expirations key) n))
                (Owned-move c.entries l key (queued c.expirations key)
                  (λ b e g d. elim (Bool-cases (same_addr a b)) [
                    | inl y ↦ absurd (absent b e (same_addr-IsEq.sound a b y) g)
                    | inr m ↦
                        lookup b
                        ∙ if_no (same_addr a b) (some new) (Maps.get same_addr c.entries b) m
                        ∙ g
                  ])
                  (v.owned key))
        ];
      }
    where
      lookup :
          (b : SocketAddr)
          → Maps.get same_addr
              (Maps.insert same_addr a
                (record { stub = s; delay = (D.insert c.expirations a ttl_secs).1 })
                c.entries)
              b
            ≡ (if same_addr a b
                then some (record { stub = s; delay = (D.insert c.expirations a ttl_secs).1 })
                else Maps.get same_addr c.entries b)
      lookup b =
          Maps.get-insert same_addr same_addr-IsEq a b
            (record { stub = s; delay = (D.insert c.expirations a ttl_secs).1 }) c.entries

      vacant :
          (key : ℕ) (b : SocketAddr)
          → (D.insert c.expirations a ttl_secs).1 ≡ key
          → queued c.expirations key ≡ some b
          → ⊥
      vacant key b e f =
          let n = D.insert_fresh c.expirations a ttl_secs in
          let both : queued c.expirations (D.insert c.expirations a ttl_secs).1 ≡ some b =
            ap (queued c.expirations) e ∙ f in
          cc (n, both)

      absent : (b : SocketAddr) (e : Entry) → a ≡ b → Maps.get same_addr c.entries b ≡ some e → ⊥
      absent b e same g =
          let both : Maps.get same_addr c.entries a ≡ some e =
            ap (Maps.get same_addr c.entries) same ∙ g in
          cc (h, both)

  -- An element that leaves the queue with the entry of its address.
  pub taken-CacheInv :
      (c : Cache D) (a : SocketAddr) (k : ℕ) (q : Queue) (e : Entry)
      → CacheInv c
      → Maps.get same_addr c.entries a ≡ some e
      → e.delay ≡ k
      → ((key : ℕ) → queued q key ≡ (if k == key then none else queued c.expirations key))
      → CacheInv (record c { entries = Maps.remove same_addr a c.entries; expirations = q })
  taken-CacheInv c a k q e v h d r =
      let l = Maps.remove same_addr a c.entries in
      record {
        timed = λ b. elim (Bool-cases (same_addr a b)) [
          | inl y ↦
              subst (Timed q b)
                (sym (lookup b ∙ if_yes (same_addr a b) none (Maps.get same_addr c.entries b) y)) tt
          | inr n ↦
              subst (Timed q b)
                (sym (lookup b ∙ if_no (same_addr a b) none (Maps.get same_addr c.entries b) n))
                (Timed-move c.expirations q b (Maps.get same_addr c.entries b)
                  (λ key f. elim (Bool-cases (k == key)) [
                    | inl y ↦ absurd (other_address key b n ((==_iff k key).0 y) f)
                    | inr m ↦ r key ∙ if_no (k == key) none (queued c.expirations key) m ∙ f
                  ])
                  (v.timed b))
        ];
        owned = λ key. elim (Bool-cases (k == key)) [
          | inl y ↦
              subst (Owned l key)
                (sym (r key ∙ if_yes (k == key) none (queued c.expirations key) y)) tt
          | inr n ↦
              subst (Owned l key) (sym (r key ∙ if_no (k == key) none (queued c.expirations key) n))
                (Owned-move c.entries l key (queued c.expirations key)
                  (λ b f g w. elim (Bool-cases (same_addr a b)) [
                    | inl y ↦ absurd (other_key key b f n (same_addr-IsEq.sound a b y) g w)
                    | inr m ↦
                        lookup b ∙ if_no (same_addr a b) none (Maps.get same_addr c.entries b) m ∙ g
                  ])
                  (v.owned key))
        ];
      }
    where
      lookup :
          (b : SocketAddr)
          → Maps.get same_addr (Maps.remove same_addr a c.entries) b
            ≡ (if same_addr a b then none else Maps.get same_addr c.entries b)
      lookup b = Maps.get-remove same_addr same_addr-IsEq a b c.entries

      other_address :
          (key : ℕ) (b : SocketAddr)
          → same_addr a b ≡ false
          → k ≡ key
          → queued c.expirations key ≡ some b
          → ⊥
      other_address key b n y f =
          let mine : queued c.expirations key ≡ some a =
            ap (queued c.expirations) (sym (d ∙ y)) ∙ queued_entry c a e v h in
          let same : a ≡ b = some-injective a b (sym mine ∙ f) in
          cc (n, ap (same_addr a) same, same_addr-IsEq.reflexive a)

      other_key :
          (key : ℕ) (b : SocketAddr) (f : Entry)
          → (k == key) ≡ false
          → a ≡ b
          → Maps.get same_addr c.entries b ≡ some f
          → f.delay ≡ key
          → ⊥
      other_key key b f n same g w =
          let one : e ≡ f =
            some-injective e f (sym h ∙ ap (Maps.get same_addr c.entries) same ∙ g) in
          let keys : k ≡ key = sym d ∙ ap (λ x. x.delay) one ∙ w in cc (n, (==_iff k key).1 keys)
