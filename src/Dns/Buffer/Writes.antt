-- ===== src/Dns/Buffer/Writes.antt =====
-- What a run of writes leaves in the buffer, and that reads give it back.
use lproxy_cv.Prelude.{
  ℕ, ◌+◌, ◌*◌, ◌/◌, ◌%◌, ◌≤◌, ◌<◌, ◌≡◌, refl, sym, ap, subst, ◌∙◌, some, List, [], ◌∷◌, ◌++◌, arith,
  length, get_elem?, set, take, drop, lt→leb, lt→ltb, append_assoc, length-append, append-nil,
  length-take, length-drop, take-append-drop,
}
use lproxy_cv.Prelude.Outcome.{ok}
use lproxy_cv.Dns.Buffer.{
  Buffer, read, read_u16, put, write, write_u16, write_u32, M, pure, ◌>>=◌, ◌>>◌,
}

pub get_elem?-middle :
    (pre : List ℕ) (v : ℕ) (post : List ℕ) → get_elem? (pre ++ (v ∷ post)) (length pre) ≡ some v
get_elem?-middle [] v post = refl
get_elem?-middle (x ∷ pre) v post = get_elem?-middle pre v post

set-middle :
    (pre : List ℕ) (old v : ℕ) (post : List ℕ)
    → set (pre ++ (old ∷ post)) (length pre) v ≡ pre ++ (v ∷ post)
set-middle [] old v post = refl
set-middle (x ∷ pre) old v post = ap (λ l. x ∷ l) (set-middle pre old v post)

-- The cursor behind `pre`.
abbrev pub at : List ℕ → List ℕ → Buffer
at pre post = record { buf = pre ++ post; pos = length pre }

move_on :
    (pre : List ℕ) (v : ℕ) (post : List ℕ)
    → ◌≡◌ {A = Buffer}
        (record { buf = pre ++ (v ∷ post); pos = length pre + 1 })
        (at (pre ++ (v ∷ [])) post)
move_on pre v post = rw (append_assoc pre (v ∷ []) post, length-append pre (v ∷ []))

-- `m` writes the bytes `bs` over as many bytes at the cursor, if they end by 512.
abbrev pub Writes : M (Unit {0}) → List ℕ → Type 0
Writes m bs =
    (pre old post : List ℕ)
    → length old ≡ length bs
    → length pre + length bs ≤ 512
    → m (at pre (old ++ post)) ≡ ok (tt, at (pre ++ bs) post)

-- `m` reads the bytes `bs` at the cursor, if they end by 512, and answers `v`.
abbrev pub Reads : {A : Type 0} → M A → List ℕ → A → Type 0
Reads m bs v =
    (pre post : List ℕ)
    → length pre + length bs ≤ 512
    → m (at pre (bs ++ post)) ≡ ok (v, at (pre ++ bs) post)

pub read-Reads : (v : ℕ) → Reads read (v ∷ []) v
unfolding read
read-Reads v pre post h =
    rw (lt→leb 512 (length pre) (omega arith), get_elem?-middle pre v post)
      (ap (λ b. ok (v, b)) (move_on pre v post))

pub write-Writes : (v : ℕ) → Writes (write v) (v ∷ [])
unfolding write put
write-Writes v pre [] post e h = absurd (omega arith)
write-Writes v pre (o ∷ x ∷ old) post e h = absurd (omega arith)
write-Writes v pre (o ∷ []) post e h =
    rw
      (
        lt→leb 512 (length pre) (omega arith),
        lt→ltb (length pre) (length (pre ++ (o ∷ post)))
            (omega (arith, length-append pre (o ∷ post))),
        set-middle pre o v post,
      )
      (ap (λ b. ok (tt, b)) (move_on pre v post))

pub pure-Reads : {A : Type 0} (v : A) → Reads (pure v) [] v
pure-Reads v pre post h = rw (append-nil pre)

pub >>=-ok :
    {A B : Type 0} (m : M A) (k : A → M B) (b b' : Buffer) (x : A)
    → m b ≡ ok (x, b')
    → (m >>= k) b ≡ k x b'
>>=-ok m k b b' x h = ap (λ r. ((λ _. r) >>= k) b) h

pub >>=-Reads :
    {A B : Type 0} (m : M A) (k : A → M B) (a b : List ℕ) (x : A) (y : B)
    → Reads m a x
    → Reads (k x) b y
    → Reads (m >>= k) (a ++ b) y
>>=-Reads m k a b x y hm hk pre post h = rw (append_assoc a b post) (
    >>=-ok m k (at pre (a ++ (b ++ post))) (at (pre ++ a) (b ++ post)) x
      (hm pre (b ++ post) (omega (arith, length-append a b)))
    ∙ hk (pre ++ a) post (omega (arith, length-append a b, length-append pre a))
    ∙ ap (λ l. ok (y, at l post)) (append_assoc pre a b))

pub pure-Writes : Writes (pure tt) []
pure-Writes pre [] post e h = rw (append-nil pre)
pure-Writes pre (o ∷ old) post e h = absurd (omega arith)

pub >>-Writes :
    (m k : M (Unit {0})) (a b : List ℕ) → Writes m a → Writes k b → Writes (m >> k) (a ++ b)
>>-Writes m k a b hm hk pre old post e h =
    let first : List ℕ = take (length a) old in
    let second : List ℕ = drop (length a) old in
    let n1 : length first ≡ length a =
      omega (arith, length-take (length a) old, length-append a b) in
    let n2 : length second ≡ length b =
      omega (arith, length-drop (length a) old, length-append a b) in
    subst (λ z. (m >> k) (at pre z) ≡ ok (tt, at (pre ++ (a ++ b)) post))
      (sym (append_assoc first second post) ∙ ap (λ z. z ++ post) (take-append-drop (length a) old))
      (>>=-ok m (λ _. k) (at pre (first ++ (second ++ post))) (at (pre ++ a) (second ++ post)) tt
          (hm pre first (second ++ post) n1 (omega (arith, length-append a b)))
        ∙ (hk (pre ++ a) second post n2 (omega (arith, length-append a b, length-append pre a))
            ∙ ap (λ l. ok (tt, at l post)) (append_assoc pre a b)))

-- Big-endian numbers.
abbrev pub be16 : ℕ → List ℕ
be16 v = (v / 256 % 256) ∷ (v % 256) ∷ []

abbrev pub be32 : ℕ → List ℕ
be32 v = (v / 16777216 % 256) ∷ (v / 65536 % 256) ∷ (v / 256 % 256) ∷ (v % 256) ∷ []

pub write_u16-Writes : (v : ℕ) → Writes (write_u16 v) (be16 v)
unfolding write_u16
write_u16-Writes v =
    >>-Writes (write (v / 256 % 256)) (write (v % 256)) ((v / 256 % 256) ∷ []) ((v % 256) ∷ [])
      (write-Writes (v / 256 % 256)) (write-Writes (v % 256))

pub write_u32-Writes : (v : ℕ) → Writes (write_u32 v) (be32 v)
unfolding write_u32
write_u32-Writes v =
    >>-Writes (write (v / 16777216 % 256)) _ ((v / 16777216 % 256) ∷ []) _
      (write-Writes (v / 16777216 % 256))
      (>>-Writes (write (v / 65536 % 256)) _ ((v / 65536 % 256) ∷ []) _
        (write-Writes (v / 65536 % 256))
        (>>-Writes (write (v / 256 % 256)) (write (v % 256)) ((v / 256 % 256) ∷ []) ((v % 256) ∷ [])
          (write-Writes (v / 256 % 256)) (write-Writes (v % 256))))

pub read_u16-Reads : (v : ℕ) → v < 65536 → Reads read_u16 (be16 v) v
unfolding read_u16
read_u16-Reads v h =
    >>=-Reads read _ ((v / 256 % 256) ∷ []) ((v % 256) ∷ []) (v / 256 % 256) v
      (read-Reads (v / 256 % 256))
      (>>=-Reads read (λ lo. pure (v / 256 % 256 * 256 + lo)) ((v % 256) ∷ []) [] (v % 256) v
        (read-Reads (v % 256))
        (subst (λ x. Reads (pure x) [] v) {x = v} (omega arith) (pure-Reads v)))
