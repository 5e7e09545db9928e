-- ===== src/Htp/Http/Responses.antt =====
-- Responses that are read, and one that is not.
use lproxy_cv.Prelude.{
  ℕ, suc, ◌+◌, ◌-◌, ◌≤◌, ◌<◌, ◌≡◌, refl, ap, ◌∙◌, Bool, true, false, ◌||◌, Option, none, some, List,
  [], ◌∷◌, ◌++◌, arith, ◌==◌, if◌then◌else◌, length, drop, take-append, get_elem?, codes, position,
  position-append, starts_with, All, lt→ltb, le→leb,
}
use lproxy_cv.Prelude.Outcome.{ok, panic, ◌>>=◌}
use lproxy_cv.Htp.Http.{
  crlf, is_char_boundary, str_from, str_between, number_of, status_behind, status_at,
  extract_status, mentions, body_of, parsed, parse,
}

abbrev pub IsDigit : ℕ → Type 0
IsDigit c = (48 ≤ c) × (c ≤ 57)

-- The first line of a response: the version, the code, ` OK`.
abbrev pub status_line : ℕ → List ℕ → List ℕ → List ℕ
status_line version code more = codes "HTTP/1." ++ (version ∷ 32 ∷ (code ++ (codes " OK" ++ more)))

digits-ok :
    (code : List ℕ) → All IsDigit code → position (codes " OK") (code ++ (32 ∷ 79 ∷ [])) ≡ none
unfolding position starts_with
digits-ok [] h = refl
digits-ok (c ∷ code) (h, hs) =
    let other : (c == 32) ≡ false = ground arith in rw (other, digits-ok code hs)

boundary_at :
    (front : List ℕ) (b : ℕ) (rest : List ℕ) (i : ℕ)
    → i ≡ length front
    → b < 128
    → is_char_boundary (front ++ b ∷ rest) i ≡ true
unfolding is_char_boundary
boundary_at front b rest i e h = rw (e, found front, lt→ltb b 128 h, or_true _)
  where
    found : (front : List ℕ) → get_elem? (front ++ b ∷ rest) (length front) ≡ some b
    found [] = refl
    found (x ∷ front) = found front

    or_true : (x : Bool) → (x || true) ≡ true
    or_true true = refl
    or_true false = refl

drop_behind :
    (head rest : List ℕ) (a b c d : ℕ)
    → drop (length head + 4) (head ++ (a ∷ b ∷ c ∷ d ∷ rest)) ≡ rest
drop_behind [] rest a b c d = refl
drop_behind (x ∷ head) rest a b c d =
    let e : suc (length head) + 4 ≡ suc (length head + 4) = omega arith in
    rw e (drop_behind head rest a b c d)

module _ (parse_i32 : List ℕ → Option ℕ) where
  number_of-some : (s : List ℕ) (n : ℕ) → parse_i32 s ≡ some n → number_of parse_i32 s ≡ n
  number_of-some s n e = rw (e, number_of)

  extract_status_line :
      (version c : ℕ) (code more : List ℕ) (n : ℕ)
      → All IsDigit (c ∷ code)
      → parse_i32 (c ∷ code) ≡ some n
      → extract_status parse_i32 (status_line version (c ∷ code) more) ≡ ok n
  unfolding extract_status status_at status_behind str_from str_between position starts_with
  extract_status_line version c code more n d e =
      let line = status_line version (c ∷ code) more in
      let front = 72 ∷ 84 ∷ 84 ∷ 80 ∷ 47 ∷ 49 ∷ 46 ∷ version ∷ 32 ∷ [] in
      let from : is_char_boundary line 9 ≡ true =
        boundary_at front c (code ++ (32 ∷ 79 ∷ 75 ∷ more)) 9 refl (omega (arith, d.0)) in
      let to : is_char_boundary line (9 + length (c ∷ code)) ≡ true =
        boundary_at (front ++ (c ∷ code)) 32 (79 ∷ 75 ∷ more) (9 + length (c ∷ code)) (omega arith)
          (omega arith) in
      let at : position (codes " OK") (c ∷ (code ++ (32 ∷ 79 ∷ 75 ∷ more)))
          ≡ some (length (c ∷ code)) =
        position-append (32 ∷ 79 ∷ []) 75 (c ∷ code) more (digits-ok (c ∷ code) d) in
      let len : 9 + length (c ∷ code) - 9 ≡ length (c ∷ code) = omega arith in
      rw
        (
          from,
          at,
          le→leb 9 (9 + length (c ∷ code)) (omega arith),
          to,
          from,
          len,
          take-append code (32 ∷ 79 ∷ 75 ∷ more),
        )
        (ap ok (number_of-some (c ∷ code) n e))

  module _ (lossy : List ℕ → List ℕ) (gunzip : List ℕ → Option (List ℕ)) where
    -- A response is taken apart at the first empty line.
    parse_apart :
        (head rest : List ℕ)
        → position (crlf ++ crlf) (head ++ (13 ∷ 10 ∷ 13 ∷ [])) ≡ none
        → parse parse_i32 lossy gunzip (head ++ ((crlf ++ crlf) ++ rest))
          ≡ parsed parse_i32 lossy gunzip (head ++ ((crlf ++ crlf) ++ rest)) (some (length head))
    unfolding parse
    parse_apart head rest h = rw (position-append (13 ∷ 10 ∷ 13 ∷ []) 10 head rest h)

    parsed_at :
        (head rest : List ℕ)
        → parsed parse_i32 lossy gunzip (head ++ ((crlf ++ crlf) ++ rest)) (some (length head))
          ≡ (do
            status ← extract_status parse_i32 (lossy head)
            body ←
                body_of parse_i32 lossy gunzip
                  (mentions parse_i32 lossy gunzip (lossy head) (codes "gzip"))
                  rest
            ok (record { status = status; header = some (lossy head); body = some body }))
    unfolding parsed
    parsed_at head rest =
        rw (take-append head ((crlf ++ crlf) ++ rest), drop_behind head rest 13 10 13 10)

    body_of-ok :
        (b : Bool) (rest body : List ℕ)
        → (if b then gunzip rest else some rest) ≡ some body
        → body_of parse_i32 lossy gunzip b rest ≡ ok body
    unfolding body_of
    body_of-ok true rest body h = rw h
    body_of-ok false rest body h = cc h

    parse_head :
        (head rest body : List ℕ) (n : ℕ)
        → position (crlf ++ crlf) (head ++ (13 ∷ 10 ∷ 13 ∷ [])) ≡ none
        → lossy head ≡ head
        → extract_status parse_i32 head ≡ ok n
        → (if mentions parse_i32 lossy gunzip head (codes "gzip") then gunzip rest else some rest)
          ≡ some body
        → parse parse_i32 lossy gunzip (head ++ ((crlf ++ crlf) ++ rest))
          ≡ ok (record { status = n; header = some head; body = some body })
    parse_head head rest body n h l s g =
        parse_apart head rest h
        ∙ parsed_at head rest
        ∙ rw (l, s, body_of-ok (mentions parse_i32 lossy gunzip head (codes "gzip")) rest body g)

    -- A response whose head has no empty line, is left as it is by the conversion to a string, and
    -- begins with the version, a code of digits that the parse of a number accepts, and ` OK`: the
    -- status is that number, and the body is what stands behind the empty line, unpacked if the head
    -- mentions gzip, where the unpacking succeeds.
    pub parse_ok :
        (version c : ℕ) (code more rest body : List ℕ) (n : ℕ)
        → All IsDigit (c ∷ code)
        → parse_i32 (c ∷ code) ≡ some n
        → let head = status_line version (c ∷ code) more in
          position (crlf ++ crlf) (head ++ (13 ∷ 10 ∷ 13 ∷ [])) ≡ none
          → lossy head ≡ head
          → (if mentions parse_i32 lossy gunzip head (codes "gzip") then gunzip rest else some rest)
            ≡ some body
          → parse parse_i32 lossy gunzip (head ++ ((crlf ++ crlf) ++ rest))
            ≡ ok (record { status = n; header = some head; body = some body })
    parse_ok version c code more rest body n d e h l g =
        parse_head (status_line version (c ∷ code) more) rest body n h l
          (extract_status_line version c code more n d e) g

    extract_status_short :
        (t : List ℕ) → length t < 2 → extract_status parse_i32 (codes "HTTP/1." ++ t) ≡ panic
    unfolding extract_status status_at str_from position starts_with is_char_boundary
    extract_status_short [] h = refl
    extract_status_short (x ∷ []) h = refl
    extract_status_short (x ∷ y ∷ t) h = absurd (omega arith)

    -- A response whose head, as a string, is `HTTP/1.` and at most one more byte panics.
    pub parse_short_panics :
        (head t rest : List ℕ)
        → position (crlf ++ crlf) (head ++ (13 ∷ 10 ∷ 13 ∷ [])) ≡ none
        → lossy head ≡ codes "HTTP/1." ++ t
        → length t < 2
        → parse parse_i32 lossy gunzip (head ++ ((crlf ++ crlf) ++ rest)) ≡ panic
    parse_short_panics head t rest h l s =
        parse_apart head rest h ∙ parsed_at head rest ∙ rw (l, extract_status_short t s)
