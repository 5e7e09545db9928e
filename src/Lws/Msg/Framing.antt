-- ===== src/Lws/Msg/Framing.antt =====
-- How a message fills up: the reader asks for no more bytes than the message wants.
use lproxy_cv.Prelude.{
  ℕ, ◌+◌, ◌-◌, ◌*◌, ◌%◌, ◌≤◌, ◌&&◌, ◌≡◌, refl, sym, ap, ◌∙◌, subst, true, false, none, List, [],
  ◌∷◌, ◌++◌, arith, length, length-append, append_assoc, append-nil, ltb, ◌==◌, if◌then◌else◌,
  le→ltb, le→leb,
}
use lproxy_cv.Prelude.Outcome.{Outcome, ok, ◌>>=◌}
use lproxy_cv.Wire.{ByteIo}
use lproxy_cv.Lws.Msg.{
  RMessage, new_rmessage, is_completed, remaining_mut, read_head, advance_mut, sub_usize,
}

-- The messages that the reader has after the chunks `cs`, one `advance_mut` for each.
abbrev pub feed : ByteIo → RMessage → List (List ℕ) → Outcome ⊥ RMessage
feed io m [] = ok m
feed io m (c ∷ cs) = do m' ← advance_mut io m c; feed io m' cs

abbrev pub joined : List (List ℕ) → List ℕ
joined [] = []
joined (c ∷ cs) = c ++ joined cs

abbrev pub head_value : ℕ → ℕ → ℕ
head_value a b = a + 256 * (b + 256 * 0)

-- Bytes whose head, if it is there, announces a length that `advance_mut` accepts.
abbrev pub HeadOk : List ℕ → Type 0
HeadOk [] = Unit {0}
HeadOk (a ∷ []) = Unit {0}
HeadOk (a ∷ b ∷ rest) = (1 ≤ head_value a b) × (head_value a b ≤ 8096)

-- The message after the given bytes.
abbrev pub after : List ℕ → RMessage
after [] = record { buf = []; cached_length = 0; error = none }
after (a ∷ []) = record { buf = a ∷ []; cached_length = 0; error = none }
after (a ∷ b ∷ rest) = record { buf = a ∷ b ∷ rest; cached_length = head_value a b; error = none }

not_zero : (n : ℕ) → 1 ≤ n → (n == 0) ≡ false
not_zero n h = ground arith

abbrev announced : List ℕ → ℕ
announced [] = 0
announced (a ∷ []) = 0
announced (a ∷ b ∷ rest) = head_value a b

short : (h l r : ℕ) → h ≡ l + r → 1 ≤ r → 2 ≤ l → h ≤ 8096 → (ltb 0 h && (h == (l % 65536))) ≡ false
short h l r e p q k = ground arith

wants :
    (h l r : ℕ)
    → h ≡ l + r
    → 1 ≤ r
    → 2 ≤ l
    → h ≤ 8096
    → (if ltb l 2 then 2 - l else sub_usize h l) ≡ r
wants h l r e p q k = rw (le→ltb l 2 q) (omega arith)

pub waits_after :
    (a b : ℕ) (body got rest : List ℕ)
    → got ++ rest ≡ a ∷ b ∷ body
    → a + 256 * b ≡ length body + 2
    → length body + 2 ≤ 8096
    → 1 ≤ length rest
    → (is_completed (after got) ≡ false)
      × (1 ≤ remaining_mut (after got))
      × (remaining_mut (after got) ≤ length rest)
unfolding is_completed remaining_mut
waits_after a b body [] rest e n k r = (refl, omega arith, omega (arith, ap length e))
waits_after a b body (x ∷ []) rest e n k r = (refl, omega arith, omega (arith, ap length e))
waits_after a b body (x ∷ y ∷ got) rest e n k r =
    let h : head_value x y ≡ length (x ∷ y ∷ got) + length rest =
      omega (arith, n, ap announced e, ap length e, length-append got rest) in
    let small : head_value x y ≤ 8096 = omega (arith, n, k, ap announced e) in
    let all : (if ltb (length (x ∷ y ∷ got)) 2
          then 2 - length (x ∷ y ∷ got)
          else sub_usize (head_value x y) (length (x ∷ y ∷ got)))
        ≡ length rest =
      wants (head_value x y) (length (x ∷ y ∷ got)) (length rest) h r (omega arith) small in
    (
      short (head_value x y) (length (x ∷ y ∷ got)) (length rest) h r (omega arith) small,
      omega (arith, all, r),
      omega (arith, all),
    )

pub completes_after :
    (a b : ℕ) (body : List ℕ)
    → a + 256 * b ≡ length body + 2
    → length body + 2 ≤ 8096
    → is_completed (after (a ∷ b ∷ body)) ≡ true
unfolding is_completed
completes_after a b body n k =
    done (head_value a b) (length (a ∷ b ∷ body)) (omega (arith, n)) (omega arith)
      (omega (arith, k))
  where
    done : (h l : ℕ) → h ≡ l → 1 ≤ l → l ≤ 8096 → (ltb 0 h && (h == (l % 65536))) ≡ true
    done h l e p k = ground arith

module _ (io : ByteIo) where
  read_head-ok :
      (a b : ℕ) (rest buf : List ℕ)
      → HeadOk (a ∷ b ∷ rest)
      → read_head io (a ∷ b ∷ rest) (record { buf = buf; cached_length = 0; error = none })
        ≡ ok (after (a ∷ b ∷ rest))
  unfolding read_head
  read_head-ok a b rest buf (h, k) = rw (
    io.read_with_lem 2 (a ∷ b ∷ []) 0,
    not_zero (head_value a b) h,
    le→ltb 8096 (head_value a b) k,
  )

  pub step_after :
      (got c : List ℕ) → HeadOk (got ++ c) → advance_mut io (after got) c ≡ ok (after (got ++ c))
  unfolding advance_mut
  step_after [] [] h = refl
  step_after [] (a ∷ []) h = refl
  step_after [] (a ∷ b ∷ c) h =
      rw (le→leb 2 (length (a ∷ b ∷ c)) (omega arith)) (read_head-ok a b c [] h)
  step_after (a ∷ []) [] h = refl
  step_after (a ∷ []) (b ∷ c) h =
      rw (le→leb 2 (length (a ∷ b ∷ c)) (omega arith)) (read_head-ok a b c (a ∷ []) h)
  step_after (a ∷ b ∷ got) c h = rw (not_zero (head_value a b) h.0)

  HeadOk-front : (front back : List ℕ) → HeadOk (front ++ back) → HeadOk front
  HeadOk-front [] back h = tt
  HeadOk-front (a ∷ []) back h = tt
  HeadOk-front (a ∷ b ∷ front) back h = h

  feed-after :
      (cs : List (List ℕ)) (got : List ℕ)
      → HeadOk (got ++ joined cs)
      → feed io (after got) cs ≡ ok (after (got ++ joined cs))
  feed-after [] got h = rw (append-nil got)
  feed-after (c ∷ cs) got h =
      let h' : HeadOk ((got ++ c) ++ joined cs) =
        subst HeadOk (sym (append_assoc got c (joined cs))) h in
      rw (step_after got c (HeadOk-front (got ++ c) (joined cs) h'))
        (feed-after cs (got ++ c) h' ∙ ap (λ l. ok (after l)) (append_assoc got c (joined cs)))

  -- A frame of 2 to 8096 bytes that begins with its length, low byte first, makes, in whatever
  -- pieces it comes, a completed message with its bytes and no error.
  pub frame_completes :
      (a b : ℕ) (body : List ℕ) (cs : List (List ℕ))
      → joined cs ≡ a ∷ b ∷ body
      → a + 256 * b ≡ length body + 2
      → length body + 2 ≤ 8096
      → (m : RMessage) × (feed io new_rmessage cs ≡ ok m)
        × (is_completed m ≡ true)
        × (m.buf ≡ a ∷ b ∷ body)
        × (m.error ≡ none)
  frame_completes a b body cs e n k = (
    after (a ∷ b ∷ body),
    feed-after cs [] (subst HeadOk (sym e) (omega arith, omega arith)) ∙ ap (λ l. ok (after l)) e,
    completes_after a b body n k,
    refl,
    refl,
  )

  pub front_ok : (front rest whole : List ℕ) → front ++ rest ≡ whole → HeadOk whole → HeadOk front
  front_ok front rest whole e h = HeadOk-front front rest (subst HeadOk (sym e) h)

  -- Until the last byte of a frame of 2 to 8096 bytes that begins with its length has come, the
  -- message is not completed, and it wants some bytes, but no more than the frame has left.
  pub frame_waits :
      (a b : ℕ) (body rest : List ℕ) (cs : List (List ℕ))
      → joined cs ++ rest ≡ a ∷ b ∷ body
      → a + 256 * b ≡ length body + 2
      → length body + 2 ≤ 8096
      → 1 ≤ length rest
      → (m : RMessage) × (feed io new_rmessage cs ≡ ok m)
        × (is_completed m ≡ false)
        × (1 ≤ remaining_mut m)
        × (remaining_mut m ≤ length rest)
  unfolding is_completed remaining_mut
  frame_waits a b body rest cs e n k r =
      let (open_yet, some_left, enough) = waits_after a b body (joined cs) rest e n k r in
      (
        after (joined cs),
        feed-after cs []
            (front_ok (joined cs) rest (a ∷ b ∷ body) e (omega (arith, n), omega (arith, n, k))),
        open_yet,
        some_left,
        enough,
      )
