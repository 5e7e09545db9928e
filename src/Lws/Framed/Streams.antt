-- ===== src/Lws/Framed/Streams.antt =====
-- The messages that a framed socket gives are the frames of its bytes, in whatever pieces they come.
use lproxy_cv.Prelude.{
  drop_all, ℕ, zero, suc, ◌+◌, ◌*◌, ◌≤◌, ◌<◌, ◌≡◌, refl, sym, ap, ◌∙◌, inl, inr, true, Option, none,
  some, List, [], ◌∷◌, ◌++◌, append_assoc, append-nil, arith, ltb, if◌then◌else◌, length,
  length-append, length-take, take, drop, take-append-drop, Bool-cases, split_piece,
}
use lproxy_cv.Prelude.Outcome.{ok}
use lproxy_cv.Wire.{ByteIo}
use lproxy_cv.Lws.Msg.{RMessage, remaining_mut, advance_mut}
use lproxy_cv.Lws.Msg.Framing.{HeadOk, after, waits_after, completes_after, step_after, front_ok}
use lproxy_cv.Lws.Socket.{Socket, Read, got}
use lproxy_cv.Lws.Framed.{
  LwsFramed, Next, broken, message, current, rest_of, put_slice, read_from_tail, taken_out, checked,
  from_io, by_tail, one_round, poll_next,
}

abbrev pub tail_bytes : Option (List ℕ) → List ℕ
tail_bytes none = []
tail_bytes (some vec) = vec

abbrev tail_rounds : Option (List ℕ) → ℕ
tail_rounds none = 0
tail_rounds (some vec) = 1

pub tail_bytes-rest_of : (l : List ℕ) → tail_bytes (rest_of l) ≡ l
tail_bytes-rest_of [] = refl
tail_bytes-rest_of (b ∷ l) = refl

tail_rounds-le : (l : Option (List ℕ)) → tail_rounds l ≤ 1
tail_rounds-le none = omega arith
tail_rounds-le (some l) = omega arith

-- The number of bytes that are copied from a tail.
abbrev copied : ℕ → ℕ → ℕ
copied len room = if ltb len room then len else room

copied-le : (len room : ℕ) → (copied len room ≤ len) × (copied len room ≤ room)
copied-le len room = ground arith

-- What is left of a frame, and of a tail, after a copy.
less_left :
    (vec : List ℕ) (room left left' n : ℕ)
    → copied (length vec) room + left' ≡ left
    → 1 ≤ room
    → left + 1 ≤ n
    → left' + tail_rounds (rest_of (drop (copied (length vec) room) vec)) < n
less_left vec room left left' n e k h = elim (Bool-cases (ltb (length vec) room)) [
  | inl s ↦ rw (s, drop_all vec) (omega (arith, rw s at e, h))
  | inr s ↦ rw s (omega (arith, rw s at e, h, k, tail_rounds-le (rest_of (drop room vec))))
]

module _ {Io : Type 0} (socket : Socket Io) (wire : ByteIo) where
  -- The bytes behind those of the message that is being read.
  abbrev pub ahead : LwsFramed Io → List ℕ
  ahead f = tail_bytes f.tail ++ socket.coming f.io

  -- The message that is being read holds the bytes `got`, and those ahead are `bytes`.
  pub record At (f : LwsFramed Io) (got bytes : List ℕ) : Type 0 where
    pub holds : current f.reading ≡ after got
    pub next : ahead f ≡ bytes

  -- What a poll comes to in the frame `frame` before `rest`: the frame is given out; or not all of
  -- its bytes are there, and none is lost; or the socket fails.
  pub data Comes (frame rest : List ℕ) : LwsFramed Io × Next RMessage → Type 0 where
    given :
        (f : LwsFramed Io) (m : RMessage)
        → m.buf ≡ frame
        → At f [] rest
        → Comes frame rest (f, message m)
    waiting :
        (f : LwsFramed Io) (had left : List ℕ)
        → had ++ left ≡ frame
        → 1 ≤ length left
        → At f had (left ++ rest)
        → Comes frame rest (f, Next.pending)
    lost : (f : LwsFramed Io) → Comes frame rest (f, broken)

  module _ (a b : ℕ) (body : List ℕ) (head : a + 256 * b ≡ length body + 2)
      (short : length body + 2 ≤ 8096) where
    frame : List ℕ
    frame = a ∷ b ∷ body

    -- What one round comes to, where `n` bounds what is left to do.
    data Rounded (rest : List ℕ) (n : ℕ) : LwsFramed Io × Option (Next RMessage) → Type 0 where
      answered :
          (f : LwsFramed Io) (next : Next RMessage)
          → Comes frame rest (f, next)
          → Rounded rest n (f, some next)
      goes_on :
          (f : LwsFramed Io) (had left : List ℕ)
          → had ++ left ≡ frame
          → 1 ≤ length left
          → At f had (left ++ rest)
          → length left + tail_rounds f.tail < n
          → Rounded rest n (f, none)

    head_ok : HeadOk frame
    unfolding frame
    head_ok = (omega (arith, head), omega (arith, head, short))

    advanced :
        (had c left : List ℕ)
        → had ++ (c ++ left) ≡ frame
        → advance_mut wire (after had) c ≡ ok (after (had ++ c))
    advanced had c left e =
        step_after wire had c
          (front_ok wire (had ++ c) left frame (append_assoc had c left ∙ e) head_ok)

    put_slice-after :
        (had c left : List ℕ)
        → had ++ (c ++ left) ≡ frame
        → put_slice socket wire (after had) c ≡ ok (after (had ++ c))
    unfolding put_slice
    put_slice-after had [] left e = rw (append-nil had)
    put_slice-after had (x ∷ c) left e = advanced had (x ∷ c) left e

    -- The end of a round behind the bytes `c`.
    checked_lem :
        (f : LwsFramed Io) (had c left rest : List ℕ) (n : ℕ)
        → had ++ (c ++ left) ≡ frame
        → ahead f ≡ left ++ rest
        → length left + tail_rounds f.tail < n
        → Rounded rest n (checked socket wire f (after (had ++ c)))
    unfolding checked taken_out frame
    checked_lem f had c [] rest n e s h =
        let whole : had ++ c ≡ frame = sym (append-nil (had ++ c)) ∙ append_assoc had c [] ∙ e in
        rw (whole, completes_after a b body head short)
          (answered (record f { reading = none }) (message (after frame))
            (given (record f { reading = none }) (after frame) refl
              (record { holds = refl; next = s })))
    checked_lem f had c (x ∷ left) rest n e s h =
        let whole = append_assoc had c (x ∷ left) ∙ e in
        let (open_yet, some_left, enough) =
          waits_after a b body (had ++ c) (x ∷ left) whole head short (omega arith) in
        rw open_yet (
          goes_on (record f { reading = some (after (had ++ c)) }) (had ++ c) (x ∷ left) whole
            (omega arith) (record { holds = refl; next = s }) h)

    no_tail :
        (f : LwsFramed Io) (io : Io) (bs : List ℕ)
        → f.tail ≡ none
        → socket.coming io ≡ bs
        → tail_bytes f.tail ++ socket.coming io ≡ bs
    no_tail f io bs t e = go f.tail t
      where
        go : (o : Option (List ℕ)) → o ≡ none → tail_bytes o ++ socket.coming io ≡ bs
        go none h = e
        go (some v) h = absurd (ground (arith, h))

    rounds_left : (o : Option (List ℕ)) → o ≡ none → (l n : ℕ) → l < n → l + tail_rounds o < n
    rounds_left none e l n h = omega (arith, h)
    rounds_left (some v) e l n h = absurd (ground (arith, e))

    -- A round that reads the socket.
    from_io_lem :
        (f : LwsFramed Io) (had left rest : List ℕ) (n room : ℕ) (r : Io × Read)
        → socket.poll_read_buf f.io room ≡ r
        → f.tail ≡ none
        → had ++ left ≡ frame
        → socket.coming f.io ≡ left ++ rest
        → 1 ≤ length left
        → 1 ≤ room
        → room ≤ length left
        → length left ≤ n
        → (o : LwsFramed Io × Option (Next RMessage)) × (from_io socket wire f (after had) r ≡ ok o)
          × Rounded rest n o
    unfolding from_io
    from_io_lem f had left rest n room (io, Read.waits) p t e s l k m h =
        let f' = record f { io = io; reading = some (after had) } in
        (
          (f', some Next.pending),
          refl,
          answered f' Next.pending (
              waiting f' had left e l (record {
                holds = refl;
                next = no_tail f io (left ++ rest) t (socket.read_waits f.io room p ∙ s);
              })),
        )
    from_io_lem f had left rest n room (io, got []) p t e s l k m h =
        let (_, _, last) = socket.read_got f.io room p in
        absurd (omega (arith, ap length (sym s ∙ last k refl), length-append left rest))
    from_io_lem f had left rest n room (io, got (x ∷ bs)) p t e s l k m h =
        let (taken, small, _) = socket.read_got f.io room p in
        let (left', cut, behind) =
          split_piece (x ∷ bs) (socket.coming io) left rest (sym taken ∙ s)
            (omega (arith, m, small)) in
        let whole : had ++ ((x ∷ bs) ++ left') ≡ frame = ap (λ l. had ++ l) (sym cut) ∙ e in
        let f' = record f { io = io } in
        (
          checked socket wire f' (after (had ++ x ∷ bs)),
          rw (advanced had (x ∷ bs) left' whole) refl,
          checked_lem f' had (x ∷ bs) left' rest n whole (no_tail f io (left' ++ rest) t behind) (
              rounds_left f.tail t (length left') n
                (omega (arith, h, ap length cut, length-append (x ∷ bs) left'))),
        )
    from_io_lem f had left rest n room (io, Read.failed) p t e s l k m h =
        let f' = record f { io = io; reading = some (after had); has_finished = true } in
        ((f', some Next.broken), refl, answered f' Next.broken (lost f'))

    by_tail_lem :
        (f : LwsFramed Io) (had left rest : List ℕ) (n : ℕ) (t : Option (List ℕ))
        → f.tail ≡ t
        → had ++ left ≡ frame
        → tail_bytes t ++ socket.coming f.io ≡ left ++ rest
        → 1 ≤ length left
        → length left + tail_rounds t ≤ n
        → (o : LwsFramed Io × Option (Next RMessage)) × (by_tail socket wire f (after had) t ≡ ok o)
          × Rounded rest n o
    unfolding by_tail read_from_tail frame
    by_tail_lem f had left rest n none t e s l h =
        let (_, wants, enough) = waits_after a b body had left e head short l in
        from_io_lem f had left rest n (remaining_mut (after had)) _ refl t e s l wants enough
          (omega (arith, h))
    by_tail_lem f had left rest n (some vec) t e s l h =
        let (_, wants, enough) = waits_after a b body had left e head short l in
        let len = copied (length vec) (remaining_mut (after had)) in
        let (in_vec, in_room) = copied-le (length vec) (remaining_mut (after had)) in
        let size : length (take len vec) ≡ len = length-take len vec ∙ omega (arith, in_vec) in
        let joined : take len vec ++ (drop len vec ++ socket.coming f.io) ≡ left ++ rest =
          sym (append_assoc (take len vec) (drop len vec) (socket.coming f.io))
          ∙ ap (λ v. v ++ socket.coming f.io) (take-append-drop len vec)
          ∙ s in
        let (left', cut, behind) =
          split_piece (take len vec) (drop len vec ++ socket.coming f.io) left rest joined
            (omega (arith, size, in_room, enough)) in
        let whole : had ++ (take len vec ++ left') ≡ frame = ap (λ l. had ++ l) (sym cut) ∙ e in
        let f' = record f { tail = rest_of (drop len vec) } in
        (
          checked socket wire f' (after (had ++ take len vec)),
          rw (put_slice-after had (take len vec) left' whole) refl,
          checked_lem f' had (take len vec) left' rest n whole
              (rw (tail_bytes-rest_of (drop len vec)) behind)
              (less_left vec (remaining_mut (after had)) (length left) (length left') n
                (omega (arith, ap length cut, size, length-append (take len vec) left')) wants
                (omega (arith, h))),
        )

    -- What the polls of `rounds` rounds come to.
    abbrev Ends : (rest : List ℕ) → ℕ → LwsFramed Io → Type 0
    Ends rest rounds f =
        (o : LwsFramed Io × Next RMessage) × (poll_next socket wire rounds f ≡ ok (some o))
        × Comes frame rest o

    after_round :
        (rest : List ℕ) (rounds : ℕ)
        → ((f : LwsFramed Io) (had left : List ℕ)
            → had ++ left ≡ frame
            → 1 ≤ length left
            → At f had (left ++ rest)
            → length left + tail_rounds f.tail ≤ rounds
            → Ends rest rounds f)
        → (f : LwsFramed Io) {o : LwsFramed Io × Option (Next RMessage)}
        → one_round socket wire f ≡ ok o
        → Rounded rest (suc rounds) o
        → Ends rest (suc rounds) f
    unfolding poll_next
    after_round rest rounds again f k (answered f1 next c) = ((f1, next), rw k refl, c)
    after_round rest rounds again f k (goes_on f1 had left e l at h) =
        let (o, p, c) = again f1 had left e l at (omega (arith, h)) in (o, rw k p, c)

    polls :
        (rest : List ℕ) (rounds : ℕ) (f : LwsFramed Io) (had left : List ℕ)
        → had ++ left ≡ frame
        → 1 ≤ length left
        → At f had (left ++ rest)
        → length left + tail_rounds f.tail ≤ rounds
        → Ends rest rounds f
    unfolding one_round
    polls rest zero f had left e l at h = absurd (omega (arith, l, h))
    polls rest (suc rounds) f had left e l at h =
        let (o, k, r) = by_tail_lem f had left rest (suc rounds) f.tail refl e at.next l h in
        after_round rest rounds (polls rest rounds) f (rw at.holds k) r

    -- Each poll comes to an end in as many rounds as bytes are missing, and one for the tail. A frame
    -- of 2 to 8096 bytes that begins with its length, low byte first, is given out as a message with
    -- just its bytes, and what is ahead then is what stands behind it; until its last byte is there,
    -- no byte is lost. The tail comes before the bytes of the socket, which may come in any pieces.
    pub poll_next_lem :
        (rounds : ℕ) (f : LwsFramed Io) (had left rest : List ℕ)
        → had ++ left ≡ a ∷ b ∷ body
        → 1 ≤ length left
        → At f had (left ++ rest)
        → length left + 1 ≤ rounds
        → (o : LwsFramed Io × Next RMessage) × (poll_next socket wire rounds f ≡ ok (some o))
          × Comes (a ∷ b ∷ body) rest o
    unfolding frame
    poll_next_lem rounds f had left rest e l at h =
        polls rest rounds f had left e l at (omega (arith, h, tail_rounds-le f.tail))
