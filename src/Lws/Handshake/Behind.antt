-- ===== src/Lws/Handshake/Behind.antt =====
-- The handshake and the framed socket behind it see every byte of the connection once.
use lproxy_cv.Prelude.{
  ℕ, zero, suc, ◌+◌, ◌≤◌, ◌<◌, ◌≡◌, refl, sym, ap, ◌∙◌, subst, inl, inr, Option, none, some, List,
  [], ◌∷◌, ◌++◌, append_assoc, arith, ltb, ltb→lt, length, length-append, drop, Bool-cases,
  split_piece, position, position-append, position-front,
}
use lproxy_cv.Prelude.Outcome.{ok}
use lproxy_cv.Wire.{ByteIo}
use lproxy_cv.Lws.Socket.{Socket, Read, got}
use lproxy_cv.Lws.Framed.{rest_of}
use lproxy_cv.Lws.Framed
use lproxy_cv.Lws.Framed.Streams.{At, tail_bytes-rest_of}
use lproxy_cv.Lws.Handshake.{
  CHandshake, reading_response, done, Shaken, shaken, broken, header_too_large, crlf, parsed,
  parse_response, judged, read_response, by_state, one_round, poll,
}

abbrev ending : List ℕ
ending = crlf ++ crlf

abbrev almost : List ℕ
almost = 13 ∷ 10 ∷ 13 ∷ []

drop_behind : (head l : List ℕ) → drop (length head + 4) ((head ++ ending) ++ l) ≡ l
drop_behind [] l = refl
drop_behind (x ∷ head) l =
    let e : suc (length head) + 4 ≡ suc (length head + 4) = omega arith in rw e (drop_behind head l)

module _ {Io : Type 0} (socket : Socket Io) (room : List ℕ → ℕ) (wire : ByteIo) where
  -- What a poll comes to, before `rest`: a framed socket that is made of the result is before
  -- `rest`; or the response is not all there, and no byte is lost; or it fails.
  pub data Leaves (whole rest : List ℕ) : CHandshake Io × Shaken Io → Type 0 where
    done_before :
        (c : CHandshake Io) (io : Io) (tail : Option (List ℕ))
        → At socket wire (Framed.new socket io tail) [] rest
        → Leaves whole rest (c, shaken io tail)
    waiting :
        (c : CHandshake Io) (io : Io)
        → c.state ≡ reading_response
        → c.io ≡ some io
        → c.read_buf ++ socket.coming io ≡ whole
        → Leaves whole rest (c, Shaken.pending)
    lost : (c : CHandshake Io) → Leaves whole rest (c, broken)
    no_room : (c : CHandshake Io) → Leaves whole rest (c, header_too_large)

  -- The last round.
  done_lem :
      (rounds : ℕ) (c : CHandshake Io) (io : Io) (whole rest : List ℕ)
      → c.state ≡ done
      → c.io ≡ some io
      → c.read_buf ++ socket.coming io ≡ rest
      → (o : CHandshake Io × Shaken Io) × (poll socket room (suc rounds) c ≡ ok (some o))
        × Leaves whole rest o
  unfolding poll one_round by_state Framed.new
  done_lem rounds c io whole rest s i e = (
    (record c { io = none }, shaken io (rest_of c.read_buf)),
    simp (s, i) refl,
    done_before (record c { io = none }) io (rest_of c.read_buf)
        (record {
          holds = refl;
          next = ap (λ l. l ++ socket.coming io) (tail_bytes-rest_of c.read_buf) ∙ e;
        }),
  )

  module _ (head rest : List ℕ) (first : position ending (head ++ almost) ≡ none) where
    whole : List ℕ
    whole = head ++ (ending ++ rest)

    -- The bytes so far are not the whole response.
    unfinished :
        (had s : List ℕ)
        → had ++ s ≡ whole
        → length had < length head + 4
        → position ending had ≡ none
    unfolding whole
    unfinished had s e h =
        let regrouped : had ++ s ≡ (head ++ almost) ++ (10 ∷ rest) =
          e ∙ sym (append_assoc head almost (10 ∷ rest)) in
        let (l, cut, _) =
          split_piece had s (head ++ almost) (10 ∷ rest) regrouped
            (omega (arith, h, length-append head almost)) in
        position-front ending had l (subst (λ x. position ending x ≡ none) cut first)

    -- They are, and some more.
    finished :
        (had s : List ℕ)
        → had ++ s ≡ whole
        → length head + 4 ≤ length had
        → (l : List ℕ) × (had ≡ (head ++ ending) ++ l) × (rest ≡ l ++ s)
    unfolding whole
    finished had s e h =
        split_piece (head ++ ending) rest had s (append_assoc head ending rest ∙ sym e)
          (omega (arith, h, length-append head ending))

    too_short : (had s : List ℕ) → s ≡ [] → had ++ s ≡ whole → length had < length head + 4 → ⊥
    unfolding whole
    too_short had s n e h = absurd (
        omega (
          arith,
          h,
          ap length n,
          ap length e,
          length-append had s,
          length-append head (ending ++ rest),
        ))

    -- What is reached in `rounds` rounds.
    abbrev Ends : ℕ → CHandshake Io → Type 0
    Ends rounds c =
        (o : CHandshake Io × Shaken Io) × (poll socket room rounds c ≡ ok (some o))
        × Leaves whole rest o

    -- A round that is over, and the next one.
    then_next :
        (rounds : ℕ) (c : CHandshake Io) {c1 : CHandshake Io}
        → one_round socket room c ≡ ok (c1, none)
        → Ends rounds c1
        → Ends (suc rounds) c
    unfolding poll
    then_next rounds c k (o, p, l) = (o, rw k p, l)

    answered :
        (rounds : ℕ) (c : CHandshake Io) {c1 : CHandshake Io} {end : Shaken Io}
        → one_round socket room c ≡ ok (c1, some end)
        → Leaves whole rest (c1, end)
        → Ends (suc rounds) c
    unfolding poll
    answered rounds c {c1} {end} k l = ((c1, end), rw k refl, l)

    -- A round behind the first `n` bytes or more of the response.
    behind_piece :
        (rounds : ℕ) (c c1 : CHandshake Io) (io : Io)
        → c1.io ≡ some io
        → c1.state ≡ reading_response
        → c1.read_buf ++ socket.coming io ≡ whole
        → one_round socket room c ≡ ok (judged socket room (parse_response socket room c1))
        → 1 ≤ rounds
        → (length c1.read_buf < length head + 4 → Ends rounds c1)
        → Ends (suc rounds) c
    unfolding parse_response parsed judged
    behind_piece zero c c1 io i s e k n again = absurd (omega (arith, n))
    behind_piece (suc rounds) c c1 io i s e k n again =
        elim (Bool-cases (ltb (length c1.read_buf) (length head + 4))) [
          | inl b ↦
              let short = ltb→lt (length c1.read_buf) (length head + 4) b in
              then_next (suc rounds) c
                (k ∙ rw (unfinished c1.read_buf (socket.coming io) e short) refl) (again short)
          | inr b ↦
              let (l, cut, left) = finished c1.read_buf (socket.coming io) e (ground (arith, b)) in
              let found : position ending c1.read_buf ≡ some (length head) =
                ap (position ending) (cut ∙ append_assoc head ending l)
                ∙ position-append almost 10 head l first in
              let dropped : drop (length head + 4) c1.read_buf ≡ l =
                ap (drop (length head + 4)) cut ∙ drop_behind head l in
              then_next (suc rounds) c
                (k
                  ∙ rw found
                      (ap (λ x. ok (record c1 { read_buf = x; state = done }, none)) dropped))
                (done_lem rounds (record c1 { read_buf = l; state = done }) io whole rest refl i
                  (sym left))
        ]

    -- A round that reads the response.
    reads :
        (rounds : ℕ) (c : CHandshake Io) (io : Io) (r : Io × Read)
        → c.state ≡ reading_response
        → c.read_buf ++ socket.coming io ≡ whole
        → length c.read_buf < length head + 4
        → length head + 4 ≤ rounds + length c.read_buf
        → 1 ≤ room c.read_buf
        → socket.poll_read_buf io (room c.read_buf) ≡ r
        → one_round socket room c ≡ ok (read_response socket room c r)
        → ((c1 : CHandshake Io) (io1 : Io)
            → c1.state ≡ reading_response
            → c1.io ≡ some io1
            → c1.read_buf ++ socket.coming io1 ≡ whole
            → length c1.read_buf < length head + 4
            → length head + 5 ≤ rounds + length c1.read_buf
            → Ends rounds c1)
        → Ends (suc rounds) c
    unfolding read_response
    reads rounds c io (io1, Read.waits) s e h m r p k again =
        let c1 = record c { io = some io1 } in
        answered rounds c k (
          waiting c1 io1 s refl
            (ap (λ l. c.read_buf ++ l) (socket.read_waits io (room c.read_buf) p) ∙ e))
    reads rounds c io (io1, Read.failed) s e h m r p k again =
        answered rounds c k (lost (record c { io = some io1 }))
    reads rounds c io (io1, got []) s e h m r p k again =
        let (_, _, last) = socket.read_got io (room c.read_buf) p in
        absurd (too_short c.read_buf (socket.coming io) (last r refl) e h)
    reads rounds c io (io1, got (b ∷ bs)) s e h m r p k again =
        let (taken, _, _) = socket.read_got io (room c.read_buf) p in
        let c1 = record c { io = some io1; read_buf = c.read_buf ++ b ∷ bs } in
        let still : c1.read_buf ++ socket.coming io1 ≡ whole =
          append_assoc c.read_buf (b ∷ bs) (socket.coming io1)
          ∙ ap (λ l. c.read_buf ++ l) (sym taken)
          ∙ e in
        behind_piece rounds c c1 io1 refl s still k (omega (arith, h, m)) (λ short.
          again c1 io1 s refl still short (omega (arith, m, length-append c.read_buf (b ∷ bs))))

    -- `head` is what stands before the first empty line of the response. While its bytes up to the
    -- end of that line are not all read, a poll comes to an end in one round more than bytes of them
    -- are missing. When the handshake is done, the framed socket made of its result is before the
    -- bytes behind that line; while the socket is not ready, none is lost; otherwise the socket fails,
    -- or the buffer has no room.
    pub poll_lem :
        (rounds : ℕ) (c : CHandshake Io) (io : Io)
        → c.state ≡ reading_response
        → c.io ≡ some io
        → c.read_buf ++ socket.coming io ≡ head ++ ((crlf ++ crlf) ++ rest)
        → length c.read_buf < length head + 4
        → length head + 5 ≤ rounds + length c.read_buf
        → (o : CHandshake Io × Shaken Io) × (poll socket room rounds c ≡ ok (some o))
          × Leaves (head ++ ((crlf ++ crlf) ++ rest)) rest o
    unfolding one_round by_state whole
    poll_lem zero c io s i e h m = absurd (omega (arith, h, m))
    poll_lem (suc rounds) c io s i e h m = elim (Bool-cases (ltb 0 (room c.read_buf))) [
      | inr f ↦ answered rounds c (simp (s, f) refl) (no_room c)
      | inl f ↦
          reads rounds c io (socket.poll_read_buf io (room c.read_buf)) s e h (omega (arith, m))
            (ltb→lt 0 (room c.read_buf) f) refl (simp (s, i, f) refl) (poll_lem rounds)
    ]
