-- ===== src/Lws/Framed/Sinks.antt =====
-- A message that is sent is written out, each byte once.
use lproxy_cv.Prelude.{
  drop_all, ℕ, zero, suc, ◌+◌, ◌%◌, ◌≤◌, ◌<◌, ◌≡◌, refl, sym, ap, ◌∙◌, inl, inr, false, Option,
  none, some, List, [], ◌∷◌, ◌++◌, append_assoc, append-nil, arith, ◌==◌, ==_iff, if◌then◌else◌,
  le→leb, length, length-drop, take, drop, take-append-drop, Bool-cases,
}
use lproxy_cv.Prelude.Outcome.{ok}
use lproxy_cv.Lws.Msg.{WMessage, is_written, bytes, advance}
use lproxy_cv.Lws.Socket.{Socket, Write, wrote}
use lproxy_cv.Lws.Framed.{Flushed, flushed, wrote_some, write_out}

-- A message that fits into the cursor, which is within it.
pub record Fits (m : WMessage) : Type 0 where
  pub small : length m.buf < 65536
  pub inside : m.cursor ≤ length m.buf

abbrev pub unwritten : WMessage → List ℕ
unwritten m = drop m.cursor m.buf

drop_nil : (n : ℕ) → drop {A = ℕ} n [] ≡ []
drop_nil zero = refl
drop_nil (suc n) = refl

drop-drop : (n k : ℕ) (l : List ℕ) → drop n (drop k l) ≡ drop (k + n) l
drop-drop n zero l = ap (λ x. drop x l) (omega arith)
drop-drop n (suc k) [] = drop_nil n ∙ sym (drop_nil (suc k + n))
drop-drop n (suc k) (x ∷ l) =
    let e : suc k + n ≡ suc (k + n) = omega arith in rw e (drop-drop n k l)

below : (a b : ℕ) → (a == b) ≡ false → a ≤ b → a < b
below a b e h = ground arith

module _ {Io : Type 0} (socket : Socket Io) where
  -- From which socket and message on the writes of the loop lead to `io'` and `m'`.
  pub data Reached (io' : Io) (m' : WMessage) : Io → WMessage → Type 0 where
    here : Reached io' m' io' m'
    next :
        (io io1 : Io) (m : WMessage) (n : ℕ)
        → socket.poll_write_buf io (unwritten m) ≡ (io1, wrote n)
        → Reached io' m' io1 (record m { cursor = m.cursor + n })
        → Reached io' m' io m

  -- One of these writes was given some bytes and took none of them.
  pub record TookNone (io : Io) (m : WMessage) : Type 0 where
    pub from : Io
    pub behind : Io
    pub offered : WMessage
    pub reached : Reached from offered io m
    pub some_offered : offered.cursor < length offered.buf
    pub none_taken : socket.poll_write_buf from (unwritten offered) ≡ (behind, wrote 0)

  -- What a write comes to in the given rounds: all is written; or not yet, with the rest in the
  -- message; or it fails; or the rounds are over, with the rest in the message.
  pub data Written (rounds : ℕ) (io : Io) (m : WMessage)
      : Io × Option WMessage × Option Flushed → Type 0 where
    whole :
        (io1 : Io)
        → socket.written io1 ≡ socket.written io ++ unwritten m
        → Written rounds io m (io1, none, some flushed)
    partly :
        (io1 : Io) (m1 : WMessage)
        → Fits m1
        → socket.written io1 ++ unwritten m1 ≡ socket.written io ++ unwritten m
        → Written rounds io m (io1, some m1, some Flushed.pending)
    failing : (io1 : Io) (m1 : WMessage) → Written rounds io m (io1, some m1, some Flushed.broken)
    going :
        (io1 : Io) (m1 : WMessage)
        → Fits m1
        → socket.written io1 ++ unwritten m1 ≡ socket.written io ++ unwritten m
        → (length m.buf < rounds + m.cursor → TookNone io m)
        → Written rounds io m (io1, some m1, none)

  -- A write of `n` bytes moves the cursor by as many.
  moved :
      (rounds : ℕ) (io : Io) (m : WMessage) (n : ℕ)
      → Fits m
      → m.cursor + n ≤ length m.buf
      → wrote_some socket (write_out socket rounds) m (io, wrote n) ≡ (
          if m.cursor + n == length m.buf
          then ok (io, none, some flushed)
          else write_out socket rounds io (record m { cursor = m.cursor + n }))
  unfolding wrote_some advance is_written
  moved rounds io m n f h =
      let cursor : (m.cursor + n % 65536) % 65536 ≡ m.cursor + n = omega (arith, h, f.small) in
      let small : length m.buf % 65536 ≡ length m.buf = omega (arith, f.small) in
      rw (cursor, small) refl

  moved_on :
      (rounds : ℕ) (io : Io) (m : WMessage) (n : ℕ) {o : Io × Option WMessage × Option Flushed}
      → Fits m
      → m.cursor + n ≤ length m.buf
      → (m.cursor + n == length m.buf) ≡ false
      → write_out socket rounds io (record m { cursor = m.cursor + n }) ≡ ok o
      → wrote_some socket (write_out socket rounds) m (io, wrote n) ≡ ok o
  moved_on rounds io m n f h e k = moved rounds io m n f h ∙ rw e k

  -- No byte is lost by a write.
  moved_same :
      (io io1 : Io) (m : WMessage) (n : ℕ)
      → socket.written io1 ≡ socket.written io ++ take n (unwritten m)
      → socket.written io1 ++ unwritten (record m { cursor = m.cursor + n })
        ≡ socket.written io ++ unwritten m
  moved_same io io1 m n put =
      let m1 = record m { cursor = m.cursor + n } in
      ap (λ l. l ++ unwritten m1) put
      ∙ append_assoc (socket.written io) (take n (unwritten m)) (unwritten m1)
      ∙ ap (λ l. socket.written io ++ (take n (unwritten m) ++ l))
          (sym (drop-drop n m.cursor m.buf))
      ∙ ap (λ l. socket.written io ++ l) (take-append-drop n (unwritten m))

  -- From a state with `n` more bytes written, where a write of none shows itself.
  shifted :
      (rounds : ℕ) (io io1 : Io) (m : WMessage) (n : ℕ) {o : Io × Option WMessage × Option Flushed}
      → m.cursor < length m.buf
      → socket.poll_write_buf io (unwritten m) ≡ (io1, wrote n)
      → let m1 = record m { cursor = m.cursor + n } in
        socket.written io1 ++ unwritten m1 ≡ socket.written io ++ unwritten m
        → Written rounds io1 m1 o
        → Written (suc rounds) io m o
  shifted rounds io io1 m n some_left p e (whole io2 h) = whole io2 (h ∙ e)
  shifted rounds io io1 m n some_left p e (partly io2 m2 f h) = partly io2 m2 f (h ∙ e)
  shifted rounds io io1 m n some_left p e (failing io2 m2) = failing io2 m2
  shifted rounds io io1 m n some_left p e (going io2 m2 f h k) = going io2 m2 f (h ∙ e) (λ enough.
      elim (Bool-cases (n == 0)) [
        | inl y ↦ record {
          from = io;
          behind = io1;
          offered = m;
          reached = here;
          some_offered = some_left;
          none_taken = p ∙ ap (λ i. (io1, wrote i)) ((==_iff n 0).0 y);
        }
        | inr y ↦
            let t = k (ground (arith, y, enough)) in
            record {
              from = t.from;
              behind = t.behind;
              offered = t.offered;
              reached = next io io1 m n p t.reached;
              some_offered = t.some_offered;
              none_taken = t.none_taken;
            }
      ])

  wrote_lem :
      (rounds : ℕ) (io : Io) (m : WMessage) (r : Io × Write)
      → Fits m
      → socket.poll_write_buf io (unwritten m) ≡ r
      → ((io1 : Io) (m1 : WMessage)
          → Fits m1
          → (o : Io × Option WMessage × Option Flushed) × (write_out socket rounds io1 m1 ≡ ok o)
            × Written rounds io1 m1 o)
      → (o : Io × Option WMessage × Option Flushed) × (wrote_some socket
            (write_out socket rounds)
            m
            r
          ≡ ok o)
        × Written (suc rounds) io m o
  unfolding wrote_some advance is_written
  wrote_lem rounds io m (io1, Write.waits) f p again = (
    (io1, some m, some Flushed.pending),
    refl,
    partly io1 m f (ap (λ l. l ++ unwritten m) (socket.write_waits io (unwritten m) p)),
  )
  wrote_lem rounds io m (io1, Write.failed) f p again =
      ((io1, some m, some Flushed.broken), refl, failing io1 m)
  wrote_lem rounds io m (io1, wrote n) f p again =
      let (put, most) = socket.write_wrote io (unwritten m) p in
      let within : m.cursor + n ≤ length m.buf =
        omega (arith, most, length-drop m.cursor m.buf, f.inside) in
      let m1 = record m { cursor = m.cursor + n } in
      let same : socket.written io1 ++ unwritten m1 ≡ socket.written io ++ unwritten m =
        moved_same io io1 m n put in
      elim (Bool-cases (m.cursor + n == length m.buf)) [
        | inl e ↦ (
          (io1, none, some flushed),
          moved rounds io1 m n f within ∙ rw e refl,
          whole io1 (
              sym (append-nil (socket.written io1))
              ∙ ap (λ l. socket.written io1 ++ l)
                  (sym (
                    ap (λ i. drop i m.buf) ((==_iff (m.cursor + n) (length m.buf)).0 e)
                    ∙ drop_all m.buf))
              ∙ same),
        )
        | inr e ↦
            let some_left : m.cursor < length m.buf =
              omega (arith, below (m.cursor + n) (length m.buf) e within) in
            let (o, k, w) = again io1 m1 (record { small = f.small; inside = within }) in
            (o, moved_on rounds io1 m n f within e k, shifted rounds io io1 m n some_left p same w)
      ]

  -- A message of less than 65536 bytes, whose cursor is within it, is written out behind what was
  -- written before, each byte once: all of it; or a part, with the rest in the message, where the
  -- socket is not ready or the rounds are over; or the socket fails. In more rounds than bytes are
  -- left, the rounds are over only if one of these writes was given some bytes and took none.
  pub write_out_lem :
      (rounds : ℕ) (io : Io) (m : WMessage)
      → Fits m
      → (o : Io × Option WMessage × Option Flushed) × (write_out socket rounds io m ≡ ok o)
        × Written rounds io m o
  unfolding write_out bytes
  write_out_lem zero io m f =
      ((io, some m, none), refl, going io m f refl (λ h. absurd (omega (arith, h, f.inside))))
  write_out_lem (suc rounds) io m f =
      rw (le→leb m.cursor (length m.buf) f.inside) (
        wrote_lem rounds io m (socket.poll_write_buf io (unwritten m)) f refl
          (write_out_lem rounds))

  -- A socket that answers each write with no byte written, as a poll may do, keeps the loop of
  -- `poll_flush` running: whatever the number of rounds, it gives no answer, and nothing is written.
  pub write_out_runs_on :
      (rounds : ℕ) (io : Io) (m : WMessage)
      → Fits m
      → m.cursor < length m.buf
      → socket.poll_write_buf io (unwritten m) ≡ (io, wrote 0)
      → write_out socket rounds io m ≡ ok (io, some m, none)
  unfolding write_out bytes
  write_out_runs_on zero io m f h p = refl
  write_out_runs_on (suc rounds) io m f h p =
      let some_left : (m.cursor + 0 == length m.buf) ≡ false = ground (arith, h) in
      let still : m.cursor + 0 ≡ m.cursor = omega arith in
      rw (le→leb m.cursor (length m.buf) f.inside, p)
        (moved_on rounds io m 0 f (omega (arith, f.inside)) some_left (
          ap (λ c. write_out socket rounds io (record m { cursor = c })) still
          ∙ write_out_runs_on rounds io m f h p))
