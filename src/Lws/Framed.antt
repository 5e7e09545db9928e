-- ===== src/Lws/Framed.antt =====
-- src/lws/lwsframed.rs: the framed socket, as a stream of messages and as a sink. A
-- loop takes the rounds that it may run; without an answer they did not suffice.
pub mod Streams
pub mod Sinks
use lproxy_cv.Prelude.{
  ℕ, zero, suc, ◌+◌, Bool, true, false, Option, none, some, List, [], ◌∷◌, ◌++◌, ltb, leb, ◌==◌,
  if◌then◌else◌, length, take, drop,
}
use lproxy_cv.Prelude.Outcome.{Outcome, ok, panic, unwrap, ◌>>=◌}
use lproxy_cv.Wire.{ByteIo}
use lproxy_cv.Lws.Msg.{
  RMessage, new_rmessage, is_completed, remaining_mut, advance_mut, WMessage, is_written, bytes,
  advance,
}
use lproxy_cv.Lws.Socket.{Socket, Read, got, Write, wrote}
use lproxy_cv.Lws.Socket

pub record LwsFramed (Io : Type 0) : Type 0 where
  pub io : Io
  pub reading : Option RMessage
  pub writing : Option WMessage
  pub tail : Option (List ℕ)
  pub has_finished : Bool

-- What `poll_next` comes to: `Pending`, the end, an error of the socket, the length that a message
-- was refused for, a message.
pub data Next (M : Type 0) : Type 0 where
  pending : Next M
  ended : Next M
  broken : Next M
  refused : ℕ → Next M
  message : M → Next M

pub data Flushed : Type 0 where
  pending : Flushed
  broken : Flushed
  flushed : Flushed

-- The message that is being read, or a new one.
abbrev pub current : Option RMessage → RMessage
current none = new_rmessage
current (some msg) = msg

abbrev pub rest_of : List ℕ → Option (List ℕ)
rest_of [] = none
rest_of (b ∷ bs) = some (b ∷ bs)

module _ {Io : Type 0} (socket : Socket Io) where
  open socket use {poll_read_buf, poll_write_buf}

  unfoldable pub new : Io → Option (List ℕ) → LwsFramed Io
  new io tail = record {
    io = io;
    reading = none;
    writing = none;
    tail = tail;
    has_finished = false;
  }

  module _ (wire : ByteIo) where
    -- `put_slice` of no byte does nothing.
    put_slice : RMessage → List ℕ → Outcome ⊥ RMessage
    put_slice msg [] = ok msg
    put_slice msg (b ∷ bs) = advance_mut wire msg (b ∷ bs)

    -- The message, and what is left of the tail.
    unfoldable pub read_from_tail : List ℕ → RMessage → Outcome ⊥ (RMessage × List ℕ)
    unfolding put_slice
    read_from_tail vec msg = do
      let len_to_copy =
          if ltb (length vec) (remaining_mut msg) then length vec else remaining_mut msg
      msg1 ← put_slice msg (take len_to_copy vec)
      ok (msg1, drop len_to_copy vec)

    taken_out : LwsFramed Io → RMessage → Option ℕ → LwsFramed Io × Option (Next RMessage)
    taken_out f msg none = (record f { reading = none }, some (message msg))
    taken_out f msg (some e) = (
      record f { reading = some (record msg { error = none }); has_finished = true },
      some (refused e),
    )

    -- The end of a round: without an answer there is another one.
    checked : LwsFramed Io → RMessage → LwsFramed Io × Option (Next RMessage)
    unfolding taken_out
    checked f msg =
        if is_completed msg
        then taken_out f msg msg.error
        else (record f { reading = some msg }, none)

    from_io :
        LwsFramed Io → RMessage → Io × Read → Outcome ⊥ (LwsFramed Io × Option (Next RMessage))
    unfolding checked
    from_io f msg (io, Read.waits) =
        ok (record f { io = io; reading = some msg }, some Next.pending)
    from_io f msg (io, got []) =
        ok (record f { io = io; reading = some msg; has_finished = true }, some ended)
    from_io f msg (io, got (b ∷ bs)) = do
      msg1 ← advance_mut wire msg (b ∷ bs)
      ok (checked (record f { io = io }) msg1)
    from_io f msg (io, Read.failed) =
        ok (record f { io = io; reading = some msg; has_finished = true }, some Next.broken)

    -- The tail comes before the socket.
    by_tail :
        LwsFramed Io
        → RMessage
        → Option (List ℕ)
        → Outcome ⊥ (LwsFramed Io × Option (Next RMessage))
    unfolding from_io
    by_tail f msg none = from_io f msg (poll_read_buf f.io (remaining_mut msg))
    by_tail f msg (some vec) = do
      (msg1, left) ← read_from_tail vec msg
      ok (checked (record f { tail = rest_of left }) msg1)

    unfoldable pub one_round : LwsFramed Io → Outcome ⊥ (LwsFramed Io × Option (Next RMessage))
    unfolding by_tail
    one_round f = by_tail f (current f.reading) f.tail

    unfoldable pub poll_next : ℕ → LwsFramed Io → Outcome ⊥ (Option (LwsFramed Io × Next RMessage))
    poll_next zero f = ok none
    poll_next (suc rounds) f = do
      (f1, next) ← one_round f
      elim next [ none ↦ poll_next rounds f1 | some n ↦ ok (some (f1, n)) ]

  unfoldable pub is_terminated : LwsFramed Io → Bool
  is_terminated f = f.has_finished

  -- The loop of `poll_flush`: the socket, the message that is left, `none` where the rounds did not
  -- suffice.
  wrote_some :
      (Io → WMessage → Outcome ⊥ (Io × Option WMessage × Option Flushed))
      → WMessage
      → Io × Write
      → Outcome ⊥ (Io × Option WMessage × Option Flushed)
  wrote_some again msg (io, Write.waits) = ok (io, some msg, some Flushed.pending)
  wrote_some again msg (io, Write.failed) = ok (io, some msg, some Flushed.broken)
  wrote_some again msg (io, wrote n) =
      let msg1 = advance msg n in
      if is_written msg1 then ok (io, none, some flushed) else again io msg1

  unfoldable pub write_out : ℕ → Io → WMessage → Outcome ⊥ (Io × Option WMessage × Option Flushed)
  unfolding wrote_some
  write_out zero io msg = ok (io, some msg, none)
  write_out (suc rounds) io msg = do
    bs ← bytes msg
    wrote_some (write_out rounds) msg (poll_write_buf io bs)

  unfoldable pub start_send : LwsFramed Io → WMessage → LwsFramed Io
  start_send f item = record f { writing = some item }

  at_last : LwsFramed Io → Io × Write → LwsFramed Io × Option Flushed
  at_last f (io, Write.waits) = (record f { io = io }, some Flushed.pending)
  at_last f (io, wrote n) = (record f { io = io }, some flushed)
  at_last f (io, Write.failed) = (record f { io = io }, some Flushed.broken)

  flushing : LwsFramed Io → Option Flushed → LwsFramed Io × Option Flushed
  unfolding at_last
  flushing f (some flushed) = at_last f (socket.poll_flush f.io)
  flushing f other = (f, other)

  send_out : ℕ → LwsFramed Io → Option WMessage → Outcome ⊥ (LwsFramed Io × Option Flushed)
  unfolding flushing
  send_out rounds f none = ok (flushing f (some flushed))
  send_out rounds f (some msg) = do
    (io, left, how) ← write_out rounds f.io msg
    ok (flushing (record f { io = io; writing = left }) how)

  unfoldable pub poll_flush : ℕ → LwsFramed Io → Outcome ⊥ (LwsFramed Io × Option Flushed)
  unfolding send_out
  poll_flush rounds f = send_out rounds f f.writing

  unfoldable pub poll_close : ℕ → LwsFramed Io → Outcome ⊥ (LwsFramed Io × Option Flushed)
  poll_close rounds f = poll_flush rounds f

  ready_by : ℕ → LwsFramed Io → Option WMessage → Outcome ⊥ (LwsFramed Io × Option Flushed)
  ready_by rounds f none = ok (f, some flushed)
  ready_by rounds f (some msg) = poll_flush rounds f

  -- `flushed` is `Ready`.
  unfoldable pub poll_ready : ℕ → LwsFramed Io → Outcome ⊥ (LwsFramed Io × Option Flushed)
  unfolding ready_by
  poll_ready rounds f = ready_by rounds f f.writing
