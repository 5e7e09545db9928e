-- ===== src/Lws/TcpFramed.antt =====
-- src/lws/tcpframed.rs: the plain socket of a request as a stream of messages, with room for the
-- head of a tunnel message before the bytes, and as a sink.
use lproxy_cv.Prelude.{
  ℕ, ◌-◌, ◌+◌, ◌^◌, ◌<◌, ◌≤◌, ◌≡◌, refl, Bool, true, false, Option, none, some, List, [], ◌∷◌, ◌++◌,
  arith, length, replicate,
}
use lproxy_cv.Prelude.Outcome.{Outcome, ok, ◌>>=◌}
use lproxy_cv.Lws.Msg.{
  WMessage, TMessage, new_tmessage, tmessage_keep, tmessage_remaining_mut, tmessage_advance_mut,
}
use lproxy_cv.Lws.Socket.{Socket, Read, got, Write, wrote}
use lproxy_cv.Lws.Framed.{Next, ended, message, Flushed, flushed, write_out}

pub record TcpFramed (Io : Type 0) : Type 0 where
  pub io : Io
  pub reading : Option TMessage
  pub writing : Option WMessage
  pub has_finished : Bool

abbrev pub current : Option TMessage → TMessage
current none = new_tmessage
current (some msg) = msg

module _ {Io : Type 0} (socket : Socket Io) where
  abbrev pub new : Io → TcpFramed Io
  new io = record { io = io; reading = none; writing = none; has_finished = false }

  by_read : TcpFramed Io → TMessage → Io × Read → TcpFramed Io × Next TMessage
  by_read f msg (io, Read.waits) = (record f { io = io; reading = some msg }, Next.pending)
  by_read f msg (io, got []) =
      (record f { io = io; reading = some msg; has_finished = true }, ended)
  by_read f msg (io, got (b ∷ bs)) =
      (record f { io = io; reading = none }, message (tmessage_advance_mut msg (b ∷ bs)))
  by_read f msg (io, Read.failed) =
      (record f { io = io; reading = some msg; has_finished = true }, Next.broken)

  -- The loop ends in its first round. The capacity of the message is an argument.
  unfoldable pub poll_next : ℕ → TcpFramed Io → TcpFramed Io × Next TMessage
  unfolding by_read
  poll_next capacity f =
      let msg = current f.reading in
      by_read f msg (socket.poll_read_buf f.io (tmessage_remaining_mut capacity msg))

  abbrev pub is_terminated : TcpFramed Io → Bool
  is_terminated f = f.has_finished

  abbrev pub start_send : TcpFramed Io → WMessage → TcpFramed Io
  start_send f item = record f { writing = some item }

  at_last : TcpFramed Io → Io × Write → TcpFramed Io × Option Flushed
  at_last f (io, Write.waits) = (record f { io = io }, some Flushed.pending)
  at_last f (io, wrote n) = (record f { io = io }, some flushed)
  at_last f (io, Write.failed) = (record f { io = io }, some Flushed.broken)

  flushing : TcpFramed Io → Option Flushed → TcpFramed Io × Option Flushed
  unfolding at_last
  flushing f (some flushed) = at_last f (socket.poll_flush f.io)
  flushing f other = (f, other)

  send_out : ℕ → TcpFramed Io → Option WMessage → Outcome ⊥ (TcpFramed Io × Option Flushed)
  unfolding flushing
  send_out rounds f none = ok (flushing f (some flushed))
  send_out rounds f (some msg) = do
    (io, left, how) ← write_out socket rounds f.io msg
    ok (flushing (record f { io = io; writing = left }) how)

  unfoldable pub poll_flush : ℕ → TcpFramed Io → Outcome ⊥ (TcpFramed Io × Option Flushed)
  unfolding send_out
  poll_flush rounds f = send_out rounds f f.writing

  abbrev pub poll_close : ℕ → TcpFramed Io → Outcome ⊥ (TcpFramed Io × Option Flushed)
  poll_close rounds f = poll_flush rounds f

  ready_by : ℕ → TcpFramed Io → Option WMessage → Outcome ⊥ (TcpFramed Io × Option Flushed)
  ready_by rounds f none = ok (f, some flushed)
  ready_by rounds f (some msg) = poll_flush rounds f

  unfoldable pub poll_ready : ℕ → TcpFramed Io → Outcome ⊥ (TcpFramed Io × Option Flushed)
  unfolding ready_by
  poll_ready rounds f = ready_by rounds f f.writing

  -- No byte was read into the message at hand.
  abbrev pub IsIdle : TcpFramed Io → Type 0
  IsIdle f = current f.reading ≡ new_tmessage

  -- What a poll comes to: a message whose bytes, behind the room for the head, are the next of the
  -- socket; or no byte is there; or the end, where all bytes were given out; or the socket fails.
  pub data Gives (capacity : ℕ) (f : TcpFramed Io) : TcpFramed Io × Next TMessage → Type 0 where
    given :
        (f1 : TcpFramed Io) (m : TMessage) (bs : List ℕ)
        → m.buf ≡ replicate tmessage_keep 0 ++ bs
        → 1 ≤ length bs
        → length bs + tmessage_keep ≤ capacity
        → socket.coming f.io ≡ bs ++ socket.coming f1.io
        → IsIdle f1
        → Gives capacity f (f1, message m)
    waiting :
        (f1 : TcpFramed Io)
        → socket.coming f1.io ≡ socket.coming f.io
        → IsIdle f1
        → Gives capacity f (f1, Next.pending)
    over :
        (f1 : TcpFramed Io)
        → socket.coming f.io ≡ []
        → f1.has_finished ≡ true
        → Gives capacity f (f1, ended)
    lost : (f1 : TcpFramed Io) → f1.has_finished ≡ true → Gives capacity f (f1, Next.broken)

  room_left :
      (capacity : ℕ) (msg : TMessage)
      → msg ≡ new_tmessage
      → tmessage_keep < capacity
      → capacity < 2 ^ 64
      → tmessage_remaining_mut capacity msg ≡ capacity - tmessage_keep
  unfolding tmessage_remaining_mut new_tmessage
  room_left capacity msg i h k = rw i (omega (arith, h, k))

  behind_head :
      (msg : TMessage) (bs : List ℕ)
      → msg ≡ new_tmessage
      → (tmessage_advance_mut msg bs).buf ≡ replicate tmessage_keep 0 ++ bs
  unfolding tmessage_advance_mut new_tmessage
  behind_head msg bs i = rw i refl

  by_read-Gives :
      (capacity : ℕ) (f : TcpFramed Io) (r : Io × Read)
      → IsIdle f
      → tmessage_keep < capacity
      → socket.poll_read_buf f.io (capacity - tmessage_keep) ≡ r
      → Gives capacity f (by_read f (current f.reading) r)
  unfolding by_read
  by_read-Gives capacity f (io, Read.waits) i h e =
      waiting (record f { io = io; reading = some (current f.reading) })
        (socket.read_waits f.io (capacity - tmessage_keep) e) i
  by_read-Gives capacity f (io, Read.failed) i h e =
      lost (record f { io = io; reading = some (current f.reading); has_finished = true }) refl
  by_read-Gives capacity f (io, got []) i h e =
      let (_, _, last) = socket.read_got f.io (capacity - tmessage_keep) e in
      over (record f { io = io; reading = some (current f.reading); has_finished = true })
        (last (omega (arith, h)) refl) refl
  by_read-Gives capacity f (io, got (b ∷ bs)) i h e =
      let (taken, fits, _) = socket.read_got f.io (capacity - tmessage_keep) e in
      given (record f { io = io; reading = none })
        (tmessage_advance_mut (current f.reading) (b ∷ bs)) (b ∷ bs)
        (behind_head (current f.reading) (b ∷ bs) i) (omega arith) (omega (arith, fits, h)) taken
        refl

  -- Each poll of a socket into whose message nothing was read gives the next bytes of the socket,
  -- each once, behind the room for the head and within the capacity of the message; or there is
  -- none, and no byte is lost; or the end, when all were given; or the socket fails.
  pub poll_next-Gives :
      (capacity : ℕ) (f : TcpFramed Io)
      → IsIdle f
      → tmessage_keep < capacity
      → capacity < 2 ^ 64
      → Gives capacity f (poll_next capacity f)
  unfolding poll_next
  poll_next-Gives capacity f i h k =
      rw (room_left capacity (current f.reading) i h k)
        (by_read-Gives capacity f (socket.poll_read_buf f.io (capacity - tmessage_keep)) i h refl)
