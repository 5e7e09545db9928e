-- ===== src/Lws/Handshake.antt =====
-- src/lws/chandshake.rs: the client's handshake, `CHandshake`. The random key, and the room that a
-- `BytesMut` has behind its bytes, are arguments; the loop takes the rounds that it may run.
pub mod Behind
use lproxy_cv.Prelude.{
  ℕ, zero, suc, ◌+◌, Bool, true, false, Option, none, some, List, [], ◌∷◌, ◌++◌, ltb, ◌==◌,
  if◌then◌else◌, length, drop, codes, position,
}
use lproxy_cv.Prelude.Outcome.{Outcome, ok, panic, unwrap, ◌>>=◌}
use lproxy_cv.Lws.Msg.{WMessage, new_wmessage, is_written, bytes, advance}
use lproxy_cv.Lws.Socket.{Socket, Read, got, Write, wrote}
use lproxy_cv.Lws.Socket
use lproxy_cv.Lws.Framed.{rest_of}

pub data ChState : Type 0 where
  writing_header : ChState
  reading_response : ChState
  done : ChState

pub record CHandshake (Io : Type 0) : Type 0 where
  pub io : Option Io
  pub read_buf : List ℕ
  pub wmsg : WMessage
  pub state : ChState

abbrev pub crlf : List ℕ
crlf = 13 ∷ 10 ∷ []

-- `Pending`, the errors, or the socket and the bytes behind the response.
pub data Shaken (Io : Type 0) : Type 0 where
  pending : Shaken Io
  broken : Shaken Io
  header_too_large : Shaken Io
  not_completed : Shaken Io
  shaken : Io → Option (List ℕ) → Shaken Io

unfoldable pub request_text : List ℕ → List ℕ → List ℕ → List ℕ
request_text host pth key =
    codes "GET "
    ++ (pth
        ++ (codes " HTTP/1.1"
            ++ (crlf
                ++ (codes "Host: "
                    ++ (host
                        ++ (crlf
                            ++ (codes "Connection: upgrade"
                                ++ (crlf
                                    ++ (codes "Upgrade: websocket"
                                        ++ (crlf
                                            ++ (codes "Sec-WebSocket-Version: 13"
                                                ++ (crlf
                                                    ++ (codes "Sec-WebSocket-Key: "
                                                        ++ (key ++ (crlf ++ crlf)))))))))))))))

unfoldable pub do_client_hanshake : {Io : Type 0} → Io → List ℕ → List ℕ → List ℕ → CHandshake Io
do_client_hanshake io host pth key = record {
  io = some io;
  read_buf = [];
  wmsg = new_wmessage (request_text host pth key) 0;
  state = writing_header;
}

module _ {Io : Type 0} (socket : Socket Io) (room : List ℕ → ℕ) where
  open socket use {poll_read_buf, poll_write_buf}

  parsed : CHandshake Io → Option ℕ → CHandshake Io × Bool
  parsed c none = (c, false)
  parsed c (some pos) = (record c { read_buf = drop (pos + 4) c.read_buf }, true)

  unfoldable pub parse_response : CHandshake Io → CHandshake Io × Bool
  unfolding parsed
  parse_response c = parsed c (position (crlf ++ crlf) c.read_buf)

  wrote_header : CHandshake Io → Io × Write → CHandshake Io × Option (Shaken Io)
  wrote_header c (io, Write.waits) = (record c { io = some io }, some Shaken.pending)
  wrote_header c (io, Write.failed) = (record c { io = some io }, some Shaken.broken)
  wrote_header c (io, wrote n) =
      let wmsg = advance c.wmsg n in
      (
        record c {
          io = some io;
          wmsg = wmsg;
          state = if is_written wmsg then reading_response else c.state;
        },
        none,
      )

  -- The next state by whether the response is complete.
  judged : CHandshake Io × Bool → CHandshake Io × Option (Shaken Io)
  judged (c, true) = (record c { state = done }, none)
  judged (c, false) = (c, none)

  read_response : CHandshake Io → Io × Read → CHandshake Io × Option (Shaken Io)
  unfolding judged
  read_response c (io, Read.waits) = (record c { io = some io }, some Shaken.pending)
  read_response c (io, Read.failed) = (record c { io = some io }, some Shaken.broken)
  read_response c (io, got []) = (record c { io = some io }, some not_completed)
  read_response c (io, got (b ∷ bs)) =
      judged (parse_response (record c { io = some io; read_buf = c.read_buf ++ b ∷ bs }))

  by_state : CHandshake Io → ChState → Outcome ⊥ (CHandshake Io × Option (Shaken Io))
  unfolding wrote_header read_response
  by_state c writing_header = do
    io ← unwrap c.io
    bs ← bytes c.wmsg
    ok (wrote_header c (poll_write_buf io bs))
  by_state c reading_response =
      if ltb 0 (room c.read_buf)
      then (do io ← unwrap c.io; ok (read_response c (poll_read_buf io (room c.read_buf))))
      else ok (c, some header_too_large)
  by_state c done = do
    io ← unwrap c.io
    ok (record c { io = none }, some (shaken io (rest_of c.read_buf)))

  unfoldable pub one_round : CHandshake Io → Outcome ⊥ (CHandshake Io × Option (Shaken Io))
  unfolding by_state
  one_round c = by_state c c.state

  unfoldable pub poll : ℕ → CHandshake Io → Outcome ⊥ (Option (CHandshake Io × Shaken Io))
  poll zero c = ok none
  poll (suc rounds) c = do
    (c1, end) ← one_round c
    elim end [ none ↦ poll rounds c1 | some e ↦ ok (some (c1, e)) ]
