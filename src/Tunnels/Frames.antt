-- ===== src/Tunnels/Frames.antt =====
-- The messages that one end of a tunnel builds about a request: src/tunnels/tunnel.rs (created,
-- closed, ping) and src/tunnels/reqserv.rs (payload, finished, quota). A message is a vector of
-- zeros that is written over: length and command, the header behind three bytes, then the rest.
pub mod Laws
use lproxy_cv.Prelude.{ℕ, ◌+◌, ◌%◌, List, [], ◌∷◌, ◌++◌, map, length, replicate}
use lproxy_cv.Prelude.Outcome.{Outcome, ok, unwrap, ◌>>=◌}
use lproxy_cv.Wire.{ByteIo, writes, behind}
use lproxy_cv.Tunnels.Header.{
  Cmd, req_data, req_created, req_client_closed, req_client_finished, req_client_quota, ping,
  cmd_code, THeader, write_to,
}

-- The octets of an IPv4 address and the segments of an IPv6 address.
pub data IpAddr : Type 0 where
  v4 : List ℕ → IpAddr
  v6 : List ℕ → IpAddr

abbrev pub hsize : ℕ
hsize = 7

abbrev pub ipaddr_length : IpAddr → ℕ
ipaddr_length (v4 octets) = 4
ipaddr_length (v6 segments) = 16

-- The address as `send_request_created_to_server` writes it: the type, then the numbers.
abbrev pub created_ip : IpAddr → List (ℕ × ℕ)
created_ip (v4 octets) = (1, 0) ∷ map (λ b. (1, b)) octets
created_ip (v6 segments) = (1, 2) ∷ map (λ b. (2, b)) segments

module _ (io : ByteIo) where
  open io use {write_with}

  -- Length and command at the front, the header behind three bytes.
  unfoldable pub write_head : ℕ → Cmd → THeader → List ℕ → Outcome ⊥ (List ℕ)
  write_head total cmd th buf = do
    (buf', off) ← writes write_with ((2, total % 65536) ∷ (1, cmd_code cmd) ∷ []) buf 0
    behind 3 buf' (write_to io th)

  -- `send_request_created_to_server`, up to the send.
  unfoldable pub created_frame : THeader → IpAddr → ℕ → Outcome ⊥ (List ℕ)
  created_frame th ip port = do
    let total = hsize + (1 + ipaddr_length ip + 2)
    buf ← write_head total req_created th (replicate total 0)
    behind hsize buf λ body. do
      (body', off) ← writes write_with (created_ip ip ++ ((2, port) ∷ [])) body 0
      ok body'

  -- `send_request_closed_to_server`, up to the send.
  unfoldable pub closed_frame : THeader → Outcome ⊥ (List ℕ)
  closed_frame th = write_head hsize req_client_closed th (replicate hsize 0)

  -- `on_request_msg` of reqserv.rs: the message has room for the head in front.
  unfoldable pub data_frame : THeader → List ℕ → Outcome ⊥ (List ℕ)
  data_frame th vec = write_head (length vec) req_data th vec

  -- `on_request_recv_finished` of reqserv.rs.
  unfoldable pub finished_frame : THeader → Outcome ⊥ (List ℕ)
  finished_frame th = write_head hsize req_client_finished th (replicate hsize 0)

  -- `send_request_quota` of reqserv.rs.
  unfoldable pub quota_frame : THeader → ℕ → Outcome ⊥ (List ℕ)
  quota_frame th quota = do
    buf ← write_head (hsize + 2) req_client_quota th (replicate (hsize + 2) 0)
    (buf', off) ← writes write_with ((2, quota) ∷ []) buf hsize
    ok buf'

  -- The message of `send_ping`.
  unfoldable pub ping_frame : ℕ → Outcome ⊥ (List ℕ)
  ping_frame timestamp = do
    (buf, off) ←
        writes write_with ((2, 11) ∷ (1, cmd_code ping) ∷ (8, timestamp) ∷ []) (replicate 11 0) 0
    ok buf
