-- ===== src/Tunnels/Header.antt =====
-- src/tunnels/theader.rs: the commands of a tunnel's messages and the header that names a request.
-- A message is two bytes of length, a byte of command, this header, and the payload.
pub mod Laws
use lproxy_cv.Prelude.{
  ℕ, zero, suc, ◌+◌, ◌≡◌, refl, List, [], ◌∷◌, ◌++◌, arith, ◌==◌, if◌then◌else◌, length,
}
use lproxy_cv.Prelude.Outcome.{Outcome, ok, panic, unwrap, ◌>>=◌}
use lproxy_cv.Wire.{ByteIo}

abbrev pub theader_size : ℕ
theader_size = 4

-- `no_cmd` is `Cmd::None`.
pub data Cmd : Type 0 where
  no_cmd req_data req_created req_client_closed req_client_finished : Cmd
  req_server_finished req_server_closed req_client_quota ping pong udp_x : Cmd

-- `cmd as u8`
unfoldable pub cmd_code : Cmd → ℕ
cmd_code no_cmd = 0
cmd_code req_data = 1
cmd_code req_created = 2
cmd_code req_client_closed = 3
cmd_code req_client_finished = 4
cmd_code req_server_finished = 5
cmd_code req_server_closed = 6
cmd_code req_client_quota = 7
cmd_code ping = 8
cmd_code pong = 9
cmd_code udp_x = 10

-- `Cmd::from`, which panics on any other byte.
unfoldable pub cmd_from : ℕ → Outcome ⊥ Cmd
cmd_from v =
    if v == 0
    then ok no_cmd
    else if v == 1
    then ok req_data
    else if v == 2
    then ok req_created
    else if v == 3
    then ok req_client_closed
    else if v == 4
    then ok req_client_finished
    else if v == 5
    then ok req_server_finished
    else if v == 6
    then ok req_server_closed
    else if v == 7
    then ok req_client_quota
    else if v == 8
    then ok ping
    else if v == 9
    then ok pong
    else if v == 10
    then ok udp_x
    else panic

pub record THeader : Type 0 where
  pub req_idx : ℕ
  pub req_tag : ℕ

module _ (io : ByteIo) where
  open io use {read_with, write_with}

  unfoldable pub read_from : List ℕ → Outcome ⊥ THeader
  read_from bs = do
    idx ← unwrap (read_with 2 bs 0)
    tag ← unwrap (read_with 2 bs 2)
    ok (record { req_idx = idx; req_tag = tag })

  unfoldable pub write_to : THeader → List ℕ → Outcome ⊥ (List ℕ)
  write_to th bs = do
    bs' ← unwrap (write_with 2 bs 0 th.req_idx)
    unwrap (write_with 2 bs' 2 th.req_tag)
