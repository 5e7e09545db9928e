-- ===== src/Tunnels/Reqserv.antt =====
-- src/tunnels/reqserv.rs: the messages of a request's connection, and the credit that it gives back
-- to the server for what it has written.
pub mod Credit
use lproxy_cv.Prelude.{
  ℕ, zero, suc, ◌+◌, ◌/◌, Bool, true, false, List, [], ◌∷◌, ◌++◌, ◌==◌, if◌then◌else◌,
}
use lproxy_cv.Prelude.Outcome.{Outcome, ok, ◌>>=◌}
use lproxy_cv.Wire.{ByteIo}
use lproxy_cv.Tunnels.Reqq.{u16}
use lproxy_cv.Tunnels.Frames.{data_frame, finished_frame, quota_frame}
use lproxy_cv.Tunnels.Tunnel.{TunStub, Effect, stub_header, send}

module _ (io : ByteIo) (alive : ℕ → Bool) where
  -- The bytes that were read stand behind seven spare ones. `false` ends the loop of the reader.
  unfoldable pub on_request_msg : List ℕ → TunStub → Outcome ⊥ (Bool × List Effect)
  on_request_msg buf tun = do
    vec ← data_frame io (stub_header tun) buf
    ok (alive tun.tunnel_tx, send alive tun.tunnel_tx vec)

  unfoldable pub on_request_recv_finished : TunStub → Outcome ⊥ (List Effect)
  on_request_recv_finished tun = do
    buf ← finished_frame io (stub_header tun)
    ok (send alive tun.tunnel_tx buf)

  unfoldable pub send_request_quota : TunStub → ℕ → Outcome ⊥ (List Effect)
  send_request_quota tun quota = do
    buf ← quota_frame io (stub_header tun) quota
    ok (send alive tun.tunnel_tx buf)

  abbrev pub quota_report_threshold : TunStub → ℕ
  quota_report_threshold tun = tun.request_quota / 2

  -- The count after an item of the channel, and what is sent.
  unfoldable pub on_item : TunStub → ℕ → Outcome ⊥ (ℕ × List Effect)
  on_item tun write_out =
      let next = u16 (write_out + 1) in
      if next == quota_report_threshold tun
      then (do effects ← send_request_quota tun next; ok (0, effects))
      else ok (next, [])

  -- As many items.
  unfoldable pub on_items : TunStub → ℕ → ℕ → Outcome ⊥ (ℕ × List Effect)
  on_items tun zero write_out = ok (write_out, [])
  on_items tun (suc items) write_out = do
    (next, effects) ← on_item tun write_out
    (last, more) ← on_items tun items next
    ok (last, effects ++ more)
