-- ===== src/Tunnels/Frames/Laws.antt =====
-- What the messages look like on the wire.
use lproxy_cv.Prelude.{ℕ, ◌+◌, ◌%◌, ◌≡◌, refl, List, [], ◌∷◌, ◌++◌, arith, length, replicate}
use lproxy_cv.Prelude.Outcome.{ok}
use lproxy_cv.Wire.{ByteIo, encode}
use lproxy_cv.Wire.Laws.{writes_lem}
use lproxy_cv.Tunnels.Header.{
  Cmd, req_data, req_created, req_client_closed, req_client_finished, req_client_quota, ping,
  cmd_code, THeader,
}
use lproxy_cv.Tunnels.Header.Laws.{write_to_lem}
use lproxy_cv.Tunnels.Frames.{
  v4, v6, created_ip, write_head, created_frame, closed_frame, data_frame, finished_frame,
  quota_frame, ping_frame,
}

-- The fields in front of every message about a request, each with its width.
abbrev pub head_fields : ℕ → Cmd → THeader → List (ℕ × ℕ)
head_fields total cmd th =
    (2, total % 65536) ∷ (1, cmd_code cmd) ∷ (2, th.req_idx) ∷ (2, th.req_tag) ∷ []

module _ (io : ByteIo) where
  pub write_head_lem :
      (total : ℕ) (cmd : Cmd) (th : THeader) (a b c d e f g : ℕ) (rest : List ℕ)
      → write_head io total cmd th (a ∷ b ∷ c ∷ d ∷ e ∷ f ∷ g ∷ rest)
        ≡ ok (encode (head_fields total cmd th) ++ rest)
  unfolding write_head
  write_head_lem total cmd th a b c d e f g rest =
      rw
        (writes_lem io ((2, total % 65536) ∷ (1, cmd_code cmd) ∷ []) [] (a ∷ b ∷ c ∷ [])
          (d ∷ e ∷ f ∷ g ∷ rest) refl)
        (ground (arith, write_to_lem io th d e f g rest))

  -- The seven bytes of a message without payload: its length, the command and the request.
  pub closed_frame_lem :
      (th : THeader) → closed_frame io th ≡ ok (encode (head_fields 7 req_client_closed th))
  unfolding closed_frame
  closed_frame_lem th = write_head_lem 7 req_client_closed th 0 0 0 0 0 0 0 []

  pub finished_frame_lem :
      (th : THeader) → finished_frame io th ≡ ok (encode (head_fields 7 req_client_finished th))
  unfolding finished_frame
  finished_frame_lem th = write_head_lem 7 req_client_finished th 0 0 0 0 0 0 0 []

  pub quota_frame_lem :
      (th : THeader) (quota : ℕ)
      → quota_frame io th quota
        ≡ ok (encode (head_fields 9 req_client_quota th) ++ encode ((2, quota) ∷ []))
  unfolding quota_frame
  quota_frame_lem th quota = rw (write_head_lem 9 req_client_quota th 0 0 0 0 0 0 0 (0 ∷ 0 ∷ [])) (
      rw (
        writes_lem io ((2, quota) ∷ []) (encode (head_fields 9 req_client_quota th)) (0 ∷ 0 ∷ []) []
          refl))

  -- A payload that was read behind seven spare bytes goes out behind the head.
  pub data_frame_lem :
      (th : THeader) (a b c d e f g : ℕ) (payload : List ℕ)
      → data_frame io th (a ∷ b ∷ c ∷ d ∷ e ∷ f ∷ g ∷ payload)
        ≡ ok (encode (head_fields (length payload + 7) req_data th) ++ payload)
  unfolding data_frame
  data_frame_lem th a b c d e f g payload =
      let n : length (a ∷ b ∷ c ∷ d ∷ e ∷ f ∷ g ∷ payload) ≡ length payload + 7 = omega arith in
      rw n (write_head_lem (length payload + 7) req_data th a b c d e f g payload)

  pub ping_frame_lem :
      (timestamp : ℕ)
      → ping_frame io timestamp ≡ ok (encode ((2, 11) ∷ (1, cmd_code ping) ∷ (8, timestamp) ∷ []))
  unfolding ping_frame
  ping_frame_lem timestamp = rw (
      writes_lem io ((2, 11) ∷ (1, cmd_code ping) ∷ (8, timestamp) ∷ []) [] (replicate 11 0) []
        refl)

  -- The addresses that the standard library has: 4 octets or 8 segments.
  pub created_frame_v4 :
      (th : THeader) (a b c d port : ℕ)
      → created_frame io th (v4 (a ∷ b ∷ c ∷ d ∷ [])) port
        ≡ ok (
            encode (head_fields 14 req_created th)
            ++ encode ((1, 0) ∷ (1, a) ∷ (1, b) ∷ (1, c) ∷ (1, d) ∷ (2, port) ∷ []))
  unfolding created_frame
  created_frame_v4 th a b c d port =
      rw (write_head_lem 14 req_created th 0 0 0 0 0 0 0 (replicate 7 0)) (
        rw (
          writes_lem io (created_ip (v4 (a ∷ b ∷ c ∷ d ∷ [])) ++ ((2, port) ∷ [])) []
            (replicate 7 0) [] refl))

  pub created_frame_v6 :
      (th : THeader) (a b c d e f g h port : ℕ)
      → created_frame io th (v6 (a ∷ b ∷ c ∷ d ∷ e ∷ f ∷ g ∷ h ∷ [])) port
        ≡ ok (
            encode (head_fields 26 req_created th)
            ++ encode (
                (1, 2)
                ∷ (2, a)
                ∷ (2, b)
                ∷ (2, c)
                ∷ (2, d)
                ∷ (2, e)
                ∷ (2, f)
                ∷ (2, g)
                ∷ (2, h)
                ∷ (2, port)
                ∷ []))
  unfolding created_frame
  created_frame_v6 th a b c d e f g h port =
      rw (write_head_lem 26 req_created th 0 0 0 0 0 0 0 (replicate 19 0)) (
        rw (
          writes_lem io (created_ip (v6 (a ∷ b ∷ c ∷ d ∷ e ∷ f ∷ g ∷ h ∷ [])) ++ ((2, port) ∷ []))
            [] (replicate 19 0) [] refl))
