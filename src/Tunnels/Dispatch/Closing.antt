-- ===== src/Tunnels/Dispatch/Closing.antt =====
-- What the peer's messages do to the requests of a tunnel.
use lproxy_cv.Prelude.{
  ℕ, ◌+◌, ◌*◌, ◌%◌, ◌^◌, ◌<◌, ◌≡◌, refl, ap, ◌∙◌, Bool, true, none, some, List, [], ◌∷◌, ◌++◌,
  arith, length, get_elem?, get_elem?-lt, get_elem?-set_self,
}
use lproxy_cv.Prelude.Outcome.{ok}
use lproxy_cv.Wire.{ByteIo, encode, le_bytes}
use lproxy_cv.Lws.Msg.{RMessage, new_wmessage, bytes}
use lproxy_cv.Tunnels.Header.{Cmd, no_cmd, req_data, req_server_closed, cmd_code, THeader}
use lproxy_cv.Tunnels.Header.Laws.{cmd_from-cmd_code, read_from_lem}
use lproxy_cv.Tunnels.Reqq.{Request, Reqq, clean_req, free}
use lproxy_cv.Tunnels.Reqq.Stale.{free_of_free}
use lproxy_cv.Wire.Laws.{le_read_at, slice_from-append}
use lproxy_cv.Tunnels.Frames.Laws.{head_fields}
use lproxy_cv.Tunnels.Tunnel.{Tunnel, TunStub, sent, sub_u16, stub_header, get_request_tx, tx_of}
use lproxy_cv.Tunnels.Tunnel.Requests.{
  TunInv, Holds, closed_tunnel, freed, closed_tunnel-TunInv, busy_counted,
}
use lproxy_cv.Tunnels.Dispatch.{freed_by_server, on_cmd, on_tunnel_msg}

-- A message of the peer about a request, with the length that it announces.
abbrev pub peer_msg : ℕ → Cmd → THeader → List ℕ → RMessage
peer_msg total cmd th payload = record {
  buf = encode (head_fields total cmd th) ++ payload;
  cached_length = total;
  error = none;
}

-- The bytes of a message count as busy, less the two of its length.
abbrev pub busier : Tunnel → ℕ → Tunnel
busier t n = record t { busy = (t.busy + n) % 2 ^ 64 }

cmd_code-lt : (c : Cmd) → cmd_code c % 256 ≡ cmd_code c
unfolding cmd_code
cmd_code-lt no_cmd = refl
cmd_code-lt _ = refl

module _ (alive : ℕ → Bool) (io : ByteIo) (now : ℕ) where
  pub on_tunnel_msg_lem :
      (t : Tunnel) (total : ℕ) (cmd : Cmd) (th : THeader) (payload : List ℕ)
      → on_tunnel_msg alive io now t (peer_msg total cmd th payload)
        ≡ on_cmd alive io now cmd
            (busier t (length payload + 5))
            (peer_msg total cmd th payload)
            (le_bytes 2 th.req_idx ++ (le_bytes 2 th.req_tag ++ payload))
  unfolding on_tunnel_msg
  on_tunnel_msg_lem t total cmd th payload =
      let code = cmd_code cmd % 256 in
      let rest = le_bytes 2 th.req_idx ++ (le_bytes 2 th.req_tag ++ payload) in
      let n : length (code ∷ rest) ≡ length payload + 5 = omega arith in
      let read : io.read_with 1 (code ∷ rest) 0 ≡ some (code + 256 * 0) =
        io.read_with_lem 1 (code ∷ rest) 0 ∙ le_read_at [] (code ∷ []) rest 1 refl in
      let c : code + 256 * 0 ≡ cmd_code cmd = omega (arith, cmd_code-lt cmd) in
      rw (
        slice_from-append (le_bytes 2 (total % 65536)) (code ∷ rest) 2 refl,
        read,
        slice_from-append (code ∷ []) rest 1 refl,
        c,
        cmd_from-cmd_code cmd,
        n,
      )

  -- Payload for a request whose sender is found and live goes to that channel alone, what the
  -- receiver then writes out is the payload without the head, and nothing but `busy` changes.
  pub req_data_delivers :
      (t : Tunnel) (s : TunStub) (tx total : ℕ) (payload : List ℕ)
      → s.req_idx < 65536
      → s.req_tag < 65536
      → get_request_tx t s.req_idx s.req_tag ≡ some tx
      → alive tx ≡ true
      → let msg = peer_msg total req_data (stub_header s) payload in
        (on_tunnel_msg alive io now t msg
          ≡ ok (busier t (length payload + 5), sent tx (new_wmessage msg.buf 7) ∷ []))
        × (bytes (new_wmessage msg.buf 7) ≡ ok payload)
  unfolding on_cmd bytes get_request_tx
  req_data_delivers t s tx total payload hi ht e live = (
    on_tunnel_msg_lem t total req_data (stub_header s) payload
        ∙ rw (read_from_lem io s.req_idx s.req_tag payload hi ht) (rw e (rw live)),
    slice_from-append (encode (head_fields total req_data (stub_header s))) payload 7 refl,
  )

  -- In a tunnel with the invariant, the peer's close of a request that is in use keeps the
  -- invariant, counts one less, sends nothing, and the request's sender is found no more.
  pub req_server_closed_frees :
      (t : Tunnel) (s : TunStub) (total : ℕ)
      → s.req_idx < 65536
      → s.req_tag < 65536
      → TunInv t
      → Holds t s
      → (t' : Tunnel) × (on_tunnel_msg alive io now t
            (peer_msg total req_server_closed (stub_header s) [])
          ≡ ok (t', []))
        × TunInv t'
        × (t'.req_count + 1 ≡ t.req_count)
        × (get_request_tx t' s.req_idx s.req_tag ≡ none)
  unfolding on_cmd get_request_tx
  req_server_closed_frees t s total hi ht v h =
      let u = busier t 5 in
      let h' : Holds u s = record { req = h.req; at = h.at; tagged = h.tagged; busy = h.busy } in
      let v' : TunInv u = record { table = v.table; small = v.small; counted = v.counted } in
      (
        closed_tunnel u s h.req,
        on_tunnel_msg_lem t total req_server_closed (stub_header s) []
            ∙ rw (read_from_lem io s.req_idx s.req_tag [] hi ht)
                (ap (λ r. ok (freed_by_server u r, [])) (freed u s h')),
        closed_tunnel-TunInv u s h' v',
        omega (arith, v.small, v.counted, busy_counted t s h v),
        rw
            (
              get_elem?-set_self t.requests.elements s.req_idx (clean_req h.req)
                  (get_elem?-lt t.requests.elements s.req_idx h.req h.at),
              tx_of,
            )
            (ground arith),
      )

  -- In a tunnel with the invariant, a close from the peer that names the first free slot with its
  -- current tag breaks the invariant: the slot is free twice, and `req_count` is counted down.
  pub req_server_closed_of_free :
      (t : Tunnel) (i : ℕ) (js : List ℕ) (r : Request) (total : ℕ)
      → TunInv t
      → t.requests.free ≡ i ∷ js
      → get_elem? t.requests.elements i ≡ some r
      → r.tag < 65536
      → let th : THeader = record { req_idx = i; req_tag = r.tag } in
        (t' : Tunnel) × (on_tunnel_msg alive io now t (peer_msg total req_server_closed th [])
          ≡ ok (t', []))
        × (t'.requests.free ≡ i ∷ i ∷ js)
        × (t'.req_count ≡ sub_u16 t.req_count 1)
        × ¬ TunInv t'
  unfolding on_cmd
  req_server_closed_of_free t i js r total v e er ht =
      let th : THeader = record { req_idx = i; req_tag = r.tag } in
      let u = busier t 5 in
      let (freed', twice, broken) = free_of_free t.requests i js r e er in
      let q : Reqq = (free t.requests i r.tag).0 in
      let hi : i < 65536 = omega (arith, v.small, get_elem?-lt t.requests.elements i r er) in
      (
        record u { requests = q; req_count = sub_u16 t.req_count 1 },
        on_tunnel_msg_lem t total req_server_closed th []
            ∙ rw (read_from_lem io i r.tag [] hi ht)
                (ap (λ b. ok (freed_by_server u (q, b), [])) freed'),
        twice,
        refl,
        λ w. broken w.table,
      )
