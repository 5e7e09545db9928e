-- ===== src/Witnesses/Messages.antt =====
-- The theorems on a tunnel's messages at concrete messages.
use lproxy_cv.Prelude.{ℕ, ◌≡◌, refl, ◌+◌, none, List, [], ◌∷◌, arith}
use lproxy_cv.Prelude.Outcome.{ok}
use lproxy_cv.Wire.{little}
use lproxy_cv.Tunnels.Header.{req_server_closed, THeader}
use lproxy_cv.Tunnels.Frames.{v4, v6}
use lproxy_cv.Tunnels.Tunnel.{SocketAddr, Tunnel, sub_u16, stub_header, get_request_tx}
use lproxy_cv.Tunnels.Tunnel.Requests.{TunInv}
use lproxy_cv.Tunnels.Udp.{udp_frame, udp_parts}
use lproxy_cv.Tunnels.Udp.RoundTrip.{octets, segments, IsSocketAddr, udp_parts-udp_frame}
use lproxy_cv.Tunnels.Dispatch.{on_tunnel_msg}
use lproxy_cv.Tunnels.Dispatch.Closing.{
  peer_msg, req_server_closed_frees, req_server_closed_of_free,
}
use lproxy_cv.Witnesses.{alive, tunnel, stub, tunnel-TunInv, stub-Holds, free_slot}

req_server_closed_frees_example :
    (t' : Tunnel) × (on_tunnel_msg alive little 50 tunnel
        (peer_msg 7 req_server_closed (stub_header stub) [])
      ≡ ok (t', []))
    × TunInv t'
    × (t'.req_count + 1 ≡ 1)
    × (get_request_tx t' 0 1 ≡ none)
req_server_closed_frees_example =
    req_server_closed_frees alive little 50 tunnel stub 7 (omega arith) (omega arith) tunnel-TunInv
      stub-Holds

abbrev free_header : THeader
free_header = record { req_idx = 1; req_tag = 0 }

req_server_closed_of_free_example :
    (t' : Tunnel) × (on_tunnel_msg alive little 50 tunnel
        (peer_msg 7 req_server_closed free_header [])
      ≡ ok (t', []))
    × (t'.requests.free ≡ 1 ∷ 1 ∷ [])
    × (t'.req_count ≡ sub_u16 1 1)
    × ¬ TunInv t'
req_server_closed_of_free_example =
    req_server_closed_of_free alive little 50 tunnel 1 [] free_slot 7 tunnel-TunInv refl refl
      (omega arith)

abbrev here : SocketAddr
here = record { ip = v4 (10 ∷ 0 ∷ 0 ∷ 1 ∷ []); port = 5353 }

abbrev there : SocketAddr
there = record { ip = v6 (1 ∷ 2 ∷ 3 ∷ 4 ∷ 5 ∷ 6 ∷ 7 ∷ 8 ∷ []); port = 53 }

here-IsSocketAddr : IsSocketAddr here
here-IsSocketAddr = record {
  ip = octets 10 0 0 1 (omega arith) (omega arith) (omega arith) (omega arith);
  port = omega arith;
}

there-IsSocketAddr : IsSocketAddr there
there-IsSocketAddr = record {
  ip = segments 1 2 3 4 5 6 7 8 (
    omega arith,
    (
      omega arith,
      (omega arith, (omega arith, (omega arith, (omega arith, (omega arith, (omega arith, tt)))))),
    ),
  );
  port = omega arith;
}

udp_parts-udp_frame_example :
    (buf : List ℕ) × (udp_frame little (9 ∷ 8 ∷ []) here there ≡ ok buf)
    × (udp_parts little buf ≡ ok (9 ∷ 8 ∷ [], here, there))
udp_parts-udp_frame_example =
    udp_parts-udp_frame little (9 ∷ 8 ∷ []) here there here-IsSocketAddr there-IsSocketAddr
