-- ===== src/Tunnels/Udp.antt =====
-- src/tunnels/tunnel.rs: datagrams through a tunnel. Northwards a datagram is packed with its two
-- addresses, southwards it is unpacked.
pub mod RoundTrip
use lproxy_cv.Prelude.{
  ℕ, ◌+◌, ◌%◌, Bool, true, false, Option, none, some, List, [], ◌∷◌, ◌++◌, map, ◌==◌, if◌then◌else◌,
  length, take, drop, replicate,
}
use lproxy_cv.Prelude.Outcome.{Outcome, ok, panic, ◌>>=◌}
use lproxy_cv.Wire.{ByteIo, writes, reads, slice_from}
use lproxy_cv.Lws.Msg.{RMessage}
use lproxy_cv.Tunnels.Header.{udp_x, cmd_code}
use lproxy_cv.Tunnels.Frames.{IpAddr, v4, v6}
use lproxy_cv.Tunnels.Tunnel.{Tunnel, SocketAddr, Effect, udp_recv, send}

-- The bytes that an address takes: port, type and numbers.
abbrev pub addr_size : IpAddr → ℕ
addr_size (v4 octets) = 7
addr_size (v6 segments) = 19

abbrev pub ip_fields : IpAddr → List (ℕ × ℕ)
ip_fields (v4 octets) = (1, 0) ∷ map (λ b. (1, b)) octets
ip_fields (v6 segments) = (1, 1) ∷ map (λ b. (2, b)) segments

-- The port is before the type, and the type of IPv6 is 1 here.
abbrev pub addr_fields : SocketAddr → List (ℕ × ℕ)
addr_fields a = (2, a.port) ∷ ip_fields a.ip

-- `copy_from_slice` into `&mut buf[offset ..]` panics where the lengths differ.
abbrev pub copy_behind : ℕ → List ℕ → List ℕ → Outcome ⊥ (List ℕ)
copy_behind off buf msg = do
  tail ← slice_from off buf
  if length tail == length msg then ok (take off buf ++ msg) else panic

module _ (io : ByteIo) where
  open io use {read_with, write_with}

  unfoldable pub write_socketaddr : List ℕ → ℕ → SocketAddr → Outcome ⊥ (List ℕ × ℕ)
  write_socketaddr bs off addr = writes write_with (addr_fields addr) bs off

  -- The message of `udp_proxy_north`.
  unfoldable pub udp_frame : List ℕ → SocketAddr → SocketAddr → Outcome ⊥ (List ℕ)
  unfolding write_socketaddr
  udp_frame msg src_addr dst_addr = do
    let total = 3 + (length msg + addr_size src_addr.ip + addr_size dst_addr.ip)
    (b1, o1) ←
        writes write_with ((2, total % 65536) ∷ (1, cmd_code udp_x) ∷ []) (replicate total 0) 0
    (b2, o2) ← write_socketaddr b1 o1 src_addr
    (b3, o3) ← write_socketaddr b2 o2 dst_addr
    copy_behind o3 b3 msg

  unfoldable pub read_ip : ℕ → List ℕ → ℕ → Outcome ⊥ (IpAddr × ℕ)
  read_ip addr_type bs off =
      if addr_type == 0
      then (do (octets, off') ← reads read_with (replicate 4 1) bs off; ok (v4 octets, off'))
      else (do (segments, off') ← reads read_with (replicate 8 2) bs off; ok (v6 segments, off'))

  typed : List ℕ → ℕ → List ℕ → Outcome ⊥ (SocketAddr × ℕ)
  unfolding read_ip
  typed (port ∷ addr_type ∷ []) off bs = do
    (ip, off') ← read_ip addr_type bs off
    ok (record { ip = ip; port = port }, off')
  typed _ off bs = panic

  -- `reads` gives one number for each width, so the last clause of `typed` is not reached.
  unfoldable pub read_socketaddr : List ℕ → ℕ → Outcome ⊥ (SocketAddr × ℕ)
  unfolding typed
  read_socketaddr bs off = do (head, off') ← reads read_with (2 ∷ 1 ∷ []) bs off; typed head off' bs

  -- The datagram and the addresses of a message.
  unfoldable pub udp_parts : List ℕ → Outcome ⊥ (List ℕ × SocketAddr × SocketAddr)
  udp_parts buf = do
    bs ← slice_from 3 buf
    (src_addr, o1) ← read_socketaddr bs 0
    (dst_addr, o2) ← read_socketaddr bs o1
    payload ← slice_from (3 + o2) buf
    ok (payload, src_addr, dst_addr)

  module _ (alive : ℕ → Bool) where
    unfoldable pub udp_proxy_north :
        Tunnel → List ℕ → SocketAddr → SocketAddr → Outcome ⊥ (List Effect)
    udp_proxy_north t msg src_addr dst_addr = do
      buf ← udp_frame msg src_addr dst_addr
      ok (send alive t.tx buf)

    south_by : Option ℕ → RMessage → Outcome ⊥ (List Effect)
    south_by none msg = ok []
    south_by (some tx) msg = do
      (payload, src_addr, dst_addr) ← udp_parts msg.buf
      ok (if alive tx then udp_recv tx payload src_addr dst_addr ∷ [] else [])

    unfoldable pub on_udpx_south : Tunnel → RMessage → Outcome ⊥ (List Effect)
    unfolding south_by
    on_udpx_south t msg = south_by t.udpx_tx msg
