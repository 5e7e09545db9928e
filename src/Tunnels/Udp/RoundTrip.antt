-- ===== src/Tunnels/Udp/RoundTrip.antt =====
-- A datagram that goes through a tunnel arrives with its bytes and its addresses.
use native.Mathlib.Nat.{add_assoc}
use lproxy_cv.Prelude.{
  ℕ, zero, suc, ◌+◌, ◌%◌, ◌<◌, ◌≡◌, refl, sym, ap, subst, ◌∙◌, List, [], ◌∷◌, ◌++◌, arith, length,
  replicate, All, le→leb, ==_refl, append_assoc, length-append, length-replicate, take-append,
  drop-append,
}
use lproxy_cv.Prelude.Outcome.{ok}
use lproxy_cv.Wire.{ByteIo, encode, writes, slice_from}
use lproxy_cv.Wire.Laws.{
  writes_lem, reads_lem, length-encode, widths, reads_behind, slice_from-append,
}
use lproxy_cv.Tunnels.Header.{udp_x, cmd_code}
use lproxy_cv.Tunnels.Frames.{IpAddr, v4, v6}
use lproxy_cv.Tunnels.Tunnel.{SocketAddr}
use lproxy_cv.Tunnels.Udp.{
  addr_size, addr_fields, copy_behind, udp_frame, read_socketaddr, udp_parts,
}

-- The addresses that the standard library has.
pub data IsIp : IpAddr → Type 0 where
  octets : (a b c d : ℕ) → a < 256 → b < 256 → c < 256 → d < 256 → IsIp (v4 (a ∷ b ∷ c ∷ d ∷ []))
  segments :
      (a b c d e f g h : ℕ)
      → All (λ s. s < 65536) (a ∷ b ∷ c ∷ d ∷ e ∷ f ∷ g ∷ h ∷ [])
      → IsIp (v6 (a ∷ b ∷ c ∷ d ∷ e ∷ f ∷ g ∷ h ∷ []))

pub record IsSocketAddr (a : SocketAddr) : Type 0 where
  pub ip : IsIp a.ip
  pub port : a.port < 65536

pub replicate-add : (m n : ℕ) → replicate {A = ℕ} (m + n) 0 ≡ replicate m 0 ++ replicate n 0
replicate-add zero n = let e : 0 + n ≡ n = omega arith in rw e
replicate-add (suc m) n =
    let e : suc m + n ≡ suc (m + n) = omega arith in rw e (ap (λ l. 0 ∷ l) (replicate-add m n))

pub copy_behind_lem :
    (pre tail msg : List ℕ) (off : ℕ)
    → length pre ≡ off
    → length tail ≡ length msg
    → copy_behind off (pre ++ tail) msg ≡ ok (pre ++ msg)
copy_behind_lem pre tail msg off e h = rw (
  ← e,
  le→leb (length pre) (length (pre ++ tail)) (omega (arith, length-append pre tail)),
  drop-append pre tail,
  take-append pre tail,
  h,
  ==_refl (length msg),
)

widths_size :
    (p : ℕ) (i : IpAddr) → IsIp i → widths (addr_fields (record { ip = i; port = p })) ≡ addr_size i
widths_size p _ (octets a b c d ha hb hc hd) = refl
widths_size p _ (segments a b c d e f g h hs) = refl

zeros :
    (src dst : SocketAddr) (msg : List ℕ)
    → replicate {A = ℕ} (3 + (length msg + addr_size src.ip + addr_size dst.ip)) 0
      ≡ replicate 3 0
        ++ (replicate (addr_size src.ip) 0
            ++ (replicate (addr_size dst.ip) 0 ++ replicate (length msg) 0))
zeros src dst msg =
    let s = addr_size src.ip in
    let d = addr_size dst.ip in
    let n = length msg in
    let e : 3 + (n + s + d) ≡ 3 + (s + (d + n)) = omega arith in
    rw (e, replicate-add 3 (s + (d + n)), replicate-add s (d + n), replicate-add d n)

abbrev pub udp_head : ℕ → List (ℕ × ℕ)
udp_head total = (2, total % 65536) ∷ (1, cmd_code udp_x) ∷ []

abbrev pub udp_total : List ℕ → SocketAddr → SocketAddr → ℕ
udp_total msg src dst = 3 + (length msg + addr_size src.ip + addr_size dst.ip)

module _ (io : ByteIo) where
  open io use {read_with, write_with}

  -- The message of a datagram: length and command, the two addresses, the bytes.
  pub udp_frame_lem :
      (msg : List ℕ) (src dst : SocketAddr)
      → IsSocketAddr src
      → IsSocketAddr dst
      → udp_frame io msg src dst
        ≡ ok (
            encode (udp_head (udp_total msg src dst))
            ++ (encode (addr_fields src) ++ (encode (addr_fields dst) ++ msg)))
  unfolding udp_frame
  udp_frame_lem msg src dst hs hd =
      let total = udp_total msg src dst in
      let h = udp_head total in
      let sf = addr_fields src in
      let df = addr_fields dst in
      let rs = replicate {A = ℕ} (addr_size src.ip) 0 in
      let rd = replicate {A = ℕ} (addr_size dst.ip) 0 in
      let rm = replicate {A = ℕ} (length msg) 0 in
      let ns : length rs ≡ widths sf =
        length-replicate (addr_size src.ip) 0 ∙ sym (widths_size src.port src.ip hs.ip) in
      let nd : length rd ≡ widths df =
        length-replicate (addr_size dst.ip) 0 ∙ sym (widths_size dst.port dst.ip hd.ip) in
      let n2 : length (encode h ++ encode sf) ≡ 3 + widths sf = omega (arith, length-encode sf) in
      let split : replicate {A = ℕ} total 0 ≡ replicate 3 0 ++ (rs ++ (rd ++ rm)) =
        zeros src dst msg in
      let e1 : writes write_with h (replicate total 0) 0 ≡ ok (encode h ++ (rs ++ (rd ++ rm)), 3) =
        ap (λ z. writes write_with h z 0) split
        ∙ writes_lem io h [] (replicate 3 0) (rs ++ (rd ++ rm)) refl in
      let e2 : writes write_with sf (encode h ++ (rs ++ (rd ++ rm))) 3
          ≡ ok (encode h ++ (encode sf ++ (rd ++ rm)), 3 + widths sf) =
        writes_lem io sf (encode h) rs (rd ++ rm) ns in
      let e3 : writes write_with df (encode h ++ (encode sf ++ (rd ++ rm))) (3 + widths sf)
          ≡ ok (encode h ++ (encode sf ++ (encode df ++ rm)), 3 + widths sf + widths df) =
        subst
          (λ k.
            writes write_with df (encode h ++ (encode sf ++ (rd ++ rm))) k
            ≡ ok (encode h ++ (encode sf ++ (encode df ++ rm)), k + widths df))
          n2 (writes_lem io df (encode h ++ encode sf) rd rm nd) in
      let e4 : copy_behind (3 + widths sf + widths df)
            (encode h ++ (encode sf ++ (encode df ++ rm))) msg
          ≡ ok (encode h ++ (encode sf ++ (encode df ++ msg))) =
        subst
          (λ z.
            copy_behind (3 + widths sf + widths df) (encode h ++ z) msg
            ≡ ok (encode h ++ (encode sf ++ (encode df ++ msg))))
          (append_assoc (encode sf) (encode df) rm)
          (copy_behind_lem (encode h ++ (encode sf ++ encode df)) rm msg (3 + widths sf + widths df)
              (omega
                (arith, length-append (encode sf) (encode df), length-encode sf, length-encode df))
              (length-replicate (length msg) 0)
            ∙ ap (λ z. ok (encode h ++ z)) (append_assoc (encode sf) (encode df) msg)) in
      rw (e1, e2, e3) e4

  -- An address that stands in a message is read back, and the offset goes behind it.
  pub read_socketaddr_lem :
      (port : ℕ) (i : IpAddr) (pre post : List ℕ)
      → IsIp i
      → port < 65536
      → let addr : SocketAddr = record { ip = i; port = port } in
        read_socketaddr io (pre ++ (encode (addr_fields addr) ++ post)) (length pre)
        ≡ ok (addr, length pre + addr_size i)
  unfolding read_socketaddr
  read_socketaddr_lem port _ pre post (octets a b c d ha hb hc hd) hp =
      let ws : List (ℕ × ℕ) = (1, a) ∷ (1, b) ∷ (1, c) ∷ (1, d) ∷ [] in
      rw (
        reads_lem io ((2, port) ∷ (1, 0) ∷ []) pre (encode ws ++ post) (omega arith),
        reads_behind io ((2, port) ∷ (1, 0) ∷ []) ws pre post (omega arith),
        add_assoc (length pre) 3 4,
      )
  read_socketaddr_lem port _ pre post (segments a b c d e f g h hs) hp =
      let ws : List (ℕ × ℕ) =
        (2, a) ∷ (2, b) ∷ (2, c) ∷ (2, d) ∷ (2, e) ∷ (2, f) ∷ (2, g) ∷ (2, h) ∷ [] in
      rw (
        reads_lem io ((2, port) ∷ (1, 1) ∷ []) pre (encode ws ++ post) (omega arith),
        reads_behind io ((2, port) ∷ (1, 1) ∷ []) ws pre post (omega arith),
        add_assoc (length pre) 3 16,
      )

  -- A datagram between two addresses of 4 octets or 8 segments, as `udp_proxy_north` packs it, is
  -- unpacked by `on_udpx_south` to the same bytes and addresses.
  pub udp_parts-udp_frame :
      (msg : List ℕ) (src dst : SocketAddr)
      → IsSocketAddr src
      → IsSocketAddr dst
      → (buf : List ℕ) × (udp_frame io msg src dst ≡ ok buf)
        × (udp_parts io buf ≡ ok (msg, src, dst))
  unfolding udp_parts
  udp_parts-udp_frame msg src dst hs hd = (
    encode (udp_head (udp_total msg src dst))
        ++ (encode (addr_fields src) ++ (encode (addr_fields dst) ++ msg)),
    udp_frame_lem msg src dst hs hd,
    rw (whole, first, second) (rw skipped),
  )
    where
      h : List ℕ
      h = encode (udp_head (udp_total msg src dst))

      sf : List ℕ
      sf = encode (addr_fields src)

      df : List ℕ
      df = encode (addr_fields dst)

      src_size : length sf ≡ 0 + addr_size src.ip
      src_size = omega (arith, length-encode (addr_fields src), widths_size src.port src.ip hs.ip)

      whole : slice_from 3 (h ++ (sf ++ (df ++ msg))) ≡ ok (sf ++ (df ++ msg))
      whole = slice_from-append h (sf ++ (df ++ msg)) 3 refl

      first : read_socketaddr io (sf ++ (df ++ msg)) 0 ≡ ok (src, 0 + addr_size src.ip)
      first = read_socketaddr_lem src.port src.ip [] (df ++ msg) hs.ip hs.port

      second :
          read_socketaddr io (sf ++ (df ++ msg)) (0 + addr_size src.ip)
          ≡ ok (dst, 0 + addr_size src.ip + addr_size dst.ip)
      second =
          subst (λ k. read_socketaddr io (sf ++ (df ++ msg)) k ≡ ok (dst, k + addr_size dst.ip))
            src_size (read_socketaddr_lem dst.port dst.ip sf msg hd.ip hd.port)

      skipped :
          slice_from (3 + (0 + addr_size src.ip + addr_size dst.ip)) (h ++ (sf ++ (df ++ msg)))
          ≡ ok msg
      skipped =
          subst (λ z. slice_from (3 + (0 + addr_size src.ip + addr_size dst.ip)) (h ++ z) ≡ ok msg)
            (append_assoc sf df msg)
            (slice_from-append (h ++ (sf ++ df)) msg _ (
              omega (
                arith,
                src_size,
                length-append sf df,
                length-encode (addr_fields dst),
                widths_size dst.port dst.ip hd.ip,
              )))
