-- ===== src/Dns/Forwarder/Bare.antt =====
-- Datagrams on the resolver's socket that are no answers.
use lproxy_cv.Prelude.{ℕ, ◌<◌, ◌≡◌, refl, Bool, false, List, [], ◌∷◌, arith, length}
use lproxy_cv.Prelude.Outcome.{panic}
use lproxy_cv.Wire.{ByteIo}
use lproxy_cv.Dns.Buffer.{read, read_u16}
use lproxy_cv.Dns.Header.{header_of, read_header}
use lproxy_cv.Dns.Packet.{read_many, from_buffer}
use lproxy_cv.Dns.Tunnel.{packet_of}
use lproxy_cv.Dns.Forwarder.{Forwarder, resolved, on_resolver_udp_msg}

-- Fewer bytes than a header has, or a header that announces no question and no record.
pub data IsBare : List ℕ → Type 0 where
  short : (message : List ℕ) → length message < 12 → IsBare message
  announces_none :
      (id1 id2 flags1 flags2 : ℕ) (rest : List ℕ)
      → IsBare (id1 ∷ id2 ∷ flags1 ∷ flags2 ∷ 0 ∷ 0 ∷ 0 ∷ 0 ∷ 0 ∷ 0 ∷ 0 ∷ 0 ∷ rest)

module _ (alive : ℕ → Bool) (io : ByteIo) (lower : List ℕ → List ℕ) (fuel : ℕ) where
  -- A forwarder that is not stopped panics at a datagram on the resolver's socket that has fewer
  -- bytes than a header, or whose header, with any id and flags, announces no question and no
  -- record, whatever stands behind it.
  pub bare_panics :
      (fw : Forwarder) (message : List ℕ)
      → fw.discarded ≡ false
      → IsBare message
      → on_resolver_udp_msg alive io lower fuel fw message ≡ panic
  unfolding on_resolver_udp_msg packet_of from_buffer read_many read_header header_of read_u16 read
      resolved
  bare_panics fw _ live (announces_none a b c d rest) = simp live refl
  bare_panics fw [] live (short _ h) = simp live refl
  bare_panics fw (a ∷ []) live (short _ h) = simp live refl
  bare_panics fw (a ∷ b ∷ []) live (short _ h) = simp live refl
  bare_panics fw (a ∷ b ∷ c ∷ []) live (short _ h) = simp live refl
  bare_panics fw (a ∷ b ∷ c ∷ d ∷ []) live (short _ h) = simp live refl
  bare_panics fw (a ∷ b ∷ c ∷ d ∷ e ∷ []) live (short _ h) = simp live refl
  bare_panics fw (a ∷ b ∷ c ∷ d ∷ e ∷ f ∷ []) live (short _ h) = simp live refl
  bare_panics fw (a ∷ b ∷ c ∷ d ∷ e ∷ f ∷ g ∷ []) live (short _ h) = simp live refl
  bare_panics fw (a ∷ b ∷ c ∷ d ∷ e ∷ f ∷ g ∷ k ∷ []) live (short _ h) = simp live refl
  bare_panics fw (a ∷ b ∷ c ∷ d ∷ e ∷ f ∷ g ∷ k ∷ m ∷ []) live (short _ h) = simp live refl
  bare_panics fw (a ∷ b ∷ c ∷ d ∷ e ∷ f ∷ g ∷ k ∷ m ∷ n ∷ []) live (short _ h) = simp live refl
  bare_panics fw (a ∷ b ∷ c ∷ d ∷ e ∷ f ∷ g ∷ k ∷ m ∷ n ∷ p ∷ []) live (short _ h) = simp live refl
  bare_panics fw (a ∷ b ∷ c ∷ d ∷ e ∷ f ∷ g ∷ k ∷ m ∷ n ∷ p ∷ q ∷ l) live (short _ h) =
      absurd (omega (arith, h))
