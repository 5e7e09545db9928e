-- ===== src/Dns/Names/Cycle.antt =====
-- A compressed name whose offset leads back to itself: the loop of `read_qname` has no end.
use lproxy_cv.Prelude.{
  ℕ, zero, suc, ◌+◌, ◌*◌, ◌<◌, ◌≤◌, ◌-◌, ◌≡◌, refl, sym, subst, List, some, arith, get_elem?,
  lt→leb, le→leb,
}
use lproxy_cv.Prelude.Outcome.{err}
use lproxy_cv.Dns.Buffer.{Buffer, looping, get}
use lproxy_cv.Dns.Names.{Scan, round, scan, read_qname, start}

module _ (lower : List ℕ → List ℕ) where
  -- The offset at `p` is `p`.
  cycle_scan :
      (fuel : ℕ) (buf : List ℕ) (s : Scan) (len b2 : ℕ)
      → get_elem? buf s.pos ≡ some len
      → get_elem? buf (s.pos + 1) ≡ some b2
      → 192 ≤ len
      → (len - 192) * 256 + b2 ≡ s.pos
      → s.pos < 511
      → scan lower fuel buf s ≡ err looping
  unfolding scan round get
  cycle_scan zero buf s len b2 e1 e2 h at n = refl
  cycle_scan (suc fuel) buf s len b2 e1 e2 h at n =
      rw
        (
          lt→leb 512 s.pos (omega arith),
          e1,
          le→leb 192 len h,
          lt→leb 512 (s.pos + 1) (omega arith),
          e2,
        )
        (cycle_scan fuel buf _ len b2 (subst (λ p. get_elem? buf p ≡ some len) (sym at) e1)
          (subst (λ p. get_elem? buf (p + 1) ≡ some b2) (sym at) e2) h refl (omega (arith, at, n)))

  -- A name that starts with an offset to its own start, within the first 511 bytes, is read without
  -- end: no number of rounds finishes the loop.
  pub read_qname_cycle :
      (fuel : ℕ) (b : Buffer) (len b2 : ℕ)
      → get_elem? b.buf b.pos ≡ some len
      → get_elem? b.buf (b.pos + 1) ≡ some b2
      → 192 ≤ len
      → (len - 192) * 256 + b2 ≡ b.pos
      → b.pos < 511
      → read_qname lower fuel b ≡ err looping
  unfolding read_qname
  read_qname_cycle fuel b len b2 e1 e2 h at n =
      rw (cycle_scan fuel b.buf (start b.pos) len b2 e1 e2 h at n)
