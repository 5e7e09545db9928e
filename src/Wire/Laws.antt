-- ===== src/Wire/Laws.antt =====
-- Little-endian numbers read back, and runs of writes and of reads at one offset.
use native.Mathlib.Nat.{add-zero, add_assoc}
use lproxy_cv.Prelude.{
  ℕ, zero, suc, ◌+◌, ◌*◌, ◌/◌, ◌%◌, ◌^◌, ◌<◌, ◌≡◌, refl, sym, ap, ◌∙◌, some, List, [], ◌∷◌, ◌++◌,
  arith, length, take, drop, All, le→leb, append_assoc, length-append, take-append, drop-append,
  take-append-drop, length-take, length-drop, map, subst,
}
use lproxy_cv.Prelude.Outcome.{ok}
use lproxy_cv.Wire.{
  ByteIo, le_value, le_bytes, le_read, le_write, writes, reads, encode, slice_from,
}

pub length-le_bytes : (w v : ℕ) → length (le_bytes w v) ≡ w
length-le_bytes zero v = refl
length-le_bytes (suc w) v = omega (arith, length-le_bytes w (v / 256))

pub le_value-le_bytes : (w v : ℕ) → v < 256 ^ w → le_value (le_bytes w v) ≡ v
le_value-le_bytes zero v h = omega arith
le_value-le_bytes (suc w) v h = omega (arith, le_value-le_bytes w (v / 256) (omega arith))

pub le_bytes_two : (v : ℕ) → v < 65536 → v % 256 + 256 * (v / 256 % 256 + 256 * 0) ≡ v
le_bytes_two v h = omega arith

pub le_bytes-IsByte : (w v : ℕ) → All (λ b. b < 256) (le_bytes w v)
le_bytes-IsByte zero v = tt
le_bytes-IsByte (suc w) v = (omega arith, le_bytes-IsByte w (v / 256))

drop-drop_append :
    (pre mid post : List ℕ) → drop (length pre + length mid) (pre ++ (mid ++ post)) ≡ post
drop-drop_append [] mid post =
    let e : 0 + length mid ≡ length mid = omega arith in rw e (drop-append mid post)
drop-drop_append (x ∷ pre) mid post =
    let e : suc (length pre) + length mid ≡ suc (length pre + length mid) = omega arith in
    rw e (drop-drop_append pre mid post)

-- A write over `mid`, which has its width.
pub le_write_at :
    (pre mid post : List ℕ) (w v : ℕ)
    → length mid ≡ w
    → le_write w (pre ++ (mid ++ post)) (length pre) v ≡ some (pre ++ (le_bytes w v ++ post))
le_write_at pre mid post w v e = rw (
  ← e,
  le→leb (length pre + length mid) (length (pre ++ (mid ++ post)))
      (omega (arith, length-append pre (mid ++ post), length-append mid post)),
  take-append pre (mid ++ post),
  drop-drop_append pre mid post,
)

take-drop_append :
    (pre mid post : List ℕ) → take (length mid) (drop (length pre) (pre ++ (mid ++ post))) ≡ mid
take-drop_append pre mid post = rw (drop-append pre (mid ++ post)) (take-append mid post)

pub le_read_at :
    (pre mid post : List ℕ) (w : ℕ)
    → length mid ≡ w
    → le_read w (pre ++ (mid ++ post)) (length pre) ≡ some (le_value mid)
le_read_at pre mid post w e = rw (
  ← e,
  le→leb (length pre + length mid) (length (pre ++ (mid ++ post)))
      (omega (arith, length-append pre (mid ++ post), length-append mid post)),
  take-drop_append pre mid post,
)

abbrev pub widths : List (ℕ × ℕ) → ℕ
widths [] = 0
widths ((w, v) ∷ ws) = w + widths ws

pub length-encode : (ws : List (ℕ × ℕ)) → length (encode ws) ≡ widths ws
length-encode [] = refl
length-encode ((w, v) ∷ ws) =
    omega (arith, length-append (le_bytes w v) (encode ws), length-le_bytes w v, length-encode ws)

pub slice_from-append :
    (pre post : List ℕ) (n : ℕ) → length pre ≡ n → slice_from n (pre ++ post) ≡ ok post
slice_from-append pre post n e = rw (
  ← e,
  le→leb (length pre) (length (pre ++ post)) (omega (arith, length-append pre post)),
  drop-append pre post,
)

module _ (io : ByteIo) where
  open io use {read_with, write_with}

  write_first :
      (pre old post : List ℕ) (w v n : ℕ)
      → length old ≡ w + n
      → write_with w (pre ++ (old ++ post)) (length pre) v
        ≡ some ((pre ++ le_bytes w v) ++ (drop w old ++ post))
  write_first pre old post w v n e =
      io.write_with_lem w (pre ++ (old ++ post)) (length pre) v
      ∙ ap (λ o. le_write w (pre ++ (o ++ post)) (length pre) v) (sym (take-append-drop w old))
      ∙ ap (λ o. le_write w (pre ++ o) (length pre) v) (append_assoc (take w old) (drop w old) post)
      ∙ le_write_at pre (take w old) (drop w old ++ post) w v (omega (arith, length-take w old))
      ∙ ap some (sym (append_assoc pre (le_bytes w v) (drop w old ++ post)))

  -- A run of writes over bytes of the same length puts down `encode` and keeps the rest.
  pub writes_lem :
      (ws : List (ℕ × ℕ)) (pre old post : List ℕ)
      → length old ≡ widths ws
      → writes write_with ws (pre ++ (old ++ post)) (length pre)
        ≡ ok (pre ++ (encode ws ++ post), length pre + widths ws)
  unfolding writes
  writes_lem [] pre [] post e = rw (add-zero (length pre))
  writes_lem [] pre (x ∷ old) post e = absurd (omega arith)
  writes_lem ((w, v) ∷ ws) pre old post e =
      let n : length (pre ++ le_bytes w v) ≡ length pre + w =
        omega (arith, length-append pre (le_bytes w v), length-le_bytes w v) in
      let ih : writes write_with ws ((pre ++ le_bytes w v) ++ (drop w old ++ post)) (length pre + w)
          ≡ ok ((pre ++ le_bytes w v) ++ (encode ws ++ post), length pre + w + widths ws) =
        subst
          (λ k.
            writes write_with ws ((pre ++ le_bytes w v) ++ (drop w old ++ post)) k
            ≡ ok ((pre ++ le_bytes w v) ++ (encode ws ++ post), k + widths ws))
          n
          (writes_lem ws (pre ++ le_bytes w v) (drop w old) post
            (omega (arith, length-drop w old))) in
      rw (write_first pre old post w v (widths ws) e) (
        ih
        ∙ rw (
          append_assoc pre (le_bytes w v) (encode ws ++ post),
          append_assoc (le_bytes w v) (encode ws) post,
          add_assoc (length pre) w (widths ws),
        ))

  -- A run of reads over numbers that `encode` has put down gives the numbers.
  pub reads_lem :
      (ws : List (ℕ × ℕ)) (pre post : List ℕ)
      → All (λ (p : ℕ × ℕ). p.1 < 256 ^ p.0) ws
      → reads read_with (map (λ (p : ℕ × ℕ). p.0) ws) (pre ++ (encode ws ++ post)) (length pre)
        ≡ ok (map (λ (p : ℕ × ℕ). p.1) ws, length pre + widths ws)
  unfolding reads
  reads_lem [] pre post h = rw (add-zero (length pre))
  reads_lem ((w, v) ∷ ws) pre post (hv, h) =
      let first : read_with w (pre ++ ((le_bytes w v ++ encode ws) ++ post)) (length pre) ≡ some v =
        io.read_with_lem w _ (length pre)
        ∙ ap (λ o. le_read w (pre ++ o) (length pre)) (append_assoc (le_bytes w v) (encode ws) post)
        ∙ le_read_at pre (le_bytes w v) (encode ws ++ post) w (length-le_bytes w v)
        ∙ ap some (le_value-le_bytes w v hv) in
      let n : length (pre ++ le_bytes w v) ≡ length pre + w =
        omega (arith, length-append pre (le_bytes w v), length-le_bytes w v) in
      let same : (pre ++ le_bytes w v) ++ (encode ws ++ post)
          ≡ pre ++ ((le_bytes w v ++ encode ws) ++ post) =
        append_assoc pre (le_bytes w v) (encode ws ++ post)
        ∙ ap (λ o. pre ++ o) (sym (append_assoc (le_bytes w v) (encode ws) post)) in
      let ih : reads read_with (map (λ (p : ℕ × ℕ). p.0) ws)
            (pre ++ ((le_bytes w v ++ encode ws) ++ post)) (length pre + w)
          ≡ ok (map (λ (p : ℕ × ℕ). p.1) ws, length pre + w + widths ws) =
        subst
          (λ k.
            reads read_with (map (λ (p : ℕ × ℕ). p.0) ws)
              (pre ++ ((le_bytes w v ++ encode ws) ++ post)) k
            ≡ ok (map (λ (p : ℕ × ℕ). p.1) ws, k + widths ws))
          n
          (subst
            (λ o.
              reads read_with (map (λ (p : ℕ × ℕ). p.0) ws) o (length (pre ++ le_bytes w v))
              ≡ ok (map (λ (p : ℕ × ℕ). p.1) ws, length (pre ++ le_bytes w v) + widths ws))
            same (reads_lem ws (pre ++ le_bytes w v) post h)) in
      rw (first, ih, add_assoc (length pre) w (widths ws))

  -- A run of reads behind a first run.
  pub reads_behind :
      (ws vs : List (ℕ × ℕ)) (pre post : List ℕ)
      → All (λ (p : ℕ × ℕ). p.1 < 256 ^ p.0) vs
      → reads read_with
          (map (λ (p : ℕ × ℕ). p.0) vs)
          (pre ++ (encode ws ++ (encode vs ++ post)))
          (length pre + widths ws)
        ≡ ok (map (λ (p : ℕ × ℕ). p.1) vs, length pre + widths ws + widths vs)
  reads_behind ws vs pre post h =
      let n : length (pre ++ encode ws) ≡ length pre + widths ws =
        omega (arith, length-append pre (encode ws), length-encode ws) in
      subst
        (λ k.
          reads read_with (map (λ (p : ℕ × ℕ). p.0) vs) (pre ++ (encode ws ++ (encode vs ++ post)))
            k
          ≡ ok (map (λ (p : ℕ × ℕ). p.1) vs, k + widths vs))
        n
        (subst
          (λ o.
            reads read_with (map (λ (p : ℕ × ℕ). p.0) vs) o (length (pre ++ encode ws))
            ≡ ok (map (λ (p : ℕ × ℕ). p.1) vs, length (pre ++ encode ws) + widths vs))
          (append_assoc pre (encode ws) (encode vs ++ post))
          (reads_lem vs (pre ++ encode ws) post h))
