-- ===== src/Dns/Names/RoundTrip.antt =====
-- What `write_qname` writes is read back by `read_qname`.
use lproxy_cv.Prelude.{
  ℕ, zero, suc, ◌+◌, ◌≤◌, ◌<◌, ◌≡◌, refl, sym, ap, subst, ◌∙◌, false, List, [], ◌∷◌, ◌++◌, arith,
  ◌==◌, length, drop, All, lt→leb, le→leb, le→ltb, append_assoc, append-nil, length-append,
  take-append, Bool-cases, inl, inr,
}
use lproxy_cv.Prelude.Outcome.{ok}
use lproxy_cv.Dns.Buffer.{Buffer, get, get_range, write, write_bytes}
use lproxy_cv.Dns.Buffer.Writes.{
  at, Writes, Reads, get_elem?-middle, write-Writes, pure-Writes, >>-Writes,
}
use lproxy_cv.Dns.Domap.{Label, split_dot}
use lproxy_cv.Dns.Names.{Scan, done, dot, label, round, scan, read_qname}
use lproxy_cv.Dns.Labels.{write_label, write_labels, write_qname}

-- The bytes of a name: each label behind its length, and a zero.
abbrev pub encode_labels : List Label → List ℕ
encode_labels [] = 0 ∷ []
encode_labels (l ∷ ls) = length l ∷ (l ++ encode_labels ls)

encode_labels_pos : (ls : List Label) → 1 ≤ length (encode_labels ls)
encode_labels_pos [] = omega arith
encode_labels_pos (l ∷ ls) = omega arith

drop-suc :
    (pre : List ℕ) (n : ℕ) (rest : List ℕ) → drop (suc (length pre)) (pre ++ (n ∷ rest)) ≡ rest
drop-suc [] n rest = refl
drop-suc (x ∷ pre) n rest = drop-suc pre n rest

drop-behind :
    (pre : List ℕ) (n : ℕ) (rest : List ℕ) → drop (length pre + 1) (pre ++ (n ∷ rest)) ≡ rest
drop-behind pre n rest =
    subst (λ k. drop k (pre ++ (n ∷ rest)) ≡ rest) {x = suc (length pre)} (omega arith)
      (drop-suc pre n rest)

get-at :
    (pre : List ℕ) (n : ℕ) (rest : List ℕ)
    → length pre < 512
    → get (pre ++ (n ∷ rest)) (length pre) ≡ ok n
unfolding get
get-at pre n rest h = rw (lt→leb 512 (length pre) h, get_elem?-middle pre n rest)

get_range-at :
    (pre : List ℕ) (n : ℕ) (l rest : List ℕ)
    → length pre + 1 + length l < 512
    → get_range (pre ++ (n ∷ (l ++ rest))) (length pre + 1) (length l) ≡ ok l
unfolding get_range
get_range-at pre n l rest h = rw (
  lt→leb 512 (length pre + 1 + length l) h,
  le→leb (length pre + 1 + length l) (length (pre ++ (n ∷ (l ++ rest))))
      (omega (arith, length-append pre (n ∷ (l ++ rest)), length-append l rest)),
  drop-behind pre n (l ++ rest),
  take-append l rest,
)

-- Labels that a reader takes for such, and no longer than `write_qname` allows.
abbrev pub IsLabel : Label → Type 0
IsLabel l = (1 ≤ length l) × (length l ≤ 52)

module _ (lower : List ℕ → List ℕ) where
  -- The text of the labels, each behind a dot but the first, which is behind `delim`.
  abbrev pub spelled : List ℕ → List Label → List ℕ
  spelled delim [] = []
  spelled delim (l ∷ ls) = delim ++ (lower l ++ spelled dot ls)

  abbrev from : List ℕ → List ℕ → List ℕ → ℕ → Scan
  from pre delim out cursor = record {
    pos = length pre;
    jumped = false;
    delim = delim;
    out = out;
    cursor = cursor;
  }

  round-end :
      (pre post delim out : List ℕ) (cursor : ℕ)
      → length pre < 512
      → round lower (pre ++ (0 ∷ post)) (from pre delim out cursor) ≡ ok (done out (length pre + 1))
  unfolding round
  round-end pre post delim out cursor h = rw (get-at pre 0 post h)

  round-label :
      (pre l rest delim out : List ℕ) (cursor : ℕ)
      → IsLabel l
      → length pre + 1 + length l < 512
      → round lower (pre ++ (length l ∷ (l ++ rest))) (from pre delim out cursor)
        ≡ ok (label lower (from pre delim out cursor) (length l) l)
  unfolding round
  round-label pre l rest delim out cursor g h =
      rw
        (
          get-at pre (length l) (l ++ rest) (omega arith),
          lt→leb 192 (length l) (omega (arith, g.1)),
        )
        (elim (Bool-cases (length l == 0)) [
          | inl z ↦ absurd (ground (arith, z, g.0))
          | inr z ↦ rw (z, get_range-at pre (length l) l rest h)
        ])

  scan-labels :
      (ls : List Label) (fuel : ℕ) (pre post delim out : List ℕ) (cursor : ℕ)
      → All IsLabel ls
      → length ls < fuel
      → length pre + length (encode_labels ls) ≤ 512
      → scan lower fuel (pre ++ (encode_labels ls ++ post)) (from pre delim out cursor)
        ≡ ok (out ++ spelled delim ls, length pre + length (encode_labels ls))
  unfolding scan
  scan-labels ls zero pre post delim out cursor g f h = absurd (omega arith)
  scan-labels [] (suc fuel) pre post delim out cursor g f h =
      rw (round-end pre post delim out cursor (omega arith), append-nil out)
  scan-labels (l ∷ ls) (suc fuel) pre post delim out cursor g f h =
      ap (λ x. scan lower (suc fuel) (pre ++ (length l ∷ x)) (from pre delim out cursor))
        (append_assoc l (encode_labels ls) post)
      ∙ rw
          (round-label pre l (encode_labels ls ++ post) delim out cursor g.0
            (omega (arith, length-append l (encode_labels ls), encode_labels_pos ls)))
          (ap (λ b. scan lower fuel b (after (length pre + 1 + length l)))
              (sym (append_assoc pre (length l ∷ l) (encode_labels ls ++ post)))
            ∙ ap (λ p. scan lower fuel (more ++ (encode_labels ls ++ post)) (after p))
                {x = length pre + 1 + length l} {y = length more}
                (omega (arith, length-append pre (length l ∷ l)))
            ∙ scan-labels ls fuel more post dot (out ++ (delim ++ lower l)) cursor g.1 (omega arith)
                (omega
                  (arith, h, length-append pre (length l ∷ l), length-append l (encode_labels ls)))
            ∙ rw
                (
                  append_assoc out (delim ++ lower l) (spelled dot ls),
                  append_assoc delim (lower l) (spelled dot ls),
                )
                (ap (λ n. ok (out ++ (delim ++ (lower l ++ spelled dot ls)), n))
                  (omega
                    (arith, length-append pre (length l ∷ l), length-append l (encode_labels ls)))))
    where
      more : List ℕ
      more = pre ++ (length l ∷ l)

      after : ℕ → Scan
      after p = record {
        pos = p;
        jumped = false;
        delim = dot;
        out = out ++ (delim ++ lower l);
        cursor = cursor;
      }

  pub read_qname-Reads :
      (ls : List Label) (fuel : ℕ)
      → All IsLabel ls
      → length ls < fuel
      → Reads (read_qname lower fuel) (encode_labels ls) (spelled [] ls)
  unfolding read_qname
  read_qname-Reads ls fuel g f pre post h =
      rw (scan-labels ls fuel pre post [] [] (length pre) g f h) (
        ap (λ n. ok (spelled [] ls, record { buf = pre ++ (encode_labels ls ++ post); pos = n }))
          (omega (arith, length-append pre (encode_labels ls)))
        ∙ ap (λ b. ok (spelled [] ls, record { buf = b; pos = length (pre ++ encode_labels ls) }))
            (sym (append_assoc pre (encode_labels ls) post)))

write_bytes-Writes : (bs : List ℕ) → Writes (write_bytes bs) bs
unfolding write_bytes
write_bytes-Writes [] = pure-Writes
write_bytes-Writes (v ∷ bs) =
    >>-Writes (write v) (write_bytes bs) (v ∷ []) bs (write-Writes v) (write_bytes-Writes bs)

write_label-Writes : (l : Label) → length l ≤ 52 → Writes (write_label l) (length l ∷ l)
unfolding write_label
write_label-Writes l h = rw (le→ltb 52 (length l) h) (
    >>-Writes (write (length l)) (write_bytes l) (length l ∷ []) l (write-Writes (length l))
      (write_bytes-Writes l))

pub write_labels-Writes :
    (ls : List Label) → All IsLabel ls → Writes (write_labels ls) (encode_labels ls)
unfolding write_labels
write_labels-Writes [] g = write-Writes 0
write_labels-Writes (l ∷ ls) (h, g) =
    >>-Writes (write_label l) (write_labels ls) (length l ∷ l) (encode_labels ls)
      (write_label-Writes l h.1) (write_labels-Writes ls g)

pub write_qname-Writes :
    (qname : List ℕ)
    → All IsLabel (split_dot qname)
    → Writes (write_qname qname) (encode_labels (split_dot qname))
unfolding write_qname
write_qname-Writes qname g = write_labels-Writes (split_dot qname) g

-- A name whose labels have 1 to 52 bytes, written by `write_qname` over old bytes within the first
-- 512, is read back by `read_qname`, in more rounds than it has labels, as its labels in lower case
-- between dots; both leave the cursor behind the name.
pub read_qname-write_qname :
    (lower : List ℕ → List ℕ) (qname pre old post : List ℕ) (fuel : ℕ)
    → All IsLabel (split_dot qname)
    → length old ≡ length (encode_labels (split_dot qname))
    → length pre + length old ≤ 512
    → length (split_dot qname) < fuel
    → (b : Buffer) × (write_qname qname (at pre (old ++ post)) ≡ ok (tt, b))
      × (read_qname lower fuel (record b { pos = length pre })
          ≡ ok (spelled lower [] (split_dot qname), b))
read_qname-write_qname lower qname pre old post fuel g e h f =
    let bs : List ℕ = encode_labels (split_dot qname) in
    (
      at (pre ++ bs) post,
      write_qname-Writes qname g pre old post e (omega (arith, e, h)),
      subst
          (λ l.
            read_qname lower fuel (record { buf = l; pos = length pre })
            ≡ ok (spelled lower [] (split_dot qname), at (pre ++ bs) post))
          (sym (append_assoc pre bs post))
          (read_qname-Reads lower (split_dot qname) fuel g f pre post (omega (arith, e, h))),
    )
