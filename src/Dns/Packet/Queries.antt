-- ===== src/Dns/Packet/Queries.antt =====
-- A query, a message with questions and no records, is read back from what `write` writes.
use lproxy_cv.Prelude.{
  ℕ, ◌+◌, ◌%◌, ◌<◌, ◌≤◌, ◌≡◌, sym, subst, List, [], ◌∷◌, ◌++◌, map, arith, length, All, append-nil,
  append_assoc,
}
use lproxy_cv.Prelude.Outcome.{ok}
use lproxy_cv.Dns.Buffer.{Buffer, M, pure, ◌>>=◌, read_u16, write_u16}
use lproxy_cv.Dns.Buffer.Writes.{
  at, Writes, Reads, be16, read_u16-Reads, write_u16-Writes, >>-Writes, >>=-Reads, pure-Reads,
  pure-Writes,
}
use lproxy_cv.Dns.Domap.{split_dot}
use lproxy_cv.Dns.Names.{read_qname}
use lproxy_cv.Dns.Names.RoundTrip.{
  encode_labels, IsLabel, spelled, read_qname-Reads, write_qname-Writes,
}
use lproxy_cv.Dns.Labels.{write_qname}
use lproxy_cv.Dns.Header.{to_num, qtype_from, read_header, write_header}
use lproxy_cv.Dns.Header.RoundTrip.{IsHeader, encode_header, write_header-Writes, read_header-Reads}
use lproxy_cv.Dns.Packet.{
  DnsQuestion, DnsPacket, read_many, read_question, read_record, from_buffer, write_question,
  write_record, write_all, counted, write_packet,
}

-- A question that can be written and told again: its labels, and a type that is not an `UNKNOWN`
-- with the number of a known one.
pub record IsQuestion (fuel : ℕ) (q : DnsQuestion) : Type 0 where
  pub labels : All IsLabel (split_dot q.name)
  pub rounds : length (split_dot q.name) < fuel
  pub qtype : qtype_from (to_num q.qtype) ≡ q.qtype
  pub number : to_num q.qtype < 65536

abbrev pub encode_question : DnsQuestion → List ℕ
encode_question q = encode_labels (split_dot q.name) ++ (be16 (to_num q.qtype) ++ be16 1)

abbrev pub encode_questions : List DnsQuestion → List ℕ
encode_questions [] = []
encode_questions (q ∷ qs) = encode_question q ++ encode_questions qs

write_question-Writes :
    (q : DnsQuestion)
    → All IsLabel (split_dot q.name)
    → Writes (write_question q) (encode_question q)
unfolding write_question
write_question-Writes q g =
    >>-Writes (write_qname q.name) _ (encode_labels (split_dot q.name)) _
      (write_qname-Writes q.name g)
      (>>-Writes (write_u16 (to_num q.qtype)) (write_u16 1) (be16 (to_num q.qtype)) (be16 1)
        (write_u16-Writes (to_num q.qtype)) (write_u16-Writes 1))

write_questions-Writes :
    (fuel : ℕ) (qs : List DnsQuestion)
    → All (IsQuestion fuel) qs
    → Writes (write_all write_question qs) (encode_questions qs)
unfolding write_all
write_questions-Writes fuel [] g = pure-Writes
write_questions-Writes fuel (q ∷ qs) (h, g) =
    >>-Writes (write_question q) (write_all write_question qs) (encode_question q)
      (encode_questions qs) (write_question-Writes q h.labels) (write_questions-Writes fuel qs g)

module _ (lower : List ℕ → List ℕ) (fuel : ℕ) where
  -- The question with its name in lower case.
  abbrev pub lowered : DnsQuestion → DnsQuestion
  lowered q = record { name = spelled lower [] (split_dot q.name); qtype = q.qtype }

  read_question-Reads :
      (q : DnsQuestion)
      → IsQuestion fuel q
      → Reads (read_question lower fuel) (encode_question q) (lowered q)
  unfolding read_question
  read_question-Reads q v =
      >>=-Reads (read_qname lower fuel) _ (encode_labels (split_dot q.name)) _
        (spelled lower [] (split_dot q.name)) (lowered q)
        (read_qname-Reads lower (split_dot q.name) fuel v.labels v.rounds)
        (>>=-Reads read_u16 _ (be16 (to_num q.qtype)) _ (to_num q.qtype) (lowered q)
          (read_u16-Reads (to_num q.qtype) v.number)
          (>>=-Reads read_u16 _ (be16 1) [] 1 (lowered q) (read_u16-Reads 1 (omega arith)) ended))
    where
      ended :
          Reads
            (pure (record {
              name = spelled lower [] (split_dot q.name);
              qtype = qtype_from (to_num q.qtype);
            }))
            []
            (lowered q)
      ended =
          subst
            (λ t.
              Reads (pure (record { name = spelled lower [] (split_dot q.name); qtype = t })) []
                (lowered q))
            (sym v.qtype) (pure-Reads (lowered q))

  abbrev behind_first : DnsQuestion → List DnsQuestion → M (List DnsQuestion)
  behind_first q qs =
      read_many (read_question lower fuel) (length qs) >>= λ xs. pure (lowered q ∷ xs)

  read_questions-Reads :
      (qs : List DnsQuestion)
      → All (IsQuestion fuel) qs
      → Reads
          (read_many (read_question lower fuel) (length qs))
          (encode_questions qs)
          (map lowered qs)
  unfolding read_many
  read_questions-Reads [] g = pure-Reads []
  read_questions-Reads (q ∷ qs) (h, g) =
      >>=-Reads (read_question lower fuel) _ (encode_question q) (encode_questions qs) (lowered q)
        (map lowered (q ∷ qs)) (read_question-Reads q h)
        (subst (λ l. Reads (behind_first q qs) l (map lowered (q ∷ qs)))
          (append-nil (encode_questions qs))
          (>>=-Reads (read_many (read_question lower fuel) (length qs))
            (λ xs. pure (lowered q ∷ xs)) (encode_questions qs) [] (map lowered qs)
            (map lowered (q ∷ qs)) (read_questions-Reads qs g) (pure-Reads (map lowered (q ∷ qs)))))

-- A query: questions, fewer than 65536, that can be told again, and no records.
pub record IsQuery (fuel : ℕ) (p : DnsPacket) : Type 0 where
  pub header : IsHeader (counted p)
  pub questions : All (IsQuestion fuel) p.questions
  pub fits : length p.questions < 65536
  pub answers : p.answers ≡ []
  pub authorities : p.authorities ≡ []
  pub resources : p.resources ≡ []

abbrev pub encode_query : DnsPacket → List ℕ
encode_query p = encode_header (counted p) ++ encode_questions p.questions

no_records :
    {A : Type 0} (f : A → M (Unit {0})) (xs : List A) → xs ≡ [] → Writes (write_all f xs) []
unfolding write_all
no_records f xs e = subst (λ l. Writes (write_all f l) []) (sym e) pure-Writes

pub write_packet-Writes :
    (fuel : ℕ) (p : DnsPacket) → IsQuery fuel p → Writes (write_packet p) (encode_query p)
unfolding write_packet
write_packet-Writes fuel p v =
    subst (λ l. Writes (write_packet p) (encode_header (counted p) ++ l))
      (append-nil (encode_questions p.questions))
      (>>-Writes (write_header (counted p)) _ (encode_header (counted p)) _
        (write_header-Writes (counted p))
        (>>-Writes (write_all write_question p.questions) _ (encode_questions p.questions) []
          (write_questions-Writes fuel p.questions v.questions)
          (>>-Writes (write_all write_record p.answers) _ [] []
            (no_records write_record p.answers v.answers)
            (>>-Writes (write_all write_record p.authorities) _ [] []
              (no_records write_record p.authorities v.authorities)
              (no_records write_record p.resources v.resources)))))

module _ (lower : List ℕ → List ℕ) (fuel : ℕ) where
  -- The packet as it is read back: the header with the counts, the names in lower case.
  abbrev pub told : DnsPacket → DnsPacket
  told p = record {
    header = counted p;
    questions = map (lowered lower fuel) p.questions;
    answers = [];
    authorities = [];
    resources = [];
  }

  read_none :
      {A : Type 0} (m : M A) (xs : List A) → xs ≡ [] → Reads (read_many m (length xs % 65536)) [] []
  unfolding read_many
  read_none {A} m xs e =
      subst (λ l. Reads (read_many m (length l % 65536)) [] empty) (sym e) (pure-Reads empty)
    where
      empty : List A
      empty = []

  read_all_questions :
      (p : DnsPacket)
      → IsQuery fuel p
      → Reads
          (read_many (read_question lower fuel) (length p.questions % 65536))
          (encode_questions p.questions)
          (map (lowered lower fuel) p.questions)
  read_all_questions p v =
      subst
        (λ n.
          Reads (read_many (read_question lower fuel) n) (encode_questions p.questions)
            (map (lowered lower fuel) p.questions))
        {x = length p.questions} (omega (arith, v.fits))
        (read_questions-Reads lower fuel p.questions v.questions)

  pub from_buffer-Reads :
      (p : DnsPacket) → IsQuery fuel p → Reads (from_buffer lower fuel) (encode_query p) (told p)
  unfolding from_buffer
  from_buffer-Reads p v =
      subst (λ l. Reads (from_buffer lower fuel) (encode_header (counted p) ++ l) (told p))
        (append-nil (encode_questions p.questions))
        (>>=-Reads read_header _ (encode_header (counted p)) _ (counted p) (told p)
          (read_header-Reads (counted p) v.header)
          (>>=-Reads (read_many (read_question lower fuel) (length p.questions % 65536)) _
            (encode_questions p.questions) [] (map (lowered lower fuel) p.questions) (told p)
            (read_all_questions p v)
            (>>=-Reads (read_many (read_record lower fuel) (length p.answers % 65536)) _ [] [] []
              (told p) (read_none (read_record lower fuel) p.answers v.answers)
              (>>=-Reads (read_many (read_record lower fuel) (length p.authorities % 65536)) _ [] []
                [] (told p) (read_none (read_record lower fuel) p.authorities v.authorities)
                (>>=-Reads (read_many (read_record lower fuel) (length p.resources % 65536)) _ [] []
                  [] (told p) (read_none (read_record lower fuel) p.resources v.resources)
                  (pure-Reads (told p)))))))

-- A query, a packet of questions without records as `IsQuery` describes it, is written over as many
-- old bytes within the first 512 and read back by `from_buffer`: the same header with the counts of
-- the lists, the same questions with the labels of their names in lower case, and no records.
pub from_buffer-write_packet :
    (lower : List ℕ → List ℕ) (fuel : ℕ) (p : DnsPacket) (pre old post : List ℕ)
    → IsQuery fuel p
    → length old ≡ length (encode_query p)
    → length pre + length old ≤ 512
    → (b : Buffer) × (write_packet p (at pre (old ++ post)) ≡ ok (tt, b))
      × (from_buffer lower fuel (record b { pos = length pre }) ≡ ok (told lower fuel p, b))
from_buffer-write_packet lower fuel p pre old post v e h =
    let bs : List ℕ = encode_query p in
    (
      at (pre ++ bs) post,
      write_packet-Writes fuel p v pre old post e (omega (arith, e, h)),
      subst
          (λ l.
            from_buffer lower fuel (record { buf = l; pos = length pre })
            ≡ ok (told lower fuel p, at (pre ++ bs) post))
          (sym (append_assoc pre bs post))
          (from_buffer-Reads lower fuel p v pre post (omega (arith, e, h))),
    )
