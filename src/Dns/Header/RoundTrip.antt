-- ===== src/Dns/Header/RoundTrip.antt =====
-- What a header is after `write` and `read`. The flags are tried one by one.
use lproxy_cv.Prelude.{
  ℕ, zero, suc, ◌+◌, ◌*◌, ◌/◌, ◌%◌, ◌<◌, ◌≤◌, ◌≡◌, refl, sym, subst, Bool, true, false, ◌&&◌, List,
  [], ◌∷◌, ◌++◌, arith, ltb, ◌==◌, ==_iff, ltb→lt, ◌⊎◌, inl, inr,
}
use lproxy_cv.Dns.Buffer.{pure, read_u16, write, write_u16}
use lproxy_cv.Dns.Buffer.Writes.{
  Writes, Reads, be16, read_u16-Reads, write-Writes, write_u16-Writes, >>-Writes, >>=-Reads,
  pure-Reads,
}
use lproxy_cv.Dns.Header.{
  ResultCode, noerror, formerr, servfail, nxdomain, notimp, refused, from_num, rescode_num,
  DnsHeader, bit, header_of, read_header, flags_a, flags_b, write_header, new_header,
}

abbrev both : (Bool → Bool) → Bool
both f = f true && f false

and-left : (a b : Bool) → (a && b) ≡ true → a ≡ true
and-left true b h = refl
and-left false b h = h

and-right : (a b : Bool) → (a && b) ≡ true → b ≡ true
and-right true b h = h
and-right false b h = absurd (ground arith)

both_all : (f : Bool → Bool) → both f ≡ true → (b : Bool) → f b ≡ true
both_all f h true = and-left (f true) (f false) h
both_all f h false = and-right (f true) (f false) h

abbrev all_below : ℕ → (ℕ → Bool) → Bool
all_below zero f = true
all_below (suc n) f = f n && all_below n f

le_cases : (k n : ℕ) → k ≤ n → (k ≡ n) ⊎ (k < n)
le_cases k n h = ground arith

all_below_lem : (n : ℕ) (f : ℕ → Bool) → all_below n f ≡ true → (k : ℕ) → k < n → f k ≡ true
all_below_lem zero f h k l = absurd (omega arith)
all_below_lem (suc n) f h k l = elim (le_cases k n (omega arith)) [
  | inl e ↦ subst (λ i. f i ≡ true) (sym e) (and-left (f n) (all_below n f) h)
  | inr m ↦ all_below_lem n f (and-right (f n) (all_below n f) h) k m
]

abbrev same_bool : Bool → Bool → Bool
same_bool true b = b
same_bool false true = false
same_bool false false = true

same_bool_lem : (a b : Bool) → same_bool a b ≡ true → a ≡ b
same_bool_lem true b h = sym h
same_bool_lem false true h = h
same_bool_lem false false h = refl

abbrev with_a : Bool → Bool → Bool → ℕ → Bool → DnsHeader
with_a rd tc aa op qr = record new_header {
  recursion_desired = rd;
  truncated_message = tc;
  authoritative_answer = aa;
  opcode = op;
  response = qr;
}

abbrev test_a : Bool → Bool → Bool → Bool → ℕ → Bool
test_a rd tc aa qr op =
    let v = flags_a (with_a rd tc aa op qr) in
    same_bool (bit v 1) rd
    && (same_bool (bit v 2) tc
        && (same_bool (bit v 4) aa
            && (same_bool (bit v 128) qr && ((v / 8 % 16 == op) && ltb v 256))))

all_a : both (λ rd. both (λ tc. both (λ aa. both (λ qr. all_below 16 (test_a rd tc aa qr))))) ≡ true
unfolding flags_a
all_a = refl

abbrev with_b : ResultCode → Bool → Bool → Bool → Bool → DnsHeader
with_b rc cd ad z ra = record new_header {
  rescode = rc;
  checking_disabled = cd;
  authed_data = ad;
  z = z;
  recursion_available = ra;
}

abbrev test_b : ResultCode → Bool → Bool → Bool → Bool → Bool
test_b rc cd ad z ra =
    let v = flags_b (with_b rc cd ad z ra) in
    same_bool (bit v 16) cd
    && (same_bool (bit v 32) ad
        && (same_bool (bit v 64) z
            && (same_bool (bit v 128) ra && ((v % 16 == rescode_num rc) && ltb v 256))))

all_b :
    (rc : ResultCode)
    → both (λ cd. both (λ ad. both (λ z. both (λ ra. test_b rc cd ad z ra)))) ≡ true
unfolding flags_b rescode_num
all_b noerror = refl
all_b formerr = refl
all_b servfail = refl
all_b nxdomain = refl
all_b notimp = refl
all_b refused = refl

from_num-rescode_num : (rc : ResultCode) → from_num (rescode_num rc) ≡ rc
unfolding from_num rescode_num
from_num-rescode_num noerror = refl
from_num-rescode_num formerr = refl
from_num-rescode_num servfail = refl
from_num-rescode_num nxdomain = refl
from_num-rescode_num notimp = refl
from_num-rescode_num refused = refl

record AGood (h : DnsHeader) : Type 0 where
  rd : bit (flags_a h) 1 ≡ h.recursion_desired
  tc : bit (flags_a h) 2 ≡ h.truncated_message
  aa : bit (flags_a h) 4 ≡ h.authoritative_answer
  qr : bit (flags_a h) 128 ≡ h.response
  op : flags_a h / 8 % 16 ≡ h.opcode
  small : flags_a h < 256

record BGood (h : DnsHeader) : Type 0 where
  cd : bit (flags_b h) 16 ≡ h.checking_disabled
  ad : bit (flags_b h) 32 ≡ h.authed_data
  z : bit (flags_b h) 64 ≡ h.z
  ra : bit (flags_b h) 128 ≡ h.recursion_available
  rc : flags_b h % 16 ≡ rescode_num h.rescode
  small : flags_b h < 256

-- Six tests that hold together hold each.
split_six :
    (a b c d e f : Bool)
    → (a && (b && (c && (d && (e && f))))) ≡ true
    → (a ≡ true) × (b ≡ true) × (c ≡ true) × (d ≡ true) × (e ≡ true) × (f ≡ true)
split_six a b c d e f h =
    let h1 = and-right a _ h in
    let h2 = and-right b _ h1 in
    let h3 = and-right c _ h2 in
    let h4 = and-right d _ h3 in
    (
      and-left a _ h,
      and-left b _ h1,
      and-left c _ h2,
      and-left d _ h3,
      and-left e f h4,
      and-right e f h4,
    )

abbrev try_a : DnsHeader → ℕ → Bool
try_a h = test_a h.recursion_desired h.truncated_message h.authoritative_answer h.response

a_good : (h : DnsHeader) → h.opcode < 16 → AGood h
unfolding flags_a
a_good h l =
    let rd = h.recursion_desired in
    let tc = h.truncated_message in
    let aa = h.authoritative_answer in
    let t1 =
      both_all (λ x. both (λ y. both (λ z. both (λ w. all_below 16 (test_a x y z w))))) all_a rd in
    let t2 = both_all (λ y. both (λ z. both (λ w. all_below 16 (test_a rd y z w)))) t1 tc in
    let t3 = both_all (λ z. both (λ w. all_below 16 (test_a rd tc z w))) t2 aa in
    let t4 = both_all (λ w. all_below 16 (test_a rd tc aa w)) t3 h.response in
    let t = all_below_lem 16 (try_a h) t4 h.opcode l in
    let (p1, p2, p3, p4, p5, p6) = split_six _ _ _ _ _ _ t in
    record {
      rd = same_bool_lem _ _ p1;
      tc = same_bool_lem _ _ p2;
      aa = same_bool_lem _ _ p3;
      qr = same_bool_lem _ _ p4;
      op = (==_iff _ _).0 p5;
      small = ltb→lt _ _ p6;
    }

b_good : (h : DnsHeader) → BGood h
unfolding flags_b
b_good h =
    let rc = h.rescode in
    let cd = h.checking_disabled in
    let ad = h.authed_data in
    let t1 = both_all (λ x. both (λ y. both (λ z. both (λ w. test_b rc x y z w)))) (all_b rc) cd in
    let t2 = both_all (λ y. both (λ z. both (λ w. test_b rc cd y z w))) t1 ad in
    let t3 = both_all (λ z. both (λ w. test_b rc cd ad z w)) t2 h.z in
    let t = both_all (λ w. test_b rc cd ad h.z w) t3 h.recursion_available in
    let (p1, p2, p3, p4, p5, p6) = split_six _ _ _ _ _ _ t in
    record {
      cd = same_bool_lem _ _ p1;
      ad = same_bool_lem _ _ p2;
      z = same_bool_lem _ _ p3;
      ra = same_bool_lem _ _ p4;
      rc = (==_iff _ _).0 p5;
      small = ltb→lt _ _ p6;
    }

-- The values that the fields of a header have in the code, and an opcode of four bits.
pub record IsHeader (h : DnsHeader) : Type 0 where
  pub id : h.id < 65536
  pub opcode : h.opcode < 16
  pub questions : h.questions < 65536
  pub answers : h.answers < 65536
  pub authoritative_entries : h.authoritative_entries < 65536
  pub resource_entries : h.resource_entries < 65536

header_of-flags :
    (h : DnsHeader)
    → h.opcode < 16
    → header_of h.id
        (flags_a h)
        (flags_b h)
        h.questions
        h.answers
        h.authoritative_entries
        h.resource_entries
      ≡ h
unfolding header_of
header_of-flags h l =
    let p = a_good h l in
    let q = b_good h in
    rw (p.rd, p.tc, p.aa, p.qr, p.op, q.cd, q.ad, q.z, q.ra, q.rc, from_num-rescode_num h.rescode)

abbrev pub encode_header : DnsHeader → List ℕ
encode_header h =
    be16 h.id
    ++ ((flags_a h ∷ [])
        ++ ((flags_b h ∷ [])
            ++ (be16 h.questions
                ++ (be16 h.answers ++ (be16 h.authoritative_entries ++ be16 h.resource_entries)))))

pub write_header-Writes : (h : DnsHeader) → Writes (write_header h) (encode_header h)
unfolding write_header
write_header-Writes h = >>-Writes (write_u16 h.id) _ (be16 h.id) _ (write_u16-Writes h.id) (
    >>-Writes (write (flags_a h)) _ (flags_a h ∷ []) _ (write-Writes (flags_a h)) (
      >>-Writes (write (flags_b h)) _ (flags_b h ∷ []) _ (write-Writes (flags_b h)) (
        >>-Writes (write_u16 h.questions) _ (be16 h.questions) _ (write_u16-Writes h.questions) (
          >>-Writes (write_u16 h.answers) _ (be16 h.answers) _ (write_u16-Writes h.answers) (
            >>-Writes (write_u16 h.authoritative_entries) _ (be16 h.authoritative_entries) _
              (write_u16-Writes h.authoritative_entries) (write_u16-Writes h.resource_entries))))))

two : {x y c d : ℕ} → x ≡ c → y ≡ d → ◌≡◌ {A = List ℕ} (x ∷ y ∷ []) (c ∷ d ∷ [])
two e f = rw (e, f)

be16-join : (c d : ℕ) → c < 256 → d < 256 → be16 (c * 256 + d) ≡ c ∷ d ∷ []
be16-join c d h l = two (omega arith) (omega arith)

high_byte : (c d : ℕ) → c < 256 → d < 256 → (c * 256 + d) / 256 % 256 ≡ c
high_byte c d h l = omega arith

low_byte : (c d : ℕ) → d < 256 → (c * 256 + d) % 256 ≡ d
low_byte c d l = omega arith

module _ (h : DnsHeader) (v : IsHeader h) where
  abbrev flags : ℕ
  flags = flags_a h * 256 + flags_b h

  abbrev tail_of : List ℕ
  tail_of =
      be16 h.questions
      ++ (be16 h.answers ++ (be16 h.authoritative_entries ++ (be16 h.resource_entries ++ [])))

  read_fields : Reads read_header (be16 h.id ++ (be16 flags ++ tail_of)) h
  unfolding read_header
  read_fields = >>=-Reads read_u16 _ (be16 h.id) _ h.id h (read_u16-Reads h.id v.id) (
      >>=-Reads read_u16 _ (be16 flags) _ flags h
        (read_u16-Reads flags (omega (arith, (a_good h v.opcode).small, (b_good h).small)))
        (>>=-Reads read_u16 _ (be16 h.questions) _ h.questions h
          (read_u16-Reads h.questions v.questions)
          (>>=-Reads read_u16 _ (be16 h.answers) _ h.answers h (read_u16-Reads h.answers v.answers)
            (>>=-Reads read_u16 _ (be16 h.authoritative_entries) _ h.authoritative_entries h
              (read_u16-Reads h.authoritative_entries v.authoritative_entries)
              (>>=-Reads read_u16 _ (be16 h.resource_entries) [] h.resource_entries h
                (read_u16-Reads h.resource_entries v.resource_entries) ended)))))
    where
      read_back :
          header_of h.id
            (flags / 256 % 256)
            (flags % 256)
            h.questions
            h.answers
            h.authoritative_entries
            h.resource_entries
          ≡ h
      read_back =
          rw
            (
              high_byte (flags_a h) (flags_b h) (a_good h v.opcode).small (b_good h).small,
              low_byte (flags_a h) (flags_b h) (b_good h).small,
            )
            (header_of-flags h v.opcode)

      ended :
          Reads
            (pure (
              header_of h.id
                (flags / 256 % 256)
                (flags % 256)
                h.questions
                h.answers
                h.authoritative_entries
                h.resource_entries))
            []
            h
      ended = subst (λ x. Reads (pure x) [] h) (sym read_back) (pure-Reads h)

  -- The bytes of a header are read back as the header.
  pub read_header-Reads : Reads read_header (encode_header h) h
  read_header-Reads =
      subst (λ l. Reads read_header (be16 h.id ++ (l ++ tail_of)) h)
        (be16-join (flags_a h) (flags_b h) (a_good h v.opcode).small (b_good h).small) read_fields
