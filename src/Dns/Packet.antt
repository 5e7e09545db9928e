-- ===== src/Dns/Packet.antt =====
-- src/dns/dnspacket.rs: `DnsQuestion`, `DnsRecord` and `DnsPacket`. An IPv4 address is its four
-- octets, an IPv6 address its eight segments. `fuel` is the rounds of each `read_qname`, `lower` the
-- string conversion that it uses.
pub mod Queries
use lproxy_cv.Prelude.{ℕ, zero, suc, ◌+◌, ◌-◌, ◌*◌, ◌/◌, ◌%◌, List, [], ◌∷◌, length}
use lproxy_cv.Dns.Buffer.{
  Buffer, M, pure, ◌>>=◌, ◌>>◌, step, position, read_u16, read_u32, write, write_u16, write_u32,
  set_u16,
}
use lproxy_cv.Dns.Names.{read_qname}
use lproxy_cv.Dns.Labels.{write_qname}
use lproxy_cv.Dns.Header.{
  DnsHeader, read_header, write_header, QueryType, unknown, a, ns, cname, mx, aaaa, to_num,
  qtype_from,
}

pub record DnsQuestion : Type 0 where
  pub name : List ℕ
  pub qtype : QueryType

-- Of each record the domain and the data, and the time to live last.
pub data DnsRecord : Type 0 where
  unknown_record : List ℕ → ℕ → ℕ → ℕ → DnsRecord
  a_record : List ℕ → List ℕ → ℕ → DnsRecord
  ns_record : List ℕ → List ℕ → ℕ → DnsRecord
  cname_record : List ℕ → List ℕ → ℕ → DnsRecord
  mx_record : List ℕ → ℕ → List ℕ → ℕ → DnsRecord
  aaaa_record : List ℕ → List ℕ → ℕ → DnsRecord

pub record DnsPacket : Type 0 where
  pub header : DnsHeader
  pub questions : List DnsQuestion
  pub answers : List DnsRecord
  pub authorities : List DnsRecord
  pub resources : List DnsRecord

abbrev pub octets_of : ℕ → List ℕ
octets_of raw = (raw / 16777216 % 256) ∷ (raw / 65536 % 256) ∷ (raw / 256 % 256) ∷ (raw % 256) ∷ []

abbrev pub segments_of : ℕ → ℕ → ℕ → ℕ → List ℕ
segments_of r1 r2 r3 r4 =
    (r1 / 65536 % 65536)
    ∷ (r1 % 65536)
    ∷ (r2 / 65536 % 65536)
    ∷ (r2 % 65536)
    ∷ (r3 / 65536 % 65536)
    ∷ (r3 % 65536)
    ∷ (r4 / 65536 % 65536)
    ∷ (r4 % 65536)
    ∷ []

-- `for _ in 0..count`, collecting what each round reads.
unfoldable pub read_many : {A : Type 0} → M A → ℕ → M (List A)
read_many m zero = pure []
read_many m (suc count) = do x ← m; xs ← read_many m count; pure (x ∷ xs)

module _ (lower : List ℕ → List ℕ) (fuel : ℕ) where
  unfoldable pub read_question : M DnsQuestion
  read_question = do
    name ← read_qname lower fuel
    qtype ← read_u16
    _ ← read_u16
    pure (record { name = name; qtype = qtype_from qtype })

  -- The data of a record, by its type.
  unfoldable pub read_data : QueryType → List ℕ → ℕ → ℕ → ℕ → M DnsRecord
  read_data a domain num ttl data_len = do
    raw ← read_u32
    pure (a_record domain (octets_of raw) ttl)
  read_data aaaa domain num ttl data_len = do
    r1 ← read_u32
    r2 ← read_u32
    r3 ← read_u32
    r4 ← read_u32
    pure (aaaa_record domain (segments_of r1 r2 r3 r4) ttl)
  read_data ns domain num ttl data_len = do
    host ← read_qname lower fuel
    pure (ns_record domain host ttl)
  read_data cname domain num ttl data_len = do
    host ← read_qname lower fuel
    pure (cname_record domain host ttl)
  read_data mx domain num ttl data_len = do
    priority ← read_u16
    host ← read_qname lower fuel
    pure (mx_record domain priority host ttl)
  read_data (unknown x) domain num ttl data_len = do
    step data_len
    pure (unknown_record domain num data_len ttl)

  unfoldable pub read_record : M DnsRecord
  read_record = do
    domain ← read_qname lower fuel
    num ← read_u16
    _ ← read_u16
    ttl ← read_u32
    data_len ← read_u16
    read_data (qtype_from num) domain num ttl data_len

  unfoldable pub from_buffer : M DnsPacket
  from_buffer = do
    header ← read_header
    questions ← read_many read_question header.questions
    answers ← read_many read_record header.answers
    authorities ← read_many read_record header.authoritative_entries
    resources ← read_many read_record header.resource_entries
    pure (record {
      header = header;
      questions = questions;
      answers = answers;
      authorities = authorities;
      resources = resources;
    })

unfoldable pub write_question : DnsQuestion → M (Unit {0})
write_question q = do write_qname q.name; write_u16 (to_num q.qtype); write_u16 1

-- Name, type, class and time to live of a record.
abbrev pub write_front : List ℕ → QueryType → ℕ → M (Unit {0})
write_front domain qtype ttl = do
  write_qname domain
  write_u16 (to_num qtype)
  write_u16 1
  write_u32 ttl

unfoldable pub write_all : {A : Type 0} → (A → M (Unit {0})) → List A → M (Unit {0})
write_all f [] = pure tt
write_all f (x ∷ xs) = do f x; write_all f xs

-- Data behind a length that is filled in afterwards.
abbrev pub write_sized : M (Unit {0}) → M (Unit {0})
write_sized body = do
  pos ← position
  write_u16 0
  body
  end ← position
  set_u16 pos ((end - (pos + 2)) % 65536)

-- The bytes that `write` counts are not used by the code.
unfoldable pub write_record : DnsRecord → M (Unit {0})
write_record (a_record domain addr ttl) = do
  write_front domain a ttl
  write_u16 4
  write_all write addr
write_record (ns_record domain host ttl) = do
  write_front domain ns ttl
  write_sized (write_qname host)
write_record (cname_record domain host ttl) = do
  write_front domain cname ttl
  write_sized (write_qname host)
write_record (mx_record domain priority host ttl) = do
  write_front domain mx ttl
  write_sized (write_u16 priority >> write_qname host)
write_record (aaaa_record domain addr ttl) = do
  write_front domain aaaa ttl
  write_u16 16
  write_all write_u16 addr
write_record (unknown_record domain qtype data_len ttl) = pure tt

-- The counts of the header are those of the lists.
abbrev pub counted : DnsPacket → DnsHeader
counted p = record p.header {
  questions = length p.questions % 65536;
  answers = length p.answers % 65536;
  authoritative_entries = length p.authorities % 65536;
  resource_entries = length p.resources % 65536;
}

unfoldable pub write_packet : DnsPacket → M (Unit {0})
write_packet p = do
  write_header (counted p)
  write_all write_question p.questions
  write_all write_record p.answers
  write_all write_record p.authorities
  write_all write_record p.resources
