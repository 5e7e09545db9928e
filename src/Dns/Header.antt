-- ===== src/Dns/Header.antt =====
-- src/dns/dnspacket.rs: `ResultCode`, `DnsHeader` and `QueryType`. A byte of flags is read bit by
-- bit by division; the bits that `write` joins by `|` do not meet for an opcode below 16, and the
-- operation is the number's own.
pub mod RoundTrip
use Prim.Native.Nat.{bit_or}
use lproxy_cv.Prelude.{ℕ, ◌+◌, ◌*◌, ◌/◌, ◌%◌, Bool, true, false, ◌==◌, if◌then◌else◌}
use lproxy_cv.Dns.Buffer.{Buffer, M, pure, ◌>>=◌, ◌>>◌, read_u16, write, write_u16}

pub data ResultCode : Type 0 where
  noerror formerr servfail nxdomain notimp refused : ResultCode

unfoldable pub from_num : ℕ → ResultCode
from_num num =
    if num == 1
    then formerr
    else if num == 2
    then servfail
    else if num == 3
    then nxdomain
    else if num == 4
    then notimp
    else if num == 5
    then refused
    else noerror

-- `rescode as u8`
unfoldable pub rescode_num : ResultCode → ℕ
rescode_num noerror = 0
rescode_num formerr = 1
rescode_num servfail = 2
rescode_num nxdomain = 3
rescode_num notimp = 4
rescode_num refused = 5

pub record DnsHeader : Type 0 where
  pub id : ℕ
  pub recursion_desired : Bool
  pub truncated_message : Bool
  pub authoritative_answer : Bool
  pub opcode : ℕ
  pub response : Bool
  pub rescode : ResultCode
  pub checking_disabled : Bool
  pub authed_data : Bool
  pub z : Bool
  pub recursion_available : Bool
  pub questions : ℕ
  pub answers : ℕ
  pub authoritative_entries : ℕ
  pub resource_entries : ℕ

abbrev pub new_header : DnsHeader
new_header = record {
  id = 0;
  recursion_desired = false;
  truncated_message = false;
  authoritative_answer = false;
  opcode = 0;
  response = false;
  rescode = noerror;
  checking_disabled = false;
  authed_data = false;
  z = false;
  recursion_available = false;
  questions = 0;
  answers = 0;
  authoritative_entries = 0;
  resource_entries = 0;
}

-- `(a & (1 << n)) > 0`, with `p` for `1 << n`
abbrev pub bit : ℕ → ℕ → Bool
bit a p = a / p % 2 == 1

-- `flag as u8`
abbrev pub bool_u8 : Bool → ℕ
bool_u8 true = 1
bool_u8 false = 0

unfoldable pub header_of : ℕ → ℕ → ℕ → ℕ → ℕ → ℕ → ℕ → DnsHeader
header_of id a b questions answers authoritative_entries resource_entries = record {
  id = id;
  recursion_desired = bit a 1;
  truncated_message = bit a 2;
  authoritative_answer = bit a 4;
  opcode = a / 8 % 16;
  response = bit a 128;
  rescode = from_num (b % 16);
  checking_disabled = bit b 16;
  authed_data = bit b 32;
  z = bit b 64;
  recursion_available = bit b 128;
  questions = questions;
  answers = answers;
  authoritative_entries = authoritative_entries;
  resource_entries = resource_entries;
}

unfoldable pub read_header : M DnsHeader
read_header = do
  id ← read_u16
  flags ← read_u16
  questions ← read_u16
  answers ← read_u16
  authoritative_entries ← read_u16
  resource_entries ← read_u16
  pure (
      header_of id (flags / 256 % 256) (flags % 256) questions answers authoritative_entries
        resource_entries)

-- A shift drops the bits above a byte.
unfoldable pub flags_a : DnsHeader → ℕ
flags_a h =
    bit_or
      (bit_or
        (bit_or (bit_or (bool_u8 h.recursion_desired) (bool_u8 h.truncated_message * 2))
          (bool_u8 h.authoritative_answer * 4))
        (h.opcode * 8 % 256))
      (bool_u8 h.response * 128)

unfoldable pub flags_b : DnsHeader → ℕ
flags_b h =
    bit_or
      (bit_or
        (bit_or (bit_or (rescode_num h.rescode) (bool_u8 h.checking_disabled * 16))
          (bool_u8 h.authed_data * 32))
        (bool_u8 h.z * 64))
      (bool_u8 h.recursion_available * 128)

unfoldable pub write_header : DnsHeader → M (Unit {0})
write_header h = do
  write_u16 h.id
  write (flags_a h)
  write (flags_b h)
  write_u16 h.questions
  write_u16 h.answers
  write_u16 h.authoritative_entries
  write_u16 h.resource_entries

pub data QueryType : Type 0 where
  unknown : ℕ → QueryType
  a ns cname mx aaaa : QueryType

unfoldable pub to_num : QueryType → ℕ
to_num (unknown x) = x
to_num a = 1
to_num ns = 2
to_num cname = 5
to_num mx = 15
to_num aaaa = 28

unfoldable pub qtype_from : ℕ → QueryType
qtype_from num =
    if num == 1
    then a
    else if num == 2
    then ns
    else if num == 5
    then cname
    else if num == 15
    then mx
    else if num == 28
    then aaaa
    else unknown num
