-- ===== src/Witnesses/Dns.antt =====
-- The theorems on DNS messages and domains at short names.
use lproxy_cv.Prelude.{ℕ, ◌≡◌, refl, ◌<◌, true, List, [], ◌∷◌, ◌++◌, arith, length, All, replicate}
use lproxy_cv.Prelude.Outcome.{ok, err}
use lproxy_cv.Dns.Buffer.{Buffer, looping}
use lproxy_cv.Dns.Buffer.Writes.{at}
use lproxy_cv.Dns.Domap.{new, split_dot, has_domain}
use lproxy_cv.Dns.Domap.Covers.{insert_all, any_covers, has_domain_lem}
use lproxy_cv.Dns.Names.{read_qname}
use lproxy_cv.Dns.Names.Cycle.{read_qname_cycle}
use lproxy_cv.Dns.Names.RoundTrip.{IsLabel}
use lproxy_cv.Dns.Header.{new_header, a, to_num, qtype_from}
use lproxy_cv.Dns.Packet.{DnsQuestion, DnsPacket, write_packet, from_buffer}
use lproxy_cv.Dns.Packet.Queries.{IsQuestion, IsQuery, encode_query, told, from_buffer-write_packet}

-- `g.cn`
abbrev pub name : List ℕ
name = 103 ∷ 46 ∷ 99 ∷ 110 ∷ []

abbrev pub lower : List ℕ → List ℕ
lower bytes = bytes

has_domain_lem_example : has_domain (insert_all new (name ∷ [])) name ≡ any_covers (name ∷ []) name
has_domain_lem_example = has_domain_lem (name ∷ []) name

name_labels : All IsLabel (split_dot name)
unfolding split_dot
name_labels = ((omega arith, omega arith), ((omega arith, omega arith), tt))

few : length (split_dot name) < 10
unfolding split_dot
few = omega arith

abbrev looped : Buffer
looped = record { buf = 192 ∷ 0 ∷ []; pos = 0 }

read_qname_cycle_example : read_qname lower 100 looped ≡ err looping
read_qname_cycle_example =
    read_qname_cycle lower 100 looped 192 0 refl refl (omega arith) refl (omega arith)

abbrev question : DnsQuestion
question = record { name = name; qtype = a }

abbrev query : DnsPacket
query = record {
  header = record new_header { id = 258; recursion_desired = true };
  questions = question ∷ [];
  answers = [];
  authorities = [];
  resources = [];
}

question-IsQuestion : IsQuestion 10 question
unfolding to_num qtype_from
question-IsQuestion = record {
  labels = name_labels;
  rounds = few;
  qtype = refl;
  number = omega arith;
}

query-IsQuery : IsQuery 10 query
query-IsQuery = record {
  header = record {
    id = omega arith;
    opcode = omega arith;
    questions = omega arith;
    answers = omega arith;
    authoritative_entries = omega arith;
    resource_entries = omega arith;
  };
  questions = (question-IsQuestion, tt);
  fits = omega arith;
  answers = refl;
  authorities = refl;
  resources = refl;
}

query_size : 22 ≡ length (encode_query query)
unfolding split_dot
query_size = refl

from_buffer-write_packet_example :
    (b : Buffer) × (write_packet query (at [] (replicate 22 0 ++ [])) ≡ ok (tt, b))
    × (from_buffer lower 10 (record b { pos = 0 }) ≡ ok (told lower 10 query, b))
from_buffer-write_packet_example =
    from_buffer-write_packet lower 10 query [] (replicate 22 0) [] query-IsQuery query_size
      (omega arith)
