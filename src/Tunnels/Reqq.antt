-- ===== src/Tunnels/Reqq.antt =====
-- src/tunnels/request.rs and src/tunnels/reqq.rs: the slots in which a tunnel keeps its requests.
-- A channel end or a trigger is the number of the channel or of the trigger. Numbers wrap as in a
-- release build. A vector that is used as a stack is a list whose head is the vector's back.
pub mod Invariant
pub mod Pigeonhole
pub mod Stale
use lproxy_cv.Prelude.{
  ℕ, zero, suc, ◌+◌, ◌-◌, ◌%◌, ◌≤◌, Bool, true, false, Option, none, some, List, [], ◌∷◌, ◌++◌, map,
  ltb, leb, ◌==◌, if◌then◌else◌, length, get_elem?, set,
}
use lproxy_cv.Prelude.Outcome.{Outcome, ok, unwrap, ◌>>=◌}

abbrev pub u16 : ℕ → ℕ
u16 n = n % 65536

abbrev pub u16_max : ℕ
u16_max = 65535

pub record Request : Type 0 where
  pub index : ℕ
  pub tag : ℕ
  pub request_tx : Option ℕ
  pub trigger : Option ℕ
  pub write_out : ℕ

pub record Reqq : Type 0 where
  pub elements : List Request
  pub free : List ℕ

abbrev pub new_request : ℕ → Request
new_request idx = record { index = idx; tag = 0; request_tx = none; trigger = none; write_out = 0 }

-- `Request::with`
abbrev pub request_with : ℕ → ℕ → Request
request_with tx trigger = record {
  index = 0;
  tag = 0;
  request_tx = some tx;
  trigger = some trigger;
  write_out = 0;
}

-- The rounds `n .. size` of the loop of `Reqq::new`.
new_loop : ℕ → ℕ → ℕ → Reqq → Reqq
new_loop zero n size q = q
new_loop (suc rounds) n size q =
    new_loop rounds (n + 1) size (record {
      elements = q.elements ++ (new_request (u16 n) ∷ []);
      free = (size - 1 - n) ∷ q.free;
    })

unfoldable pub new : ℕ → Reqq
unfolding new_loop
new size = new_loop size 0 size (record { elements = []; free = [] })

abbrev pub clean_req : Request → Request
clean_req req = record req { tag = u16 (req.tag + 1); request_tx = none; trigger = none }

-- The slot as `alloc` leaves it.
abbrev pub granted : Request → Request → Request
granted req req2 = record req {
  tag = u16 (req.tag + 1);
  request_tx = req2.request_tx;
  trigger = req2.trigger;
}

alloc_from : List ℕ → Reqq → Request → Outcome ⊥ (Reqq × ℕ × ℕ)
alloc_from [] q req2 = ok (q, u16_max, u16_max)
alloc_from (idx ∷ rest) q req2 = do
  req ← unwrap (get_elem? q.elements idx)
  let slot = granted req req2
  ok (record { elements = set q.elements idx slot; free = rest }, u16 idx, slot.tag)

-- The slot and its tag, or `u16::MAX` twice if no slot is free.
unfoldable pub alloc : Reqq → Request → Outcome ⊥ (Reqq × ℕ × ℕ)
unfolding alloc_from
alloc q req2 = alloc_from q.free q req2

free_slot : Option Request → Reqq → ℕ → ℕ → Reqq × Bool
free_slot none q idx tag = (q, false)
free_slot (some req) q idx tag =
    if req.tag == tag
    then (record { elements = set q.elements idx (clean_req req); free = idx ∷ q.free }, true)
    else (q, false)

unfoldable pub free : Reqq → ℕ → ℕ → Reqq × Bool
unfolding free_slot
free q idx tag = free_slot (get_elem? q.elements idx) q idx tag

unfoldable pub clear_all : Reqq → Reqq
clear_all q = record { elements = map clean_req q.elements; free = [] }
