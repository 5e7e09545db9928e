-- ===== src/Xport/Slots.antt =====
-- src/xport/xrequest.rs: the slots of the requests that the peer opens. A channel end, a trigger, a
-- waker or a socket is its number.
pub mod Laws
use lproxy_cv.Prelude.{
  ℕ, zero, suc, ◌+◌, ◌%◌, Bool, true, false, Option, none, some, List, [], ◌∷◌, ◌++◌, ◌==◌,
  if◌then◌else◌, get_elem?, set,
}

-- What happens outside: a message put on a channel, a socket shut down, a task woken, a connection
-- of the tunnel begun, a connection to a local port begun for a request.
pub data Effect : Type 0 where
  sent : ℕ → List ℕ → ℕ → Effect
  shut_down : ℕ → Effect
  woken : ℕ → Effect
  connect_tunnel : Effect
  connect_port : ℕ → ℕ → ℕ → Effect

pub record XRequest : Type 0 where
  pub index : ℕ
  pub tag : ℕ
  pub is_inused : Bool
  pub request_tx : Option ℕ
  pub trigger : Option ℕ
  pub wait_task : Option ℕ
  pub rawfd : Option ℕ

abbrev pub new_xrequest : ℕ → XRequest
new_xrequest idx = record {
  index = idx;
  tag = 0;
  is_inused = false;
  request_tx = none;
  trigger = none;
  wait_task = none;
  rawfd = none;
}

-- The slots `n .. size`, of which `rounds` are to make.
new_from : ℕ → ℕ → List XRequest
new_from zero n = []
new_from (suc rounds) n = new_xrequest (n % 65536) ∷ new_from rounds (n + 1)

-- `XReqq::new`
unfoldable pub new_xreqq : ℕ → List XRequest
unfolding new_from
new_xreqq size = new_from size 0

abbrev pub wake : Option ℕ → List Effect
wake none = []
wake (some task) = woken task ∷ []

abbrev pub shutdown : Option ℕ → List Effect
shutdown none = []
shutdown (some rawfd) = shut_down rawfd ∷ []

abbrev pub cleaned : XRequest → XRequest
cleaned req = record req {
  is_inused = false;
  request_tx = none;
  trigger = none;
  wait_task = none;
  rawfd = none;
}

abbrev pub cleaning : XRequest → List Effect
cleaning req = wake req.wait_task ++ shutdown req.rawfd

-- The slot as `alloc` leaves it.
abbrev pub taken : XRequest → ℕ → XRequest
taken req req_tag = record (cleaned req) { tag = req_tag; is_inused = true }

alloc_slot : Option XRequest → List XRequest → ℕ → ℕ → List XRequest × List Effect
alloc_slot none elements req_idx req_tag = (elements, [])
alloc_slot (some req) elements req_idx req_tag =
    (set elements req_idx (taken req req_tag), cleaning req)

unfoldable pub alloc : List XRequest → ℕ → ℕ → List XRequest × List Effect
unfolding alloc_slot
alloc elements req_idx req_tag = alloc_slot (get_elem? elements req_idx) elements req_idx req_tag

free_slot : Option XRequest → List XRequest → ℕ → ℕ → List XRequest × List Effect × Bool
free_slot none elements idx tag = (elements, [], false)
free_slot (some req) elements idx tag =
    if req.tag == tag
    then (if req.is_inused
        then (set elements idx (cleaned req), cleaning req, true)
        else (elements, [], false))
    else (elements, [], false)

unfoldable pub free : List XRequest → ℕ → ℕ → List XRequest × List Effect × Bool
unfolding free_slot
free elements idx tag = free_slot (get_elem? elements idx) elements idx tag

unfoldable pub clear_all : List XRequest → List XRequest × List Effect
clear_all [] = ([], [])
clear_all (e ∷ es) = let rest = clear_all es in (cleaned e ∷ rest.0, cleaning e ++ rest.1)
