-- ===== src/Witnesses/Runs.antt =====
-- A run of a tunnel of two slots: a request is created and closed by its owner.
use lproxy_cv.Prelude.{◌≡◌, refl, none, some, List, [], ◌∷◌, arith, ℕ}
use lproxy_cv.Prelude.Outcome.{ok}
use lproxy_cv.Wire.{little, encode, writes}
use lproxy_cv.Tunnels.Header.{req_client_closed, write_to}
use lproxy_cv.Tunnels.Reqq.{
  Reqq, Request, new_request, granted, clean_req, alloc, free, new as new_reqq,
}
use lproxy_cv.Tunnels.Frames.{closed_frame, write_head}
use lproxy_cv.Tunnels.Frames.Laws.{head_fields}
use lproxy_cv.Tunnels.Tunnel.{
  Tunnel, TunStub, Effect, new, send, stub_header, on_request_created_internal, on_request_closed,
}
use lproxy_cv.Tunnels.Tunnel.Requests.{TunInv, Holds}
use lproxy_cv.Tunnels.Reqserv.{on_items}
use lproxy_cv.Tunnels.Reqserv.Credit.{Credited, on_items-Credited}
use lproxy_cv.Tunnels.Runs.{Run, create, close, stop, next, reachable-TunInv}
use lproxy_cv.Witnesses.{alive, incoming}

abbrev pub state : ℕ → Reqq → Tunnel
state count slots = record {
  tx = 3;
  udpx_tx = none;
  index = 0;
  requests = slots;
  capacity = 2;
  rtt_queue = 0 ∷ 0 ∷ 0 ∷ 0 ∷ 0 ∷ [];
  rtt_index = 0;
  rtt_sum = 0;
  req_count = count;
  ping_count = 0;
  rawfd = 4;
  busy = 0;
  request_quota = 10;
}

abbrev pub taken : Request
taken = granted (new_request 0) incoming

abbrev pub opened : Tunnel
opened = state 1 (record { elements = taken ∷ new_request 1 ∷ []; free = 1 ∷ [] })

abbrev closed : Tunnel
closed = state 0 (record { elements = clean_req taken ∷ new_request 1 ∷ []; free = 0 ∷ 1 ∷ [] })

abbrev pub stub : TunStub
stub = record { tunnel_tx = 3; tun_idx = 0; req_idx = 0; req_tag = 1; request_quota = 10 }

pub created : on_request_created_internal (new 3 4 0 2 10) incoming ≡ ok (opened, some stub)
unfolding new on_request_created_internal alloc new_reqq
created = refl

pub stub-Holds : Holds opened stub
stub-Holds = record {
  req = taken;
  at = refl;
  tagged = refl;
  busy = (λ e. absurd (omega (arith, e)), tt);
}

ended :
    on_request_closed alive little opened stub
    ≡ ok (closed, send alive 3 (encode (head_fields 7 req_client_closed (stub_header stub))))
unfolding on_request_closed free closed_frame write_head writes write_to
ended = refl

run : Run alive little (new 3 4 0 2 10) closed
run = next (create incoming (some stub) created) (next (close stub _ stub-Holds ended) stop)

reachable-TunInv_example : TunInv closed
reachable-TunInv_example = reachable-TunInv alive little 3 4 0 2 10 closed (omega arith) run

on_items-Credited_example :
    (last : ℕ) × (effects : List Effect) × (on_items little alive stub 12 0 ≡ ok (last, effects))
    × Credited little alive stub 12 0 last effects
on_items-Credited_example = on_items-Credited little alive stub 12 0 (omega arith) (omega arith)
