-- ===== src/Xport/Tunnel/Count.antt =====
-- The count of the requests that the peer has open, and what a stale request can do.
use lproxy_cv.Prelude.{
  ap, ◌∙◌, ℕ, ◌+◌, ◌-◌, ◌%◌, ◌≤◌, ◌<◌, ◌≡◌, refl, ap, ◌⊎◌, inl, inr, Bool, true, false, none, some,
  List, [], ◌∷◌, ◌++◌, arith, ==_refl, ==_iff, get_elem?, set, Option-cases, lt→ltb, get_elem?-lt,
  get_elem?-set_self, length-set,
}
use lproxy_cv.Prelude.Outcome.{ok}
use lproxy_cv.Wire.{ByteIo, encode}
use lproxy_cv.Tunnels.Header.{req_server_closed}
use lproxy_cv.Tunnels.Frames.Laws.{write_head_lem, head_fields}
use lproxy_cv.Xport.Slots.{Effect, connect_port, XRequest, cleaned, cleaning, taken, alloc}
use lproxy_cv.Xport.Slots.Laws.{
  busy, used, used-set, used-clear_all, used_none, free_used, free_cases, alloc_cases,
}
use lproxy_cv.Xport.Tunnel.{
  XTunnel, tx_of, save_tx, save_request_tx, proxy_request, client_closed, created, get_request_tx,
  check_req_valid, valid, closed_on, on_request_closed, on_request_msg, on_request_recv_finished,
  on_tunnel_created, on_tunnel_closed, was_open, send,
}

-- The count covers the slots that are in use.
abbrev pub Covered : XTunnel → Type 0
Covered t = used t.requests ≤ t.req_count

used-cleaned :
    (es : List XRequest) (i : ℕ) (r : XRequest)
    → get_elem? es i ≡ some r
    → r.is_inused ≡ true
    → used (set es i (cleaned r)) + 1 ≡ used es
used-cleaned es i r at u = omega (arith, used-set es i r (cleaned r) at, ap busy u)

-- If the count covers the slots in use, it does so after a message that closes a request, whatever
-- request the message names.
pub client_closed-Covered :
    (t : XTunnel) (req_idx req_tag : ℕ) → Covered t → Covered (client_closed t req_idx req_tag).0
unfolding client_closed
client_closed-Covered t i tag h = elim (free_cases t.requests i tag) [
  | inl e ↦ rw e h
  | inr (r, at, tagged, u, e) ↦
      rw (e, lt→ltb 0 t.req_count (omega (arith, h, used-cleaned t.requests i r at u)))
        (omega (arith, h, used-cleaned t.requests i r at u))
]

abbrev served : XRequest → ℕ → ℕ → ℕ → XRequest
served r tx trigger tag = record (taken r tag) { request_tx = some tx; trigger = some trigger }

abbrev opened : XTunnel → ℕ → ℕ → ℕ → ℕ → XRequest → XTunnel
opened t tx trigger i tag r = record t {
  requests = set (set t.requests i (taken r tag)) i (served r tx trigger tag);
  req_count = (t.req_count + 1) % 65536;
}

created_in :
    (t : XTunnel) (tx trigger i tag port : ℕ) (r : XRequest)
    → t.discarded ≡ false
    → get_elem? t.requests i ≡ some r
    → alloc t.requests i tag ≡ (set t.requests i (taken r tag), cleaning r)
    → created t tx trigger i tag port
      ≡ (opened t tx trigger i tag r, cleaning r ++ (connect_port i tag port ∷ []))
unfolding created proxy_request save_request_tx
created_in t tx trigger i tag port r d at a = rw (
  a,
  d,
  get_elem?-set_self t.requests i (taken r tag) (get_elem?-lt t.requests i r at),
  save_tx,
  ==_refl tag,
)

created_out :
    (t : XTunnel) (tx trigger i tag port : ℕ)
    → t.discarded ≡ false
    → get_elem? t.requests i ≡ none
    → alloc t.requests i tag ≡ (t.requests, [])
    → created t tx trigger i tag port ≡ (t, [])
unfolding created proxy_request save_request_tx
created_out t tx trigger i tag port d at a = rw (a, d, at, save_tx)

opened_slot :
    (t : XTunnel) (tx trigger i tag : ℕ) (r : XRequest)
    → get_elem? t.requests i ≡ some r
    → get_elem? (opened t tx trigger i tag r).requests i ≡ some (served r tx trigger tag)
opened_slot t tx trigger i tag r at =
    get_elem?-set_self (set t.requests i (taken r tag)) i (served r tx trigger tag)
      (omega (arith, length-set t.requests i (taken r tag), get_elem?-lt t.requests i r at))

opened-used :
    (t : XTunnel) (tx trigger i tag : ℕ) (r : XRequest)
    → get_elem? t.requests i ≡ some r
    → used (opened t tx trigger i tag r).requests ≤ used t.requests + 1
opened-used t tx trigger i tag r at = omega (
  arith,
  used-set t.requests i r (taken r tag) at,
  used-set (set t.requests i (taken r tag)) i (taken r tag) (served r tx trigger tag)
      (get_elem?-set_self t.requests i (taken r tag) (get_elem?-lt t.requests i r at)),
)

-- What a message that opens a request comes to.
abbrev pub Opened : XTunnel → ℕ → ℕ → ℕ → ℕ → XTunnel × List Effect → Type 0
Opened t tx i tag port (t', effects) =
    ((get_elem? t.requests i ≡ none) × (t' ≡ t) × (effects ≡ []))
    ⊎ ((check_req_valid t' i tag ≡ true)
        × (get_request_tx t' i tag ≡ some tx)
        × ((r : XRequest) × (get_elem? t.requests i ≡ some r)
            × (effects ≡ cleaning r ++ (connect_port i tag port ∷ [])))
        × (t'.req_count ≡ t.req_count + 1)
        × Covered t')

-- In a tunnel that is not discarded, and whose count of requests covers the slots in use and is
-- below 65535, a message that opens a request does nothing if the slot is not there; otherwise the slot is then in use under the message's tag, its sender is found, what the
-- slot held is ended, the port is connected, and one more is counted, which still covers the slots
-- in use.
pub created_lem :
    (t : XTunnel) (tx trigger req_idx req_tag port : ℕ)
    → t.discarded ≡ false
    → t.req_count < 65535
    → Covered t
    → Opened t tx req_idx req_tag port (created t tx trigger req_idx req_tag port)
unfolding check_req_valid get_request_tx
created_lem t tx trigger i tag port d n h = elim (alloc_cases t.requests i tag) [
  | inl (e, a) ↦ rw (created_out t tx trigger i tag port d e a) (inl (e, refl, refl))
  | inr (r, at, a) ↦ rw (created_in t tx trigger i tag port r d at a) (
      inr (
        rw (opened_slot t tx trigger i tag r at, valid) (==_refl tag),
        rw (opened_slot t tx trigger i tag r at, tx_of, ==_refl tag),
        (r, at, refl),
        omega (arith, n),
        omega (arith, n, h, opened-used t tx trigger i tag r at),
      ))
]

closed_slots : XTunnel → ℕ → XRequest → XTunnel
closed_slots t i r = record t {
  requests = set t.requests i (cleaned r);
  req_count = (t.req_count + 65536 - 1) % 65536;
}

cleaned_invalid :
    (t : XTunnel) (i tag : ℕ) (r : XRequest)
    → get_elem? t.requests i ≡ some r
    → check_req_valid (closed_slots t i r) i tag ≡ false
unfolding check_req_valid closed_slots
cleaned_invalid t i tag r at =
    rw (get_elem?-set_self t.requests i (cleaned r) (get_elem?-lt t.requests i r at), valid)

valid_used :
    (t : XTunnel) (i tag : ℕ) (r : XRequest)
    → get_elem? t.requests i ≡ some r
    → r.tag ≡ tag
    → r.is_inused ≡ true
    → check_req_valid t i tag ≡ true
unfolding check_req_valid
valid_used t i tag r at e u = rw (at, valid, u) ((==_iff r.tag tag).1 e)

module _ (alive : ℕ → Bool) (io : ByteIo) where
  -- In a connected tunnel whose count, a u16, covers the slots in use, a request in use is closed
  -- once: the slot's task is woken and its socket shut down, one less is counted, the count still
  -- covers the slots, the close is sent if the channel is live, and closing the request again does
  -- nothing.
  pub xrequest_closed_once :
      (t : XTunnel) (tx req_idx req_tag : ℕ) (r : XRequest)
      → t.tun_tx ≡ some tx
      → get_elem? t.requests req_idx ≡ some r
      → r.tag ≡ req_tag
      → r.is_inused ≡ true
      → t.req_count < 65536
      → Covered t
      → (t' : XTunnel) × (on_request_closed alive io t req_idx req_tag
          ≡ ok (
            t',
            cleaning r
                ++ send alive tx
                    (encode (
                      head_fields 7 req_server_closed
                        (record { req_idx = req_idx; req_tag = req_tag })))
                    0,
          ))
        × Covered t'
        × (t'.req_count + 1 ≡ t.req_count)
        × (on_request_closed alive io t' req_idx req_tag ≡ ok (t', []))
  unfolding on_request_closed closed_slots
  xrequest_closed_once t tx i tag r c at e u n h = (
    closed_slots t i r,
    rw (valid_used t i tag r at e u, c, closed_on, free_used t.requests i tag r at e u)
        (rw (
          write_head_lem io 7 req_server_closed (record { req_idx = i; req_tag = tag }) 0 0 0 0 0 0
            0 [])),
    omega (arith, n, h, used-cleaned t.requests i r at u),
    omega (arith, n, h, used-cleaned t.requests i r at u),
    rw (cleaned_invalid t i tag r at),
  )

unused_invalid : (t : XTunnel) (i tag : ℕ) → used t.requests ≡ 0 → check_req_valid t i tag ≡ false
unfolding check_req_valid
unused_invalid t i tag h = elim (Option-cases (get_elem? t.requests i)) [
  | inl e ↦ rw (e, valid)
  | inr (r, e) ↦ rw (e, valid, used_none t.requests i r h e)
]

closed_unused :
    (t : XTunnel)
    → t.discarded ≡ false
    → (used (on_tunnel_closed t).0.requests ≡ 0) × ((on_tunnel_closed t).0.req_count ≡ t.req_count)
unfolding on_tunnel_closed
closed_unused t d = elim (Option-cases t.tun_tx) [
  | inl e ↦ rw (e, was_open) (used-clear_all t.requests, refl)
  | inr (tx, e) ↦ rw (e, was_open, d) (used-clear_all t.requests, refl)
]

closed_kept : (t : XTunnel) → t.discarded ≡ false → (on_tunnel_closed t).0.discarded ≡ false
unfolding on_tunnel_closed
closed_kept t d = elim (Option-cases t.tun_tx) [
  | inl e ↦ rw (e, was_open) d
  | inr (tx, e) ↦ rw (e, was_open, d)
]

created_keeps :
    (t : XTunnel) (rawfd tx : ℕ)
    → t.discarded ≡ false
    → let t' = (on_tunnel_created t rawfd tx).0 in
      (t'.tun_tx ≡ some tx) × (t'.requests ≡ t.requests) × (t'.req_count ≡ t.req_count)
unfolding on_tunnel_created
created_keeps t rawfd tx d = (simp d, simp d, simp d)

-- After the connection to the server is lost, of a tunnel that is not discarded, no request is in
-- use, and the count of requests stays as it was. So it is when a new connection was made: whatever
-- request of before is named, its data is refused, and its end neither changes nor sends anything.
pub on_tunnel_closed_stale :
    (alive : ℕ → Bool) (io : ByteIo) (t : XTunnel) (vec : List ℕ) (req_idx req_tag rawfd tx : ℕ)
    → t.discarded ≡ false
    → let lost = (on_tunnel_closed t).0 in
      let t' = (on_tunnel_created lost rawfd tx).0 in
      (used lost.requests ≡ 0)
      × (lost.req_count ≡ t.req_count)
      × (t'.tun_tx ≡ some tx)
      × (used t'.requests ≡ 0)
      × (t'.req_count ≡ t.req_count)
      × (on_request_msg alive io t' vec req_idx req_tag ≡ ok ([], false))
      × (on_request_recv_finished alive io t' req_idx req_tag ≡ ok [])
      × (on_request_closed alive io t' req_idx req_tag ≡ ok (t', []))
unfolding on_request_msg on_request_recv_finished on_request_closed
on_tunnel_closed_stale alive io t vec i tag rawfd tx d =
    let (h, n) = closed_unused t d in
    let lost = (on_tunnel_closed t).0 in
    let t' = (on_tunnel_created lost rawfd tx).0 in
    let (up, same, count) = created_keeps lost rawfd tx (closed_kept t d) in
    let none_used : used t'.requests ≡ 0 = ap used same ∙ h in
    let gone = unused_invalid t' i tag none_used in
    (h, n, up, none_used, count ∙ n, rw (up, gone), rw gone, rw gone)
