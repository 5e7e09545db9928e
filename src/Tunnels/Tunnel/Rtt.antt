-- ===== src/Tunnels/Tunnel/Rtt.antt =====
-- The keepalive of a tunnel: the window of five round-trip times and the count of open pings.
use lproxy_cv.Prelude.{
  ℕ, zero, suc, ◌+◌, ◌-◌, ◌*◌, ◌%◌, ◌^◌, ◌≤◌, ◌<◌, ◌≡◌, refl, Bool, true, false, some, List, [],
  ◌∷◌, arith, ltb, length, get_elem?, set, All, length-set, get_elem?-some, get_elem?-set_self,
  le→leb, ltb→lt, lt→leb, lt→ltb, le→ltb, sym, ◌&&◌, ◌⊎◌, Bool-cases, inl, inr, if◌then◌else◌,
}
use lproxy_cv.Prelude.Outcome.{ok, panic}
use lproxy_cv.Wire.{ByteIo, le_bytes, encode}
use lproxy_cv.Wire.Laws.{length-le_bytes, le_value-le_bytes}
use lproxy_cv.Tunnels.Header.{ping, cmd_code}
use lproxy_cv.Tunnels.Frames.Laws.{ping_frame_lem}
use lproxy_cv.Tunnels.Tunnel.{
  Tunnel, Effect, new, with_rtt, append_rtt, keep_alive_interval, on_pong, send_ping, pinging,
  pinged, send,
}

abbrev pub sum : List ℕ → ℕ
sum [] = 0
sum (x ∷ xs) = x + sum xs

-- The window has five entries, the position is one of them, and the running sum is the sum of the
-- entries as an i64.
pub record RttInv (t : Tunnel) : Type 0 where
  pub five : length t.rtt_queue ≡ 5
  pub at : t.rtt_index < 5
  pub entries : All (λ r. r < 2 ^ 64) t.rtt_queue
  pub total : t.rtt_sum ≡ sum t.rtt_queue % 2 ^ 64

sum-set : (xs : List ℕ) (i x y : ℕ) → get_elem? xs i ≡ some x → sum (set xs i y) + x ≡ sum xs + y
sum-set [] i x y h = absurd (ground arith)
sum-set (z ∷ xs) zero x y h = ground arith
sum-set (z ∷ xs) (suc i) x y h = omega (arith, sum-set xs i x y h)

All-set :
    (xs : List ℕ) (i y : ℕ)
    → All (λ r. r < 2 ^ 64) xs
    → y < 2 ^ 64
    → All (λ r. r < 2 ^ 64) (set xs i y)
All-set [] i y h hy = tt
All-set (z ∷ xs) zero y h hy = (hy, h.1)
All-set (z ∷ xs) (suc i) y h hy = (h.0, All-set xs i y h.1 hy)

All-get : (xs : List ℕ) (i x : ℕ) → All (λ r. r < 2 ^ 64) xs → get_elem? xs i ≡ some x → x < 2 ^ 64
All-get [] i x h e = absurd (ground arith)
All-get (z ∷ xs) zero x h e = ground arith
All-get (z ∷ xs) (suc i) x h e = All-get xs i x h.1 e

with_rtt-RttInv :
    (t : Tunnel) (rtt x : ℕ)
    → RttInv t
    → rtt < 2 ^ 64
    → get_elem? t.rtt_queue t.rtt_index ≡ some x
    → RttInv (with_rtt t rtt x)
with_rtt-RttInv t rtt x v h e = record {
  five = omega (arith, length-set t.rtt_queue t.rtt_index rtt, v.five);
  at = omega (arith, v.five);
  entries = All-set t.rtt_queue t.rtt_index rtt v.entries h;
  total = omega (
    arith,
    v.total,
    sum-set t.rtt_queue t.rtt_index x rtt e,
    All-get t.rtt_queue t.rtt_index x v.entries e,
  );
}

-- The count of pings is no part of the window.
recounted-RttInv : (t : Tunnel) (n : ℕ) → RttInv t → RttInv (record t { ping_count = n })
recounted-RttInv t n v = record { five = v.five; at = v.at; entries = v.entries; total = v.total }

-- A new entry below 2 ^ 64 is put into the window without a panic, and the window's invariant is
-- kept.
pub append_rtt-RttInv :
    (t : Tunnel) (rtt : ℕ)
    → RttInv t
    → rtt < 2 ^ 64
    → (x : ℕ) × (append_rtt t rtt ≡ ok (with_rtt t rtt x)) × RttInv (with_rtt t rtt x)
unfolding append_rtt
append_rtt-RttInv t rtt v h =
    let (x, e) = get_elem?-some t.rtt_queue t.rtt_index (omega (arith, v.five, v.at)) in
    (x, rw e, with_rtt-RttInv t rtt x v h e)

pub new-RttInv : (tx rawfd idx cap quota : ℕ) → RttInv (new tx rawfd idx cap quota)
unfolding new
new-RttInv tx rawfd idx cap quota = omega arith

abbrev pub ping_message : ℕ → List ℕ
ping_message now = encode ((2, 11) ∷ (1, cmd_code ping) ∷ (8, now) ∷ [])

-- What a ping leaves: the window's invariant, the requests as they were, a ping if fewer than six
-- are open, and their count.
pub record Pinged (alive : ℕ → Bool) (now : ℕ) (t t' : Tunnel) (effects : List Effect)
    (go_on : Bool) : Type 0 where
  pub window : RttInv t'
  pub requests : (t'.requests ≡ t.requests) × (t'.req_count ≡ t.req_count)
  pub shape : (t'.index ≡ t.index) × (t'.capacity ≡ t.capacity)
  pub bounded : t'.ping_count ≤ 6
  pub decides : go_on ≡ ltb t.ping_count 6
  pub kept : (go_on ≡ true) ⊎ (t' ≡ t)
  pub message : effects ≡ (if go_on then send alive t.tx (ping_message now) else [])
  pub counts : t'.ping_count ≡ (if go_on && alive t.tx then t.ping_count + 1 else t.ping_count)

module _ (alive : ℕ → Bool) (io : ByteIo) where
  pinged-ok :
      (t : Tunnel)
      → RttInv t
      → t.ping_count ≤ 5
      → (t' : Tunnel) × (pinged alive io t ≡ ok t')
        × RttInv t'
        × ((t'.requests ≡ t.requests) × (t'.req_count ≡ t.req_count))
        × ((t'.index ≡ t.index) × (t'.capacity ≡ t.capacity))
        × (t'.ping_count ≡ t.ping_count + 1)
  unfolding pinged
  pinged-ok t v h = elim (Bool-cases (ltb 0 t.ping_count)) [
    | inr first ↦ (
      record t { ping_count = (t.ping_count + 1) % 256 },
      rw first,
      recounted-RttInv t _ v,
      (refl, refl),
      (refl, refl),
      omega arith,
    )
    | inl later ↦
        let t' : Tunnel = record t { ping_count = (t.ping_count + 1) % 256 } in
        let rtt = t.ping_count * keep_alive_interval in
        let (x, e, v') = append_rtt-RttInv t' rtt (recounted-RttInv t _ v) (omega arith) in
        (with_rtt t' rtt x, rw later e, v', (refl, refl), (refl, refl), omega arith)
  ]

  pinging-Pinged :
      (t : Tunnel) (now : ℕ)
      → RttInv t
      → t.ping_count ≤ 5
      → (t' : Tunnel) × (effects : List Effect) × (pinging alive io t now ≡ ok (t', effects, true))
        × Pinged alive now t t' effects true
  unfolding pinging
  pinging-Pinged t now v h = elim (Bool-cases (alive t.tx)) [
    | inr dead ↦ (
      t,
      send alive t.tx (ping_message now),
      rw (ping_frame_lem io now, dead),
      record {
        window = v;
        requests = (refl, refl);
        shape = (refl, refl);
        bounded = omega arith;
        decides = sym (lt→ltb t.ping_count 6 (omega arith));
        kept = inl refl;
        message = refl;
        counts = rw dead;
      },
    )
    | inl live ↦
        let (t', e, v', same, shape, count) = pinged-ok t v h in
        (
          t',
          send alive t.tx (ping_message now),
          rw (ping_frame_lem io now, live, e),
          record {
            window = v';
            requests = same;
            shape = shape;
            bounded = omega (arith, count);
            decides = sym (lt→ltb t.ping_count 6 (omega arith));
            kept = inl refl;
            message = refl;
            counts = rw live count;
          },
        )
  ]

  -- With the window's invariant and at most six open pings `send_ping` does not panic and keeps
  -- both; with six it refuses and changes nothing, with fewer it goes on and counts one more if the
  -- channel is live. The requests, the place and the capacity stay as
  -- they are.
  pub send_ping-Pinged :
      (t : Tunnel) (now : ℕ)
      → RttInv t
      → t.ping_count ≤ 6
      → (t' : Tunnel) × (effects : List Effect) × (go_on : Bool) × (send_ping alive io t now
          ≡ ok (t', effects, go_on))
        × Pinged alive now t t' effects go_on
  unfolding send_ping
  send_ping-Pinged t now v h = elim (Bool-cases (ltb 5 t.ping_count)) [
    | inl full ↦ (
      t,
      [],
      false,
      rw full,
      record {
        window = v;
        requests = (refl, refl);
        shape = (refl, refl);
        bounded = h;
        decides = sym (le→ltb t.ping_count 6 (omega (arith, ltb→lt 5 t.ping_count full)));
        kept = inr refl;
        message = refl;
        counts = refl;
      },
    )
    | inr room ↦
        let (t', effects, e, p) = pinging-Pinged t now v (ground arith) in
        (t', effects, true, rw room e, p)
  ]

  -- With the window's invariant, a pong of eight bytes whose timestamp is not later than now resets
  -- the count of pings, puts its round-trip time into the window, keeps the invariant, and leaves
  -- the requests as they are.
  pub on_pong_resets :
      (t : Tunnel) (timestamp now : ℕ)
      → RttInv t
      → timestamp ≤ now
      → now < 2 ^ 64
      → (t' : Tunnel) × (on_pong alive io t (le_bytes 8 timestamp) now ≡ ok t')
        × RttInv t'
        × (t'.ping_count ≡ 0)
        × (get_elem? t'.rtt_queue t.rtt_index ≡ some (now - timestamp))
        × (t'.requests ≡ t.requests)
  unfolding on_pong
  on_pong_resets t timestamp now v h hn =
      let t0 : Tunnel = record t { ping_count = 0 } in
      let (x, e, v') =
        append_rtt-RttInv t0 (now - timestamp) (recounted-RttInv t 0 v) (omega arith) in
      (
        with_rtt t0 (now - timestamp) x,
        rw
            (
              length-le_bytes 8 timestamp,
              io.read_with_lem 8 (le_bytes 8 timestamp) 0,
              le_value-le_bytes 8 timestamp (omega arith),
              le→leb timestamp now h,
            )
            e,
        v',
        refl,
        get_elem?-set_self t.rtt_queue t.rtt_index _ (omega (arith, v.at, v.five)),
        refl,
      )

  -- A pong of eight bytes whose timestamp is later than now makes the `assert!` fail.
  pub on_pong_panics :
      (t : Tunnel) (timestamp now : ℕ)
      → now < timestamp
      → timestamp < 2 ^ 64
      → on_pong alive io t (le_bytes 8 timestamp) now ≡ panic
  unfolding on_pong
  on_pong_panics t timestamp now h hn = rw (
    length-le_bytes 8 timestamp,
    io.read_with_lem 8 (le_bytes 8 timestamp) 0,
    le_value-le_bytes 8 timestamp (omega arith),
    lt→leb timestamp now h,
  )
