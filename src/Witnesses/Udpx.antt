-- ===== src/Witnesses/Udpx.antt =====
-- The theorems on the cache of sockets, with a delay queue as a list of its elements.
use lproxy_cv.Prelude.{
  ℕ, ◌+◌, ◌<◌, ◌≡◌, refl, ◌⊎◌, inl, inr, true, false, Option, none, some, List, [], ◌∷◌, arith,
  ◌==◌, ==_iff, ==_refl, if◌then◌else◌, same,
}
use lproxy_cv.Prelude.Maps
use lproxy_cv.Prelude.Maps.{IsEq}
use lproxy_cv.Prelude.Outcome.{ok}
use lproxy_cv.Tunnels.Frames.{v4}
use lproxy_cv.Tunnels.Tunnel.{SocketAddr}
use lproxy_cv.Manager.Mgr.{same_ip}
use lproxy_cv.Udpx.Cache.{
  same_addr, DelayQueue, task_keepalive, datagram, Cache, new, get, insert, build_ustub, new_stub,
  to_stub, poll_purge, on_udp_proxy_south,
}
use lproxy_cv.Udpx.Cache.Runs.{south, purge, Run, stop, next, reachable-CacheInv}
use lproxy_cv.Udpx.Cache.Timed.{CacheInv}
use lproxy_cv.Witnesses.{alive}

abbrev Elements : Type 0
Elements = List (ℕ × SocketAddr)

abbrev total : Elements → ℕ
total [] = 0
total ((k, a) ∷ q) = k + total q

beyond : (q : Elements) (key : ℕ) → total q < key → Maps.get ◌==◌ q key ≡ none
unfolding Maps.get
beyond [] key h = refl
beyond ((k, a) ∷ q) key h =
    let n : (k == key) ≡ false = ground arith in rw n (beyond q key (omega arith))

keys-IsEq : IsEq ◌==◌
keys-IsEq = record { sound = λ a b. (==_iff a b).0; reflexive = ==_refl }

first : Elements → Option (Elements × ℕ × SocketAddr)
first [] = none
first ((k, a) ∷ q) = some (Maps.remove ◌==◌ k ((k, a) ∷ q), k, a)

first_lem :
    (q : Elements)
    → (first q ≡ none)
      ⊎ ((q' : Elements) × (k : ℕ) × (value : SocketAddr) × (first q ≡ some (q', k, value))
          × (Maps.get ◌==◌ q k ≡ some value)
          × ((key : ℕ) → Maps.get ◌==◌ q' key ≡ (if k == key then none else Maps.get ◌==◌ q key)))
unfolding Maps.get first
first_lem [] = inl refl
first_lem ((k, a) ∷ q) = inr (
  Maps.remove ◌==◌ k ((k, a) ∷ q),
  k,
  a,
  refl,
  rw (==_refl k),
  λ key. Maps.get-remove ◌==◌ keys-IsEq k key ((k, a) ∷ q),
)

none_queued : (key : ℕ) → Maps.get {V = SocketAddr} ◌==◌ [] key ≡ none
unfolding Maps.get
none_queued key = refl

abbrev queue : DelayQueue
queue = record {
  Queue = Elements;
  queued = Maps.get ◌==◌;
  empty = [];
  insert = λ q value secs. (Maps.insert ◌==◌ (total q + 1) value q, total q + 1);
  reset = λ q key secs. q;
  remove = λ q key. Maps.remove ◌==◌ key q;
  clear = λ q. [];
  poll_expired = first;
  queued-empty = none_queued;
  insert_fresh = λ q value secs. beyond q (total q + 1) (omega arith);
  queued-insert = λ q value secs key. Maps.get-insert ◌==◌ keys-IsEq (total q + 1) key value q;
  queued-reset = λ q k secs key. refl;
  queued-remove = λ q k key. Maps.get-remove ◌==◌ keys-IsEq k key q;
  queued-clear = λ q key. none_queued key;
  expired = first_lem;
}

abbrev peer : SocketAddr
peer = record { ip = v4 (8 ∷ 8 ∷ 8 ∷ 8 ∷ []); port = 53 }

abbrev client : SocketAddr
client = record { ip = v4 (192 ∷ 168 ∷ 1 ∷ 2 ∷ []); port = 5353 }

abbrev opened : Option (ℕ × ℕ × ℕ)
opened = some (9, 7, 8)

abbrev served : Cache queue
served = record {
  entries =
      (
        peer,
        record {
          stub = record { rawfd = 9; tx = some 7; trigger = some 8; src_addr = peer };
          delay = 1;
        },
      )
      ∷ [];
  expirations = (1, peer) ∷ [];
  is_in_keepalive = true;
}

serves :
    on_udp_proxy_south queue alive (new queue) opened (1 ∷ 2 ∷ []) peer client
    ≡ ok (served, task_keepalive ∷ datagram 7 (1 ∷ 2 ∷ []) client ∷ [])
unfolding new on_udp_proxy_south get insert build_ustub new_stub to_stub Maps.get Maps.remove
    same_addr same_ip same
serves = refl

run : Run queue alive (new queue) (poll_purge queue 2 served).0
run =
    next
      (south opened (1 ∷ 2 ∷ []) peer client (task_keepalive ∷ datagram 7 (1 ∷ 2 ∷ []) client ∷ [])
        serves)
      (next (purge 2) stop)

reachable-CacheInv_example : CacheInv queue (poll_purge queue 2 served).0
reachable-CacheInv_example = reachable-CacheInv queue alive (poll_purge queue 2 served).0 run
