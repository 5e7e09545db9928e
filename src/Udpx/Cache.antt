-- ===== src/Udpx/Cache.antt =====
-- src/udpx/cache.rs and ustub.rs, and on_udp_proxy_south and on_ustub_closed of
-- src/udpx/udpxmgr.rs: the sockets by their source address, each with an entry of the delay queue.
-- The queue is tokio's: an interface whose laws are its documented behaviour. Channels, triggers and
-- descriptors are numbers; what the set-up of a socket gives is an argument.
pub mod Timed
pub mod Methods
pub mod Runs
use lproxy_cv.Prelude.{
  ℕ, zero, suc, ◌+◌, ◌%◌, ◌≡◌, ◌⊎◌, Bool, true, false, ◌&&◌, Option, none, some, List, [], ◌∷◌,
  ◌++◌, ◌==◌, if◌then◌else◌, length, get_elem?,
}
use lproxy_cv.Prelude.Maps
use lproxy_cv.Prelude.Outcome.{Outcome, ok, panic, unwrap, ◌>>=◌}
use lproxy_cv.Tunnels.Tunnel.{SocketAddr}
use lproxy_cv.Manager.Mgr.{same_ip}

-- `==` of socket addresses, which are the keys.
unfoldable pub same_addr : SocketAddr → SocketAddr → Bool
same_addr a b = same_ip a.ip b.ip && (a.port == b.port)

-- `DelayQueue<CacheKey>`: what is queued under a key, and the operations. `reset` and `remove` panic
-- on a key that is not queued. `poll_expired` gives an element whose time has come, if there is one.
pub record DelayQueue : Type 1 where
  pub Queue : Type 0
  pub queued : Queue → ℕ → Option SocketAddr
  pub empty : Queue
  pub insert : Queue → SocketAddr → ℕ → Queue × ℕ
  pub reset : Queue → ℕ → ℕ → Queue
  pub remove : Queue → ℕ → Queue
  pub clear : Queue → Queue
  pub poll_expired : Queue → Option (Queue × ℕ × SocketAddr)
  pub queued-empty : (key : ℕ) → queued empty key ≡ none
  pub insert_fresh :
      (q : Queue) (value : SocketAddr) (secs : ℕ) → queued q (insert q value secs).1 ≡ none
  pub queued-insert :
      (q : Queue) (value : SocketAddr) (secs key : ℕ)
      → queued (insert q value secs).0 key
        ≡ (if (insert q value secs).1 == key then some value else queued q key)
  pub queued-reset : (q : Queue) (k secs key : ℕ) → queued (reset q k secs) key ≡ queued q key
  pub queued-remove :
      (q : Queue) (k key : ℕ) → queued (remove q k) key ≡ (if k == key then none else queued q key)
  pub queued-clear : (q : Queue) (key : ℕ) → queued (clear q) key ≡ none
  pub expired :
      (q : Queue)
      → (poll_expired q ≡ none)
        ⊎ ((q' : Queue) × (k : ℕ) × (value : SocketAddr) × (poll_expired q ≡ some (q', k, value))
            × (queued q k ≡ some value)
            × ((key : ℕ) → queued q' key ≡ (if k == key then none else queued q key)))

pub record UStub : Type 0 where
  pub rawfd : ℕ
  pub tx : Option ℕ
  pub trigger : Option ℕ
  pub src_addr : SocketAddr

-- A datagram put on a channel, a descriptor closed, the purging task started.
pub data UdpEffect : Type 0 where
  datagram : ℕ → List ℕ → SocketAddr → UdpEffect
  close_rawfd : ℕ → UdpEffect
  task_keepalive : UdpEffect

abbrev pub ttl_secs : ℕ
ttl_secs = 60

-- `UStub::cleanup`: the stub itself is dropped where this is called.
unfoldable pub cleanup_stub : UStub → UStub × List UdpEffect
cleanup_stub s = (record s { tx = none; trigger = none }, close_rawfd s.rawfd ∷ [])

-- `UStub::new`, by the descriptor, the channel and the trigger of the socket, if it can be made.
unfoldable pub new_stub : SocketAddr → Option (ℕ × ℕ × ℕ) → Option UStub
new_stub src_addr none = none
new_stub src_addr (some (rawfd, tx, trigger)) =
    some (record { rawfd = rawfd; tx = some tx; trigger = some trigger; src_addr = src_addr })

-- A stub and its key in the delay queue.
pub record Entry : Type 0 where
  pub stub : UStub
  pub delay : ℕ

module _ (D : DelayQueue) where
  open D use {Queue, queued}

  pub record Cache : Type 0 where
    pub entries : List (SocketAddr × Entry)
    pub expirations : Queue
    pub is_in_keepalive : Bool

  unfoldable pub new : Cache
  new = record { entries = []; expirations = D.empty; is_in_keepalive = false }

  unfoldable pub insert : Cache → SocketAddr → UStub → Cache × List UdpEffect
  insert c key value =
      let (q, delay) = D.insert c.expirations key ttl_secs in
      (
        record {
          entries = Maps.insert same_addr key (record { stub = value; delay = delay }) c.entries;
          expirations = q;
          is_in_keepalive = true;
        },
        if c.is_in_keepalive then [] else task_keepalive ∷ [],
      )

  -- The end of the purging task.
  unfoldable pub keepalive_ended : Cache → Cache
  keepalive_ended c = record c { is_in_keepalive = false }

  -- The queue's methods on a key.
  abbrev pub checked : {A : Type 0} → Option SocketAddr → A → Outcome ⊥ A
  checked none a = panic
  checked (some value) a = ok a

  got : Cache → Option Entry → Outcome ⊥ (Cache × Option UStub)
  got c none = ok (c, none)
  got c (some e) =
      checked (queued c.expirations e.delay)
        (record c { expirations = D.reset c.expirations e.delay ttl_secs }, some e.stub)

  unfoldable pub get : Cache → SocketAddr → Outcome ⊥ (Cache × Option UStub)
  unfolding got
  get c key = got c (Maps.get same_addr c.entries key)

  closes : List (SocketAddr × Entry) → List UdpEffect
  closes [] = []
  closes ((a, e) ∷ l) = (cleanup_stub e.stub).1 ++ closes l

  unfoldable pub cleanup : Cache → Cache × List UdpEffect
  unfolding closes
  cleanup c = (record c { entries = []; expirations = D.clear c.expirations }, closes c.entries)

  removed : Cache → SocketAddr → Option Entry → Outcome ⊥ Cache
  removed c key none = ok c
  removed c key (some e) = checked (queued c.expirations e.delay) (record c {
    entries = Maps.remove same_addr key c.entries;
    expirations = D.remove c.expirations e.delay;
  })

  unfoldable pub remove : Cache → SocketAddr → Outcome ⊥ Cache
  unfolding removed
  remove c key = removed c key (Maps.get same_addr c.entries key)

  purged : Option Entry → List UdpEffect
  purged none = []
  purged (some e) = (cleanup_stub e.stub).1

  -- A round of the loop of `poll_purge` at an expired element.
  unfoldable pub purge_one : Cache → Queue → SocketAddr → Cache × List UdpEffect
  unfolding purged
  purge_one c q key = (
    record c { entries = Maps.remove same_addr key c.entries; expirations = q },
    purged (Maps.get same_addr c.entries key),
  )

  -- The loop, for as many rounds; it ends where no element is expired, as it does at an error of
  -- the timer.
  unfoldable pub poll_purge : ℕ → Cache → Cache × List UdpEffect
  poll_purge zero c = (c, [])
  poll_purge (suc rounds) c = elim (D.poll_expired c.expirations) [
    | none ↦ (c, [])
    | some e ↦
        let (c1, closed) = purge_one c e.0 e.2 in
        let (c2, more) = poll_purge rounds c1 in (c2, closed ++ more)
  ]

  module _ (alive : ℕ → Bool) where
    handed : Option ℕ → List ℕ → SocketAddr → List UdpEffect
    handed none msg dst_addr = []
    handed (some tx) msg dst_addr = if alive tx then datagram tx msg dst_addr ∷ [] else []

    -- `UStub::on_udp_proxy_south`, if there is a stub.
    unfoldable pub to_stub : Option UStub → List ℕ → SocketAddr → List UdpEffect
    unfolding handed
    to_stub none msg dst_addr = []
    to_stub (some s) msg dst_addr = handed s.tx msg dst_addr

    -- `build_ustub`
    unfoldable pub build_ustub : Cache → SocketAddr → Option (ℕ × ℕ × ℕ) → Cache × List UdpEffect
    build_ustub c src_addr opened = elim (new_stub src_addr opened) [
      | none ↦ (c, [])
      | some s ↦ insert c src_addr s
    ]

    -- The stub that was looked up, or one that is built.
    found_or_built :
        Cache
        → Option UStub
        → SocketAddr
        → Option (ℕ × ℕ × ℕ)
        → Outcome ⊥ (Cache × Option UStub × List UdpEffect)
    found_or_built c (some s) src_addr opened = ok (c, some s, [])
    found_or_built c none src_addr opened = do
      let (c1, started) = build_ustub c src_addr opened
      (c2, stub) ← get c1 src_addr
      ok (c2, stub, started)

    unfoldable pub on_udp_proxy_south :
        Cache
        → Option (ℕ × ℕ × ℕ)
        → List ℕ
        → SocketAddr
        → SocketAddr
        → Outcome ⊥ (Cache × List UdpEffect)
    unfolding found_or_built
    on_udp_proxy_south c opened msg src_addr dst_addr = do
      (c1, stub) ← get c src_addr
      (c2, stub2, started) ← found_or_built c1 stub src_addr opened
      ok (c2, started ++ to_stub stub2 msg dst_addr)
