-- ===== src/Dns/Resolver.antt =====
-- src/dns/lresolver.rs: `LocalResolver`, which asks a DNS server of the local network and keeps who
-- asked, for two keep-alives at most. A query is known by its name and its identity. Channels, the
-- trigger and the forwarder are numbers; what `bind` and `from_std` give is an argument.
pub mod Keys
pub mod Pending
use lproxy_cv.Prelude.{
  ℕ, Bool, true, false, Option, none, some, List, [], ◌∷◌, ◌++◌, if◌then◌else◌, same, show_u16,
}
use lproxy_cv.Prelude.Maps
use lproxy_cv.Prelude.Outcome.{Outcome, ok, unwrap, ◌>>=◌}
use lproxy_cv.Tunnels.Tunnel.{SocketAddr}

abbrev pub Memo : Type 0
Memo = List (List ℕ × SocketAddr)

pub record LocalResolver : Type 0 where
  pub tx : Option ℕ
  pub trigger : Option ℕ
  pub request_memo_history : Memo
  pub request_memo : Memo
  pub dns_server_addr : SocketAddr
  pub fw : Option ℕ

-- A query sent to the DNS server, or a datagram put on a channel for an address.
pub data Datagram : Type 0 where
  datagram : ℕ → List ℕ → SocketAddr → Datagram

-- The address is what `parse` gives.
unfoldable pub new : SocketAddr → LocalResolver
new dns_server_addr = record {
  tx = none;
  trigger = none;
  request_memo_history = [];
  request_memo = [];
  dns_server_addr = dns_server_addr;
  fw = none;
}

unfoldable pub set_tx : LocalResolver → ℕ → ℕ → LocalResolver
set_tx r tx2 trigger = record r { tx = some tx2; trigger = some trigger }

unfoldable pub invalid_tx : LocalResolver → LocalResolver
invalid_tx r = record r { tx = none; trigger = none }

-- `opened` is the channel and the trigger of a socket, or that there is none. `false` is `Err`.
unfoldable pub start : LocalResolver → Option (ℕ × ℕ) → ℕ → LocalResolver × Bool
start r none forward = (r, false)
start r (some (tx, trigger)) forward = (set_tx (record r { fw = some forward }) tx trigger, true)

-- The forwarder is taken out first.
unfoldable pub try_rebuild : LocalResolver → Option (ℕ × ℕ) → Outcome ⊥ (LocalResolver × Bool)
try_rebuild r opened = do rf ← unwrap r.fw; ok (start (record r { fw = none }) opened rf)

unfoldable pub stop : LocalResolver → LocalResolver
stop r = record r { tx = none; trigger = none; fw = none }

-- `qname:identify`
unfoldable pub key_of : List ℕ → ℕ → List ℕ
key_of qname identify = qname ++ (58 ∷ show_u16 identify)

-- By what the history has under the key.
unfoldable pub take_found :
    LocalResolver → List ℕ → Option SocketAddr → LocalResolver × Option SocketAddr
take_found r key (some a) =
    (record r { request_memo_history = Maps.remove same key r.request_memo_history }, some a)
take_found r key none = (
  record r { request_memo = Maps.remove same key r.request_memo },
  Maps.get same r.request_memo key,
)

unfoldable pub take : LocalResolver → List ℕ → ℕ → LocalResolver × Option SocketAddr
take r qname identify =
    let key = key_of qname identify in take_found r key (Maps.get same r.request_memo_history key)

-- The entries of a map, put into an empty one.
unfoldable pub drained : Memo → Memo
drained [] = []
drained ((k, v) ∷ l) = Maps.insert same k v (drained l)

unfoldable pub keepalive : LocalResolver → LocalResolver
keepalive r = record r { request_memo_history = drained r.request_memo; request_memo = [] }

-- Whether there is a forwarder to rebuild with; `false` is the early return.
unfoldable pub rebuilt :
    LocalResolver → Option (ℕ × ℕ) → Option ℕ → Option ℕ → Outcome ⊥ (LocalResolver × Bool)
rebuilt r opened (some tx) fw = ok (r, true)
rebuilt r opened none none = ok (r, false)
rebuilt r opened none (some rf) = try_rebuild r opened

module _ (alive : ℕ → Bool) where
  unfoldable pub asked :
      LocalResolver → List ℕ → List ℕ → SocketAddr → Option ℕ → LocalResolver × List Datagram
  asked r key bm src_addr none = (r, [])
  asked r key bm src_addr (some tx) = (
    record r { request_memo = Maps.insert same key src_addr r.request_memo },
    if alive tx then datagram tx bm r.dns_server_addr ∷ [] else [],
  )

  unfoldable pub request :
      LocalResolver
      → Option (ℕ × ℕ)
      → List ℕ
      → ℕ
      → List ℕ
      → SocketAddr
      → Outcome ⊥ (LocalResolver × List Datagram)
  request r opened qname identify bm src_addr = do
    (r', valid) ← rebuilt r opened r.tx r.fw
    ok (if valid then asked r' (key_of qname identify) bm src_addr r'.tx else (r', []))
