-- ===== src/Service/Acclog.antt =====
-- src/service/acclog.rs: `AccLog`, the names of addresses by the DNS answers, and for each name who
-- has reached it. A set is the map from its members to the unit. `show_ip` is the standard library's
-- text of an address.
pub mod Accessed
use lproxy_cv.Prelude.{
  ℕ, ◌+◌, ◌*◌, Bool, true, false, Option, none, some, List, [], ◌∷◌, ◌++◌, map, same,
}
use lproxy_cv.Prelude.Maps
use lproxy_cv.Tunnels.Frames.{IpAddr, v4, v6}
use lproxy_cv.Manager.Mgr.{same_ip}
use lproxy_cv.Dns.Tunnel.{u32_of}

abbrev pub IpSet : Type 0
IpSet = List (IpAddr × Unit {0})

-- `dns_records` of `DNSAddRecord`: names and addresses.
unfoldable pub add : List (List ℕ × IpAddr) → IpAddr → List ℕ → List (List ℕ × IpAddr)
add dns_records ip name = dns_records ++ ((name, ip) ∷ [])

pub record AccLog : Type 0 where
  pub domains : List (IpAddr × List ℕ)
  pub acc_domains : List (List ℕ × IpSet)

unfoldable pub new : AccLog
new = record { domains = []; acc_domains = [] }

-- `domain` and `srcIP` of `AccDomain`.
pub record AccDomain : Type 0 where
  pub domain : List ℕ
  pub src_ip : List ℕ

unfoldable pub set_of : Option IpSet → IpSet
set_of none = []
set_of (some s) = s

module _ (show_ip : IpAddr → List ℕ) where
  unfoldable pub named : Option (List ℕ) → IpAddr → List ℕ
  named (some domain) dst_ip = domain
  named none dst_ip = show_ip dst_ip

  unfoldable pub name_of : AccLog → IpAddr → List ℕ
  unfolding named
  name_of l dst_ip = named (Maps.get same_ip l.domains dst_ip) dst_ip

  -- One round of `log`.
  unfoldable pub log_one : AccLog → IpAddr → IpAddr → AccLog
  log_one l src_ip dst_ip =
      let domain = name_of l dst_ip in
      record l {
        acc_domains =
            Maps.insert same domain
              (Maps.insert same_ip src_ip tt (set_of (Maps.get same l.acc_domains domain)))
              l.acc_domains;
      }

  unfoldable pub log : AccLog → List (IpAddr × IpAddr) → AccLog
  log l [] = l
  log l ((src_ip, dst_ip) ∷ v) = log (log_one l src_ip dst_ip) v

unfoldable pub domain_add : AccLog → List (List ℕ × IpAddr) → AccLog
domain_add l [] = l
domain_add l ((name, ip) ∷ dns_records) =
    domain_add (record l { domains = Maps.insert same_ip ip name l.domains }) dns_records

unfoldable pub clear_log : AccLog → AccLog
clear_log l = record l { acc_domains = [] }

unfoldable pub is_empty : AccLog → Bool
is_empty l = elim l.acc_domains [ [] ↦ true | ◌∷◌ e rest ↦ false ]

src_ips : IpSet → List ℕ
src_ips [] = []
src_ips ((v4 octets, u) ∷ s) = u32_of octets ∷ src_ips s
src_ips ((v6 segments, u) ∷ s) = src_ips s

dumped : List (List ℕ × IpSet) → List AccDomain
unfolding src_ips
dumped [] = []
dumped ((k, ad) ∷ l) = record { domain = k; src_ip = src_ips ad } ∷ dumped l

unfoldable pub dump_to_pb : AccLog → List AccDomain
unfolding dumped
dump_to_pb l = dumped l.acc_domains
