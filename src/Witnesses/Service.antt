-- ===== src/Witnesses/Service.antt =====
-- The theorems on the record of accesses at two answers for one address, and on the tunnel managers
-- at two of them.
use lproxy_cv.Prelude.{ℕ, ◌≡◌, refl, ◌||◌, List, [], ◌∷◌}
use lproxy_cv.Prelude.Outcome.{ok}
use lproxy_cv.Requests.ReqMgr.{accept_all}
use lproxy_cv.Requests.ReqMgr.InTurn.{in_turn, accept_all-in_turn}
use lproxy_cv.Witnesses.{alive}
use lproxy_cv.Tunnels.Frames.{IpAddr, v4}
use lproxy_cv.Service.Acclog.{AccLog, log, domain_add}
use lproxy_cv.Service.Acclog.Accessed.{has_reached, any_access, told_name, log-domain_add}
use lproxy_cv.Witnesses.Dns.{name}

abbrev show_ip : IpAddr → List ℕ
show_ip ip = 49 ∷ []

abbrev empty : AccLog
empty = record { domains = []; acc_domains = [] }

abbrev router : IpAddr
router = v4 (192 ∷ 168 ∷ 1 ∷ 2 ∷ [])

abbrev server : IpAddr
server = v4 (10 ∷ 0 ∷ 0 ∷ 1 ∷ [])

abbrev answers : List (List ℕ × IpAddr)
answers = (103 ∷ [], server) ∷ (name, server) ∷ []

log-domain_add_example :
    has_reached (log show_ip (domain_add empty answers) ((router, server) ∷ [])) name router ≡ (
      has_reached empty name router
      || any_access (told_name show_ip empty answers) ((router, server) ∷ []) name router)
log-domain_add_example = log-domain_add show_ip empty answers ((router, server) ∷ []) name router

accept_all-in_turn_example :
    (last : ℕ) × (accept_all alive
        (record { tmstubs = 3 ∷ 4 ∷ []; tmindex = 0; accepted = 7 })
        (8 ∷ 9 ∷ [])
      ≡ ok (
        record { tmstubs = 3 ∷ 4 ∷ []; tmindex = 0; accepted = last },
        in_turn alive (3 ∷ 4 ∷ []) (8 ∷ 9 ∷ []),
      ))
accept_all-in_turn_example = accept_all-in_turn alive 3 (4 ∷ []) (8 ∷ 9 ∷ []) 7 refl
