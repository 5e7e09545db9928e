-- ===== src/Dns/Forwarder/Fastest.antt =====
-- `alloc_tunnel_for_req` takes the first of the tunnels with the least round-trip time.
use lproxy_cv.Prelude.{
  ℕ, suc, ◌≤◌, ◌<◌, ◌≡◌, refl, ◌⊎◌, inl, inr, false, Bool-cases, Option, none, some, List, [], ◌∷◌,
  arith, ltb, ltb→lt, ◌==◌, length, get_elem?, take, All,
}
use lproxy_cv.Prelude.Outcome.{ok}
use lproxy_cv.Dns.Tunnel.{DnsTunnel, div_i64, ordinal, get_rtt}
use lproxy_cv.Dns.Forwarder.{Forwarder, fastest_after, i64_max, alloc_tunnel_for_req}

-- The mean of the window, in the order of i64.
abbrev pub speed : DnsTunnel → ℕ
speed t = ordinal (div_i64 t.rtt_sum (length t.rtt_queue))

-- A tunnel, if there is one, has a window.
abbrev pub Measured : Option DnsTunnel → Type 0
Measured none = Unit {0}
Measured (some t) = 1 ≤ length t.rtt_queue

abbrev pub AtLeast : ℕ → Option DnsTunnel → Type 0
AtLeast k none = Unit {0}
AtLeast k (some t) = k ≤ speed t

abbrev pub Above : ℕ → Option DnsTunnel → Type 0
Above k none = Unit {0}
Above k (some t) = k < speed t

-- The first tunnel of the least mean, which is below a bound.
pub record IsFastest (ts : List (Option DnsTunnel)) (bound : ℕ) (r : Option DnsTunnel)
    : Type 0 where
  pub tun : DnsTunnel
  pub idx : ℕ
  pub result : r ≡ some tun
  pub entry : get_elem? ts idx ≡ some (some tun)
  pub below : speed tun < bound
  pub least : All (AtLeast (speed tun)) ts
  pub first : All (Above (speed tun)) (take idx ts)

get_rtt_lem :
    (t : DnsTunnel)
    → 1 ≤ length t.rtt_queue
    → get_rtt t ≡ ok (div_i64 t.rtt_sum (length t.rtt_queue))
unfolding get_rtt
get_rtt_lem t h = let e : (length t.rtt_queue == 0) ≡ false = ground arith in rw e

later :
    (x : Option DnsTunnel) (ts : List (Option DnsTunnel)) (b c : ℕ) (r : Option DnsTunnel)
    → (f : IsFastest ts b r) → speed f.tun < c
    → AtLeast (speed f.tun) x
    → Above (speed f.tun) x
    → IsFastest (x ∷ ts) c r
later x ts b c r f h l a = record {
  tun = f.tun;
  idx = suc f.idx;
  result = f.result;
  entry = f.entry;
  below = h;
  least = (l, f.least);
  first = (a, f.first);
}

not_below : (a b : ℕ) → ltb a b ≡ false → b ≤ a
not_below a b e = ground (arith, e)

below_both : (a b c : ℕ) → a < b → b ≤ c → a < c
below_both a b c h l = omega arith

weaker : (a b : ℕ) → a < b → a ≤ b
weaker a b h = omega arith

fastest_after_lem :
    (ts : List (Option DnsTunnel)) (rtt : ℕ) (sel : Option DnsTunnel)
    → All Measured ts
    → (r : Option DnsTunnel) × (fastest_after ts rtt sel ≡ ok r)
      × (((r ≡ sel) × All (AtLeast (ordinal rtt)) ts) ⊎ IsFastest ts (ordinal rtt) r)
unfolding fastest_after
fastest_after_lem [] rtt sel h = (sel, refl, inl (refl, tt))
fastest_after_lem (none ∷ ts) rtt sel h =
    let (r, e, s) = fastest_after_lem ts rtt sel h.1 in
    (
      r,
      e,
      elim s [
        | inl (same, all) ↦ inl (same, (tt, all))
        | inr f ↦ inr (later none ts (ordinal rtt) (ordinal rtt) r f f.below tt tt)
      ],
    )
fastest_after_lem (some t ∷ ts) rtt sel h =
    let rtt_tun = div_i64 t.rtt_sum (length t.rtt_queue) in
    elim (Bool-cases (ltb (speed t) (ordinal rtt))) [
      | inl y ↦
          let now = ltb→lt (speed t) (ordinal rtt) y in
          let (r, e, s) = fastest_after_lem ts rtt_tun (some t) h.1 in
          (
            r,
            rw (get_rtt_lem t h.0, y) e,
            inr (elim s [
              | inl (same, all) ↦ record {
                tun = t;
                idx = 0;
                result = same;
                entry = refl;
                below = now;
                least = (same_speed (speed t), all);
                first = tt;
              }
              | inr f ↦
                  later (some t) ts (speed t) (ordinal rtt) r f
                    (below_both (speed f.tun) (speed t) (ordinal rtt) f.below
                      (weaker (speed t) (ordinal rtt) now))
                    (weaker (speed f.tun) (speed t) f.below) f.below
            ]),
          )
      | inr n ↦
          let at_least = not_below (speed t) (ordinal rtt) n in
          let (r, e, s) = fastest_after_lem ts rtt sel h.1 in
          (
            r,
            rw (get_rtt_lem t h.0, n) e,
            elim s [
              | inl (same, all) ↦ inl (same, (at_least, all))
              | inr f ↦
                  let above = below_both (speed f.tun) (ordinal rtt) (speed t) f.below at_least in
                  inr (
                    later (some t) ts (ordinal rtt) (ordinal rtt) r f f.below
                      (weaker (speed f.tun) (speed t) above) above)
            ],
          )
    ]
  where
    same_speed : (a : ℕ) → a ≤ a
    same_speed a = omega arith

-- Where each tunnel of the forwarder has a window, `alloc_tunnel_for_req` does not panic: it takes
-- the first tunnel of the least mean round-trip time, or none where no tunnel has one below the
-- greatest i64.
pub alloc_tunnel_for_req-IsFastest :
    (fw : Forwarder)
    → All Measured fw.tunnels
    → (r : Option DnsTunnel) × (alloc_tunnel_for_req fw ≡ ok r)
      × (((r ≡ none) × All (AtLeast (ordinal i64_max)) fw.tunnels)
          ⊎ IsFastest fw.tunnels (ordinal i64_max) r)
unfolding alloc_tunnel_for_req
alloc_tunnel_for_req-IsFastest fw h = fastest_after_lem fw.tunnels i64_max none h
