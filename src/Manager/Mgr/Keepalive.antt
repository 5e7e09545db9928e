-- ===== src/Manager/Mgr/Keepalive.antt =====
-- `keepalive` and `stop`: the pings of every tunnel, the reconnections, and the end.
use mathlib.Core.List.{Permᴰ}
use mathlib.Core.Option.{some-injective}
use lproxy_cv.Prelude.{
  ℕ, zero, suc, ◌+◌, ◌≡◌, refl, sym, ap, ◌∙◌, subst, Bool, false, Option, none, some, List, [], ◌∷◌,
  ◌++◌, append_assoc, map, arith, length, length-map, get_elem?, if◌then◌else◌,
}
use lproxy_cv.Prelude.Outcome.{ok}
use lproxy_cv.Wire.{ByteIo}
use lproxy_cv.Tunnels.Reqq.Invariant.{Inv}
use lproxy_cv.Tunnels.Tunnel.{Tunnel, Effect, shut_down, on_closed, reset_busy, close_rawfd}
use lproxy_cv.Tunnels.Tunnel.Rtt.{send_ping-Pinged}
use lproxy_cv.Manager.Mgr.{
  TunMgr, MgrEffect, of_tunnel, connect, on_tunnel_closed, reset, sort_tunnels_by_busy,
  process_reconnect, report_access_log, close_of, closes, stop, ping_one, send_pings, keepalive,
}
use lproxy_cv.Manager.Mgr.Table.{MgrInv, EntryAt, Tuns, map-Tuns}
use lproxy_cv.Manager.Mgr.Upkeep.{on_tunnel_closed-MgrInv}

reset-EntryAt : (i : ℕ) (t : Option Tunnel) → EntryAt i t → EntryAt i (reset t)
unfolding reset reset_busy
reset-EntryAt i none v = tt
reset-EntryAt i (some t) v = record {
  place = v.place;
  requests = record {
    table = v.requests.table;
    small = v.requests.small;
    counted = v.requests.counted;
  };
  window = record {
    five = v.window.five;
    at = v.window.at;
    entries = v.window.entries;
    total = v.window.total;
  };
  pings = v.pings;
  room = v.room;
  below = v.below;
}

module _ (sort_by : (ℕ → Option (Option ℕ)) → List ℕ → List ℕ)
    (sorts : (busy : ℕ → Option (Option ℕ)) (l : List ℕ) → Permᴰ (sort_by busy l) l) where
  -- The sort keeps the order one of each index, and the reset busy bytes change no other part.
  pub sort_tunnels_by_busy-MgrInv :
      (m : TunMgr) → MgrInv m → MgrInv (sort_tunnels_by_busy sort_by m)
  unfolding sort_tunnels_by_busy
  sort_tunnels_by_busy-MgrInv m v = record {
    ordered = record {
      size = length-map m.tunnels reset ∙ v.ordered.size;
      sorted = Permᴰ.trans (sorts _ m.sorted_tun_indies) v.ordered.sorted;
      current = v.ordered.current;
      small = v.ordered.small;
    };
    tuns = map-Tuns reset reset-EntryAt m.tunnels 0 v.tuns;
  }

module _ (alive : ℕ → Bool) (io : ByteIo) (now : ℕ → ℕ) where
  ping_one-EntryAt :
      (i : ℕ) (t : Option Tunnel)
      → EntryAt i t
      → (p : Option Tunnel × List Effect) × (ping_one alive io now t ≡ ok p) × EntryAt i p.0
  unfolding ping_one
  ping_one-EntryAt i none v = ((none, []), refl, tt)
  ping_one-EntryAt i (some t) v =
      let (t', effects, go_on, e, g) = send_ping-Pinged alive io t (now t.index) v.window v.pings in
      (
        (some t', effects ++ (if go_on then [] else close_rawfd t')),
        rw e,
        record {
          place = g.shape.0 ∙ v.place;
          requests = record {
            table = subst Inv (sym g.requests.0) v.requests.table;
            small = omega (arith, ap (λ q. length q.elements) g.requests.0, v.requests.small);
            counted = omega (
              arith,
              ap (λ q. length q.elements) g.requests.0,
              ap (λ q. length q.free) g.requests.0,
              g.requests.1,
              v.requests.counted,
            );
          };
          window = g.window;
          pings = g.bounded;
          room = omega (arith, ap (λ q. length q.elements) g.requests.0, g.shape.1, v.room);
          below = omega (arith, g.requests.1, v.below);
        },
      )

  send_pings-Tuns :
      (ts : List (Option Tunnel)) (b : ℕ)
      → Tuns b ts
      → (p : List (Option Tunnel) × List Effect) × (send_pings alive io now ts ≡ ok p)
        × Tuns b p.0
        × (length p.0 ≡ length ts)
  unfolding send_pings
  send_pings-Tuns [] b v = (([], []), refl, tt, refl)
  send_pings-Tuns (t ∷ ts) b v =
      let ((t', some_effects), e, w) = ping_one-EntryAt b t v.0 in
      let ((ts', more), f, ws, n) = send_pings-Tuns ts (b + 1) v.1 in
      ((t' ∷ ts', some_effects ++ more), rw (e, f), (w, ws), ap suc n)

  module _ (sort_by : (ℕ → Option (Option ℕ)) → List ℕ → List ℕ)
      (sorts : (busy : ℕ → Option (Option ℕ)) (l : List ℕ) → Permᴰ (sort_by busy l) l) where
    -- With a sort that permutes, in a manager with the invariant that is not stopped, the
    -- keep-alive does not panic and keeps the invariant; it pings the tunnels, begins a connection
    -- for each index of the reconnect queue, which is then empty, and reports the accesses, of
    -- which none are left.
    pub keepalive-MgrInv :
        (m : TunMgr)
        → MgrInv m
        → m.discarded ≡ false
        → (m' : TunMgr) × (pings : List Effect) × (keepalive alive io sort_by m now
            ≡ ok (
              m',
              map of_tunnel pings ++ (map connect m.reconnect_queue ++ (report_access_log m).1),
            ))
          × MgrInv m'
          × (m'.reconnect_queue ≡ [])
          × (m'.access_log ≡ [])
    unfolding keepalive sort_tunnels_by_busy process_reconnect report_access_log
    keepalive-MgrInv m v h =
        let w = sort_tunnels_by_busy-MgrInv sort_by sorts m v in
        let m1 = sort_tunnels_by_busy sort_by m in
        let ((ts, pings), e, ws, n) = send_pings-Tuns m1.tunnels 0 w.tuns in
        (
          record m1 { tunnels = ts; reconnect_queue = []; access_log = [] },
          pings,
          simp (h, e),
          record {
            ordered = record {
              size = n ∙ w.ordered.size;
              sorted = w.ordered.sorted;
              current = v.ordered.current;
              small = v.ordered.small;
            };
            tuns = ws;
          },
          refl,
          refl,
        )

    -- With a sort that permutes, in a manager with the invariant that is not stopped: where a
    -- tunnel closes, the next keep-alive begins a connection for its index.
    pub closed_reconnects :
        (m : TunMgr) (i : ℕ) (tun : Tunnel)
        → MgrInv m
        → m.discarded ≡ false
        → get_elem? m.tunnels i ≡ some (some tun)
        → (m1 : TunMgr) × (on_tunnel_closed m i ≡ ok (m1, some (on_closed tun)))
          × ((m2 : TunMgr) × (before : List MgrEffect) × (after : List MgrEffect) × (keepalive alive
                  io sort_by m1 now
                ≡ ok (m2, before ++ (connect i ∷ after)))
              × MgrInv m2)
    closed_reconnects m i tun v h e =
        let (m1, c, w, empty, q, d, again) = on_tunnel_closed-MgrInv m i tun v e in
        let (m2, pings, k, w2, queue, log) = keepalive-MgrInv m1 w (d ∙ h) in
        let back : m1.reconnect_queue ≡ i ∷ m.reconnect_queue =
          q ∙ ap (λ b. if b then m.reconnect_queue else i ∷ m.reconnect_queue) h in
        (
          m1,
          c,
          (
            m2,
            map of_tunnel pings,
            map connect m.reconnect_queue ++ (report_access_log m1).1,
            k
                ∙ ap
                    (λ l.
                      ok (m2, map of_tunnel pings ++ (map connect l ++ (report_access_log m1).1)))
                    back,
            w2,
          ),
        )

closes-shut :
    (ts : List (Option Tunnel)) (i : ℕ) (t : Tunnel)
    → get_elem? ts i ≡ some (some t)
    → (before : List MgrEffect) × (after : List MgrEffect) × (closes ts
        ≡ before ++ (of_tunnel (shut_down t.rawfd) ∷ after))
unfolding closes close_of close_rawfd
closes-shut [] i t e = absurd (ground arith)
closes-shut (x ∷ ts) zero t e = ([], closes ts, rw (some-injective x (some t) e))
closes-shut (x ∷ ts) (suc i) t e =
    let (before, after, f) = closes-shut ts i t e in
    (
      close_of x ++ before,
      after,
      rw f (sym (append_assoc (close_of x) before (of_tunnel (shut_down t.rawfd) ∷ after))),
    )

-- To stop a manager that is not stopped shuts down the socket of every tunnel of its table.
pub stop_shuts :
    (m : TunMgr) (i : ℕ) (t : Tunnel)
    → m.discarded ≡ false
    → get_elem? m.tunnels i ≡ some (some t)
    → (before : List MgrEffect) × (after : List MgrEffect) × ((stop m).1
        ≡ before ++ (of_tunnel (shut_down t.rawfd) ∷ after))
unfolding stop
stop_shuts m i t h e = simp h (closes-shut m.tunnels i t e)
