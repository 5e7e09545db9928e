-- ===== src/Tunnels/Reqserv/Credit.antt =====
-- The credit of a connection adds up to what it has written.
use lproxy_cv.Prelude.{
  ℕ, zero, suc, ◌+◌, ◌≤◌, ◌<◌, ◌≡◌, refl, ap, inl, inr, Bool, true, false, Bool-cases, List, [],
  ◌∷◌, ◌++◌, arith, ◌==◌, ==_iff, All,
}
use lproxy_cv.Prelude.Outcome.{ok}
use lproxy_cv.Wire.{ByteIo, encode}
use lproxy_cv.Tunnels.Reqq.{u16}
use lproxy_cv.Tunnels.Header.{req_client_quota}
use lproxy_cv.Tunnels.Frames.Laws.{head_fields, quota_frame_lem}
use lproxy_cv.Tunnels.Tunnel.{TunStub, Effect, stub_header, send}
use lproxy_cv.Tunnels.Tunnel.Rtt.{sum}
use lproxy_cv.Tunnels.Reqserv.{send_request_quota, quota_report_threshold, on_item, on_items}

below : (w t : ℕ) → w < t → (w + 1 == t) ≡ false → w + 1 < t
below w t h n = ground arith

module _ (io : ByteIo) (alive : ℕ → Bool) (tun : TunStub) where
  abbrev pub credit_message : ℕ → List Effect
  credit_message quota =
      send alive tun.tunnel_tx
        (encode (head_fields 9 req_client_quota (stub_header tun)) ++ encode ((2, quota) ∷ []))

  -- The messages of the credits `reports`, in turn.
  abbrev pub credit_messages : List ℕ → List Effect
  credit_messages [] = []
  credit_messages (quota ∷ reports) = credit_message quota ++ credit_messages reports

  -- The credits are the threshold each, and with the items that are not reported they are all.
  pub record Credited (items before after : ℕ) (effects : List Effect) : Type 0 where
    pub reports : List ℕ
    pub messages : effects ≡ credit_messages reports
    pub each : All (λ quota. quota ≡ quota_report_threshold io alive tun) reports
    pub adds_up : sum reports + after ≡ before + items
    pub open_items : after < quota_report_threshold io alive tun

  on_item_reports :
      (w : ℕ)
      → u16 (w + 1) ≡ w + 1
      → (w + 1 == quota_report_threshold io alive tun) ≡ true
      → on_item io alive tun w ≡ ok (0, credit_message (w + 1))
  unfolding on_item send_request_quota
  on_item_reports w e y = rw (e, y, quota_frame_lem io (stub_header tun) (w + 1))

  on_item_counts :
      (w : ℕ)
      → u16 (w + 1) ≡ w + 1
      → (w + 1 == quota_report_threshold io alive tun) ≡ false
      → on_item io alive tun w ≡ ok (w + 1, [])
  unfolding on_item
  on_item_counts w e n = rw (e, n)

  -- For a stub whose quota is a u16, from a count below half of the quota: as many items as there
  -- are are written without a panic; each credit sent, on the stub's channel if that is live, is
  -- half of the quota, the credits and the count behind them are the count before and the items, and
  -- the count stays below half of the quota.
  pub on_items-Credited :
      (items write_out : ℕ)
      → tun.request_quota ≤ 65535
      → write_out < quota_report_threshold io alive tun
      → (last : ℕ) × (effects : List Effect) × (on_items io alive tun items write_out
          ≡ ok (last, effects))
        × Credited items write_out last effects
  unfolding on_items
  on_items-Credited zero w h l = (
    w,
    [],
    refl,
    record { reports = []; messages = refl; each = tt; adds_up = omega arith; open_items = l },
  )
  on_items-Credited (suc items) w h l =
      let next : u16 (w + 1) ≡ w + 1 = omega arith in
      elim (Bool-cases (w + 1 == quota_report_threshold io alive tun)) [
        | inl y ↦
            let (last, more, e, c) = on_items-Credited items 0 h (omega arith) in
            (
              last,
              credit_message (w + 1) ++ more,
              rw (on_item_reports w next y, e),
              record {
                reports = (w + 1) ∷ c.reports;
                messages = ap (λ l. credit_message (w + 1) ++ l) c.messages;
                each = ((==_iff (w + 1) (quota_report_threshold io alive tun)).0 y, c.each);
                adds_up = omega (arith, c.adds_up);
                open_items = c.open_items;
              },
            )
        | inr n ↦
            let (last, more, e, c) =
              on_items-Credited items (w + 1) h
                (below w (quota_report_threshold io alive tun) l n) in
            (
              last,
              more,
              rw (on_item_counts w next n, e),
              record {
                reports = c.reports;
                messages = c.messages;
                each = c.each;
                adds_up = omega (arith, c.adds_up);
                open_items = c.open_items;
              },
            )
      ]
