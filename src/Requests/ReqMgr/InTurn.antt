-- ===== src/Requests/ReqMgr/InTurn.antt =====
-- The tunnel managers get the connections in turn.
use native.Mathlib.Nat.{mod-eq_of_lt, mod-eq-sub-mod}
use lproxy_cv.Prelude.{
  ℕ, ◌+◌, ◌-◌, ◌%◌, ◌≡◌, refl, ap, ◌∙◌, subst, Bool, false, some, List, [], ◌∷◌, ◌++◌, arith, leb,
  lt→leb, length, length-append, append_assoc, get_elem?,
}
use lproxy_cv.Prelude.Outcome.{ok}
use lproxy_cv.Requests.ReqMgr.{Handed, handed, on_accept_tcpstream, accept_all}

get_elem?-append : (pre suf : List ℕ) (x : ℕ) → get_elem? (pre ++ (x ∷ suf)) (length pre) ≡ some x
get_elem?-append [] suf x = refl
get_elem?-append (y ∷ pre) suf x = get_elem?-append pre suf x

module _ (alive : ℕ → Bool) where
  -- The managers and the connections in pairs.
  abbrev pub in_turn : List ℕ → List ℕ → List Handed
  in_turn [] streams = []
  in_turn (tx ∷ stubs) [] = []
  in_turn (tx ∷ stubs) (s ∷ streams) = handed alive tx s ++ in_turn stubs streams

  accepted_at :
      (pre suf : List ℕ) (x s n : ℕ)
      → on_accept_tcpstream alive
          (record { tmstubs = pre ++ (x ∷ suf); tmindex = length pre; accepted = n })
          s
        ≡ ok (
          record {
            tmstubs = pre ++ (x ∷ suf);
            tmindex = (length pre + 1) % length (pre ++ (x ∷ suf));
            accepted = (n + 1) % 18446744073709551616;
          },
          handed alive x s,
        )
  unfolding on_accept_tcpstream
  accepted_at pre suf x s n =
      let inside : leb (length (pre ++ (x ∷ suf))) (length pre) ≡ false =
        lt→leb (length (pre ++ (x ∷ suf))) (length pre)
          (omega (arith, length-append pre (x ∷ suf))) in
      rw (inside, get_elem?-append pre suf x)

  from_place :
      (suf pre streams : List ℕ) (x n : ℕ)
      → length streams ≡ length (x ∷ suf)
      → (last : ℕ) × (accept_all alive
            (record { tmstubs = pre ++ (x ∷ suf); tmindex = length pre; accepted = n })
            streams
          ≡ ok (
            record { tmstubs = pre ++ (x ∷ suf); tmindex = 0; accepted = last },
            in_turn (x ∷ suf) streams,
          ))
  unfolding accept_all
  from_place suf pre [] x n h = absurd (omega arith)
  from_place [] pre (s ∷ t ∷ streams) x n h = absurd (omega arith)
  from_place [] pre (s ∷ []) x n h =
      let whole = pre ++ (x ∷ []) in
      let size : length whole ≡ length pre + 1 = omega (arith, length-append pre (x ∷ [])) in
      let none_left : length pre + 1 - length whole ≡ 0 = omega (arith, size) in
      let wraps : (length pre + 1) % length whole ≡ 0 =
        mod-eq-sub-mod {n = length pre + 1} {m = length whole} (omega (arith, size))
        ∙ ap (λ z. z % length whole) none_left
        ∙ mod-eq_of_lt {n = 0} {m = length whole} (omega (arith, size)) in
      ((n + 1) % 18446744073709551616, rw (accepted_at pre [] x s n, wraps))
  from_place (y ∷ suf) pre (s ∷ streams) x n h =
      let whole = pre ++ (x ∷ y ∷ suf) in
      let n' = (n + 1) % 18446744073709551616 in
      let (last, e) = from_place suf (pre ++ (x ∷ [])) streams y n' (omega arith) in
      let place : (length pre + 1) % length whole ≡ length (pre ++ (x ∷ [])) =
        mod-eq_of_lt {n = length pre + 1} {m = length whole}
          (omega (arith, length-append pre (x ∷ y ∷ suf)))
        ∙ omega (arith, length-append pre (x ∷ [])) in
      let later : accept_all alive
            (record { tmstubs = whole; tmindex = length (pre ++ (x ∷ [])); accepted = n' }) streams
          ≡ ok (
            record { tmstubs = whole; tmindex = 0; accepted = last },
            in_turn (y ∷ suf) streams,
          ) =
        subst
          (λ l.
            accept_all alive
              (record { tmstubs = l; tmindex = length (pre ++ (x ∷ [])); accepted = n' }) streams
            ≡ ok (record { tmstubs = l; tmindex = 0; accepted = last }, in_turn (y ∷ suf) streams))
          (append_assoc pre (x ∷ []) (y ∷ suf)) e in
      (last, rw (accepted_at pre (y ∷ suf) x s n, place, later))

  -- From the first manager on, as many connections as there are managers go to the managers in
  -- turn, on those channels that are live, and the next one is the first manager's again.
  pub accept_all-in_turn :
      (x : ℕ) (stubs streams : List ℕ) (n : ℕ)
      → length streams ≡ length (x ∷ stubs)
      → (last : ℕ) × (accept_all alive
            (record { tmstubs = x ∷ stubs; tmindex = 0; accepted = n })
            streams
          ≡ ok (
            record { tmstubs = x ∷ stubs; tmindex = 0; accepted = last },
            in_turn (x ∷ stubs) streams,
          ))
  accept_all-in_turn x stubs streams n h = from_place stubs [] streams x n h
