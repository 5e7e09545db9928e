-- ===== src/Service/Subservice/Started.antt =====
-- What a start of all the threads comes to, by the list of the threads that are begun.
use lproxy_cv.Prelude.{
  ℕ, ◌≤◌, ◌≡◌, refl, sym, Bool, true, false, ◌&&◌, not, Option, none, some, List, [], ◌∷◌, ◌++◌,
  map, append-nil, arith, inl, inr, Bool-cases, if◌then◌else◌, length, ltb, ◌==◌,
}
use mathlib.Core.List.{map-append}
use lproxy_cv.Prelude.Outcome.{ok}
use lproxy_cv.Config.Tuncfg.{TunCfg}
use lproxy_cv.Service.Subservice.{
  SubServiceCtl, SubEffect, spawned, joined, ctl_of, Starting, tunnels_per_mgr, start_tunmgr,
  stubs_of, send_cmd, send_stops, join_all, cleanup_subservices, finished, start_others,
  start_subservice,
}
use lproxy_cv.Service.Subservice.Threads.{
  Thread, all_ready, started, attempted, ctls, spawns, tunmgr_threads, other_threads, stops, ended,
  start_tunmgrs_lem, then_all, then_all_failed, then_all_lem, started-append,
}

stubs_of-ctls : (ts : List Thread) → stubs_of (ctls ts) ≡ ok (map (λ t. t.0) ts)
unfolding stubs_of
stubs_of-ctls [] = refl
stubs_of-ctls (t ∷ ts) = rw (stubs_of-ctls ts)

module _ (alive : ℕ → Bool) where
  told : SubServiceCtl → SubServiceCtl
  told s = record s { ctl_tx = none }

  send_stops-ctls :
      (ts : List Thread) → send_stops alive (ctls ts) ≡ ok (map told (ctls ts), stops alive ts)
  unfolding send_stops send_cmd told
  send_stops-ctls [] = refl
  send_stops-ctls (t ∷ ts) = rw (send_stops-ctls ts)

  module _ (panicked : ℕ → Bool) (sound : (h : ℕ) → panicked h ≡ false) where
    join_all-told :
        (ts : List Thread)
        → (ss : List SubServiceCtl) × (join_all alive panicked (map told (ctls ts))
            ≡ ok (ss, map (λ t. joined t.0) ts))
    unfolding join_all told
    join_all-told [] = ([], refl)
    join_all-told (t ∷ ts) =
        let (ss, h) = join_all-told ts in
        (
          record { handler = none; ctl_tx = none; sstype = (ctl_of t.0 t.1).sstype } ∷ ss,
          rw (sound t.0, h) refl,
        )

    cleanup-ctls :
        (ts : List Thread)
        → (ss : List SubServiceCtl) × (cleanup_subservices alive panicked (ctls ts)
            ≡ ok (ss, ended alive ts))
    unfolding cleanup_subservices
    cleanup-ctls ts = let (ss, h) = join_all-told ts in (ss, rw (send_stops-ctls ts) (rw h refl))

    -- The threads that are begun, and whether all of them could be started.
    abbrev pub begun_with : (ℕ → Option Bool) → List Thread → List Thread → List Thread
    begun_with init ms os = ms ++ (if all_ready init ms then attempted init os else [])

    -- The kept subservices, or none and the started threads ended, behind the threads `ts`.
    abbrev pub comes_to :
        (ℕ → Option Bool) → List Thread → Bool → Option (List SubServiceCtl) × List SubEffect
    comes_to init ts all =
        if all
        then (some (ctls (started init ts)), spawns ts)
        else (none, spawns ts ++ ended alive (started init ts))

    finished_lem :
        (init : ℕ → Option Bool) (ts : List Thread) (all : Bool)
        → finished alive panicked
            (record { subservices = ctls (started init ts); failed = not all; done = spawns ts })
          ≡ ok (comes_to init ts all)
    unfolding finished
    finished_lem init ts true = refl
    finished_lem init ts false = let (ss, h) = cleanup-ctls (started init ts) in rw h refl

    start_others-then_all :
        (init : ℕ → Option Bool) (cpus : ℕ) (x : Bool) (domains : List (List ℕ)) (tmstubs : List ℕ)
        (st : Starting)
        → start_others alive panicked init cpus x domains tmstubs st
          ≡ then_all init st (other_threads cpus x domains tmstubs)
    unfolding start_others then_all
    start_others-then_all init cpus true domains tmstubs st = refl
    start_others-then_all init cpus false domains tmstubs st = refl

    after_tunmgrs : (ℕ → Option Bool) → List Thread → Bool → Starting
    after_tunmgrs init ms all = record {
      subservices = ctls (started init ms);
      failed = not all;
      done = spawns ms;
    }

    -- The start of the others and the end, behind the threads `ms` of the tunnel managers.
    others_lem :
        (init : ℕ → Option Bool) (cpus : ℕ) (x : Bool) (domains : List (List ℕ)) (tmstubs : List ℕ)
        (ms : List Thread) (all : Bool)
        → let os = other_threads cpus x domains tmstubs in
          finished alive panicked
            (start_others alive panicked init cpus x domains tmstubs (after_tunmgrs init ms all))
          ≡ ok (
              comes_to init
                (ms ++ (if all then attempted init os else []))
                (all && all_ready init os))
    unfolding after_tunmgrs
    others_lem init cpus x domains tmstubs ms true =
        let os = other_threads cpus x domains tmstubs in
        rw
          (
            start_others-then_all init cpus x domains tmstubs (after_tunmgrs init ms true),
            then_all_lem init (after_tunmgrs init ms true) os refl,
            sym (
                map-append (λ (t : Thread). ctl_of t.0 t.1) (started init ms)
                  (started init (attempted init os))),
            sym (map-append (λ (t : Thread). spawned t.0 t.1) ms (attempted init os)),
            sym (started-append init ms (attempted init os)),
          )
          (finished_lem init (ms ++ attempted init os) (all_ready init os))
    others_lem init cpus x domains tmstubs ms false =
        rw
          (
            start_others-then_all init cpus x domains tmstubs (after_tunmgrs init ms false),
            then_all_failed init (after_tunmgrs init ms false)
                (other_threads cpus x domains tmstubs) refl,
            append-nil ms,
          )
          (finished_lem init ms false)

    abbrev nothing_yet : Starting
    nothing_yet = record { subservices = []; failed = false; done = [] }

    -- All the threads are started in turn: the tunnel managers, all of them, then the others up to
    -- the first that fails. If none fails, they are kept in this order; otherwise nothing is kept,
    -- and those that were started are all told to stop and then waited for. No thread may end by a
    -- panic, and there is a processor.
    pub start_subservice_lem :
        (init : ℕ → Option Bool) (cpus : ℕ) (cfg : TunCfg) (domains : List (List ℕ))
        → 1 ≤ cpus
        → let ms = tunmgr_threads cpus 0 (tunnels_per_mgr cfg cpus) in
          let os =
            other_threads cpus
              (ltb 0 (length cfg.xport_url))
              domains
              (map (λ t. t.0) (started init ms)) in
          start_subservice alive panicked init cpus cfg domains
          ≡ ok (comes_to init (begun_with init ms os) (all_ready init ms && all_ready init os))
    unfolding start_subservice start_tunmgr
    start_subservice_lem init cpus cfg domains h =
        let ms = tunmgr_threads cpus 0 (tunnels_per_mgr cfg cpus) in
        let some_cpu : (cpus == 0) ≡ false = ground arith in
        rw (some_cpu, start_tunmgrs_lem init cpus 0 (tunnels_per_mgr cfg cpus) nothing_yet)
          (elim (Bool-cases (all_ready init ms)) [
            | inl e ↦
                rw (e, stubs_of-ctls (started init ms))
                  (unfold after_tunmgrs in
                    others_lem init cpus (ltb 0 (length cfg.xport_url)) domains
                      (map (λ t. t.0) (started init ms)) ms true)
            | inr e ↦ rw e (
                unfold after_tunmgrs in
                others_lem init cpus (ltb 0 (length cfg.xport_url)) domains [] ms false)
          ])
