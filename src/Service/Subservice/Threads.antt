-- ===== src/Service/Subservice/Threads.antt =====
-- The threads of the service, which of them are started, and the state behind a list of them.
use lproxy_cv.Prelude.{
  ℕ, zero, suc, ◌+◌, ◌≡◌, refl, ◌∙◌, Bool, true, false, ◌&&◌, ◌||◌, not, Option, none, some, List,
  [], ◌∷◌, ◌++◌, map, append-nil, append_assoc, arith, inl, inr, Bool-cases, if◌then◌else◌,
}
use lproxy_cv.Service.Subservice.{
  SubServiceCtl, SubEffect, stop, spawned, sent, joined, Job, for_forwarder, for_xtunnel,
  for_reqmgr, for_udpx, for_tunmgr, ctl_of, Starting, reported, to_future, start_one, start_tunmgrs,
  then_one,
}

-- A thread with its number.
abbrev pub Thread : Type 0
Thread = ℕ × Job

module _ (init : ℕ → Option Bool) where
  -- The thread of a tunnel manager counts as started if it reports anything, another one if its
  -- component could be started.
  abbrev pub ready : Thread → Bool
  ready (n, for_tunmgr tunnels_count) = elim (init n) [ none ↦ false | some done ↦ true ]
  ready (n, for_forwarder domains) = elim (init n) [ none ↦ false | some done ↦ done ]
  ready (n, for_xtunnel) = elim (init n) [ none ↦ false | some done ↦ done ]
  ready (n, for_reqmgr tmstubs) = elim (init n) [ none ↦ false | some done ↦ done ]
  ready (n, for_udpx tmstubs) = elim (init n) [ none ↦ false | some done ↦ done ]

  abbrev pub all_ready : List Thread → Bool
  all_ready [] = true
  all_ready (t ∷ ts) = ready t && all_ready ts

  -- The threads that were started.
  abbrev pub started : List Thread → List Thread
  started [] = []
  started (t ∷ ts) = if ready t then t ∷ started ts else started ts

  -- Those up to the first that could not be started.
  abbrev pub attempted : List Thread → List Thread
  attempted [] = []
  attempted (t ∷ ts) = t ∷ (if ready t then attempted ts else [])

abbrev pub ctls : List Thread → List SubServiceCtl
ctls ts = map (λ t. ctl_of t.0 t.1) ts

abbrev pub spawns : List Thread → List SubEffect
spawns ts = map (λ t. spawned t.0 t.1) ts

abbrev pub tunmgr_threads : ℕ → ℕ → ℕ → List Thread
tunmgr_threads zero n tunnels_count = []
tunmgr_threads (suc rounds) n tunnels_count =
    (n, for_tunmgr tunnels_count) ∷ tunmgr_threads rounds (n + 1) tunnels_count

abbrev pub other_threads : ℕ → Bool → List (List ℕ) → List ℕ → List Thread
other_threads cpus with_xport domains tmstubs =
    (cpus, for_reqmgr tmstubs)
    ∷ (cpus + 1, for_forwarder domains)
    ∷ (cpus + 2, for_udpx tmstubs)
    ∷ (if with_xport then (cpus + 3, for_xtunnel) ∷ [] else [])

-- All of them are told to stop before the first is waited for.
abbrev pub stops : (ℕ → Bool) → List Thread → List SubEffect
stops alive [] = []
stops alive (t ∷ ts) = (if alive t.0 then sent t.0 stop ∷ [] else []) ++ stops alive ts

abbrev pub ended : (ℕ → Bool) → List Thread → List SubEffect
ended alive ts = stops alive ts ++ map (λ t. joined t.0) ts

module _ (init : ℕ → Option Bool) where
  to_future-ready :
      (n : ℕ) (job : Job)
      → to_future (reported job (init n)) (ctl_of n job)
        ≡ (if ready init (n, job) then some (ctl_of n job) else none)
  unfolding to_future reported
  to_future-ready n (for_forwarder domains) = ground arith
  to_future-ready n for_xtunnel = ground arith
  to_future-ready n (for_reqmgr tmstubs) = ground arith
  to_future-ready n (for_udpx tmstubs) = ground arith
  to_future-ready n (for_tunmgr tunnels_count) = ground arith

  start_one-ready :
      (st : Starting) (n : ℕ) (job : Job)
      → ready init (n, job) ≡ true
      → start_one init st n job ≡ record st {
        subservices = st.subservices ++ (ctl_of n job ∷ []);
        done = st.done ++ (spawned n job ∷ []);
      }
  unfolding start_one
  start_one-ready st n job h = rw (to_future-ready n job, h)

  start_one-failed :
      (st : Starting) (n : ℕ) (job : Job)
      → ready init (n, job) ≡ false
      → start_one init st n job
        ≡ record st { failed = true; done = st.done ++ (spawned n job ∷ []) }
  unfolding start_one
  start_one-failed st n job h = rw (to_future-ready n job, h)

  or_true : (b : Bool) → (b || true) ≡ true
  or_true true = refl
  or_true false = refl

  or_false : (b : Bool) → (b || false) ≡ b
  or_false true = refl
  or_false false = refl

  -- The state behind the threads `ts`.
  abbrev pub behind : Starting → List Thread → Bool → List Thread → Starting
  behind st done_well failed begun = record {
    subservices = st.subservices ++ ctls done_well;
    failed = st.failed || failed;
    done = st.done ++ spawns begun;
  }

  behind-nil : (st : Starting) → st ≡ behind st [] false []
  behind-nil st = simp (append-nil, or_false)

  pub start_tunmgrs_lem :
      (rounds n count : ℕ) (st : Starting)
      → let ts = tunmgr_threads rounds n count in
        start_tunmgrs init rounds n count st
        ≡ behind st (started init ts) (not (all_ready init ts)) ts
  unfolding start_tunmgrs
  start_tunmgrs_lem zero n count st = behind-nil st
  start_tunmgrs_lem (suc rounds) n count st = elim (Bool-cases (ready init (n, for_tunmgr count))) [
    | inl e ↦
        rw (start_one-ready st n (for_tunmgr count) e, e)
          (start_tunmgrs_lem rounds (n + 1) count _ ∙ simp append_assoc)
    | inr e ↦
        rw (start_one-failed st n (for_tunmgr count) e, e)
          (start_tunmgrs_lem rounds (n + 1) count _ ∙ simp (append_assoc, or_true))
  ]

  -- The threads in turn, each unless one before it has failed.
  unfoldable pub then_all : Starting → List Thread → Starting
  then_all st [] = st
  then_all st (t ∷ ts) = then_all (then_one init st t.0 t.1) ts

  then_one_failed :
      (st : Starting) (n : ℕ) (job : Job) → st.failed ≡ true → then_one init st n job ≡ st
  unfolding then_one
  then_one_failed st n job h = simp h

  then_one_open :
      (st : Starting) (n : ℕ) (job : Job)
      → st.failed ≡ false
      → then_one init st n job ≡ start_one init st n job
  unfolding then_one
  then_one_open st n job h = simp h

  pub then_all_failed : (st : Starting) (ts : List Thread) → st.failed ≡ true → then_all st ts ≡ st
  unfolding then_all
  then_all_failed st [] h = refl
  then_all_failed st (t ∷ ts) h = rw (then_one_failed st t.0 t.1 h) (then_all_failed st ts h)

  pub then_all_lem :
      (st : Starting) (ts : List Thread)
      → st.failed ≡ false
      → then_all st ts
        ≡ behind st (started init (attempted init ts)) (not (all_ready init ts)) (attempted init ts)
  unfolding then_all
  then_all_lem st [] h = behind-nil st
  then_all_lem st (t ∷ ts) h = elim (Bool-cases (ready init t)) [
    | inl e ↦
        rw (then_one_open st t.0 t.1 h, start_one-ready st t.0 t.1 e, e)
          (then_all_lem _ ts h ∙ simp append_assoc)
    | inr e ↦
        rw (then_one_open st t.0 t.1 h, start_one-failed st t.0 t.1 e, e)
          (then_all_failed _ ts refl ∙ simp (append-nil, or_true))
  ]

  pub started-append :
      (ts us : List Thread) → started init (ts ++ us) ≡ started init ts ++ started init us
  started-append [] us = refl
  started-append (t ∷ ts) us = elim (Bool-cases (ready init t)) [
    | inl e ↦ rw (e, started-append ts us)
    | inr e ↦ rw (e, started-append ts us)
  ]
