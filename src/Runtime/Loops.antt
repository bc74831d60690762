-- ===== src/Runtime/Loops.antt =====
-- What the loops of runtime submit and report.
use xproc.Prelude.{
  ℕ, zero, suc, ◌+◌, ◌≤◌, ◌<◌, ◌≡◌, refl, ap, ◌∙◌, inl, inr, Bool, true, false, List, [], ◌∷◌, ◌++◌,
  Option, none, some, arith, length, take, Bool-cases, ltb, if◌then◌else◌,
}
use xproc.Runtime.{
  Action, submit, backpressure, wait, Round, Trace, before, run, flush, run_backpressure,
  BatchRound, batch, submit_all, end_batch, run_batched,
}

-- The messages submitted, and the sum of the numbers reported.
abbrev pub submitted : List Action → List (List ℕ)
submitted [] = []
submitted (submit m ∷ acts) = m ∷ submitted acts
submitted (backpressure n ∷ acts) = submitted acts
submitted (wait ∷ acts) = submitted acts

abbrev pub reported : List Action → ℕ
reported [] = 0
reported (submit m ∷ acts) = reported acts
reported (backpressure n ∷ acts) = n + reported acts
reported (wait ∷ acts) = reported acts

-- The messages that the polls of the rounds find before running_ is found false.
abbrev pub found : List Round → List (List ℕ)
found [] = []
found (r ∷ rs) =
    let rest = found rs in
    if r.running then elim (r.message) [ some m ↦ m ∷ rest | none ↦ rest ] else []

-- No call of on_backpressure reports 0.
abbrev pub ReportsPositive : List Action → Type 0
ReportsPositive [] = Unit
ReportsPositive (backpressure n ∷ acts) = (0 < n) × ReportsPositive acts
ReportsPositive (submit m ∷ acts) = ReportsPositive acts
ReportsPositive (wait ∷ acts) = ReportsPositive acts

run-found : (rs : List Round) → submitted (run rs).actions ≡ found rs
unfolding run
run-found [] = refl
run-found (r ∷ rs) = ground (arith, run-found rs)

run_backpressure-found :
    (queued : ℕ) (rs : List Round) → submitted (run_backpressure queued rs).actions ≡ found rs
unfolding run_backpressure
run_backpressure-found queued [] = refl
run_backpressure-found queued (r ∷ rs) =
    ground (arith, run_backpressure-found (suc queued) rs, run_backpressure-found 0 rs)

-- What a loop that has `queued` submissions to report has reported at the end, and before it.
abbrev Reports : ℕ → List Round → Trace → Type 0
Reports queued rs t =
    (t.ended ≡ true → reported t.actions ≡ queued + length (found rs))
    × (reported t.actions ≤ queued + length (found rs))
    × ReportsPositive t.actions

run_backpressure-Reports :
    (queued : ℕ) (rs : List Round) → Reports queued rs (run_backpressure queued rs)
unfolding run_backpressure
run_backpressure-Reports queued [] = (λ h. cc, omega arith, tt)
run_backpressure-Reports queued (r ∷ rs) =
    round r.running r.message (run_backpressure-Reports (suc queued) rs)
      (run_backpressure-Reports 0 rs)
  where
    flush-Reports :
        (t : Trace) (n : ℕ)
        → (t.ended ≡ true → reported t.actions ≡ n)
        → reported t.actions ≤ n
        → ReportsPositive t.actions
        → ((flush queued t).ended ≡ true → reported (flush queued t).actions ≡ queued + n)
          × (reported (flush queued t).actions ≤ queued + n)
          × ReportsPositive (flush queued t).actions
    flush-Reports t n a b c = elim (Bool-cases (ltb 0 queued)) [
      | inl some_queued ↦ rw some_queued (λ h. omega (arith, a h), omega arith, (ground arith, c))
      | inr nothing ↦
          let zero_queued : queued ≡ 0 = ground arith in
          rw nothing (λ h. omega (arith, a h), omega arith, c)
    ]

    round :
        (running : Bool) (message : Option (List ℕ))
        → Reports (suc queued) rs (run_backpressure (suc queued) rs)
        → Reports 0 rs (run_backpressure 0 rs)
        → Reports queued
            (record { running = running; message = message } ∷ rs)
            (run_backpressure queued (record { running = running; message = message } ∷ rs))
    round true (some m) a b = (λ h. omega (arith, a.0 h), omega (arith, a.1), a.2)
    round true none a b =
        flush-Reports (before wait (run_backpressure 0 rs)) (length (found rs))
          (λ h. b.0 h ∙ omega arith) (omega (arith, b.1)) b.2
    round false m a b =
        flush-Reports (record { actions = []; ended = true }) 0 (λ h. refl) (omega arith) tt

-- The loop with a backpressure callback, when it has ended, has submitted the messages that its
-- polls found while running_ was set, in order; the numbers that it reported are positive and add
-- up to the number of messages submitted.
pub run_backpressure_accounts :
    (rs : List Round)
    → (run_backpressure 0 rs).ended ≡ true
    → let t = run_backpressure 0 rs in
      (submitted t.actions ≡ found rs)
      × (reported t.actions ≡ length (submitted t.actions))
      × ReportsPositive t.actions
run_backpressure_accounts rs h =
    let (all, _, positive) = run_backpressure-Reports 0 rs in
    let found_all = run_backpressure-found 0 rs in
    (found_all, rw found_all (all h ∙ omega arith), positive)

-- All the messages of the rounds before running_ is found false.
abbrev pub offered : List BatchRound → List (List (List ℕ))
offered [] = []
offered (r ∷ rs) = let rest = offered rs in if r.running then r.messages ∷ rest else []

abbrev pub batches : ℕ → List (List (List ℕ)) → List (List ℕ)
batches n [] = []
batches n (ms ∷ mss) = take n ms ++ batches n mss

batch-take : (n : ℕ) (ms : List (List ℕ)) → batch n ms ≡ take n ms
unfolding batch
batch-take zero ms = refl
batch-take (suc n) [] = refl
batch-take (suc n) (m ∷ ms) = ap (◌∷◌ m) (batch-take n ms)

submitted-submit_all :
    (ms : List (List ℕ)) (t : Trace)
    → submitted (submit_all ms t).actions ≡ ms ++ submitted t.actions
submitted-submit_all [] t = refl
submitted-submit_all (m ∷ ms) t = ap (◌∷◌ m) (submitted-submit_all ms t)

submitted-end_batch :
    (ms : List (List ℕ)) (t : Trace) → submitted (end_batch ms t).actions ≡ submitted t.actions
submitted-end_batch [] t = refl
submitted-end_batch (m ∷ ms) t = refl

-- The batching loop submits, for each round that it runs, the first max_batch_size messages that
-- the round's polls find, or all if there are fewer, in order.
pub run_batched-batches :
    (n : ℕ) (rs : List BatchRound) → submitted (run_batched n rs).actions ≡ batches n (offered rs)
unfolding run_batched
run_batched-batches n [] = refl
run_batched-batches n (r ∷ rs) = elim (Bool-cases r.running) [
  | inl on ↦
      rw (on, run_batched)
        (submitted-submit_all (batch n r.messages)
            (end_batch (batch n r.messages) (run_batched n rs))
          ∙ rw (
            submitted-end_batch (batch n r.messages) (run_batched n rs),
            run_batched-batches n rs,
            batch-take n r.messages,
          ))
  | inr off ↦ rw (off, run_batched)
]
