-- ===== src/Runtime/Examples.antt =====
-- The theorems on runtime at concrete inputs.
use xproc.Prelude.{ℕ, ◌%◌, ◌^◌, ◌≡◌, refl, true, false, List, [], ◌∷◌, none, some, arith, length}
use xproc.Runtime.{
  Round, run_backpressure, reuse_buffer, zero_copy, sbo, Memory, dispatch, call, copy_to_reuse,
}
use xproc.Runtime.Loops.{submitted, reported, ReportsPositive, run_backpressure_accounts}
use xproc.Runtime.Copies.{dispatch_deferred}
use xproc.Runtime.Wake.{
  Threads, registered, returned, stopped, Reach, Step, here, next, load_seq, see_running, register,
  fall_asleep, notify, clear_running, bump, Distinct, stop_wakes,
}

abbrev one : List ℕ
one = 1 ∷ []

abbrev two : List ℕ
two = 2 ∷ 3 ∷ []

-- Two messages, an idle round, a message, and the stop.
abbrev rounds : List Round
rounds =
    record { running = true; message = some one }
    ∷ record { running = true; message = some two }
    ∷ record { running = true; message = none }
    ∷ record { running = true; message = some one }
    ∷ record { running = false; message = none }
    ∷ []

run_backpressure_accounts_example :
    let t = run_backpressure 0 rounds in
    (submitted t.actions ≡ one ∷ two ∷ one ∷ [])
    × (reported t.actions ≡ length (submitted t.actions))
    × ReportsPositive t.actions
unfolding run_backpressure
run_backpressure_accounts_example = run_backpressure_accounts rounds refl

-- The message 1 in the ring, the message 2 3 behind it, and the place of the first one overwritten.
abbrev memory : Memory
memory = record { reuse_buf = 9 ∷ 9 ∷ 9 ∷ []; ring = 0 ∷ 1 ∷ 2 ∷ 3 ∷ [] }

abbrev refilled : Memory
refilled = record { reuse_buf = 1 ∷ 9 ∷ 9 ∷ []; ring = 0 ∷ 1 ∷ 2 ∷ 3 ∷ [] }

abbrev overwritten : Memory
overwritten = record { reuse_buf = []; ring = 0 ∷ 7 ∷ 2 ∷ 3 ∷ [] }

dispatch_deferred_example :
    (call (dispatch sbo 1 1 memory).1 overwritten ≡ one)
    × (call (dispatch zero_copy 1 1 memory).1 overwritten ≡ 7 ∷ [])
    × (call (dispatch reuse_buffer 1 1 memory).1 (dispatch reuse_buffer 2 2 refilled).0 ≡ 2 ∷ [])
dispatch_deferred_example =
    dispatch_deferred one two (7 ∷ []) 1 2 memory refilled overwritten
      (0 ∷ [], 2 ∷ 3 ∷ [], refl, refl) (omega arith) (omega arith)
      (unfold dispatch copy_to_reuse in refl) (0 ∷ 1 ∷ [], [], refl, refl) (omega arith)
      (0 ∷ [], 2 ∷ 3 ∷ [], refl, refl)

-- A word of 32 bits that counts the bumps.
abbrev word : ℕ → ℕ
word k = k % 2 ^ 32

word-Distinct : Distinct word (2 ^ 32)
word-Distinct i j a b = ground arith

-- The waiter falls asleep on the value that it loaded, and then `stop` runs.
abbrev roused : Threads
roused = record { waiter = registered 0; stopper = stopped; running = false; bumps = 1 }

roused-Reach : Reach word 0 roused
roused-Reach =
    next
      (next
        (next
          (next
            (next (next (next here (load_seq refl refl)) (see_running 0 refl refl refl))
              (register 0 refl refl))
            (fall_asleep 0 refl refl refl))
          (clear_running refl refl))
        (bump refl refl))
      (notify refl refl)

stop_wakes_example : Step word roused (record roused { waiter = returned })
stop_wakes_example = stop_wakes word (2 ^ 32) 0 word-Distinct roused roused-Reach (omega arith) refl
