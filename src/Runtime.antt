-- ===== src/Runtime.antt =====
-- include/xproc/ipc/runtime.hpp: the consumer loops of runtime, the copy policies of its dispatch,
-- and the waiting and stopping. What a loop meets, the values that other threads leave in
-- running_ and the messages of the polls, is a list of rounds. Both constructors' paths (channel
-- and consumer_channel_interface) dispatch alike, and are one function here.
pub mod Loops
pub mod Copies
pub mod Wake
mod Examples
use xproc.Prelude.{
  ℕ, zero, suc, ◌+◌, ◌-◌, ◌≤◌, ◌≡◌, Bool, true, false, List, [], ◌∷◌, ◌++◌, Option, none, some,
  length, take, drop, replicate, ltb, leb, ◌==◌, if◌then◌else◌,
}

-- What a loop does: a submission to the executor, a call of on_backpressure, a wait_for_data.
pub data Action : Type 0 where
  submit : List ℕ → Action
  backpressure : ℕ → Action
  wait : Action

-- The value of running_ at the loop's test, and what the poll of that round finds.
pub record Round : Type 0 where
  pub running : Bool
  pub message : Option (List ℕ)

-- The actions, and whether the loop has ended; where the rounds are used up it still runs.
pub record Trace : Type 0 where
  pub actions : List Action
  pub ended : Bool

abbrev pub before : Action → Trace → Trace
before a t = record t { actions = a ∷ t.actions }

-- `run(executor, handler, policy)`
unfoldable pub run : List Round → Trace
run [] = record { actions = []; ended = false }
run (r ∷ rs) =
    let rest = run rs in
    if r.running
    then elim (r.message) [ some m ↦ before (submit m) rest | none ↦ before wait rest ]
    else record { actions = []; ended = true }

-- `if (queued > 0) bp(queued);`
abbrev pub flush : ℕ → Trace → Trace
flush queued t = if ltb 0 queued then before (backpressure queued) t else t

-- `run(executor, handler, on_backpressure, policy)` with `queued` submissions not yet reported.
unfoldable pub run_backpressure : ℕ → List Round → Trace
run_backpressure queued [] = record { actions = []; ended = false }
run_backpressure queued (r ∷ rs) =
    let more = run_backpressure (suc queued) rs in
    let idle = run_backpressure 0 rs in
    if r.running
    then elim (r.message) [
      | some m ↦ before (submit m) more
      | none ↦ flush queued (before wait idle)
    ]
    else flush queued (record { actions = []; ended = true })

-- A round of run_batched: the value of running_ and the messages that polls find until one finds
-- none.
pub record BatchRound : Type 0 where
  pub running : Bool
  pub messages : List (List ℕ)

-- The inner loop, with `room` for max_batch_size - batch_count.
unfoldable pub batch : ℕ → List (List ℕ) → List (List ℕ)
batch zero ms = []
batch (suc room) [] = []
batch (suc room) (m ∷ ms) = m ∷ batch room ms

abbrev pub submit_all : List (List ℕ) → Trace → Trace
submit_all [] t = t
submit_all (m ∷ ms) t = before (submit m) (submit_all ms t)

-- `if (batch_count == 0) wait_for_data();`
abbrev pub end_batch : List (List ℕ) → Trace → Trace
end_batch [] t = before wait t
end_batch (m ∷ ms) t = t

unfoldable pub run_batched : ℕ → List BatchRound → Trace
run_batched max_batch_size [] = record { actions = []; ended = false }
run_batched max_batch_size (r ∷ rs) =
    let rest = run_batched max_batch_size rs in
    let ms = batch max_batch_size r.messages in
    if r.running then submit_all ms (end_batch ms rest) else record { actions = []; ended = true }

-- `enum class copy_policy`
pub data CopyPolicy : Type 0 where
  reuse_buffer zero_copy sbo : CopyPolicy

abbrev pub sbo_threshold : ℕ
sbo_threshold = 256

-- The bytes that a callable given to the executor holds or points at: the first n bytes of the
-- reuse buffer, n bytes from a position of the ring on, an array of 256 bytes and a length, or a
-- vector.
pub data Callable : Type 0 where
  in_reuse_buffer : ℕ → Callable
  in_ring : ℕ → ℕ → Callable
  in_array : List ℕ → ℕ → Callable
  in_vector : List ℕ → Callable

-- The memory that a callable can point into: the reuse buffer and the bytes of the ring.
pub record Memory : Type 0 where
  pub reuse_buf : List ℕ
  pub ring : List ℕ

-- The `n` bytes at `ptr` in the ring.
abbrev pub bytes_at : ℕ → ℕ → Memory → List ℕ
bytes_at ptr n mem = take n (drop ptr mem.ring)

-- `if (reuse_buf_.size() < n) reuse_buf_.resize(n); memcpy(reuse_buf_.data(), ptr, n);`
unfoldable pub copy_to_reuse : List ℕ → List ℕ → List ℕ
copy_to_reuse buf payload =
    let n = length payload in
    let grown = if ltb (length buf) n then buf ++ replicate (n - length buf) 0 else buf in
    payload ++ drop n grown

-- A poll found a message of `n` bytes at `ptr` in the ring: the memory afterwards, and the callable
-- that the executor gets.
unfoldable pub dispatch : CopyPolicy → ℕ → ℕ → Memory → Memory × Callable
dispatch reuse_buffer ptr n mem =
    (record mem { reuse_buf = copy_to_reuse mem.reuse_buf (bytes_at ptr n mem) }, in_reuse_buffer n)
dispatch zero_copy ptr n mem = (mem, in_ring ptr n)
dispatch sbo ptr n mem = (
  mem,
  if leb n sbo_threshold
      then in_array (bytes_at ptr n mem ++ replicate (sbo_threshold - n) 0) n
      else in_vector (bytes_at ptr n mem),
)

-- What the handler sees when the callable is run over a memory.
unfoldable pub call : Callable → Memory → List ℕ
call (in_reuse_buffer n) mem = take n mem.reuse_buf
call (in_ring ptr n) mem = bytes_at ptr n mem
call (in_array buf n) mem = take n buf
call (in_vector v) mem = v
