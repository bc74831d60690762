-- ===== src/Endpoint/Attach.antt =====
-- What an endpoint is attached to, and the count of the attached endpoints.
use xproc.Prelude.{
  ℕ, zero, suc, ◌+◌, ◌%◌, ◌^◌, ◌<◌, ◌≡◌, refl, sym, ap, subst, ◌∙◌, true, false, List, [], ◌∷◌,
  Option, none, some, arith, if◌then◌else◌, ◌==◌,
}
use xproc.Errors.{ok}
use xproc.Options.{Abi, TransportOptions, shm_size_for_data_capacity}
use xproc.Layout.{
  ControlBlock, InitControlBlock, ref_count, readonly, counted, format, is_ready_spin_limit,
  ready_read, validate, validate_detailed,
}
use xproc.Layout.Wait.{FirstReady, ready_read-first}
use xproc.Layout.Format.{is_ok-true}
use xproc.Layout.Validate.{Matches, validate_detailed_iff}
use xproc.Shm.{Shm, open_segment, empty_shm}
use xproc.Shm.Open.{Attached, open_segment-Attached}
use xproc.Endpoint.{
  Role, producer, consumer, observer, Endpoint, World, open_mode, expected_of, validate_role,
  attach_mapping, establish_connection, destroy, set_pid,
}

-- The steps that other processes make on a formatted block: an endpoint attaches and counts itself,
-- an observer attaches, an endpoint is destroyed.
pub data Event : Type 0 where
  attach observe detach : Event

abbrev pub apply : Event → ControlBlock → ControlBlock
apply attach h = counted ref_count h
apply observe h = counted readonly h
apply detach h = destroy h

unfoldable pub run : List Event → ControlBlock → ControlBlock
run [] h = h
run (e ∷ es) h = run es (apply e h)

-- The endpoints that are alive after the events, if there are `n` before. There is no such number
-- if one is destroyed that is not there, or if 2 ^ 32 are alive at once.
unfoldable pub alive : List Event → ℕ → Option ℕ
alive [] n = some n
alive (attach ∷ es) n = if n + 1 == 2 ^ 32 then none else alive es (n + 1)
alive (observe ∷ es) n = alive es n
alive (detach ∷ es) zero = none
alive (detach ∷ es) (suc n) = alive es n

-- attach_count is the number of live producers and consumers after any sequence of attachments,
-- observations and destructions in which only live endpoints are destroyed and fewer than 2 ^ 32
-- are alive at once; nothing but attach_count changes.
pub run-alive :
    (es : List Event) (h : ControlBlock) (n m : ℕ)
    → h.attach_count ≡ n
    → n < 2 ^ 32
    → alive es n ≡ some m
    → run es h ≡ record h { attach_count = m }
unfolding run alive destroy
run-alive [] h n m e l q = ground arith
run-alive (attach ∷ es) h n m e l q =
    let bound : n + 1 < 2 ^ 32 = ground arith in
    run-alive es (counted ref_count h) (n + 1) m (omega arith) bound (ground arith)
run-alive (observe ∷ es) h n m e l q = run-alive es h n m e l q
run-alive (detach ∷ es) h zero m e l q = cc
run-alive (detach ∷ es) h (suc n) m e l q =
    run-alive es (destroy h) n m (omega arith) (omega arith) q

-- The pid that a block has after an endpoint joined it: a producer's own, else the one before.
abbrev pub pid_left : Role → ℕ → ℕ → ℕ
pid_left producer own old = own
pid_left consumer own old = old
pid_left observer own old = old

abbrev pub joined_block : Role → ℕ → ControlBlock → ControlBlock
joined_block role own h = record h {
  attach_count = (h.attach_count + 1) % 2 ^ 32;
  producer_pid = pid_left role own h.producer_pid;
}

set_pid-counted :
    (role : Role) (own : ℕ) (h : ControlBlock)
    → set_pid role false own (counted ref_count h) ≡ joined_block role own h
set_pid-counted producer own h = refl
set_pid-counted consumer own h = refl
set_pid-counted observer own h = refl

module _ (abi : Abi) (init : InitControlBlock) (w : World) (role : Role)
    (opts : TransportOptions) where
  establish_connection-eq-ok :
      (e : Endpoint)
      → establish_connection abi init w role opts ≡ ok e
      → let o = open_segment w.kernel opts.path opts.shm_size (open_mode opts) empty_shm in
        (validate_role abi role opts ≡ ok tt)
        × (o.result ≡ true)
        × (attach_mapping abi init w role opts o.shm ≡ ok e)
  unfolding establish_connection
  establish_connection-eq-ok e q = ground arith

  attach_mapping-shm :
      (shm : Shm) (e : Endpoint) → attach_mapping abi init w role opts shm ≡ ok e → e.shm ≡ shm
  unfolding attach_mapping
  attach_mapping-shm shm e q = ground arith

  attach_mapping-eq-ok :
      (shm : Shm) (e : Endpoint)
      → shm.created_this_open ≡ false
      → attach_mapping abi init w role opts shm ≡ ok e
      → (validate abi (some w.memory) (expected_of abi opts) ≡ true)
        × (e.header
            ≡ set_pid role false w.pid
                (counted ref_count (w.memory (ready_read w.memory is_ready_spin_limit 1))))
        × (e.opts.shm_size ≡ shm_size_for_data_capacity abi e.header.data_capacity)
  unfolding attach_mapping format
  attach_mapping-eq-ok shm e c q = ground arith

-- An endpoint that attached to an existing segment has validated options for its role, and the
-- block that it found ready matches them.
pub record Joined (abi : Abi) (w : World) (role : Role) (opts : TransportOptions) (e : Endpoint)
    : Type 0 where
  pub valid : validate_role abi role opts ≡ ok tt
  pub j : ℕ
  pub first : FirstReady w.memory is_ready_spin_limit 1 j
  pub fits : Matches abi (w.memory j) (expected_of abi opts)
  pub header : e.header ≡ joined_block role w.pid (w.memory j)
  pub mapping : Attached w.kernel opts.shm_size e.shm
  pub size : e.opts.shm_size ≡ shm_size_for_data_capacity abi (w.memory j).data_capacity

-- Attaching to an existing segment succeeds only with options that are valid for the role and a
-- block that matches them. The block is then as it was found, with attach_count raised by one modulo
-- 2 ^ 32, and producer_pid the process's own if it is a producer. The options report the size of the
-- segment that the block states.
pub establish_connection-Joined :
    (abi : Abi) (init : InitControlBlock) (w : World) (role : Role) (opts : TransportOptions)
    (e : Endpoint)
    → establish_connection abi init w role opts ≡ ok e
    → e.shm.created_this_open ≡ false
    → Joined abi w role opts e
establish_connection-Joined abi init w role opts e q c =
    let (valid, opened, rest) = establish_connection-eq-ok abi init w role opts e q in
    let o = open_segment w.kernel opts.path opts.shm_size (open_mode opts) empty_shm in
    let mapped =
      open_segment-Attached w.kernel opts.path opts.shm_size (open_mode opts) empty_shm refl refl in
    let same = attach_mapping-shm abi init w role opts o.shm e rest in
    let (accepted, header, size) =
      attach_mapping-eq-ok abi init w role opts o.shm e
        (ap (λ (s : Shm). s.created_this_open) (sym same) ∙ c) rest in
    let (magic, (j, first, fits)) = (validate_detailed_iff abi w.memory (expected_of abi opts)).0 (
      is_ok-true (validate_detailed abi (some w.memory) (expected_of abi opts))
        (unfold validate in accepted)) in
    let found : ready_read w.memory is_ready_spin_limit 1 ≡ j =
      ready_read-first w.memory is_ready_spin_limit 1 j first in
    let here =
      header
      ∙ ap (λ (i : ℕ). set_pid role false w.pid (counted ref_count (w.memory i))) found
      ∙ set_pid-counted role w.pid (w.memory j) in
    record {
      valid = valid;
      j = j;
      first = first;
      fits = fits;
      header = here;
      mapping = subst (Attached w.kernel opts.shm_size) (sym same) (mapped opened);
      size = size ∙ ap (λ (h : ControlBlock). shm_size_for_data_capacity abi h.data_capacity) here;
    }
