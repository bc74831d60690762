-- ===== src/Observer/Laws.antt =====
-- What the read-only attach leaves alone, the sizes, the peek, and the tracker.
use xproc.Prelude.{
  ℕ, ◌+◌, ◌-◌, ◌≡◌, refl, ap, ◌∙◌, ◌≢◌, ◌↔◌, ◌⊎◌, inl, inr, true, false, List, [], ◌∷◌, some, arith,
}
use xproc.Errors.{Exception, Result, ok, throw}
use xproc.Options.{
  Abi, TransportOptions, varlen, is_fixed, shm_size_for_data_capacity,
  validate_observer_transport_options,
}
use xproc.Layout.{
  ControlBlock, InitControlBlock, is_ready_spin_limit, ready_read, format, validate,
  validate_detailed,
}
use xproc.Layout.Wait.{FirstReady, ready_read-first}
use xproc.Layout.Format.{is_ok-true}
use xproc.Layout.Validate.{Matches, validate_detailed_iff}
use xproc.Shm.{Shm, read, empty_shm, open_segment}
use xproc.Endpoint.{World, expected_of}
use xproc.Ring.{Entry, Ring, RingLaw}
use xproc.Channel.{Handler, used_bytes, available_bytes}
use xproc.Observer.{
  Observer, attach_readonly, attach_observer, RingSnapshot, occupancy_bytes, free_bytes, keep_with,
  peek, Tracker, update, idle_duration,
}

-- The bytes in use that a channel reports and those that an observer reports are the same, never
-- more than the capacity, and with the free bytes make up the capacity.
pub used_bytes-occupancy_bytes :
    (h : ControlBlock)
    → (used_bytes h ≡ occupancy_bytes h)
      × (used_bytes h + available_bytes h ≡ h.data_capacity)
      × (free_bytes h ≡ available_bytes h)
unfolding used_bytes available_bytes occupancy_bytes free_bytes
used_bytes-occupancy_bytes h = (ground arith, ground arith, ground arith)

module _ (abi : Abi) (init : InitControlBlock) (w : World) (opts : TransportOptions) where
  attach_observer-eq-ok :
      (o : Observer)
      → attach_observer abi init w opts ≡ ok o
      → (validate_observer_transport_options abi opts ≡ ok tt)
        × ((open_segment w.kernel opts.path opts.shm_size read empty_shm).result ≡ true)
        × (attach_readonly abi init w opts
              (open_segment w.kernel opts.path opts.shm_size read empty_shm).shm
            ≡ ok o)
  unfolding attach_observer
  attach_observer-eq-ok o q = ground arith

  attach_readonly-eq-ok :
      (shm : Shm) (o : Observer)
      → attach_readonly abi init w opts shm ≡ ok o
      → (validate abi (some w.memory) (expected_of abi opts) ≡ true)
        × (o.header ≡ w.memory (ready_read w.memory is_ready_spin_limit 1))
        × (o.shm ≡ shm)
        × (o.opts.shm_size ≡ shm_size_for_data_capacity abi o.header.data_capacity)
  unfolding attach_readonly format
  attach_readonly-eq-ok shm o q = ground arith

-- An observer is attached only with valid options and to a block that matches them, and leaves that
-- block as it found it: attach_count is not raised.
pub observe_unchanged :
    (abi : Abi) (init : InitControlBlock) (w : World) (opts : TransportOptions) (o : Observer)
    → attach_observer abi init w opts ≡ ok o
    → (validate_observer_transport_options abi opts ≡ ok tt)
      × ((j : ℕ) × FirstReady w.memory is_ready_spin_limit 1 j
          × Matches abi (w.memory j) (expected_of abi opts)
          × (o.header ≡ w.memory j))
observe_unchanged abi init w opts o q =
    let (valid, opened, rest) = attach_observer-eq-ok abi init w opts o q in
    let (accepted, header, _, _) = attach_readonly-eq-ok abi init w opts _ o rest in
    let (magic, (j, first, fits)) = (validate_detailed_iff abi w.memory (expected_of abi opts)).0 (
      is_ok-true (validate_detailed abi (some w.memory) (expected_of abi opts))
        (unfold validate in accepted)) in
    (
      valid,
      (
        j,
        first,
        fits,
        header ∙ ap w.memory (ready_read-first w.memory is_ready_spin_limit 1 j first),
      ),
    )

-- A peek at a varlen ring that holds a message calls the handler with the first one, which stays in
-- the ring whatever the handler does; the peek returns true exactly if the handler returns.
pub peek-queue :
    {R : Type 0} (ops : Ring R) (law : RingLaw R ops) (opts : TransportOptions) (handler : Handler)
    (r : R) (e : Entry) (q : List Entry)
    → opts.type ≡ varlen
    → law.queue r ≡ e ∷ q
    → let p = peek ops opts handler r in
      (p.seen ≡ some e)
      × (law.queue p.ring ≡ e ∷ q)
      × ((p.result ≡ ok true) ↔ (handler e.0 e.1 ≡ ok tt))
unfolding peek
peek-queue ops law opts handler r e q v h =
    let kind : is_fixed opts.type ≡ false = ap is_fixed v in
    let (seen, result, taken, left) = law.varlen_front r (keep_with handler) e q h in
    rw (kind, seen, result)
      (elim (handler-cases (handler e.0 e.1)) [
        | inl fine ↦ (
          refl,
          left (rw (fine, keep_with) (λ t. cc)),
          rw (fine, keep_with) (λ t. refl, λ t. refl),
        )
        | inr (x, bad) ↦
            (refl, left (rw (bad, keep_with) (λ t. cc)), rw (bad, keep_with) (λ t. cc, λ t. cc))
      ])
  where
    handler-cases : (o : Result (Unit {0})) → (o ≡ ok tt) ⊎ ((x : Exception) × (o ≡ throw x))
    handler-cases (ok u) = inl refl
    handler-cases (throw x) = inr (x, refl)

-- An update of the tracker with a snapshot that was taken at a time.
pub record Sample : Type 0 where
  pub at : ℕ
  pub snap : RingSnapshot

abbrev pub feed : List Sample → Tracker → Tracker
feed [] t = t
feed (s ∷ ss) t = feed ss (update s.at s.snap t)

-- The snapshots have the positions of a first one.
abbrev pub AllAt : RingSnapshot → List Sample → Type 0
AllAt first [] = Unit
AllAt first (s ∷ ss) =
    (s.snap.write_pos ≡ first.write_pos) × (s.snap.read_pos ≡ first.read_pos) × AllAt first ss

feed_idle :
    (ss : List Sample) (first : RingSnapshot) (t : Tracker)
    → t.curr.write_pos ≡ first.write_pos
    → t.curr.read_pos ≡ first.read_pos
    → AllAt first ss
    → (feed ss t).last_progress ≡ t.last_progress
unfolding update
feed_idle [] first t a b h = refl
feed_idle (s ∷ ss) first t a b (w, r, h) =
    feed_idle ss first (update s.at s.snap t) w r h ∙ ground arith

-- The idle time counts from the update that last found a position moved: after an update with
-- positions that differ from the ones before, and any number of updates with the same positions,
-- the idle time is the time since the first of them.
pub idle_duration-progress :
    (t : Tracker) (s : Sample) (ss : List Sample) (now : ℕ)
    → (s.snap.write_pos ≢ t.curr.write_pos) ⊎ (s.snap.read_pos ≢ t.curr.read_pos)
    → AllAt s.snap ss
    → idle_duration now (feed (s ∷ ss) t) ≡ now - s.at
unfolding idle_duration update
idle_duration-progress t s ss now moved h =
    let same = feed_idle ss s.snap (update s.at s.snap t) refl refl h in
    let here : (update s.at s.snap t).last_progress ≡ s.at = ground arith in rw (same, here)
