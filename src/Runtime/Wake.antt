-- ===== src/Runtime/Wake.antt =====
-- runtime::stop against wait_for_shared_header: two threads and a third that commits, step by step.
-- The notify word belongs to spscring; `word k` is what it holds after k bumps, and k counts them.
-- What is relied on: wait_for_seq_change registers the thread on the word, sleeps only while the word
-- has the given value, which is tested as it falls asleep, and tests again after a wake-up;
-- bump_notify_word reports whether a thread is registered; atomic_notify_all wakes those asleep.
use xproc.Prelude.{
  ℕ, suc, ◌+◌, ◌≤◌, ◌<◌, ◌≡◌, refl, sym, subst, ◌≢◌, inl, inr, Bool, true, false, arith, Bool-cases,
}

-- The waiting thread: before the load of commit_seq, after it, after the test of running_, registered
-- in wait_for_seq_change with the value that was loaded (as the number of bumps before the load),
-- asleep there, and returned.
pub data Waiter : Type 0 where
  start : Waiter
  loaded : ℕ → Waiter
  tested : ℕ → Waiter
  registered : ℕ → Waiter
  asleep : ℕ → Waiter
  returned : Waiter

-- The stopping thread: before `running_.store(false)`, before bump_notify_word, after it with what
-- it reported, and after the notification that this asks for.
pub data Stopper : Type 0 where
  idle : Stopper
  stored : Stopper
  bumped : Bool → Stopper
  stopped : Stopper

pub record Threads : Type 0 where
  pub waiter : Waiter
  pub stopper : Stopper
  pub running : Bool
  pub bumps : ℕ

-- What bump_notify_word reports.
abbrev pub is_registered : Waiter → Bool
is_registered (registered l) = true
is_registered (asleep l) = true
is_registered _ = false

-- What atomic_notify_all does to the thread.
abbrev pub awakened : Waiter → Waiter
awakened (asleep l) = registered l
awakened w = w

-- One step of one thread. `commit` is the bump of a producer, `wake_up` its notification or a
-- spurious one.
pub data Step (word : ℕ → ℕ) (s : Threads) (t : Threads) : Type 0 where
  load_seq : s.waiter ≡ start → t ≡ record s { waiter = loaded s.bumps } → Step word s t
  see_stop :
      (l : ℕ)
      → s.waiter ≡ loaded l
      → s.running ≡ false
      → t ≡ record s { waiter = returned }
      → Step word s t
  see_running :
      (l : ℕ)
      → s.waiter ≡ loaded l
      → s.running ≡ true
      → t ≡ record s { waiter = tested l }
      → Step word s t
  register : (l : ℕ) → s.waiter ≡ tested l → t ≡ record s { waiter = registered l } → Step word s t
  see_change :
      (l : ℕ)
      → s.waiter ≡ registered l
      → word s.bumps ≢ word l
      → t ≡ record s { waiter = returned }
      → Step word s t
  fall_asleep :
      (l : ℕ)
      → s.waiter ≡ registered l
      → word s.bumps ≡ word l
      → t ≡ record s { waiter = asleep l }
      → Step word s t
  wake_up : (l : ℕ) → s.waiter ≡ asleep l → t ≡ record s { waiter = registered l } → Step word s t
  clear_running :
      s.stopper ≡ idle → t ≡ record s { stopper = stored; running = false } → Step word s t
  bump :
      s.stopper ≡ stored
      → t ≡ record s { stopper = bumped (is_registered s.waiter); bumps = suc s.bumps }
      → Step word s t
  notify :
      s.stopper ≡ bumped true
      → t ≡ record s { stopper = stopped; waiter = awakened s.waiter }
      → Step word s t
  skip_notify : s.stopper ≡ bumped false → t ≡ record s { stopper = stopped } → Step word s t
  commit : t ≡ record s { bumps = suc s.bumps } → Step word s t

abbrev pub begin : ℕ → Threads
begin k = record { waiter = start; stopper = idle; running = true; bumps = k }

pub data Reach (word : ℕ → ℕ) (k : ℕ) : Threads → Type 0 where
  here : Reach word k (begin k)
  next : {s t : Threads} → Reach word k s → Step word s t → Reach word k t

abbrev has_bumped : Stopper → Bool
has_bumped (bumped b) = true
has_bumped stopped = true
has_bumped _ = false

-- A thread may be asleep until the notification is done, or found not to be needed.
abbrev may_sleep : Stopper → Bool
may_sleep (bumped b) = b
may_sleep stopped = false
may_sleep _ = true

-- A value that the waiter holds was loaded in this run, and after the bump of `stop` one that it
-- goes to wait for was loaded before that bump.
abbrev WaiterInv : Waiter → Stopper → ℕ → ℕ → Type 0
WaiterInv (loaded l) phase k bumps = (k ≤ l) × (l ≤ bumps)
WaiterInv (tested l) phase k bumps = (k ≤ l) × (l ≤ bumps) × (has_bumped phase ≡ true → l < bumps)
WaiterInv (registered l) phase k bumps =
    (k ≤ l) × (l ≤ bumps) × (has_bumped phase ≡ true → l < bumps)
WaiterInv (asleep l) phase k bumps =
    (k ≤ l) × (l ≤ bumps) × (has_bumped phase ≡ true → l < bumps) × (may_sleep phase ≡ true)
WaiterInv _ phase k bumps = Unit

-- running_ is set exactly until `stop` has cleared it.
abbrev StopperInv : Stopper → Bool → Type 0
StopperInv idle running = running ≡ true
StopperInv _ running = running ≡ false

record Inv (k : ℕ) (s : Threads) : Type 0 where
  grows : k ≤ s.bumps
  flag : StopperInv s.stopper s.running
  holds : WaiterInv s.waiter s.stopper k s.bumps

-- The value of the word changes with each bump and comes back after `period` bumps.
abbrev pub Distinct : (ℕ → ℕ) → ℕ → Type 0
Distinct word period = (i j : ℕ) → i < j → j < i + period → word i ≢ word j

Step-grows : {word : ℕ → ℕ} {s t : Threads} → Step word s t → s.bumps ≤ t.bumps
Step-grows (load_seq a e) = ground arith
Step-grows (see_stop l a r e) = ground arith
Step-grows (see_running l a r e) = ground arith
Step-grows (register l a e) = ground arith
Step-grows (see_change l a w e) = ground arith
Step-grows (fall_asleep l a w e) = ground arith
Step-grows (wake_up l a e) = ground arith
Step-grows (clear_running a e) = ground arith
Step-grows (bump a e) = ground arith
Step-grows (notify a e) = ground arith
Step-grows (skip_notify a e) = ground arith
Step-grows (commit e) = ground arith

asleep_before : (phase : Stopper) → has_bumped phase ≡ false → may_sleep phase ≡ true
asleep_before phase e = ground arith

module _ (word : ℕ → ℕ) (period k : ℕ) (distinct : Distinct word period) where
  -- A thread whose word has its value has loaded it since the last bump.
  current : (l b : ℕ) → k ≤ l → b < k + period → word b ≡ word l → (l < b → ⊥)
  current l b from few same before = distinct l b before (omega arith) (sym same)

  asleep-WaiterInv :
      (l : ℕ) (phase : Stopper) (b : ℕ)
      → b < k + period
      → word b ≡ word l
      → WaiterInv (registered l) phase k b
      → WaiterInv (asleep l) phase k b
  asleep-WaiterInv l phase b few same (from, upto, before) = elim (Bool-cases (has_bumped phase)) [
    | inl after ↦ absurd (current l b from few same (before after))
    | inr e ↦ (from, upto, before, asleep_before phase e)
  ]

  Step-Inv : {s t : Threads} → Step word s t → s.bumps < k + period → Inv k s → Inv k t
  Step-Inv (load_seq a e) few v = subst (Inv k) (sym e) (ground arith)
  Step-Inv (see_stop l a r e) few v = subst (Inv k) (sym e) (ground arith)
  Step-Inv (see_running l a r e) few v = subst (Inv k) (sym e) (ground arith)
  Step-Inv (register l a e) few v = subst (Inv k) (sym e) (ground arith)
  Step-Inv (see_change l a w e) few v = subst (Inv k) (sym e) (ground arith)
  Step-Inv {s} (fall_asleep l a w e) few v =
      let before : WaiterInv (registered l) s.stopper k s.bumps =
        subst (λ w. WaiterInv w s.stopper k s.bumps) a v.holds in
      subst (Inv k) (sym e) (record {
        grows = v.grows;
        flag = v.flag;
        holds = asleep-WaiterInv l s.stopper s.bumps few w before;
      })
  Step-Inv (wake_up l a e) few v = subst (Inv k) (sym e) (ground arith)
  Step-Inv (clear_running a e) few v = subst (Inv k) (sym e) (ground arith)
  Step-Inv (bump a e) few v = subst (Inv k) (sym e) (ground arith)
  Step-Inv (notify a e) few v = subst (Inv k) (sym e) (ground arith)
  Step-Inv (skip_notify a e) few v = subst (Inv k) (sym e) (ground arith)
  Step-Inv (commit e) few v = subst (Inv k) (sym e) (ground arith)

  Reach-Inv : {s : Threads} → Reach word k s → s.bumps < k + period → Inv k s
  Reach-Inv here few = ground arith
  Reach-Inv (next r st) few =
      let earlier = Step-grows st in Step-Inv st (omega arith) (Reach-Inv r (omega arith))

  -- The waiting thread gets from where it is to its return by steps of its own, of which none waits
  -- for another thread; one that is asleep does not.
  abbrev pub Free : Threads → Waiter → Type 0
  Free s start =
      Step word s (record s { waiter = loaded s.bumps })
      × Step word (record s { waiter = loaded s.bumps }) (record s { waiter = returned })
  Free s (loaded l) = Step word s (record s { waiter = returned })
  Free s (tested l) =
      Step word s (record s { waiter = registered l })
      × Step word (record s { waiter = registered l }) (record s { waiter = returned })
  Free s (registered l) = Step word s (record s { waiter = returned })
  Free s (asleep l) = ⊥
  Free s returned = Unit

  changed : (l b : ℕ) → k ≤ l → l < b → b < k + period → word b ≢ word l
  changed l b from before few same = current l b from few same before

  waiter-Free :
      (s : Threads) (w : Waiter)
      → s.waiter ≡ w
      → s.bumps < k + period
      → s.stopper ≡ stopped
      → Inv k s
      → Free s w
  waiter-Free s start a few st v = (load_seq a refl, see_stop s.bumps refl (ground arith) refl)
  waiter-Free s (loaded l) a few st v = see_stop l a (ground arith) refl
  waiter-Free s (tested l) a few st v = (
    register l a refl,
    see_change l refl (changed l s.bumps (ground arith) (ground arith) few) refl,
  )
  waiter-Free s (registered l) a few st v =
      see_change l a (changed l s.bumps (ground arith) (ground arith) few) refl
  waiter-Free s (asleep l) a few st v = ground arith
  waiter-Free s returned a few st v = tt

  -- No wake-up is lost: in every interleaving with `stop` and with commits, once `stop` is done the
  -- waiting thread is not asleep, and gets to its return by steps of its own wherever it is, as long
  -- as fewer bumps were made than the word has values.
  pub stop_wakes :
      (s : Threads) → Reach word k s → s.bumps < k + period → s.stopper ≡ stopped → Free s s.waiter
  stop_wakes s r few st = waiter-Free s s.waiter refl few st (Reach-Inv r few)
