-- ===== src/Layout/Wait.antt =====
-- layout_manager::validate_detailed: the wait for is_ready.
use xproc.Prelude.{
  ℕ, zero, suc, ◌+◌, ◌≤◌, ◌<◌, ◌≡◌, ap, ◌⊎◌, inl, inr, true, false, none, some, arith, Bool-cases,
}
use xproc.Layout.{ControlBlock, wait_ready, ready_read}

-- Read j is the first from read i on, and among the next `limit` ones, that finds the block ready.
pub record FirstReady (memory : ℕ → ControlBlock) (limit i j : ℕ) : Type 0 where
  pub from : i ≤ j
  pub within : j < i + limit
  pub ready : (memory j).is_ready ≡ true
  pub before : (k : ℕ) → i ≤ k → k < j → (memory k).is_ready ≡ false

module _ (memory : ℕ → ControlBlock) where
  here : (limit i : ℕ) → (memory i).is_ready ≡ true → 0 < limit → FirstReady memory limit i i
  here limit i r p = record {
    from = omega arith;
    within = omega arith;
    ready = r;
    before = λ k a b. absurd (omega arith);
  }

  later :
      (left i j : ℕ)
      → (memory i).is_ready ≡ false
      → FirstReady memory left (suc i) j
      → FirstReady memory (suc left) i j
  later left i j r f = record {
    from = omega (arith, f.from);
    within = omega (arith, f.within);
    ready = f.ready;
    before = λ k a b. earlier k a b (omega arith);
  }
    where
      earlier : (k : ℕ) → i ≤ k → k < j → (i ≡ k) ⊎ (suc i ≤ k) → (memory k).is_ready ≡ false
      earlier k a b (inl e) = rw (← e) r
      earlier k a b (inr l) = f.before k l b

  -- A load that finds the block ready is the first one; after one that does not, the first is later.
  first : (limit i j : ℕ) → (memory i).is_ready ≡ true → FirstReady memory limit i j → i ≡ j
  first limit i j r f = elim (order f.from) [
    | inl e ↦ e
    | inr l ↦ let unready : (memory i).is_ready ≡ false = f.before i (omega arith) l in cc
  ]
    where
      order : i ≤ j → (i ≡ j) ⊎ (i < j)
      order h = omega arith

  next :
      (left i j : ℕ)
      → (memory i).is_ready ≡ false
      → FirstReady memory (suc left) i j
      → FirstReady memory left (suc i) j
  next left i j r f = record {
    from = elim (order f.from) [
      | inl e ↦ let ready : (memory i).is_ready ≡ true = rw e f.ready in cc
      | inr l ↦ l
    ];
    within = omega (arith, f.within);
    ready = f.ready;
    before = λ k a b. f.before k (omega arith) b;
  }
    where
      order : i ≤ j → (i ≡ j) ⊎ (i < j)
      order h = omega arith

pub wait_ready_sound :
    (memory : ℕ → ControlBlock) (limit i : ℕ) (h : ControlBlock)
    → 0 < limit
    → wait_ready memory limit i ≡ some h
    → (j : ℕ) × FirstReady memory limit i j × (memory j ≡ h)
unfolding wait_ready
wait_ready_sound memory zero i h p e = absurd (omega arith)
wait_ready_sound memory (suc zero) i h p e = elim (Bool-cases ((memory i).is_ready)) [
  | inl r ↦ (i, here memory 1 i r (omega arith), ground arith)
  | inr r ↦ ground arith
]
wait_ready_sound memory (suc (suc left)) i h p e = elim (Bool-cases ((memory i).is_ready)) [
  | inl r ↦ (i, here memory (suc (suc left)) i r (omega arith), ground arith)
  | inr r ↦
      let (j, f, q) = wait_ready_sound memory (suc left) (suc i) h (omega arith) (ground arith) in
      (j, later memory (suc left) i j r f, q)
]

pub wait_ready_complete :
    (memory : ℕ → ControlBlock) (limit i j : ℕ)
    → FirstReady memory limit i j
    → wait_ready memory limit i ≡ some (memory j)
unfolding wait_ready
wait_ready_complete memory zero i j f = absurd (omega (arith, f.from, f.within))
wait_ready_complete memory (suc zero) i j f =
    let same : i ≡ j = omega (arith, f.from, f.within) in
    let ready : (memory i).is_ready ≡ true = rw same f.ready in
    rw (ready, wait_ready) (ap (λ n. some (memory n)) same)
wait_ready_complete memory (suc (suc left)) i j f = elim (Bool-cases ((memory i).is_ready)) [
  | inl r ↦ rw (r, wait_ready) (ap (λ n. some (memory n)) (first memory (suc (suc left)) i j r f))
  | inr r ↦
      let rest : wait_ready memory (suc left) (suc i) ≡ some (memory j) =
        wait_ready_complete memory (suc left) (suc i) j (next memory (suc left) i j r f) in
      ground arith
]

pub wait_ready_timeout :
    (memory : ℕ → ControlBlock) (limit i : ℕ)
    → 0 < limit
    → wait_ready memory limit i ≡ none
    → (k : ℕ) → i ≤ k
    → k < i + limit
    → (memory k).is_ready ≡ false
unfolding wait_ready
wait_ready_timeout memory zero i p e k a b = absurd (omega arith)
wait_ready_timeout memory (suc zero) i p e k a b =
    let same : i ≡ k = omega arith in
    let unready : (memory i).is_ready ≡ false = ground arith in rw (← same) unready
wait_ready_timeout memory (suc (suc left)) i p e k a b = elim (order a) [
  | inl same ↦ let unready : (memory i).is_ready ≡ false = ground arith in rw (← same) unready
  | inr l ↦
      wait_ready_timeout memory (suc left) (suc i) (omega arith) (ground arith) k l (omega arith)
]
  where
    order : i ≤ k → (i ≡ k) ⊎ (i < k)
    order h = omega arith

-- The read at which the wait ends is the first that finds the block ready.
pub ready_read-first :
    (memory : ℕ → ControlBlock) (limit i j : ℕ)
    → FirstReady memory limit i j
    → ready_read memory limit i ≡ j
unfolding ready_read
ready_read-first memory zero i j f = absurd (omega (arith, f.from, f.within))
ready_read-first memory (suc zero) i j f =
    let same : i ≡ j = omega (arith, f.from, f.within) in
    let ready : (memory i).is_ready ≡ true = rw same f.ready in rw (ready, ready_read) same
ready_read-first memory (suc (suc left)) i j f = elim (Bool-cases ((memory i).is_ready)) [
  | inl r ↦ rw (r, ready_read) (first memory (suc (suc left)) i j r f)
  | inr r ↦
      let rest : ready_read memory (suc left) (suc i) ≡ j =
        ready_read-first memory (suc left) (suc i) j (next memory (suc left) i j r f) in
      ground arith
]
