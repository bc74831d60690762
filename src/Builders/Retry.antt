-- ===== src/Builders/Retry.antt =====
-- The attempts of `detail::read_existing_shm_options` to open a segment.
use xproc.Prelude.{
  ℕ, zero, suc, ◌+◌, ◌-◌, ◌≤◌, ◌<◌, ◌≡◌, refl, ◌⊎◌, inl, inr, true, false, List, some, arith,
  Bool-cases, ◌==◌, if◌then◌else◌,
}
use xproc.Shm.{Shm, Kernel, empty_shm}
use xproc.Shm.Read.{Readable, attempt, attempt-Readable, Readable-attempt}
use xproc.Options.Laws.{map_right}
use xproc.Builders.Existing.{Attempts, max_attach_retries, open_rounds}

-- The attempts from `i` on end with the first that a kernel answers, after as many sleeps, or with
-- none, after a sleep between any two.
pub record Found (kernels : ℕ → Kernel) (left i sleeps : ℕ) (a : Attempts) : Type 0 where
  pub j : ℕ
  pub from : i ≤ j
  pub within : j < i + left
  pub readable : Readable (kernels j)
  pub before : (k : ℕ) → i ≤ k → k < j → ¬ Readable (kernels k)
  pub opened : a.opened ≡ true
  pub mapped : a.mapping.addr ≡ some readable.address
  pub slept : a.sleeps + i ≡ sleeps + j

pub record Missed (kernels : ℕ → Kernel) (left i sleeps : ℕ) (a : Attempts) : Type 0 where
  pub never : (k : ℕ) → i ≤ k → k < i + left → ¬ Readable (kernels k)
  pub closed : a.opened ≡ false
  pub slept : a.sleeps ≡ sleeps + (left - 1)

module _ (path : List ℕ) (kernels : ℕ → Kernel) where
  -- What is not so at `i` nor from `i + 1` on is not so from `i` on.
  no_earlier :
      (i : ℕ) (s : Shm)
      → (attempt path (kernels i) s).0 ≡ false
      → (k : ℕ) → (i ≡ k) ⊎ (¬ Readable (kernels k))
      → ¬ Readable (kernels k)
  no_earlier i s e k (inl same) r =
      let (yes_, here) = Readable-attempt path (kernels k) s r in
      let refused : (attempt path (kernels k) s).0 ≡ false = rw (← same) e in cc
  no_earlier i s e k (inr n) r = n r

  split : (i k : ℕ) → i ≤ k → (i ≡ k) ⊎ (suc i ≤ k)
  split i k h = omega arith

  open_rounds_lem :
      (left i : ℕ) (s : Shm) (sleeps : ℕ)
      → let a = open_rounds kernels path left i s sleeps in
        Found kernels left i sleeps a ⊎ Missed kernels left i sleeps a
  unfolding open_rounds
  open_rounds_lem zero i s sleeps =
      inr (record { never = λ k a b. absurd (omega arith); closed = refl; slept = omega arith })
  open_rounds_lem (suc left) i s sleeps = elim (Bool-cases ((attempt path (kernels i) s).0)) [
    | inl e ↦
        let r = attempt-Readable path (kernels i) s e in
        let m = (Readable-attempt path (kernels i) s r).1 in
        rw e (
          inl (record {
            j = i;
            from = omega arith;
            within = omega arith;
            readable = r;
            before = λ k a b. absurd (omega arith);
            opened = refl;
            mapped = m;
            slept = omega arith;
          }))
    | inr e ↦
        rw e
          (elim (open_rounds_lem left (suc i) (attempt path (kernels i) s).1
            (if left == 0 then sleeps else sleeps + 1)) [
              | inl f ↦ inl (record {
                j = f.j;
                from = omega (arith, f.from);
                within = omega (arith, f.within);
                readable = f.readable;
                before =
                    λ k a b. no_earlier i s e k (map_right (λ l. f.before k l b) (split i k a));
                opened = f.opened;
                mapped = f.mapped;
                slept = ground (arith, f.from, f.within, f.slept);
              })
              | inr m ↦ inr (record {
                never = λ k a b.
                    no_earlier i s e k (map_right (λ l. m.never k l (omega arith)) (split i k a));
                closed = m.closed;
                slept = ground (arith, m.slept);
              })
            ])
  ]

-- Opening a segment to read its options: the first of the ten attempts that the kernel answers with
-- a mapping is the one that counts, with one sleep before each later attempt, and if none of the ten
-- maps the segment, nine sleeps pass and the call has no mapping.
pub open_rounds_outcome :
    (path : List ℕ) (kernels : ℕ → Kernel)
    → let a = open_rounds kernels path max_attach_retries 0 empty_shm 0 in
      Found kernels 10 0 0 a ⊎ Missed kernels 10 0 0 a
open_rounds_outcome path kernels = open_rounds_lem path kernels max_attach_retries 0 empty_shm 0
