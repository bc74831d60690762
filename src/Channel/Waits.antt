-- ===== src/Channel/Waits.antt =====
-- How the sends of a channel end that are bounded in time.
use xproc.Prelude.{
  ℕ, suc, ◌≤◌, ◌<◌, ◌≡◌, ◌⊎◌, Bool, true, false, not, List, [], ◌∷◌, ◌++◌, Option, some, length,
  leb,
}
use xproc.SendResult.{SendResult, MessageMeta, empty_meta}
use xproc.Ring.{ReserveStatus, reserved, full, timed_out, too_large, other, Ring, RingLaw}
use xproc.Channel.{Channel, padded}

abbrev pub is_full : ReserveStatus → Bool
is_full full = true
is_full _ = false

-- The result of a last round that appends nothing, after the status of its reservation.
abbrev pub Refused : ReserveStatus → Bool → SendResult → Type 0
Refused reserved late s = ⊥
Refused full late s = (late ≡ true) × (s ≡ SendResult.timeout)
Refused timed_out late s = s ≡ SendResult.timeout
Refused too_large late s = s ≡ SendResult.message_too_large
Refused other late s = s ≡ SendResult.invalid_argument

module _ {R : Type 0} (ops : Ring R) (law : RingLaw R ops) where
  -- From round `i` with ring `a` a bounded send comes to round `k` with ring `b`: every round
  -- before finds no room, which leaves the queue as it is, and reads a time before the deadline, and
  -- then the other process makes `meanwhile` of the ring. `attempt i a` is the reservation's outcome
  -- (`true` where it finds no room) and the ring that it leaves.
  pub data Waits (attempt : ℕ → R → Bool × R) (meanwhile : ℕ → R → R) (clock : ℕ → ℕ) (deadline : ℕ)
      (k : ℕ) (b : R) : ℕ → R → Type 0 where
    at_once : Waits attempt meanwhile clock deadline k b k b
    busy :
        {i : ℕ} {a : R}
        → (attempt i a).0 ≡ true
        → law.queue (attempt i a).1 ≡ law.queue a
        → clock i < deadline
        → Waits attempt meanwhile clock deadline k b (suc i) (meanwhile i (attempt i a).1)
        → Waits attempt meanwhile clock deadline k b i a

  abbrev pub fixed_attempt : ℕ → R → Bool × R
  fixed_attempt i a = (not (ops.fixed_try_reserve a).0, (ops.fixed_try_reserve a).1)

  -- How a bounded fixed send from round `i` and ring `a` ends, at a round `k` with a ring `b`: that
  -- round finds room and appends the message to the queue of `b`, or it finds none at a time that is
  -- not before the deadline and leaves the queue of `b` as it is.
  abbrev pub EndsFixed :
      (ℕ → R → R) → (ℕ → ℕ) → ℕ → ℕ → R → ℕ → List ℕ → Channel R → Option SendResult → Type 0
  EndsFixed meanwhile clock deadline i a item_size payload c' r =
      (k : ℕ) × (b : R) × Waits fixed_attempt meanwhile clock deadline k b i a
      × (((r ≡ some SendResult.ok)
            × ((ops.fixed_try_reserve b).0 ≡ true)
            × (law.queue c'.ring ≡ law.queue b ++ ((empty_meta, padded item_size payload) ∷ [])))
          ⊎ ((r ≡ some SendResult.timeout)
              × ((ops.fixed_try_reserve b).0 ≡ false)
              × (deadline ≤ clock k)
              × (law.queue c'.ring ≡ law.queue b)))

  -- The reservation of round `i`, with the metadata of the message in that round.
  abbrev pub varlen_reservation : (ℕ → MessageMeta) → List ℕ → ℕ → R → ReserveStatus × R
  varlen_reservation metas payload i a = ops.varlen_try_reserve (length payload) (metas i) a

  abbrev pub varlen_attempt : (ℕ → MessageMeta) → List ℕ → ℕ → R → Bool × R
  varlen_attempt metas payload i a =
      let t = varlen_reservation metas payload i a in (is_full t.0, t.1)

  -- How a bounded variable-length send from round `i` and ring `a` ends, at a round `k` with a ring
  -- `b`: its reservation succeeds there and the message is appended to the queue of `b`, or it fails
  -- and the queue of `b` is left as it is.
  abbrev pub EndsVarlen :
      (ℕ → R → R)
      → (ℕ → ℕ)
      → (ℕ → MessageMeta)
      → ℕ
      → ℕ
      → R
      → List ℕ
      → Channel R
      → Option SendResult
      → Type 0
  EndsVarlen meanwhile clock metas deadline i a payload c' r =
      (k : ℕ) × (b : R) × Waits (varlen_attempt metas payload) meanwhile clock deadline k b i a
      × (((r ≡ some SendResult.ok)
            × ((varlen_reservation metas payload k b).0 ≡ reserved)
            × (law.queue c'.ring ≡ law.queue b ++ ((metas k, payload) ∷ [])))
          ⊎ ((s : SendResult) × (r ≡ some s)
              × Refused (varlen_reservation metas payload k b).0 (leb deadline (clock k)) s
              × (law.queue c'.ring ≡ law.queue b)))
