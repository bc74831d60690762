-- ===== src/Ring.antt =====
-- The writers and readers of spscring, a submodule: the calls that include/xproc/ipc/channel.hpp and
-- observer.hpp make on them, as operations on an unknown state `R`, and the documented behaviour
-- that they rely on: a ring is a queue of messages.
use xproc.Prelude.{ℕ, ◌≡◌, ◌≢◌, Bool, true, false, List, [], ◌∷◌, ◌++◌, Option, none, some}
use xproc.Errors.{Result, ok}
use xproc.SendResult.{MessageMeta, empty_meta}

-- `spscring::reserve_status`; the code names four of its values.
pub data ReserveStatus : Type 0 where
  reserved full timed_out too_large other : ReserveStatus

abbrev pub Entry : Type 0
Entry = MessageMeta × List ℕ

-- What a reader calls with a message: false leaves the message in the ring, true takes it.
abbrev pub Visitor : Type 0
Visitor = MessageMeta → List ℕ → Result Bool

-- A call of varlen_reader::read: the message that the visitor was called with, the return or the
-- exception, and the ring.
pub record Visit (R : Type 0) : Type 0 where
  pub seen : Option Entry
  pub result : Result Bool
  pub ring : R

-- A reservation is followed by the bytes that are copied into it and its commit.
pub record Ring (R : Type 0) : Type 0 where
  pub fixed_try_reserve : R → Bool × R
  pub fixed_spin_until_reserve : R → R
  pub fixed_commit : List ℕ → R → R
  pub varlen_try_reserve : ℕ → MessageMeta → R → ReserveStatus × R
  pub varlen_commit : List ℕ → R → R
  pub fixed_try_read : R → Option (List ℕ)
  pub fixed_read_advance : R → R
  pub varlen_read : Visitor → R → Visit R

-- A ring holds a queue of entries. A reservation alone changes nothing in it; its commit appends
-- the entry; while a reservation spins, the consumer may take entries from the front.
pub record RingLaw (R : Type 0) (ops : Ring R) : Type 0 where
  pub queue : R → List Entry
  pub fixed_reserve : (r : R) → queue (ops.fixed_try_reserve r).1 ≡ queue r
  pub fixed_commit :
      (r : R) (bytes : List ℕ)
      → (ops.fixed_try_reserve r).0 ≡ true
      → queue (ops.fixed_commit bytes (ops.fixed_try_reserve r).1)
        ≡ queue (ops.fixed_try_reserve r).1 ++ ((empty_meta, bytes) ∷ [])
  pub fixed_spin :
      (r : R) (bytes : List ℕ)
      → (taken : List Entry) × (left : List Entry) × (queue r ≡ taken ++ left)
        × (queue (ops.fixed_commit bytes (ops.fixed_spin_until_reserve r))
            ≡ left ++ ((empty_meta, bytes) ∷ []))
  pub varlen_reserve :
      (r : R) (n : ℕ) (m : MessageMeta) → queue (ops.varlen_try_reserve n m r).1 ≡ queue r
  pub varlen_commit :
      (r : R) (n : ℕ) (m : MessageMeta) (bytes : List ℕ)
      → (ops.varlen_try_reserve n m r).0 ≡ reserved
      → queue (ops.varlen_commit bytes (ops.varlen_try_reserve n m r).1)
        ≡ queue (ops.varlen_try_reserve n m r).1 ++ ((m, bytes) ∷ [])
  pub fixed_empty : (r : R) → queue r ≡ [] → ops.fixed_try_read r ≡ none
  pub fixed_front :
      (r : R) (e : Entry) (q : List Entry) → queue r ≡ e ∷ q → ops.fixed_try_read r ≡ some e.1
  pub fixed_advance :
      (r : R) (e : Entry) (q : List Entry) → queue r ≡ e ∷ q → queue (ops.fixed_read_advance r) ≡ q
  pub varlen_empty :
      (r : R) (f : Visitor)
      → queue r ≡ []
      → ((ops.varlen_read f r).seen ≡ none)
        × ((ops.varlen_read f r).result ≡ ok false)
        × (queue (ops.varlen_read f r).ring ≡ [])
  pub varlen_front :
      (r : R) (f : Visitor) (e : Entry) (q : List Entry)
      → queue r ≡ e ∷ q
      → ((ops.varlen_read f r).seen ≡ some e)
        × ((ops.varlen_read f r).result ≡ f e.0 e.1)
        × (f e.0 e.1 ≡ ok true → queue (ops.varlen_read f r).ring ≡ q)
        × (f e.0 e.1 ≢ ok true → queue (ops.varlen_read f r).ring ≡ e ∷ q)
