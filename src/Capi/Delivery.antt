-- ===== src/Capi/Delivery.antt =====
-- xproc_c_consumer_poll_copy over a queue of messages: a message that does not fit is kept.
use xproc.Prelude.{
  ℕ, ◌≤◌, ◌<◌, ◌≡◌, refl, sym, ap, subst, ◌∙◌, inl, inr, Bool, false, List, [], ◌∷◌, ◌++◌, Option,
  none, some, arith, Bool-cases, ltb, ltb→lt, if◌then◌else◌, length, All, replicate,
}
use xproc.Errors.{Exception, ok}
use xproc.Options.{is_empty}
use xproc.Capi.{success, Reply, succeed, try_again}
use xproc.Capi.Consumer.{
  ConsumerInterface, ConsumerHandle, Copied, null_with_capacity, consumer_poll_copy, copy_from,
  copy_polled, too_small,
}

-- A channel whose poll takes the message at the front of a queue, and leaves an empty queue as it is.
pub record QueueLaw {C : Type 0} (ops : ConsumerInterface C) : Type 0 where
  pub queue : C → List (List ℕ)
  pub empty : (c : C) → queue c ≡ [] → ((ops.poll c).1 ≡ ok none) × (queue (ops.poll c).0 ≡ [])
  pub front :
      (c : C) (m : List ℕ) (q : List (List ℕ))
      → queue c ≡ m ∷ q
      → ((ops.poll c).1 ≡ ok (some m)) × (queue (ops.poll c).0 ≡ q)

module _ (what : Exception → List ℕ) {C : Type 0} (ops : ConsumerInterface C)
    (law : QueueLaw ops) where
  -- The messages that a handle still has to deliver: the one that it keeps, and the queue.
  abbrev pub messages : ConsumerHandle C → List (List ℕ)
  messages h = if is_empty h.pending then law.queue h.impl else h.pending ∷ law.queue h.impl

  -- The outcome of a copy on messages `ms` with room for `capacity` bytes.
  pub data CopyOutcome (ms : List (List ℕ)) (capacity : ℕ) (r : Reply (Copied C)) : Type 0 where
    nothing :
        (h : ConsumerHandle C)
        → ms ≡ []
        → r ≡ try_again (record { handle = some h; written = []; out_len = some 0 })
        → messages h ≡ []
        → CopyOutcome ms capacity r
    copied :
        (h : ConsumerHandle C) (m : List ℕ)
        → ms ≡ m ∷ messages h
        → length m ≤ capacity
        → r ≡ succeed (record { handle = some h; written = m; out_len = some (length m) })
        → CopyOutcome ms capacity r
    kept :
        (h : ConsumerHandle C)
        → ms ≡ messages h
        → capacity < length h.pending
        → r ≡ too_small what ops h (length h.pending)
        → CopyOutcome ms capacity r

  -- What is kept has bytes, so that it counts as kept.
  kept_messages :
      (m : List ℕ) (c : C) (q : List (List ℕ)) (capacity : ℕ)
      → capacity < length m
      → law.queue c ≡ q
      → m ∷ q ≡ messages (record { impl = c; pending = m })
  kept_messages [] c q capacity l e = absurd (omega arith)
  kept_messages (b ∷ m) c q capacity l e = ap (◌∷◌ (b ∷ m)) (sym e)

  kept_front :
      (g : ConsumerHandle C) (capacity : ℕ) (m : List ℕ) (ms : List (List ℕ))
      → capacity < length g.pending
      → m ∷ ms ≡ messages g
      → g.pending ≡ m
  kept_front g capacity m ms l e = go g.pending l e
    where
      go : (p : List ℕ) → capacity < length p → m ∷ ms ≡ messages (record g { pending = p }) → p ≡ m
      go [] l e = absurd (omega arith)
      go (b ∷ p) l e = cc

  copy_polled_lem :
      (impl : C) (capacity n : ℕ) (q : List (List ℕ))
      → law.queue impl ≡ q
      → CopyOutcome q capacity
          (copy_polled what ops (record { impl = impl; pending = [] }) capacity n (ops.poll impl))
  copy_polled_lem impl capacity n [] e =
      let (result, left) = law.empty impl e in
      nothing (record { impl = (ops.poll impl).0; pending = [] }) refl (rw result) left
  copy_polled_lem impl capacity n (m ∷ q) e =
      let (result, left) = law.front impl m q e in
      elim (Bool-cases (ltb capacity (length m))) [
        | inl small ↦
            kept (record { impl = (ops.poll impl).0; pending = m })
              (kept_messages m (ops.poll impl).0 q capacity (ground arith) left) (ground arith)
              (rw (result, small))
        | inr fits ↦
            copied (record { impl = (ops.poll impl).0; pending = [] }) m (ap (◌∷◌ m) (sym left))
              (ground arith) (rw (result, fits))
      ]

  -- A copy on handle and pointers that are not null, or with a null buffer of no capacity: with no
  -- message left the call says again; a message that fits is copied whole and is the one delivered;
  -- and a message that does not fit stays the next one, with its length told and nothing copied.
  pub poll_copy-CopyOutcome :
      (h : ConsumerHandle C) (null_buffer : Bool) (capacity n : ℕ)
      → null_with_capacity null_buffer capacity ≡ false
      → CopyOutcome
          (messages h)
          capacity
          (consumer_poll_copy what ops (some h) null_buffer capacity (some n))
  unfolding consumer_poll_copy
  poll_copy-CopyOutcome h null_buffer capacity n e = rw e (go h.pending)
    where
      go :
          (pending : List ℕ)
          → CopyOutcome
              (messages (record h { pending = pending }))
              capacity
              (copy_from what ops (record h { pending = pending }) capacity n)
      go [] = copy_polled_lem h.impl capacity n (law.queue h.impl) refl
      go (b ∷ m) = elim (Bool-cases (ltb capacity (length (b ∷ m)))) [
        | inl small ↦ kept (record h { pending = b ∷ m }) refl (ltb→lt capacity _ small) (rw small)
        | inr fits ↦ copied (record h { pending = [] }) (b ∷ m) refl (ground arith) (rw fits)
      ]

-- Calls of xproc_c_consumer_poll_copy, each with a buffer of the capacity given, and the bytes of
-- those that returned XPROC_C_STATUS_OK.
pub record Copies (C : Type 0) : Type 0 where
  pub handle : ConsumerHandle C
  pub delivered : List (List ℕ)

module _ (what : Exception → List ℕ) {C : Type 0} (ops : ConsumerInterface C) where
  abbrev pub after_copy : ConsumerHandle C → Option (ConsumerHandle C) → ConsumerHandle C
  after_copy h none = h
  after_copy h (some h') = h'

  abbrev pub delivered_by : Reply (Copied C) → List (List ℕ) → List (List ℕ)
  delivered_by r rest = elim (r.status) [ success ↦ r.out.written ∷ rest | _ ↦ rest ]

  unfoldable pub copies : List ℕ → ConsumerHandle C → Copies C
  copies [] h = record { handle = h; delivered = [] }
  copies (capacity ∷ cs) h =
      let r = consumer_poll_copy what ops (some h) false capacity (some 0) in
      let rest = copies cs (after_copy h r.out.handle) in
      record rest { delivered = delivered_by r rest.delivered }

  -- Whatever the capacities of the buffers that the calls bring, the messages that they delivered,
  -- followed by those that the handle still has, are those that it had, in order: none is lost,
  -- cut, repeated or overtaken.
  pub copies-messages :
      (law : QueueLaw ops) (cs : List ℕ) (h : ConsumerHandle C)
      → let x = copies cs h in
        x.delivered ++ messages what ops law x.handle ≡ messages what ops law h
  unfolding copies
  copies-messages law [] h = refl
  copies-messages law (capacity ∷ cs) h =
      go (poll_copy-CopyOutcome what ops law h false capacity 0 refl)
        (λ g. copies-messages law cs g)
    where
      go :
          CopyOutcome what ops law
            (messages what ops law h)
            capacity
            (consumer_poll_copy what ops (some h) false capacity (some 0))
          → ((g : ConsumerHandle C)
              → (copies cs g).delivered ++ messages what ops law (copies cs g).handle
                ≡ messages what ops law g)
          → (copies (capacity ∷ cs) h).delivered
              ++ messages what ops law (copies (capacity ∷ cs) h).handle
            ≡ messages what ops law h
      go (nothing g e r left) next = rw r (next g ∙ left ∙ sym e)
      go (copied g m e fits r) next = rw r (ap (◌∷◌ m) (next g) ∙ sym e)
      go (kept g e small r) next = rw r (next g ∙ sym e)

  -- As many calls as there are messages, each with a buffer that holds the longest of them, deliver
  -- all of them, in order.
  pub copies_all :
      (law : QueueLaw ops) (capacity : ℕ) (h : ConsumerHandle C) (ms : List (List ℕ))
      → messages what ops law h ≡ ms
      → All (λ m. length m ≤ capacity) ms
      → (copies (replicate (length ms) capacity) h).delivered ≡ ms
  unfolding copies
  copies_all law capacity h [] e a = refl
  copies_all law capacity h (m ∷ ms) e (fits, others) =
      go
        (subst
          (λ l.
            CopyOutcome what ops law l capacity
              (consumer_poll_copy what ops (some h) false capacity (some 0)))
          e (poll_copy-CopyOutcome what ops law h false capacity 0 refl))
        (λ g q. copies_all law capacity g ms q others)
    where
      go :
          CopyOutcome what ops law
            (m ∷ ms)
            capacity
            (consumer_poll_copy what ops (some h) false capacity (some 0))
          → ((g : ConsumerHandle C)
              → messages what ops law g ≡ ms
              → (copies (replicate (length ms) capacity) g).delivered ≡ ms)
          → (copies (capacity ∷ replicate (length ms) capacity) h).delivered ≡ m ∷ ms
      go (nothing g q r left) next = cc
      go (copied g m' q enough r) next =
          let rest = next g (ground arith) in rw (r, rest) (ground arith)
      go (kept g q small r) next =
          let same = kept_front what ops law g capacity m ms small q in
          absurd (omega (arith, ap length same))
