-- ===== src/Capi/OverRing.antt =====
-- xproc_c_consumer_poll_copy of a consumer on shared memory: the poll is that of the channel.
use xproc.Prelude.{
  ℕ, ◌≡◌, refl, ap, ◌∙◌, List, [], ◌∷◌, ◌++◌, Option, none, some, map, arith, inl, inr,
  if◌then◌else◌,
}
use xproc.Errors.{Exception, Result, ok, ◌>>=◌}
use xproc.Options.{TransportOptions, varlen}
use xproc.Ring.{Entry, Ring, RingLaw}
use xproc.Endpoint.{consumer}
use xproc.Channel.{Handler, poll}
use xproc.Channel.Poll.{end_of, poll-front, poll-empty}
use xproc.Capi.Consumer.{ConsumerInterface, ConsumerHandle}
use xproc.Capi.Delivery.{QueueLaw, messages, copies, copies-messages}

-- The handler of the copy returns; what it was called with is in the reply of the poll.
abbrev pub copying : Handler
copying meta payload = ok tt

abbrev pub payload_seen : Option Entry → Option (List ℕ)
payload_seen none = none
payload_seen (some (meta, payload)) = some payload

-- The wait is that of spscring.
abbrev pub shm_consumer :
    {R : Type 0} → Ring R → (R → R × Result (Unit {0})) → TransportOptions → ConsumerInterface R
shm_consumer ops wait opts = record {
  poll = λ r.
      let p = poll ops copying (end_of ops consumer opts r) in
      (p.channel.ring, p.result >>= λ b. ok (if b then payload_seen p.seen else none));
  wait = wait;
  options = λ r. opts;
}

abbrev pub payloads : List Entry → List (List ℕ)
payloads es = map (λ (e : Entry). e.1) es

module _ {R : Type 0} (ops : Ring R) (law : RingLaw R ops) (wait : R → R × Result (Unit {0}))
    (opts : TransportOptions) (v : opts.type ≡ varlen) where
  no_payloads : (es : List Entry) → payloads es ≡ [] → es ≡ []
  no_payloads [] e = refl
  no_payloads (x ∷ es) e = cc

  first_payload :
      (es : List Entry) (m : List ℕ) (q : List (List ℕ))
      → payloads es ≡ m ∷ q
      → (x : Entry) × (rest : List Entry) × (es ≡ x ∷ rest) × (x.1 ≡ m) × (payloads rest ≡ q)
  first_payload [] m q e = absurd (ground arith)
  first_payload (x ∷ es) m q e = (x, es, refl, ground arith, ground arith)

  -- A consumer of messages of any length on shared memory takes them from the queue of its ring.
  pub shm_consumer-QueueLaw : QueueLaw (shm_consumer ops wait opts)
  shm_consumer-QueueLaw = record {
    queue = λ r. payloads (law.queue r);
    empty = λ r e.
        let (seen, result, left) =
          poll-empty ops law copying (end_of ops consumer opts r) refl v
            (no_payloads (law.queue r) e) in
        (rw result, ap payloads left);
    front = λ r m q e. taken r m q e;
  }
    where
      taken :
          (r : R) (m : List ℕ) (q : List (List ℕ))
          → payloads (law.queue r) ≡ m ∷ q
          → (((shm_consumer ops wait opts).poll r).1 ≡ ok (some m))
            × (payloads (law.queue ((shm_consumer ops wait opts).poll r).0) ≡ q)
      taken r m q e =
          let (x, rest, front, same, left) = first_payload (law.queue r) m q e in
          let (seen, after) =
            poll-front ops law copying (end_of ops consumer opts r) x rest refl v front in
          elim after [
            | inl (fine, result, gone) ↦
                (rw (result, seen) (ap (λ p. ok (some p)) same), ap payloads gone ∙ left)
            | inr (x', thrown, result, kept) ↦ absurd (ground arith)
          ]

-- What C calls of xproc_c_consumer_poll_copy deliver of a ring of messages of any length, whatever
-- the capacities of their buffers, followed by what the handle keeps and by what is left in the ring,
-- is what was kept and in the ring before, in order.
pub copies-ring :
    {R : Type 0} (ops : Ring R) (law : RingLaw R ops) (wait : R → R × Result (Unit {0}))
    (opts : TransportOptions) (v : opts.type ≡ varlen) (what : Exception → List ℕ) (cs : List ℕ)
    (h : ConsumerHandle R)
    → let x = copies what (shm_consumer ops wait opts) cs h in
      let left =
        messages what (shm_consumer ops wait opts) (shm_consumer-QueueLaw ops law wait opts v) in
      x.delivered ++ left x.handle ≡ left h
copies-ring ops law wait opts v what cs h =
    copies-messages what (shm_consumer ops wait opts) (shm_consumer-QueueLaw ops law wait opts v) cs
      h
