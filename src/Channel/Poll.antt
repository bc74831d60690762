-- ===== src/Channel/Poll.antt =====
-- The poll of a channel, and the queue between a producer and a consumer of one ring.
use xproc.Prelude.{
  ℕ, ◌≡◌, refl, sym, ap, ◌∙◌, ◌≢◌, ◌⊎◌, inl, inr, Bool, true, false, List, [], ◌∷◌, ◌++◌, Option,
  none, some, if◌then◌else◌,
}
use mathlib.Core.List.{append_assoc, append-nil}
use xproc.Errors.{Exception, Result, ok, throw}
use xproc.Options.{TransportOptions, varlen, is_fixed}
use xproc.SendResult.{SendResult, MessageMeta}
use xproc.Ring.{Entry, Ring, RingLaw}
use xproc.Endpoint.{Role, producer, consumer}
use xproc.Channel.{Channel, Handler, is_consumer, take_with, poll, try_send_varlen}
use xproc.Channel.Sends.{stamped, try_send_varlen-queue}

module _ {R : Type 0} (ops : Ring R) (law : RingLaw R ops) where
  -- A poll of a varlen consumer on a queue that is not empty calls the handler with the message at
  -- the front, and takes it off the queue exactly if the handler returns; an exception of the
  -- handler is passed on.
  pub poll-front :
      (handler : Handler) (c : Channel R) (e : Entry) (q : List Entry)
      → c.role ≡ consumer
      → c.opts.type ≡ varlen
      → law.queue c.ring ≡ e ∷ q
      → let p = poll ops handler c in
        (p.seen ≡ some e)
        × (((handler e.0 e.1 ≡ ok tt) × (p.result ≡ ok true) × (law.queue p.channel.ring ≡ q))
            ⊎ ((x : Exception) × (handler e.0 e.1 ≡ throw x)
                × (p.result ≡ throw x)
                × (law.queue p.channel.ring ≡ e ∷ q)))
  unfolding poll
  poll-front handler c e q r v h =
      let kind : is_fixed c.opts.type ≡ false = ap is_fixed v in
      let role : is_consumer c.role ≡ true = ap is_consumer r in
      let (seen, result, taken, left) = law.varlen_front c.ring (take_with ops handler) e q h in
      rw (role, kind)
        (
          seen,
          elim (handler-cases (handler e.0 e.1)) [
            | inl fine ↦ inl (fine, result ∙ rw (fine, take_with), taken (rw (fine, take_with)))
            | inr (x, bad) ↦
                inr (x, bad, result ∙ rw (bad, take_with), left (rw (bad, take_with) (λ t. cc)))
          ],
        )
    where
      handler-cases : (o : Result (Unit {0})) → (o ≡ ok tt) ⊎ ((x : Exception) × (o ≡ throw x))
      handler-cases (ok u) = inl refl
      handler-cases (throw x) = inr (x, refl)

  pub poll-empty :
      (handler : Handler) (c : Channel R)
      → c.role ≡ consumer
      → c.opts.type ≡ varlen
      → law.queue c.ring ≡ []
      → let p = poll ops handler c in
        (p.seen ≡ none) × (p.result ≡ ok false) × (law.queue p.channel.ring ≡ [])
  unfolding poll
  poll-empty handler c r v h =
      let kind : is_fixed c.opts.type ≡ false = ap is_fixed v in
      let role : is_consumer c.role ≡ true = ap is_consumer r in
      rw (role, kind) (law.varlen_empty c.ring (take_with ops handler) h)

-- What a producer and a consumer of one ring do, in the order of their effects on it: a try_send at
-- a time, or a poll.
pub data Event : Type 0 where
  send : ℕ → List ℕ → MessageMeta → Event
  receive : Event

abbrev pub is_sent : Result SendResult → Bool
is_sent (ok SendResult.ok) = true
is_sent _ = false

abbrev pub cons_seen : Option Entry → List Entry → List Entry
cons_seen none l = l
cons_seen (some e) l = e ∷ l

-- The ring afterwards, the entries whose try_send returned ok, and those that the handler got.
pub record Exchange (R : Type 0) : Type 0 where
  pub ring : R
  pub accepted : List Entry
  pub received : List Entry

module _ {R : Type 0} (ops : Ring R) where
  abbrev pub end_of : Role → TransportOptions → R → Channel R
  end_of role opts r = record { role = role; opts = opts; ring = r }

  unfoldable pub exchange : TransportOptions → Handler → List Event → R → Exchange R
  exchange opts handler [] r = record { ring = r; accepted = []; received = [] }
  exchange opts handler (send now payload meta ∷ es) r =
      let (c, s) = try_send_varlen ops now (end_of producer opts r) payload meta in
      let x = exchange opts handler es c.ring in
      record x {
        accepted = if is_sent s then stamped now meta payload ∷ x.accepted else x.accepted;
      }
  exchange opts handler (receive ∷ es) r =
      let p = poll ops handler (end_of consumer opts r) in
      let x = exchange opts handler es p.channel.ring in
      record x { received = cons_seen p.seen x.received }

  is_sent-false : (s : SendResult) → s ≢ SendResult.ok → is_sent (ok s) ≡ false
  is_sent-false SendResult.ok h = absurd (h refl)
  is_sent-false _ h = refl

  queue-cases : (q : List Entry) → (q ≡ []) ⊎ ((e : Entry) × (rest : List Entry) × (q ≡ e ∷ rest))
  queue-cases [] = inl refl
  queue-cases (e ∷ rest) = inr (e, rest, refl)

  -- Whatever the order in which a producer's sends and a consumer's polls reach a varlen ring, the
  -- entries that the handler got, followed by those still in the ring, are those that were in the
  -- ring at the start followed by those that were accepted, in order: none is lost, repeated or
  -- overtaken. The handler throws nothing.
  pub exchange-queue :
      (law : RingLaw R ops) (opts : TransportOptions) (handler : Handler) (es : List Event) (r : R)
      → opts.type ≡ varlen
      → ((m : MessageMeta) (payload : List ℕ) → handler m payload ≡ ok tt)
      → let x = exchange opts handler es r in
        x.received ++ law.queue x.ring ≡ law.queue r ++ x.accepted
  unfolding exchange
  exchange-queue law opts handler [] r v h = sym (append-nil (law.queue r))
  exchange-queue law opts handler (send now payload meta ∷ es) r v h =
      let sent = try_send_varlen ops now (end_of producer opts r) payload meta in
      let rest = exchange-queue law opts handler es sent.0.ring v h in
      elim (try_send_varlen-queue ops law now (end_of producer opts r) payload meta refl v) [
        | inl (s, grown) ↦ rw s (
            rest
            ∙ ap (λ q. q ++ (exchange opts handler es sent.0.ring).accepted) grown
            ∙ append_assoc (law.queue r) (stamped now meta payload ∷ []) _)
        | inr (s, bad, e, kept) ↦
            rw (e, is_sent-false s bad)
              (rest ∙ ap (λ q. q ++ (exchange opts handler es sent.0.ring).accepted) kept)
      ]
  exchange-queue law opts handler (receive ∷ es) r v h =
      let p = poll ops handler (end_of consumer opts r) in
      let rest = exchange-queue law opts handler es p.channel.ring v h in
      elim (queue-cases (law.queue r)) [
        | inl none_left ↦
            let (seen, result, left) =
              poll-empty ops law handler (end_of consumer opts r) refl v none_left in
            rw (seen, none_left)
              (rest ∙ ap (λ q. q ++ (exchange opts handler es p.channel.ring).accepted) left)
        | inr (e, q, front) ↦
            let (seen, after) =
              poll-front ops law handler (end_of consumer opts r) e q refl v front in
            rw (seen, front)
              (elim after [
                | inl (fine, result, left) ↦
                    ap (◌∷◌ e) (
                      rest ∙ ap (λ q. q ++ (exchange opts handler es p.channel.ring).accepted) left)
                | inr (x, thrown, result, left) ↦ let fine = h e.0 e.1 in cc
              ])
      ]
