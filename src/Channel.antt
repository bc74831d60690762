-- ===== src/Channel.antt =====
-- include/xproc/ipc/channel.hpp: the guards, the padding and the outcomes of the sends on a ring, the
-- poll, and the sizes. The data of a send is the list of its bytes, its length argument their number.
-- The typed sends (`send_fixed(const T&)`) and the overloads without metadata call these functions.
pub mod Sends
pub mod Waits
pub mod Rounds
pub mod Deadline
pub mod Poll
pub mod Examples
use xproc.Prelude.{
  ℕ, zero, suc, ◌+◌, ◌-◌, Bool, true, false, not, List, [], ◌∷◌, ◌++◌, Option, none, some, length,
  replicate, ltb, leb, if◌then◌else◌,
}
use xproc.Errors.{
  Message, Exception, Result, ok, throw, invalid_argument, logic_error, runtime_error,
  reserve_failed,
}
use xproc.Options.{TransportOptions, ChannelType, fixed, varlen, is_fixed}
use xproc.Layout.{ControlBlock}
use xproc.SendResult.{SendResult, MessageMeta, empty_meta, to_spscring_meta}
use xproc.Ring.{
  ReserveStatus, reserved, full, timed_out, too_large, other, Entry, Visitor, Visit, Ring,
}
use xproc.Endpoint.{Role, producer, consumer, observer, is_producer}

pub record Channel (R : Type 0) : Type 0 where
  pub role : Role
  pub opts : TransportOptions
  pub ring : R

-- The handler of `poll`.
abbrev pub Handler : Type 0
Handler = MessageMeta → List ℕ → Result (Unit {0})

-- A poll: the channel afterwards, the message that the handler was called with, the outcome.
pub record Polled (R : Type 0) : Type 0 where
  pub channel : Channel R
  pub seen : Option Entry
  pub result : Result Bool

abbrev pub is_consumer : Role → Bool
is_consumer consumer = true
is_consumer _ = false

-- The slot that a fixed send writes.
abbrev pub padded : ℕ → List ℕ → List ℕ
padded item_size payload = payload ++ replicate (item_size - length payload) 0

unfoldable pub map_reserve_status : ReserveStatus → SendResult
map_reserve_status reserved = SendResult.ok
map_reserve_status full = SendResult.full
map_reserve_status timed_out = SendResult.timeout
map_reserve_status too_large = SendResult.message_too_large
map_reserve_status other = SendResult.invalid_argument

module _ {R : Type 0} (ops : Ring R) where
  -- The constructor on an established endpoint.
  unfoldable pub make : Role → TransportOptions → R → Result (Channel R)
  make observer opts r = throw (logic_error Message.role_unsupported)
  make role opts r = ok (record { role = role; opts = opts; ring = r })

  abbrev pub with_ring : Channel R → R → Channel R
  with_ring c r = record c { ring = r }

  unfoldable pub send_fixed_sized : Channel R → List ℕ → Channel R × Result (Unit {0})
  send_fixed_sized c payload =
      if not (is_producer c.role)
      then (c, throw (logic_error Message.producer_role_required))
      else if not (is_fixed c.opts.type)
      then (c, throw (logic_error Message.fixed_channel_required))
      else if ltb c.opts.item_size (length payload)
      then (c, throw (invalid_argument Message.length_exceeds_item_size))
      else (
        with_ring c (
            ops.fixed_commit (padded c.opts.item_size payload)
              (ops.fixed_spin_until_reserve c.ring)),
        ok tt,
      )

  unfoldable pub send_fixed_bytes : Channel R → List ℕ → Channel R × Result (Unit {0})
  send_fixed_bytes c payload =
      if not (is_producer c.role)
      then (c, throw (logic_error Message.producer_role_required))
      else if not (is_fixed c.opts.type)
      then (c, throw (logic_error Message.fixed_channel_required))
      else if ltb c.opts.item_size (length payload)
      then (c, throw (invalid_argument Message.length_exceeds_item_size))
      else (
        with_ring c (
            ops.fixed_commit (padded c.opts.item_size payload)
              (ops.fixed_spin_until_reserve c.ring)),
        ok tt,
      )

  -- After a try_reserve of a varlen_writer.
  abbrev pub commit_varlen : Channel R → List ℕ → ReserveStatus × R → Channel R × ReserveStatus
  commit_varlen c payload (reserved, r) = (with_ring c (ops.varlen_commit payload r), reserved)
  commit_varlen c payload (status, r) = (with_ring c r, status)

  -- The blocking name; it tries once, and does not test the type of the channel.
  unfoldable pub send_varlen : ℕ → Channel R → List ℕ → MessageMeta → Channel R × Result (Unit {0})
  send_varlen now c payload meta =
      if not (is_producer c.role)
      then (c, throw (logic_error Message.producer_role_required))
      else let (c', status) =
          commit_varlen c payload
            (ops.varlen_try_reserve (length payload) (to_spscring_meta now meta) c.ring) in
        (c', elim status [ reserved ↦ ok tt | _ ↦ throw (runtime_error reserve_failed) ])

  -- After a try_reserve of a fixed_writer.
  abbrev pub commit_fixed : Channel R → List ℕ → Bool × R → Channel R × Bool
  commit_fixed c payload (true, r) =
      (with_ring c (ops.fixed_commit (padded c.opts.item_size payload) r), true)
  commit_fixed c payload (false, r) = (with_ring c r, false)

  unfoldable pub try_send_fixed_sized : Channel R → List ℕ → Channel R × Result SendResult
  try_send_fixed_sized c payload =
      if not (is_producer c.role)
      then (c, throw (logic_error Message.producer_role_required))
      else if not (is_fixed c.opts.type)
      then (c, throw (logic_error Message.fixed_channel_required))
      else if ltb c.opts.item_size (length payload)
      then (c, ok SendResult.invalid_argument)
      else let (c', done) = commit_fixed c payload (ops.fixed_try_reserve c.ring) in
        (c', ok (if done then SendResult.ok else SendResult.full))

  unfoldable pub try_send_varlen :
      ℕ → Channel R → List ℕ → MessageMeta → Channel R × Result SendResult
  try_send_varlen now c payload meta =
      if not (is_producer c.role)
      then (c, throw (logic_error Message.producer_role_required))
      else if is_fixed c.opts.type
      then (c, throw (logic_error Message.varlen_channel_required))
      else let (c', status) =
          commit_varlen c payload
            (ops.varlen_try_reserve (length payload) (to_spscring_meta now meta) c.ring) in
        (c', ok (map_reserve_status status))

  -- The other process works on the ring between the rounds of a bounded send: it makes `meanwhile i`
  -- of what round i left. `clock i` is the time that round i reads. The first argument is fuel; the
  -- result is `none` where it is used up.
  unfoldable pub fixed_rounds :
      ℕ → (ℕ → R → R) → (ℕ → ℕ) → ℕ → ℕ → Channel R → List ℕ → Channel R × Option SendResult
  fixed_rounds zero meanwhile clock deadline i c payload = (c, none)
  fixed_rounds (suc fuel) meanwhile clock deadline i c payload =
      let (c', done) = commit_fixed c payload (ops.fixed_try_reserve c.ring) in
      let rest =
        fixed_rounds fuel meanwhile clock deadline (suc i) (with_ring c' (meanwhile i c'.ring))
          payload in
      if done
      then (c', some SendResult.ok)
      else if leb deadline (clock i)
      then (c', some SendResult.timeout)
      else rest

  unfoldable pub send_fixed_sized_for :
      ℕ → (ℕ → R → R) → (ℕ → ℕ) → ℕ → Channel R → List ℕ → Channel R × Option (Result SendResult)
  send_fixed_sized_for fuel meanwhile clock deadline c payload =
      if not (is_producer c.role)
      then (c, some (throw (logic_error Message.producer_role_required)))
      else if not (is_fixed c.opts.type)
      then (c, some (throw (logic_error Message.fixed_channel_required)))
      else if ltb c.opts.item_size (length payload)
      then (c, some (ok SendResult.invalid_argument))
      else let (c', r) = fixed_rounds fuel meanwhile clock deadline 0 c payload in
        (c', elim r [ none ↦ none | some s ↦ some (ok s) ])

  -- `stamps i` is the time that round i puts into the metadata where the caller set none.
  unfoldable pub varlen_rounds :
      ℕ
      → (ℕ → R → R)
      → (ℕ → ℕ)
      → (ℕ → ℕ)
      → ℕ
      → ℕ
      → Channel R
      → List ℕ
      → MessageMeta
      → Channel R × Option SendResult
  varlen_rounds zero meanwhile clock stamps deadline i c payload meta = (c, none)
  varlen_rounds (suc fuel) meanwhile clock stamps deadline i c payload meta =
      let (c', status) =
        commit_varlen c payload
          (ops.varlen_try_reserve (length payload) (to_spscring_meta (stamps i) meta) c.ring) in
      let rest =
        varlen_rounds fuel meanwhile clock stamps deadline (suc i)
          (with_ring c' (meanwhile i c'.ring)) payload meta in
      elim status [
        | full ↦ if leb deadline (clock i) then (c', some SendResult.timeout) else rest
        | s ↦ (c', some (map_reserve_status s))
      ]

  unfoldable pub send_varlen_for :
      ℕ
      → (ℕ → R → R)
      → (ℕ → ℕ)
      → (ℕ → ℕ)
      → ℕ
      → Channel R
      → List ℕ
      → MessageMeta
      → Channel R × Option (Result SendResult)
  send_varlen_for fuel meanwhile clock stamps deadline c payload meta =
      if not (is_producer c.role)
      then (c, some (throw (logic_error Message.producer_role_required)))
      else if is_fixed c.opts.type
      then (c, some (throw (logic_error Message.varlen_channel_required)))
      else let (c', r) = varlen_rounds fuel meanwhile clock stamps deadline 0 c payload meta in
        (c', elim r [ none ↦ none | some s ↦ some (ok s) ])

  -- The adapter around the handler: it takes every message that the handler returns from.
  abbrev pub take_with : Handler → Visitor
  take_with handler meta payload = elim (handler meta payload) [
    | ok u ↦ ok true
    | throw e ↦ throw e
  ]

  poll_slot : Handler → Channel R → Option (List ℕ) → Polled R
  poll_slot handler c none = record { channel = c; seen = none; result = ok false }
  poll_slot handler c (some slot) = elim (handler empty_meta slot) [
    | throw e ↦ record { channel = c; seen = some (empty_meta, slot); result = throw e }
    | ok u ↦ record {
      channel = with_ring c (ops.fixed_read_advance c.ring);
      seen = some (empty_meta, slot);
      result = ok true;
    }
  ]

  unfoldable pub poll : Handler → Channel R → Polled R
  unfolding poll_slot
  poll handler c =
      if not (is_consumer c.role)
      then record {
        channel = c;
        seen = none;
        result = throw (logic_error Message.consumer_role_required);
      }
      else if is_fixed c.opts.type
      then poll_slot handler c (ops.fixed_try_read c.ring)
      else let v = ops.varlen_read (take_with handler) c.ring in
        record { channel = with_ring c v.ring; seen = v.seen; result = v.result }

-- The positions count bytes since the segment was formatted. The channel's `header_` is set.
unfoldable pub used_bytes : ControlBlock → ℕ
used_bytes h =
    let used = if leb h.read_pos h.write_pos then h.write_pos - h.read_pos else 0 in
    if ltb h.data_capacity used then h.data_capacity else used

unfoldable pub available_bytes : ControlBlock → ℕ
unfolding used_bytes
available_bytes h = h.data_capacity - used_bytes h
