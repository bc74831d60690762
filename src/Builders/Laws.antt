-- ===== src/Builders/Laws.antt =====
-- What the builders of options promise to the validation of options.hpp.
use xproc.Prelude.{
  ℕ, ◌+◌, ◌^◌, ◌≤◌, ◌<◌, ◌≡◌, refl, ◌≢◌, ◌↔◌, ◌⊎◌, inl, inr, true, false, List, [], arith,
  is_negative,
}
use xproc.Errors.{Result, ok, ◌>>=◌}
use xproc.Options.{
  Abi, TransportOptions, fixed, shared_memory, shm_size_for_data_capacity,
  validate_producer_transport_options, validate_consumer_transport_options,
  validate_observer_transport_options,
}
use xproc.Options.Laws.{IsAlignment, IsValid, validate_transport_options_iff, role_validation}
use xproc.Builders.{
  FixedChannelBuilder, VarlenChannelBuilder, ShmChannelEndpoints, fixed_fields, varlen_fields,
  fixed_options, varlen_options, create_fixed, create_varlen, producer_options, consumer_options,
  observer_options,
}
use xproc.Builders.Socket.{
  SocketListenerBuilder, SocketConnectorBuilder, over_socket, listener_fields, connector_fields,
  listener_options, connector_options, create_producer_transport, create_consumer_transport,
}

-- The endpoints of all three roles accept their options.
abbrev pub OpensAll : Abi → ShmChannelEndpoints → Type 0
OpensAll abi e =
    (validate_producer_transport_options abi (producer_options e) ≡ ok tt)
    × (validate_consumer_transport_options abi (consumer_options e) ≡ ok tt)
    × (validate_observer_transport_options abi (observer_options e) ≡ ok tt)

-- The block and its data have a size that a size_t holds.
abbrev pub FitsSize : Abi → ℕ → Type 0
FitsSize abi capacity =
    (0 < abi.sizeof_control_block) × (abi.sizeof_control_block + capacity < 2 ^ 64)

-- What a builder of a channel with items of `item_size` bytes asks for.
pub record Usable (path : List ℕ) (data_align : ℕ) : Type 0 where
  pub named : path ≢ []
  pub aligned : (data_align ≡ 0) ⊎ IsAlignment data_align

module _ (abi : Abi) where
  opens_all :
      (o : TransportOptions)
      → let s = record o { backend = shared_memory } in
        IsValid abi s → s.shm_size ≢ 0 → OpensAll abi (record { opts = s })
  opens_all o v z = (
    (role_validation abi _).0.1 (v, (λ a b. z), λ k. ground arith),
    (role_validation abi _).1.1 (v, (λ a b. z), λ k. ground arith),
    (role_validation abi _).2.1 (v, refl),
  )

  pub size_of_capacity :
      (capacity : ℕ)
      → FitsSize abi capacity
      → (shm_size_for_data_capacity abi capacity ≢ 0)
        × (abi.sizeof_control_block ≤ shm_size_for_data_capacity abi capacity)
  unfolding shm_size_for_data_capacity
  size_of_capacity capacity h = (ground arith, ground arith)

  -- A builder whose path is not empty, whose item size is not 0 and whose alignment is 0 or a power
  -- of two from 4 on, for a capacity that a size_t holds with the control block, makes endpoints
  -- with the fields it was given, and those options pass the validation of all three roles.
  pub create_fixed-OpensAll :
      (b : FixedChannelBuilder) (capacity : ℕ)
      → FitsSize abi capacity
      → Usable b.path b.data_align
      → b.item_size ≢ 0
      → let e : ShmChannelEndpoints = record { opts = fixed_fields abi b capacity } in
        (create_fixed abi b capacity ≡ ok e) × OpensAll abi e
  unfolding create_fixed fixed_options
  create_fixed-OpensAll b capacity h u i =
      let (z, room) = size_of_capacity capacity h in
      let v : IsValid abi (fixed_fields abi b capacity) =
        ((λ e. i), u.aligned, (u.named, inr room)) in
      let accepted = (validate_transport_options_iff abi (fixed_fields abi b capacity)).1 v in
      (rw accepted, opens_all (fixed_fields abi b capacity) v z)

  pub create_varlen-OpensAll :
      (b : VarlenChannelBuilder) (capacity : ℕ)
      → FitsSize abi capacity
      → Usable b.path b.data_align
      → let e : ShmChannelEndpoints = record { opts = varlen_fields abi b capacity } in
        (create_varlen abi b capacity ≡ ok e) × OpensAll abi e
  unfolding create_varlen varlen_options
  create_varlen-OpensAll b capacity h u =
      let (z, room) = size_of_capacity capacity h in
      let v : IsValid abi (varlen_fields abi b capacity) =
        ((λ e. ground arith), u.aligned, (u.named, inr room)) in
      let accepted = (validate_transport_options_iff abi (varlen_fields abi b capacity)).1 v in
      (rw accepted, opens_all (varlen_fields abi b capacity) v z)

from_right : {A : Type 0} → (false ≡ true) ⊎ A → A
from_right (inl e) = ground arith
from_right (inr a) = a

module _ (abi : Abi) {S K : Type 0} (shm_channel : TransportOptions → Result S)
    (socket_channel : TransportOptions → Result K) where
  -- The options of the two socket builders, where they are given, make the factory call the
  -- constructor of the socket transport on them, for the role that the builder is for.
  pub create_transport-socket :
      (l : SocketListenerBuilder) (c : SocketConnectorBuilder) (o p : TransportOptions)
      → listener_options abi l ≡ ok o
      → connector_options abi c ≡ ok p
      → (create_consumer_transport shm_channel socket_channel abi o
          ≡ (socket_channel (listener_fields l) >>= λ k. ok (over_socket k)))
        × (create_producer_transport shm_channel socket_channel abi p
            ≡ (socket_channel (connector_fields c) >>= λ k. ok (over_socket k)))
  unfolding listener_options connector_options create_consumer_transport create_producer_transport
  create_transport-socket l c o p h k = (ground arith, ground arith)

  -- The listener's options are given exactly if a fixed channel has an item size. Those of the
  -- connector are given exactly if, besides, the host is not empty, the port is not 0 and the retry
  -- settings are not negative.
  pub socket_options_iff :
      (l : SocketListenerBuilder) (c : SocketConnectorBuilder)
      → ((listener_options abi l ≡ ok (listener_fields l)) ↔ (l.type ≡ fixed → l.item_size ≢ 0))
        × ((connector_options abi c ≡ ok (connector_fields c)) ↔ (
            (c.type ≡ fixed → c.item_size ≢ 0)
            × (is_negative c.connect_retries ≡ false)
            × (is_negative c.connect_retry_ms ≡ false)
            × (c.host ≢ [])
            × (c.port ≢ 0)))
  unfolding listener_options connector_options
  socket_options_iff l c = (
    (
      λ h. ((role_validation abi (listener_fields l)).1.0 (ground arith)).0.0,
      λ i. rw (
          (role_validation abi (listener_fields l)).1.1
            ((i, inl refl, (refl, refl, inl refl)), (λ e. ground arith), λ k. refl)),
    ),
    (
      λ h.
          let v = ((role_validation abi (connector_fields c)).0.0 (ground arith)).0 in
          let (retries, ms, rest) = v.2 in
          let (host, port) = from_right rest in (v.0, retries, ms, host, port),
      λ (items, retries, ms, host, port). rw (
          (role_validation abi (connector_fields c)).0.1
            ((items, inl refl, (retries, ms, inr (host, port))), (λ e. ground arith), λ k. refl)),
    ),
  )
