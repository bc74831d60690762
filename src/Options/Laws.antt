-- ===== src/Options/Laws.antt =====
-- What the validation of options.hpp accepts, described without its tests.
use xproc.Prelude.{
  ℕ, ◌+◌, ◌-◌, ◌^◌, ◌≤◌, ◌<◌, ◌≡◌, ◌≢◌, ◌↔◌, ◌⊎◌, inl, inr, true, false, [], arith, is_negative,
  bit_and,
}
use xproc.Prelude.Bits.{pow2_of_mask, mask_of_pow2}
use xproc.Errors.{ok}
use xproc.Options.{
  Abi, TransportOptions, fixed, TransportBackend, shared_memory, socket, shm_size_for_data_capacity,
  shm_data_capacity_for_size, data_align_refused, validate_backend, validate_transport_options,
  validate_producer_transport_options, validate_consumer_transport_options,
  validate_observer_transport_options,
}

pub map_right {ℓ κ μ} : {A : Type ℓ} {B : Type κ} {C : Type μ} → (B → C) → A ⊎ B → A ⊎ C
map_right f (inl a) = inl a
map_right f (inr b) = inr (f b)

-- A power of two that is at least 4.
abbrev pub IsAlignment : ℕ → Type 0
IsAlignment a = (4 ≤ a) × ((k : ℕ) × (a ≡ 2 ^ k))

abbrev pub IsValidBackend : Abi → TransportBackend → TransportOptions → Type 0
IsValidBackend abi shared_memory o =
    (o.path ≢ []) × ((o.shm_size ≡ 0) ⊎ (abi.sizeof_control_block ≤ o.shm_size))
IsValidBackend abi socket o =
    (is_negative o.socket_connect_retries ≡ false)
    × (is_negative o.socket_connect_retry_ms ≡ false)
    × ((o.socket_listen ≡ true) ⊎ ((o.socket_host ≢ []) × (o.socket_port ≢ 0)))

-- What may create a segment of shared memory says how large it is.
abbrev pub StatesSize : TransportOptions → Type 0
StatesSize o = o.backend ≡ shared_memory → o.create_if_missing ≡ true → o.shm_size ≢ 0

abbrev pub IsValid : Abi → TransportOptions → Type 0
IsValid abi o =
    (o.type ≡ fixed → o.item_size ≢ 0)
    × ((o.data_align ≡ 0) ⊎ IsAlignment o.data_align)
    × IsValidBackend abi o.backend o

-- The mask test of the code is the mathematical one.
pub data_align_refused_iff : (a : ℕ) → (data_align_refused a ≡ false) ↔ IsAlignment a
unfolding data_align_refused
data_align_refused_iff a = (forward, backward)
  where
    forward : data_align_refused a ≡ false → IsAlignment a
    forward h = let big : 4 ≤ a = ground arith in (big, pow2_of_mask a (omega arith) (ground arith))

    backward : IsAlignment a → data_align_refused a ≡ false
    backward (big, (k, e)) =
        let mask : bit_and a (a - 1) ≡ 0 = rw e (mask_of_pow2 k) in ground arith

validate_backend_iff :
    (abi : Abi) (b : TransportBackend) (o : TransportOptions)
    → (validate_backend abi b o ≡ ok tt) ↔ IsValidBackend abi b o
unfolding validate_backend
validate_backend_iff abi shared_memory o = (λ h. ground arith, λ h. ground arith)
validate_backend_iff abi socket o = (λ h. ground arith, λ h. ground arith)

-- `validate_transport_options` returns exactly on the options that are valid: a fixed channel has
-- an item size, the alignment is 0 or a power of two from 4 on, a shared-memory channel has a path
-- and a size that is 0 or holds the control block, and a socket has retry settings that are not
-- negative and, unless it listens, a host and a port.
pub validate_transport_options_iff :
    (abi : Abi) (o : TransportOptions) → (validate_transport_options abi o ≡ ok tt) ↔ IsValid abi o
unfolding validate_transport_options
validate_transport_options_iff abi o = (forward, backward)
  where
    aligned : (data_align_refused o.data_align ≡ false) ↔ IsAlignment o.data_align
    aligned = data_align_refused_iff o.data_align

    backed : (validate_backend abi o.backend o ≡ ok tt) ↔ IsValidBackend abi o.backend o
    backed = validate_backend_iff abi o.backend o

    accepted :
        validate_transport_options abi o ≡ ok tt
        → (o.data_align ≡ 0) ⊎ (data_align_refused o.data_align ≡ false)
    accepted h = ground arith

    forward : validate_transport_options abi o ≡ ok tt → IsValid abi o
    forward h = (ground arith, map_right aligned.0 (accepted h), backed.0 (ground arith))

    backward : IsValid abi o → validate_transport_options abi o ≡ ok tt
    backward (items, align, back) =
        let test : (o.data_align ≡ 0) ⊎ (data_align_refused o.data_align ≡ false) =
          map_right aligned.1 align in
        let rest : validate_backend abi o.backend o ≡ ok tt = backed.1 back in ground arith

-- The validation for a role returns exactly on the valid options that fit it: a producer and a
-- consumer that may create a segment of shared memory state its size, a producer on a socket does
-- not listen, a consumer on a socket listens, and an observer is on shared memory.
pub role_validation :
    (abi : Abi) (o : TransportOptions)
    → ((validate_producer_transport_options abi o ≡ ok tt)
        ↔ (IsValid abi o × StatesSize o × (o.backend ≡ socket → o.socket_listen ≡ false)))
      × ((validate_consumer_transport_options abi o ≡ ok tt)
          ↔ (IsValid abi o × StatesSize o × (o.backend ≡ socket → o.socket_listen ≡ true)))
      × ((validate_observer_transport_options abi o ≡ ok tt)
          ↔ (IsValid abi o × (o.backend ≡ shared_memory)))
unfolding validate_producer_transport_options validate_consumer_transport_options
    validate_observer_transport_options
role_validation abi o = (
  (
    λ h. (valid.0 (ground arith), ground arith, ground arith),
    λ h. let v : validate_transport_options abi o ≡ ok tt = valid.1 h.0 in ground arith,
  ),
  (
    λ h. (valid.0 (ground arith), ground arith, ground arith),
    λ h. let v : validate_transport_options abi o ≡ ok tt = valid.1 h.0 in ground arith,
  ),
  (
    λ h. (valid.0 (ground arith), ground arith),
    λ h. let v : validate_transport_options abi o ≡ ok tt = valid.1 h.0 in ground arith,
  ),
)
  where
    valid : (validate_transport_options abi o ≡ ok tt) ↔ IsValid abi o
    valid = validate_transport_options_iff abi o

-- The capacity and the size of a segment are inverse to one another, for every capacity that can
-- be added to the control block without passing size_t.
pub capacity-size :
    (abi : Abi) (capacity : ℕ)
    → abi.sizeof_control_block + capacity < 2 ^ 64
    → shm_data_capacity_for_size abi (shm_size_for_data_capacity abi capacity) ≡ capacity
unfolding shm_size_for_data_capacity shm_data_capacity_for_size
capacity-size abi capacity h = ground arith
