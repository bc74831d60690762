-- ===== src/Errors.antt =====
-- What the C++ code throws. An exception is its class and, for the messages that are fixed texts,
-- the message, named here by a constructor. A layout_exception carries a validate_error
-- (include/xproc/core/layout_manager.hpp, layout_exception.hpp).

-- `enum class validate_error`
pub data ValidateError : Type 0 where
  no_error not_attached bad_magic not_ready_timeout version_mismatch header_size_mismatch :
      ValidateError
  layout_type_mismatch fixed_item_size_mismatch schema_id_mismatch alignment_invalid : ValidateError
  capacity_insufficient fixed_item_size_incompatible : ValidateError

pub data Message : Type 0 where
  item_size_zero data_align_invalid path_empty shm_size_too_small : Message
  retries_negative retry_ms_negative socket_host_empty socket_port_zero : Message
  shm_size_required producer_must_connect consumer_must_listen observer_needs_shm : Message
  observer_role_unsupported role_unsupported producer_role_required consumer_role_required : Message
  fixed_channel_required varlen_channel_required length_exceeds_item_size length_too_large : Message
  backend_not_socket unknown_backend reserve_failed attach_failed : Message
  send_failed recv_failed varlen_too_large getaddrinfo_failed connect_failed : Message
  bind_failed accept_failed wake_setup_failed : Message
  argv_empty pipe_failed null_device_failed fork_failed : Message

pub data Exception : Type 0 where
  invalid_argument : Message → Exception
  logic_error : Message → Exception
  runtime_error : Message → Exception
  layout_exception : ValidateError → Exception

-- The outcome of a call: it returns, or it throws.
pub data Result {ℓ} (A : Type ℓ) : Type ℓ where
  ok : A → Result A
  throw : Exception → Result A

infixl 5 ◌>>=◌ ◌>>◌
abbrev pub ◌>>=◌ {ℓ κ} : {A : Type ℓ} {B : Type κ} → Result A → (A → Result B) → Result B
ok a >>= f = f a
throw e >>= f = throw e

abbrev pub ◌>>◌ {ℓ} : {B : Type ℓ} → Result (Unit {0}) → Result B → Result B
m >> k = m >>= λ _. k
