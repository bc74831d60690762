-- ===== src/Options.antt =====
-- include/xproc/ipc/options.hpp: the transport options and their validation, as a POSIX build
-- compiles it (the test of win32_object_namespace is inside `#if defined(_WIN32)`).
-- Strings are lists of bytes. Sizes are size_t, and a sum of sizes wraps at 2 ^ 64.
pub mod Laws
use xproc.Prelude.{
  ℕ, ◌+◌, ◌-◌, ◌%◌, ◌^◌, bit_and, Bool, true, false, ◌&&◌, ◌||◌, not, List, [], ◌∷◌, ltb, ◌==◌,
  if◌then◌else◌, ℤ, pos, is_negative, bytes,
}
use xproc.Errors.{Message, Result, ok, throw, invalid_argument, ◌>>=◌, ◌>>◌}

-- The constants that the headers of spscring, a submodule, fix: `sizeof(core::control_block)`, whose
-- first member is spscring's block, and the magic number and versions of its ABI.
pub record Abi : Type 0 where
  pub sizeof_control_block : ℕ
  pub expected_magic : ℕ
  pub version_major : ℕ
  pub version_minor : ℕ

pub data ChannelType : Type 0 where
  fixed varlen : ChannelType

pub data TransportBackend : Type 0 where
  shared_memory socket : TransportBackend

abbrev pub is_fixed : ChannelType → Bool
is_fixed fixed = true
is_fixed varlen = false

abbrev pub is_shared_memory : TransportBackend → Bool
is_shared_memory shared_memory = true
is_shared_memory socket = false

pub record TransportOptions : Type 0 where
  pub backend : TransportBackend
  pub path : List ℕ
  pub shm_size : ℕ
  pub item_size : ℕ
  pub data_align : ℕ
  pub schema_id : ℕ
  pub creator_timestamp_ns : ℕ
  pub creator_flags : ℕ
  pub create_if_missing : Bool
  pub type : ChannelType
  pub win32_object_namespace : List ℕ
  pub socket_host : List ℕ
  pub socket_port : ℕ
  pub socket_listen : Bool
  pub socket_connect_retries : ℤ
  pub socket_connect_retry_ms : ℤ

abbrev pub infer_existing_shm_size : ℕ
infer_existing_shm_size = 0

-- The default member initialisers.
abbrev pub default_options : TransportOptions
default_options = record {
  backend = shared_memory;
  path = [];
  shm_size = infer_existing_shm_size;
  item_size = 0;
  data_align = 0;
  schema_id = 0;
  creator_timestamp_ns = 0;
  creator_flags = 0;
  create_if_missing = true;
  type = fixed;
  win32_object_namespace = bytes "Local";
  socket_host = bytes "127.0.0.1";
  socket_port = 0;
  socket_listen = false;
  socket_connect_retries = pos 200;
  socket_connect_retry_ms = pos 10;
}

abbrev pub is_empty : List ℕ → Bool
is_empty [] = true
is_empty (c ∷ s) = false

-- `if (test) throw std::invalid_argument(...)`
abbrev pub refuse_if : Bool → Message → Result (Unit {0})
refuse_if true m = throw (invalid_argument m)
refuse_if false m = ok tt

module _ (abi : Abi) where
  abbrev pub min_shm_size : ℕ
  min_shm_size = abi.sizeof_control_block

  unfoldable pub shm_size_for_data_capacity : ℕ → ℕ
  shm_size_for_data_capacity data_capacity = (min_shm_size + data_capacity) % 2 ^ 64

  unfoldable pub shm_data_capacity_for_size : ℕ → ℕ
  shm_data_capacity_for_size shm_size =
      if ltb min_shm_size shm_size then shm_size - min_shm_size else 0

-- `a & (a - 1u)` is read only when `a` is at least 4, so that `a - 1u` does not wrap.
unfoldable pub data_align_refused : ℕ → Bool
data_align_refused a = ltb a 4 || not (bit_and a (a - 1) == 0)

validate_shm_options : Abi → TransportOptions → Result (Unit {0})
validate_shm_options abi opts = do
  refuse_if (is_empty opts.path) Message.path_empty
  refuse_if (not (opts.shm_size == infer_existing_shm_size) && ltb opts.shm_size (min_shm_size abi))
      Message.shm_size_too_small

validate_socket_options : TransportOptions → Result (Unit {0})
validate_socket_options opts = do
  refuse_if (is_negative opts.socket_connect_retries) Message.retries_negative
  refuse_if (is_negative opts.socket_connect_retry_ms) Message.retry_ms_negative
  refuse_if (not opts.socket_listen && is_empty opts.socket_host) Message.socket_host_empty
  refuse_if (not opts.socket_listen && opts.socket_port == 0) Message.socket_port_zero

validate_backend : Abi → TransportBackend → TransportOptions → Result (Unit {0})
unfolding validate_shm_options validate_socket_options
validate_backend abi shared_memory opts = validate_shm_options abi opts
validate_backend abi socket opts = validate_socket_options opts

unfoldable pub validate_transport_options : Abi → TransportOptions → Result (Unit {0})
unfolding validate_backend
validate_transport_options abi opts = do
  refuse_if (is_fixed opts.type && opts.item_size == 0) Message.item_size_zero
  refuse_if (not (opts.data_align == 0) && data_align_refused opts.data_align)
      Message.data_align_invalid
  validate_backend abi opts.backend opts

-- `backend == shared_memory && create_if_missing && shm_size == infer_existing_shm_size`
abbrev pub lacks_size : TransportOptions → Bool
lacks_size opts =
    is_shared_memory opts.backend
    && opts.create_if_missing
    && opts.shm_size == infer_existing_shm_size

unfoldable pub validate_producer_transport_options : Abi → TransportOptions → Result (Unit {0})
validate_producer_transport_options abi opts = do
  validate_transport_options abi opts
  refuse_if (lacks_size opts) Message.shm_size_required
  refuse_if (not (is_shared_memory opts.backend) && opts.socket_listen)
      Message.producer_must_connect

unfoldable pub validate_consumer_transport_options : Abi → TransportOptions → Result (Unit {0})
validate_consumer_transport_options abi opts = do
  validate_transport_options abi opts
  refuse_if (lacks_size opts) Message.shm_size_required
  refuse_if (not (is_shared_memory opts.backend) && not opts.socket_listen)
      Message.consumer_must_listen

unfoldable pub validate_observer_transport_options : Abi → TransportOptions → Result (Unit {0})
validate_observer_transport_options abi opts = do
  validate_transport_options abi opts
  refuse_if (not (is_shared_memory opts.backend)) Message.observer_needs_shm
