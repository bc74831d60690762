-- ===== src/Builders.antt =====
-- include/xproc/ipc/shm_builders.hpp: the builders of the options of a new segment, and the endpoints
-- that are opened from them. The child modules are the attachers of an existing segment, the socket
-- builders, and the proofs.
pub mod Existing
pub mod Socket
pub mod Fixed
pub mod Varlen
pub mod Laws
pub mod Retry
pub mod Segments
pub mod Reopen
mod Examples
use xproc.Prelude.{ℕ, ◌≡◌, Bool, true, false, List, bytes}
use xproc.Errors.{Result, ok, ◌>>=◌, ◌>>◌}
use xproc.Options.{
  Abi, TransportOptions, default_options, shared_memory, fixed, varlen, shm_size_for_data_capacity,
  validate_transport_options,
}

pub record FixedChannelBuilder : Type 0 where
  pub path : List ℕ
  pub item_size : ℕ
  pub data_align : ℕ
  pub schema_id : ℕ
  pub creator_timestamp_ns : ℕ
  pub creator_flags : ℕ
  pub win32_object_namespace : List ℕ

pub record VarlenChannelBuilder : Type 0 where
  pub path : List ℕ
  pub data_align : ℕ
  pub schema_id : ℕ
  pub creator_timestamp_ns : ℕ
  pub creator_flags : ℕ
  pub win32_object_namespace : List ℕ

abbrev pub make_fixed_channel : List ℕ → ℕ → FixedChannelBuilder
make_fixed_channel path item_size = record {
  path = path;
  item_size = item_size;
  data_align = 0;
  schema_id = 0;
  creator_timestamp_ns = 0;
  creator_flags = 0;
  win32_object_namespace = bytes "Local";
}

abbrev pub make_varlen_channel : List ℕ → VarlenChannelBuilder
make_varlen_channel path = record {
  path = path;
  data_align = 0;
  schema_id = 0;
  creator_timestamp_ns = 0;
  creator_flags = 0;
  win32_object_namespace = bytes "Local";
}

-- The options that `fixed_channel_builder::options` fills in.
abbrev pub fixed_fields : Abi → FixedChannelBuilder → ℕ → TransportOptions
fixed_fields abi b data_capacity = record default_options {
  path = b.path;
  shm_size = shm_size_for_data_capacity abi data_capacity;
  item_size = b.item_size;
  data_align = b.data_align;
  schema_id = b.schema_id;
  creator_timestamp_ns = b.creator_timestamp_ns;
  creator_flags = b.creator_flags;
  create_if_missing = true;
  type = fixed;
  win32_object_namespace = b.win32_object_namespace;
}

abbrev pub varlen_fields : Abi → VarlenChannelBuilder → ℕ → TransportOptions
varlen_fields abi b data_capacity = record default_options {
  path = b.path;
  shm_size = shm_size_for_data_capacity abi data_capacity;
  item_size = 0;
  data_align = b.data_align;
  schema_id = b.schema_id;
  creator_timestamp_ns = b.creator_timestamp_ns;
  creator_flags = b.creator_flags;
  create_if_missing = true;
  type = varlen;
  win32_object_namespace = b.win32_object_namespace;
}

-- `fixed_channel_builder::options`
unfoldable pub fixed_options : Abi → FixedChannelBuilder → ℕ → Result TransportOptions
fixed_options abi b data_capacity = do
  validate_transport_options abi (fixed_fields abi b data_capacity)
  ok (fixed_fields abi b data_capacity)

-- `varlen_channel_builder::options`
unfoldable pub varlen_options : Abi → VarlenChannelBuilder → ℕ → Result TransportOptions
varlen_options abi b data_capacity = do
  validate_transport_options abi (varlen_fields abi b data_capacity)
  ok (varlen_fields abi b data_capacity)

-- shm_channel_endpoints
pub record ShmChannelEndpoints : Type 0 where
  pub opts : TransportOptions

abbrev pub producer_options : ShmChannelEndpoints → TransportOptions
producer_options e = e.opts

abbrev pub consumer_options : ShmChannelEndpoints → TransportOptions
consumer_options e = e.opts

abbrev pub observer_options : ShmChannelEndpoints → TransportOptions
observer_options e = record e.opts { create_if_missing = false }

-- `fixed_channel_builder::create` and `varlen_channel_builder::create`
unfoldable pub create_fixed : Abi → FixedChannelBuilder → ℕ → Result ShmChannelEndpoints
unfolding fixed_options
create_fixed abi b data_capacity = do
  opts ← fixed_options abi b data_capacity
  ok (record { opts = opts })

unfoldable pub create_varlen : Abi → VarlenChannelBuilder → ℕ → Result ShmChannelEndpoints
unfolding varlen_options
create_varlen abi b data_capacity = do
  opts ← varlen_options abi b data_capacity
  ok (record { opts = opts })
