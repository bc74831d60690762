-- ===== src/Endpoint.antt =====
-- include/xproc/ipc/endpoint.hpp: how a producer or consumer attaches to a segment, and its
-- destructor. The answers of the kernel and the contents of the shared memory are arguments.
pub mod Attach
use xproc.Prelude.{
  ℕ, ◌+◌, ◌-◌, ◌%◌, ◌^◌, ◌≡◌, Bool, true, false, not, ◌&&◌, List, Option, none, some, ◌==◌,
  if◌then◌else◌,
}
use xproc.Errors.{
  Message, Result, ok, throw, logic_error, runtime_error, layout_exception, attach_failed, ◌>>=◌,
  ◌>>◌,
}
use xproc.Options.{
  Abi, TransportOptions, is_fixed, shm_size_for_data_capacity, shm_data_capacity_for_size,
  validate_producer_transport_options, validate_consumer_transport_options,
}
use xproc.Layout.{
  ControlBlock, Expected, Creation, InitControlBlock, ref_count, or_default_align, format,
  validate_detailed,
}
use xproc.Shm
use xproc.Shm.{Shm, ShmOpenMode, open_existing, open_create, Opened, empty_shm, open_segment}

pub data Role : Type 0 where
  producer consumer observer : Role

-- A live endpoint: its options as the constructor leaves them, its mapping, and the shared block.
pub record Endpoint : Type 0 where
  pub role : Role
  pub opts : TransportOptions
  pub shm : Shm
  pub header : ControlBlock

-- What the constructor finds: the kernel's answers, the block over the reads of `format` and, if
-- that fails, of the second check, and the id of this process.
pub record World : Type 0 where
  pub kernel : Shm.Kernel
  pub memory : ℕ → ControlBlock
  pub memory_again : ℕ → ControlBlock
  pub pid : ℕ

abbrev pub open_mode : TransportOptions → ShmOpenMode
open_mode opts = if opts.create_if_missing then open_create else open_existing

-- The arguments of `format`.
abbrev pub expected_of : Abi → TransportOptions → Expected
expected_of abi opts = record {
  capacity = shm_data_capacity_for_size abi opts.shm_size;
  layout = if is_fixed opts.type then 0 else 1;
  alignment = or_default_align opts.data_align;
  item_size = if is_fixed opts.type then opts.item_size else 0;
  schema = opts.schema_id;
}

-- The observer role is refused before the options are looked at.
unfoldable pub validate_role : Abi → Role → TransportOptions → Result (Unit {0})
validate_role abi producer opts = validate_producer_transport_options abi opts
validate_role abi consumer opts = validate_consumer_transport_options abi opts
validate_role abi observer opts = throw (logic_error Message.observer_role_unsupported)

abbrev pub is_producer : Role → Bool
is_producer producer = true
is_producer _ = false

-- The pid that the block is left with.
abbrev pub set_pid : Role → Bool → ℕ → ControlBlock → ControlBlock
set_pid role is_creator pid h =
    if is_producer role
    then record h { producer_pid = pid }
    else if is_creator
    then record h { producer_pid = 0 }
    else h

abbrev pub attached : Abi → Role → TransportOptions → Shm → ℕ → ControlBlock → Endpoint
attached abi role opts shm pid h = record {
  role = role;
  opts = record opts {
    shm_size = shm_size_for_data_capacity abi h.data_capacity;
    creator_timestamp_ns = h.creator_timestamp_ns;
    creator_flags = h.creator_flags;
  };
  shm = shm;
  header = set_pid role shm.created_this_open pid h;
}

unfoldable pub attach_mapping :
    Abi → InitControlBlock → World → Role → TransportOptions → Shm → Result Endpoint
attach_mapping abi init w role opts shm =
    let x : Expected = expected_of abi opts in
    let (formatted, h) =
      format abi init true w.memory shm.created_this_open x
        (record { timestamp = opts.creator_timestamp_ns; flags = opts.creator_flags; pid = w.pid })
        ref_count in
    if formatted
    then ok (attached abi role opts shm w.pid h)
    else throw (layout_exception (validate_detailed abi (some w.memory_again) x))

unfoldable pub establish_connection :
    Abi → InitControlBlock → World → Role → TransportOptions → Result Endpoint
establish_connection abi init w role opts = do
  validate_role abi role opts
  let o = open_segment w.kernel opts.path opts.shm_size (open_mode opts) empty_shm
  if o.result
      then attach_mapping abi init w role opts o.shm
      else throw (runtime_error attach_failed)

-- The destructor: `attach_count.fetch_sub(1)`, on a 32-bit counter.
unfoldable pub destroy : ControlBlock → ControlBlock
destroy h = record h { attach_count = (h.attach_count + 2 ^ 32 - 1) % 2 ^ 32 }
