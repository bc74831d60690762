-- ===== src/Builders/Existing.antt =====
-- include/xproc/ipc/shm_builders.hpp: `detail::read_existing_shm_options` and the attachers, which
-- take the options of a channel from the segment that its creator formatted.
use xproc.Prelude.{
  ℕ, zero, suc, ◌+◌, Bool, true, false, not, ◌&&◌, List, Option, none, some, ◌==◌, if◌then◌else◌,
  bytes,
}
use xproc.Errors.{
  ValidateError, Result, ok, throw, runtime_error, layout_exception, attach_failed,
  layout_type_mismatch, fixed_item_size_mismatch, schema_id_mismatch, not_attached, ◌>>=◌, ◌>>◌,
}
use xproc.Options.{
  Abi, TransportOptions, default_options, infer_existing_shm_size, fixed, varlen, is_fixed,
  shm_size_for_data_capacity, validate_transport_options,
}
use xproc.Layout.{ControlBlock, Expected, or_default_align, is_ok, validate_detailed}
use xproc.Shm.{Shm, Kernel, read, empty_shm, open_segment}

-- What the function finds: the kernel's answers to the i-th attempt to open, the block as it is read
-- before it is checked, over the reads of the check, and after it.
pub record Segment : Type 0 where
  pub kernels : ℕ → Kernel
  pub before : ControlBlock
  pub memory : ℕ → ControlBlock
  pub after : ControlBlock

pub record Attempts : Type 0 where
  pub mapping : Shm
  pub opened : Bool
  pub sleeps : ℕ

abbrev pub max_attach_retries : ℕ
max_attach_retries = 10

-- The loop of attempts from `i` on, with `left` of them before max_attach_retries.
unfoldable pub open_rounds : (ℕ → Kernel) → List ℕ → ℕ → ℕ → Shm → ℕ → Attempts
open_rounds kernels path zero i mapping sleeps = record {
  mapping = mapping;
  opened = false;
  sleeps = sleeps;
}
open_rounds kernels path (suc left) i mapping sleeps =
    let o = open_segment (kernels i) path infer_existing_shm_size read mapping in
    let rest =
      open_rounds kernels path left (suc i) o.shm (if left == 0 then sleeps else sleeps + 1) in
    if o.result then record { mapping = o.shm; opened = true; sleeps = sleeps } else rest

-- The arguments of `validate_detailed`: the block's own fields.
abbrev pub own_fields : ControlBlock → Expected
own_fields h = record {
  capacity = 0;
  layout = h.layout_type;
  alignment = or_default_align h.data_alignment;
  item_size = h.fixed_item_size;
  schema = h.schema_id;
}

-- The options that are filled in from the fields read before the check and the capacity after it.
abbrev pub existing_fields : Abi → Segment → List ℕ → List ℕ → TransportOptions
existing_fields abi s path win32_object_namespace = record default_options {
  path = path;
  shm_size = shm_size_for_data_capacity abi s.after.data_capacity;
  item_size = if s.before.layout_type == 0 then s.before.fixed_item_size else 0;
  data_align = or_default_align s.before.data_alignment;
  schema_id = s.before.schema_id;
  creator_timestamp_ns = s.before.creator_timestamp_ns;
  creator_flags = s.before.creator_flags;
  create_if_missing = false;
  type = if s.before.layout_type == 0 then fixed else varlen;
  win32_object_namespace = win32_object_namespace;
}

-- `if (test) throw core::layout_exception(context, error)`
abbrev pub fail_if : Bool → ValidateError → Result (Unit {0})
fail_if true e = throw (layout_exception e)
fail_if false e = ok tt

-- From the check of the header on.
unfoldable pub read_header : Abi → Segment → List ℕ → List ℕ → Result TransportOptions
read_header abi s path win32_object_namespace = do
  let err = validate_detailed abi (some s.memory) (own_fields s.before)
  fail_if (not (is_ok err)) err
  fail_if (not (s.before.layout_type == 0) && not (s.before.layout_type == 1)) layout_type_mismatch
  fail_if (s.before.layout_type == 0 && s.before.fixed_item_size == 0) fixed_item_size_mismatch
  validate_transport_options abi (existing_fields abi s path win32_object_namespace)
  ok (existing_fields abi s path win32_object_namespace)

-- A null address is checked as a null header.
unfoldable pub read_mapping : Abi → Segment → List ℕ → List ℕ → Option ℕ → Result TransportOptions
read_mapping abi s path win32_object_namespace none = throw (layout_exception not_attached)
read_mapping abi s path win32_object_namespace (some addr) =
    read_header abi s path win32_object_namespace

unfoldable pub read_existing_shm_options : Abi → Segment → List ℕ → List ℕ → Result TransportOptions
unfolding read_mapping
read_existing_shm_options abi s path win32_object_namespace =
    let o = open_rounds s.kernels path max_attach_retries 0 empty_shm 0 in
    if o.opened
    then read_mapping abi s path win32_object_namespace o.mapping.addr
    else throw (runtime_error attach_failed)

-- fixed_channel_attacher and varlen_channel_attacher have the same members.
pub record ChannelAttacher : Type 0 where
  pub path : List ℕ
  pub schema_id : ℕ
  pub schema_id_set : Bool
  pub win32_object_namespace : List ℕ

-- `attach_fixed_channel` and `attach_varlen_channel`
abbrev pub attach_channel : List ℕ → ChannelAttacher
attach_channel path = record {
  path = path;
  schema_id = 0;
  schema_id_set = false;
  win32_object_namespace = bytes "Local";
}

abbrev pub with_schema_id : ℕ → ChannelAttacher → ChannelAttacher
with_schema_id schema_id a = record a { schema_id = schema_id; schema_id_set = true }

abbrev pub chosen_schema : ChannelAttacher → TransportOptions → TransportOptions
chosen_schema a opts = if a.schema_id_set then record opts { schema_id = a.schema_id } else opts

-- `fixed_channel_attacher::options`
unfoldable pub fixed_attacher_options : Abi → Segment → ChannelAttacher → Result TransportOptions
fixed_attacher_options abi s a = do
  opts ← read_existing_shm_options abi s a.path a.win32_object_namespace
  fail_if (not (is_fixed opts.type)) layout_type_mismatch
  fail_if (a.schema_id_set && not (opts.schema_id == a.schema_id)) schema_id_mismatch
  ok (chosen_schema a opts)

-- `varlen_channel_attacher::options`
unfoldable pub varlen_attacher_options : Abi → Segment → ChannelAttacher → Result TransportOptions
varlen_attacher_options abi s a = do
  opts ← read_existing_shm_options abi s a.path a.win32_object_namespace
  fail_if (is_fixed opts.type) layout_type_mismatch
  fail_if (a.schema_id_set && not (opts.schema_id == a.schema_id)) schema_id_mismatch
  ok (chosen_schema a opts)
