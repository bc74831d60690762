-- ===== src/Layout.antt =====
-- include/xproc/core/layout_types.hpp, layout_manager.hpp and src/core/layout_manager.cpp: the
-- control block at the head of a segment, how its creator fills it and how others check it.
-- Another process may write the block while it is checked: `memory i` is the block as the i-th read
-- of the check finds it (read 0 is that of the magic number, read i + 1 the i-th load of is_ready).
pub mod Wait
pub mod Validate
pub mod Format
use xproc.Prelude.{
  ℕ, zero, suc, ◌+◌, ◌-◌, ◌%◌, ◌^◌, bit_and, Bool, true, false, not, ◌&&◌, ◌||◌, List, [], ◌∷◌,
  Option, none, some, ltb, leb, ◌==◌, if◌then◌else◌, bytes,
}
use xproc.Errors.{
  ValidateError, no_error, not_attached, bad_magic, not_ready_timeout, version_mismatch,
  header_size_mismatch, layout_type_mismatch, fixed_item_size_mismatch, schema_id_mismatch,
  alignment_invalid, capacity_insufficient, fixed_item_size_incompatible,
}
use xproc.Options.{Abi}

-- The fields of spscring::control_block, a type of the submodule, that xproc reads.
pub record RingBlock : Type 0 where
  pub magic : ℕ
  pub version_major : ℕ
  pub version_minor : ℕ
  pub header_size : ℕ
  pub layout_type : ℕ
  pub fixed_item_size : ℕ
  pub data_capacity : ℕ
  pub data_alignment : ℕ
  pub write_pos : ℕ
  pub read_pos : ℕ
  pub commit_pos : ℕ
  pub commit_seq : ℕ
  pub read_wake_seq : ℕ

pub record ControlBlock : Type 0 where
  pub spscring_cb : RingBlock
  pub open spscring_cb use *
  pub attach_count : ℕ
  pub is_ready : Bool
  pub producer_pid : ℕ
  pub schema_id : ℕ
  pub creator_timestamp_ns : ℕ
  pub creator_flags : ℕ
  pub reserved_xproc : ℕ

-- What the caller of `format` and `validate` expects or asks for.
pub record Expected : Type 0 where
  pub capacity : ℕ
  pub layout : ℕ
  pub alignment : ℕ
  pub item_size : ℕ
  pub schema : ℕ

-- spscring::init_control_block(block, capacity, layout, alignment, item_size): whether it
-- succeeded, and the block after the call.
abbrev pub InitControlBlock : Type 0
InitControlBlock = RingBlock → ℕ → ℕ → ℕ → ℕ → Bool × RingBlock

pub data AttachBehavior : Type 0 where
  ref_count readonly : AttachBehavior

abbrev pub is_ready_spin_limit : ℕ
is_ready_spin_limit = 1000000

-- `data_alignment ? data_alignment : 8u`
abbrev pub or_default_align : ℕ → ℕ
or_default_align a = if a == 0 then 8 else a

unfoldable pub is_power_of_two_uint32 : ℕ → Bool
is_power_of_two_uint32 x = leb 4 x && bit_and x (x - 1) == 0

-- `while (!header->is_ready.load()) { if (--timeout_limit <= 0) return not_ready_timeout; }` with
-- `limit` for timeout_limit before the load of `memory i`: the block that was found ready.
unfoldable pub wait_ready : (ℕ → ControlBlock) → ℕ → ℕ → Option ControlBlock
wait_ready memory zero i = if (memory i).is_ready then some (memory i) else none
wait_ready memory (suc left) i = elim ((memory i).is_ready) [
  | true ↦ some (memory i)
  | false ↦ elim (left == 0) [ true ↦ none | false ↦ wait_ready memory left (suc i) ]
]

-- The checks behind the wait.
unfoldable pub check_fields : Abi → ControlBlock → Expected → ValidateError
check_fields abi h x =
    if not (h.version_major == abi.version_major) || not (h.version_minor == abi.version_minor)
    then version_mismatch
    else if not (h.header_size == abi.sizeof_control_block)
    then header_size_mismatch
    else if not (h.layout_type == x.layout)
    then layout_type_mismatch
    else if not (h.fixed_item_size == x.item_size)
    then fixed_item_size_mismatch
    else if not (h.fixed_item_size == 0) && not (h.data_capacity % h.fixed_item_size == 0)
    then fixed_item_size_incompatible
    else if not (h.schema_id == x.schema)
    then schema_id_mismatch
    else if not (h.data_alignment == or_default_align x.alignment)
        || not (is_power_of_two_uint32 h.data_alignment)
    then alignment_invalid
    else if ltb h.data_capacity x.capacity
    then capacity_insufficient
    else no_error

unfoldable pub check_ready : Abi → Option ControlBlock → Expected → ValidateError
check_ready abi none x = not_ready_timeout
check_ready abi (some h) x = check_fields abi h x

-- With the block that the checks were made on.
unfoldable pub validate_within : Abi → ℕ → (ℕ → ControlBlock) → Expected → ValidateError
validate_within abi limit memory x =
    if not ((memory 0).magic == abi.expected_magic)
    then bad_magic
    else check_ready abi (wait_ready memory limit 1) x

-- `none` is a null header.
unfoldable pub validate_detailed : Abi → Option (ℕ → ControlBlock) → Expected → ValidateError
validate_detailed abi none x = not_attached
validate_detailed abi (some memory) x = validate_within abi is_ready_spin_limit memory x

abbrev pub is_ok : ValidateError → Bool
is_ok no_error = true
is_ok _ = false

unfoldable pub validate : Abi → Option (ℕ → ControlBlock) → Expected → Bool
validate abi header x = is_ok (validate_detailed abi header x)

abbrev pub publish : Abi → Expected → ℕ → ℕ → ℕ → RingBlock → ControlBlock
publish abi x timestamp flags pid ring = record {
  spscring_cb = record ring { header_size = abi.sizeof_control_block };
  attach_count = 1;
  is_ready = true;
  producer_pid = pid;
  schema_id = x.schema;
  creator_timestamp_ns = timestamp;
  creator_flags = flags;
  reserved_xproc = 0;
}

-- `_init_header`: whether it succeeded, and the block after it.
unfoldable pub init_header :
    Abi → InitControlBlock → ControlBlock → Expected → ℕ → ℕ → ℕ → Bool × ControlBlock
init_header abi init header x timestamp flags pid =
    let (done, ring) =
      init header.spscring_cb x.capacity x.layout (or_default_align x.alignment) x.item_size in
    if not (x.item_size == 0) && not (x.capacity % x.item_size == 0)
    then (false, header)
    else if done
    then (true, publish abi x timestamp flags pid ring)
    else (false, record header { spscring_cb = ring })

-- The number of the read at which the wait of `validate_detailed` ends, and the block in place.
unfoldable pub ready_read : (ℕ → ControlBlock) → ℕ → ℕ → ℕ
ready_read memory zero i = i
ready_read memory (suc left) i = elim ((memory i).is_ready) [
  | true ↦ i
  | false ↦ elim (left == 0) [ true ↦ i | false ↦ ready_read memory left (suc i) ]
]

abbrev pub counted : AttachBehavior → ControlBlock → ControlBlock
counted ref_count h = record h { attach_count = (h.attach_count + 1) % 2 ^ 32 }
counted readonly h = h

pub record Creation : Type 0 where
  pub timestamp : ℕ
  pub flags : ℕ
  pub pid : ℕ

-- `format` on an attached mapping: whether it returned a header, and the block that it left. The
-- creator finds `memory 0`; an attacher counts itself into the block that it found ready.
unfoldable pub format :
    Abi
    → InitControlBlock
    → Bool
    → (ℕ → ControlBlock)
    → Bool
    → Expected
    → Creation
    → AttachBehavior
    → Bool × ControlBlock
format abi init false memory is_creator x c behavior = (false, memory 0)
format abi init true memory true x c behavior =
    init_header abi init (memory 0) x c.timestamp c.flags c.pid
format abi init true memory false x c behavior =
    let seen = memory (ready_read memory is_ready_spin_limit 1) in
    if validate abi (some memory) x then (true, counted behavior seen) else (false, seen)

-- `validate_cstr`
unfoldable pub validate_cstr : ValidateError → List ℕ
validate_cstr no_error = bytes "ok"
validate_cstr not_attached = bytes "shared memory mapping is not attached"
validate_cstr bad_magic = bytes "bad magic (not an xproc segment or corrupted)"
validate_cstr not_ready_timeout = bytes "control block not ready (timeout waiting for is_ready)"
validate_cstr version_mismatch = bytes "layout version mismatch"
validate_cstr header_size_mismatch = bytes "header_size does not match this build"
validate_cstr layout_type_mismatch = bytes "layout_type mismatch (fixed vs variable)"
validate_cstr fixed_item_size_mismatch = bytes "fixed_item_size mismatch"
validate_cstr schema_id_mismatch = bytes "schema_id mismatch"
validate_cstr alignment_invalid = bytes "data_alignment invalid or does not match expected value"
validate_cstr capacity_insufficient = bytes "data_capacity smaller than expected for this endpoint"
validate_cstr _ = bytes "unknown layout validation error"

-- `layout_error_category().message(ev)`
unfoldable pub layout_error_message : ValidateError → List ℕ
layout_error_message no_error = bytes "ok"
layout_error_message not_attached = bytes "shared memory mapping is not attached"
layout_error_message bad_magic = bytes "bad magic (not an xproc segment or corrupted)"
layout_error_message not_ready_timeout =
    bytes "control block not ready (timeout waiting for is_ready)"
layout_error_message version_mismatch = bytes "layout version mismatch"
layout_error_message header_size_mismatch = bytes "header_size does not match this build"
layout_error_message layout_type_mismatch = bytes "layout_type mismatch (fixed vs variable)"
layout_error_message fixed_item_size_mismatch = bytes "fixed_item_size mismatch"
layout_error_message schema_id_mismatch = bytes "schema_id mismatch"
layout_error_message alignment_invalid =
    bytes "data_alignment invalid or does not match expected value"
layout_error_message capacity_insufficient =
    bytes "data_capacity smaller than expected for this endpoint"
layout_error_message fixed_item_size_incompatible =
    bytes "data_capacity is not a multiple of fixed_item_size"
