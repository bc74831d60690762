-- ===== src/Capi/Names.antt =====
-- src/capi/xproc_c.cpp: the names of the statuses and of the layout errors. They are total here, on the
-- values of the enumerations; the texts for other values are not modelled.
use xproc.Prelude.{ℕ, List, bytes}
use xproc.Capi.{
  Status, success, again, buffer_too_small, bad_argument, logic_failure, layout_failure,
  runtime_failure, no_memory, internal_failure, LayoutError, no_layout_error,
}

unfoldable pub status_string : Status → List ℕ
status_string success = bytes "ok"
status_string again = bytes "again"
status_string buffer_too_small = bytes "buffer_too_small"
status_string bad_argument = bytes "invalid_argument"
status_string logic_failure = bytes "logic_error"
status_string layout_failure = bytes "layout_error"
status_string runtime_failure = bytes "runtime_error"
status_string no_memory = bytes "no_memory"
status_string internal_failure = bytes "internal_error"

unfoldable pub layout_error_string : LayoutError → List ℕ
layout_error_string no_layout_error = bytes "none"
layout_error_string LayoutError.not_attached = bytes "not_attached"
layout_error_string LayoutError.bad_magic = bytes "bad_magic"
layout_error_string LayoutError.not_ready_timeout = bytes "not_ready_timeout"
layout_error_string LayoutError.version_mismatch = bytes "version_mismatch"
layout_error_string LayoutError.header_size_mismatch = bytes "header_size_mismatch"
layout_error_string LayoutError.layout_type_mismatch = bytes "layout_type_mismatch"
layout_error_string LayoutError.fixed_item_size_mismatch = bytes "fixed_item_size_mismatch"
layout_error_string LayoutError.schema_id_mismatch = bytes "schema_id_mismatch"
layout_error_string LayoutError.alignment_invalid = bytes "alignment_invalid"
layout_error_string LayoutError.capacity_insufficient = bytes "capacity_insufficient"
layout_error_string LayoutError.fixed_item_size_incompatible = bytes "fixed_item_size_incompatible"
