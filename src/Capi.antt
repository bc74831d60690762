-- ===== src/Capi.antt =====
-- src/capi/xproc_c.cpp and xproc_c.h: the C interface. A call returns a status and leaves the
-- thread's last error and its out parameters. A pointer that may be null is an option. Texts are lists
-- of bytes; the text of an exception is an argument, `what`. Exceptions of other classes (bad_alloc
-- among them) are not modelled.
pub mod Names
pub mod Options
pub mod Producer
pub mod Consumer
pub mod Observer
pub mod Reports
pub mod Delivery
pub mod OverRing
pub mod RoundTrip
mod Examples
use xproc.Prelude.{ℕ, List, []}
use xproc.Errors.{
  ValidateError, Exception, Result, ok, throw, invalid_argument, logic_error, runtime_error,
  layout_exception,
}

-- `xproc_c_status`
pub data Status : Type 0 where
  success again buffer_too_small bad_argument logic_failure layout_failure : Status
  runtime_failure no_memory internal_failure : Status

-- `xproc_c_layout_error`
pub data LayoutError : Type 0 where
  no_layout_error not_attached bad_magic not_ready_timeout version_mismatch : LayoutError
  header_size_mismatch layout_type_mismatch fixed_item_size_mismatch schema_id_mismatch :
      LayoutError
  alignment_invalid capacity_insufficient fixed_item_size_incompatible : LayoutError

unfoldable pub to_c_layout_error : ValidateError → LayoutError
to_c_layout_error ValidateError.no_error = no_layout_error
to_c_layout_error ValidateError.not_attached = LayoutError.not_attached
to_c_layout_error ValidateError.bad_magic = LayoutError.bad_magic
to_c_layout_error ValidateError.not_ready_timeout = LayoutError.not_ready_timeout
to_c_layout_error ValidateError.version_mismatch = LayoutError.version_mismatch
to_c_layout_error ValidateError.header_size_mismatch = LayoutError.header_size_mismatch
to_c_layout_error ValidateError.layout_type_mismatch = LayoutError.layout_type_mismatch
to_c_layout_error ValidateError.fixed_item_size_mismatch = LayoutError.fixed_item_size_mismatch
to_c_layout_error ValidateError.schema_id_mismatch = LayoutError.schema_id_mismatch
to_c_layout_error ValidateError.alignment_invalid = LayoutError.alignment_invalid
to_c_layout_error ValidateError.capacity_insufficient = LayoutError.capacity_insufficient
to_c_layout_error ValidateError.fixed_item_size_incompatible =
    LayoutError.fixed_item_size_incompatible

-- `g_last_error` and `g_last_layout_error`
pub record LastError : Type 0 where
  pub message : List ℕ
  pub layout_error : LayoutError

abbrev pub cleared : LastError
cleared = record { message = []; layout_error = no_layout_error }

-- What a call returns, the last error that it leaves, and what it leaves behind its pointers.
pub record Reply {ℓ} (A : Type ℓ) : Type ℓ where
  pub status : Status
  pub last : LastError
  pub out : A

module _ {ℓ} {A : Type ℓ} where
  -- `clear_last_error(); return XPROC_C_STATUS_OK;`
  abbrev pub succeed : A → Reply A
  succeed a = record { status = success; last = cleared; out = a }

  -- `clear_last_error(); return XPROC_C_STATUS_AGAIN;`
  abbrev pub try_again : A → Reply A
  try_again a = record { status = again; last = cleared; out = a }

  -- `return set_last_error(status, message);`
  abbrev pub set_last_error : Status → List ℕ → A → Reply A
  set_last_error status message a = record {
    status = status;
    last = record { message = message; layout_error = no_layout_error };
    out = a;
  }

  -- `return invalid_argument(message);`
  abbrev pub refuse : List ℕ → A → Reply A
  refuse message a = set_last_error bad_argument message a

  module _ (what : Exception → List ℕ) where
    -- The handlers of `catch_status`, with what the body left behind the pointers before it threw.
    unfoldable pub caught : A → Exception → Reply A
    caught a (layout_exception e) = record {
      status = layout_failure;
      last = record { message = what (layout_exception e); layout_error = to_c_layout_error e };
      out = a;
    }
    caught a (invalid_argument m) = set_last_error bad_argument (what (invalid_argument m)) a
    caught a (logic_error m) = set_last_error logic_failure (what (logic_error m)) a
    caught a (runtime_error m) = set_last_error runtime_failure (what (runtime_error m)) a

    unfoldable pub catch_status : A → Result (Reply A) → Reply A
    unfolding caught
    catch_status a (ok r) = r
    catch_status a (throw e) = caught a e
