-- ===== src/Capi/Options.antt =====
-- src/capi/xproc_c.cpp and xproc_c.h: xproc_c_options and what is done with it. A `const char*` is
-- read up to its NUL, and a std::string with a NUL inside is cut there by its c_str().
use xproc.Prelude.{
  ℕ, Bool, true, not, List, [], ◌∷◌, Option, none, some, ltb, ◌==◌, if◌then◌else◌, ℤ, pos, bytes,
}
use xproc.Errors.{Exception, Result, ok, ◌>>=◌, ◌>>◌}
use xproc.Options.{
  Abi, TransportOptions, shared_memory, socket, fixed, varlen, is_fixed, is_shared_memory, is_empty,
  validate_producer_transport_options, validate_consumer_transport_options,
  validate_observer_transport_options,
}
use xproc.Builders.Existing.{Segment, read_existing_shm_options}
use xproc.Capi.{Reply, succeed, refuse, catch_status}

-- The text behind a `const char*` that points to the bytes and a NUL.
unfoldable pub c_str : List ℕ → List ℕ
c_str [] = []
c_str (c ∷ s) = let rest = c_str s in if c == 0 then [] else c ∷ rest

-- `xproc_c_options`. The enumerations are C integers.
pub record COptions : Type 0 where
  pub backend : ℕ
  pub path : Option (List ℕ)
  pub shm_size : ℕ
  pub item_size : ℕ
  pub data_align : ℕ
  pub schema_id : ℕ
  pub creator_timestamp_ns : ℕ
  pub creator_flags : ℕ
  pub create_if_missing : ℤ
  pub channel_type : ℕ
  pub win32_object_namespace : Option (List ℕ)
  pub socket_host : Option (List ℕ)
  pub socket_port : ℕ
  pub socket_listen : ℤ
  pub socket_connect_retries : ℤ
  pub socket_connect_retry_ms : ℤ

-- `x != 0`
abbrev pub is_set : ℤ → Bool
is_set (pos n) = not (n == 0)
is_set _ = true

abbrev pub text_or : List ℕ → Option (List ℕ) → List ℕ
text_or default none = default
text_or default (some s) = s

unfoldable pub to_cpp_options : COptions → TransportOptions
to_cpp_options o = record {
  backend = if o.backend == 1 then socket else shared_memory;
  path = text_or [] o.path;
  shm_size = o.shm_size;
  item_size = o.item_size;
  data_align = o.data_align;
  schema_id = o.schema_id;
  creator_timestamp_ns = o.creator_timestamp_ns;
  creator_flags = o.creator_flags;
  create_if_missing = is_set o.create_if_missing;
  type = if o.channel_type == 1 then varlen else fixed;
  win32_object_namespace = text_or (bytes "Local") o.win32_object_namespace;
  socket_host = text_or (bytes "127.0.0.1") o.socket_host;
  socket_port = o.socket_port;
  socket_listen = is_set o.socket_listen;
  socket_connect_retries = o.socket_connect_retries;
  socket_connect_retry_ms = o.socket_connect_retry_ms;
}

-- `text.empty() ? nullptr : text.c_str()`
abbrev pub or_null : List ℕ → Option (List ℕ)
or_null s = if is_empty s then none else some (c_str s)

-- `flag ? 1 : 0`
abbrev pub to_int : Bool → ℤ
to_int b = if b then pos 1 else pos 0

-- All fields are written. The texts of `fill_borrowed_options` live as long as the options do, those
-- of `fill_owned_options` in `storage`.
unfoldable pub fill_borrowed_options : TransportOptions → COptions
fill_borrowed_options o = record {
  backend = if is_shared_memory o.backend then 0 else 1;
  path = or_null o.path;
  shm_size = o.shm_size;
  item_size = o.item_size;
  data_align = o.data_align;
  schema_id = o.schema_id;
  creator_timestamp_ns = o.creator_timestamp_ns;
  creator_flags = o.creator_flags;
  create_if_missing = to_int o.create_if_missing;
  channel_type = if is_fixed o.type then 0 else 1;
  win32_object_namespace = or_null o.win32_object_namespace;
  socket_host = or_null o.socket_host;
  socket_port = o.socket_port;
  socket_listen = to_int o.socket_listen;
  socket_connect_retries = o.socket_connect_retries;
  socket_connect_retry_ms = o.socket_connect_retry_ms;
}

pub record OwnedOptionStrings : Type 0 where
  pub path : List ℕ
  pub win32_object_namespace : List ℕ
  pub socket_host : List ℕ

unfoldable pub fill_owned_options : TransportOptions → OwnedOptionStrings × COptions
unfolding fill_borrowed_options
fill_owned_options o =
    let storage : OwnedOptionStrings = record {
      path = o.path;
      win32_object_namespace = o.win32_object_namespace;
      socket_host = o.socket_host;
    } in
    (
      storage,
      record (fill_borrowed_options o) {
        path = or_null storage.path;
        win32_object_namespace = or_null storage.win32_object_namespace;
        socket_host = or_null storage.socket_host;
      },
    )

unfoldable pub options_init : COptions
options_init = record {
  backend = 0;
  path = none;
  shm_size = 0;
  item_size = 0;
  data_align = 0;
  schema_id = 0;
  creator_timestamp_ns = 0;
  creator_flags = 0;
  create_if_missing = pos 1;
  channel_type = 0;
  win32_object_namespace = some (bytes "Local");
  socket_host = some (bytes "127.0.0.1");
  socket_port = 0;
  socket_listen = pos 0;
  socket_connect_retries = pos 200;
  socket_connect_retry_ms = pos 10;
}

module _ (abi : Abi) (what : Exception → List ℕ) where
  -- `kind` is the C integer.
  abbrev pub validate_for : ℕ → TransportOptions → Result (Unit {0})
  validate_for kind o =
      if kind == 0
      then validate_producer_transport_options abi o
      else if kind == 1
      then validate_consumer_transport_options abi o
      else validate_observer_transport_options abi o

  -- The checks of the options, once they are there.
  abbrev pub validated : ℕ → COptions → Reply (Unit {0})
  validated kind options =
      catch_status what tt (validate_for kind (to_cpp_options options) >> ok (succeed tt))

  unfoldable pub validate_options_for_kind : ℕ → Option COptions → Reply (Unit {0})
  validate_options_for_kind kind none =
      if ltb 2 kind
      then refuse (bytes "xproc_c: unknown endpoint kind") tt
      else refuse (bytes "xproc_c_validate_options_for: options must not be null") tt
  validate_options_for_kind kind (some options) =
      if ltb 2 kind
      then refuse (bytes "xproc_c: unknown endpoint kind") tt
      else validated kind options

  -- xproc_c_shm_read_existing_options: `out` is what stands behind out_options, if that is not null.
  unfoldable pub shm_read_existing_options :
      Segment → Option (List ℕ) → Option (List ℕ) → Option COptions → Reply (Option COptions)
  shm_read_existing_options s none namespace out =
      refuse (bytes "xproc_c_shm_read_existing_options: path must not be null") out
  shm_read_existing_options s (some path) namespace none =
      refuse (bytes "xproc_c_shm_read_existing_options: out_options must not be null") none
  shm_read_existing_options s (some path) namespace (some out) = catch_status what (some out) (
      read_existing_shm_options abi s path (text_or (bytes "Local") namespace) >>= λ o.
      ok (succeed (some (fill_owned_options o).1)))
