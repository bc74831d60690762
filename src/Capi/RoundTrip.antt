-- ===== src/Capi/RoundTrip.antt =====
-- xproc_c_options: what an options query gives back describes the channel that was opened.
use xproc.Prelude.{ℕ, ◌≡◌, refl, Bool, true, false, List, [], ◌∷◌, ◌==◌, if◌then◌else◌, bytes}
use xproc.Options.{
  TransportOptions, default_options, TransportBackend, shared_memory, socket, ChannelType, fixed,
  varlen, is_empty, is_fixed, is_shared_memory,
}
use xproc.Capi.Options.{
  c_str, is_set, text_or, or_null, to_int, to_cpp_options, fill_borrowed_options,
  fill_owned_options, options_init,
}

-- The texts hold no NUL.
pub record NoNul (o : TransportOptions) : Type 0 where
  pub path : c_str o.path ≡ o.path
  pub namespace : c_str o.win32_object_namespace ≡ o.win32_object_namespace
  pub host : c_str o.socket_host ≡ o.socket_host

-- An empty text, as it comes back: null, which is read as the default.
abbrev pub or_default : List ℕ → List ℕ → List ℕ
or_default default s = if is_empty s then default else s

text_or_null :
    (default s : List ℕ) → c_str s ≡ s → text_or default (or_null s) ≡ or_default default s
text_or_null default [] e = refl
text_or_null default (c ∷ s) e = e

is_set-to_int : (b : Bool) → is_set (to_int b) ≡ b
is_set-to_int true = refl
is_set-to_int false = refl

or_default_empty : (s : List ℕ) → or_default [] s ≡ s
or_default_empty [] = refl
or_default_empty (c ∷ s) = refl

-- The options as they come back from a query.
abbrev pub queried : TransportOptions → TransportOptions
queried o = record o {
  win32_object_namespace = or_default (bytes "Local") o.win32_object_namespace;
  socket_host = or_default (bytes "127.0.0.1") o.socket_host;
}

backend_lem :
    (b : TransportBackend)
    → (if (if is_shared_memory b then 0 else 1) == 1 then socket else shared_memory) ≡ b
backend_lem shared_memory = refl
backend_lem socket = refl

type_lem : (t : ChannelType) → (if (if is_fixed t then 0 else 1) == 1 then varlen else fixed) ≡ t
type_lem fixed = refl
type_lem varlen = refl

-- Options that are given to a C caller and taken back are the same, but for an empty object
-- namespace, which becomes "Local", and an empty host, which becomes "127.0.0.1"; the options that
-- xproc_c_options_init fills in are the defaults of the C++ interface; and the options copied into
-- storage of their own are those that borrow their texts. The texts hold no NUL.
pub to_cpp_options-fill :
    (o : TransportOptions)
    → NoNul o
    → (to_cpp_options (fill_borrowed_options o) ≡ queried o)
      × (to_cpp_options (fill_owned_options o).1 ≡ queried o)
      × (to_cpp_options options_init ≡ default_options)
unfolding to_cpp_options fill_borrowed_options fill_owned_options options_init
to_cpp_options-fill o t = (back, back, refl)
  where
    back : to_cpp_options (fill_borrowed_options o) ≡ queried o
    back = rw (
      backend_lem o.backend,
      type_lem o.type,
      is_set-to_int o.create_if_missing,
      is_set-to_int o.socket_listen,
      text_or_null [] o.path t.path,
      or_default_empty o.path,
      text_or_null (bytes "Local") o.win32_object_namespace t.namespace,
      text_or_null (bytes "127.0.0.1") o.socket_host t.host,
    )
