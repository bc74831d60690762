-- ===== src/Builders/Examples.antt =====
-- A channel of items of four bytes in 16 bytes of data, and sockets.
use xproc.Prelude.{ℕ, ◌≡◌, refl, ◌⊎◌, inl, true, arith, bytes, ltb, if◌then◌else◌}
use xproc.Errors.{Result, ok}
use xproc.Options.{TransportOptions, shm_size_for_data_capacity, shm_data_capacity_for_size}
use xproc.Layout.{ControlBlock, format, init_header}
use xproc.Shm.{Kernel, fails, gives}
use xproc.Examples.{abi, blank, blank_ring, init, init-InitLaw, creation}
use xproc.Builders.{FixedChannelBuilder, make_fixed_channel, fixed_fields, create_fixed}
use xproc.Builders.Fixed.{with_schema_id}
use xproc.Builders.Laws.{FitsSize, Usable, OpensAll, create_fixed-OpensAll}
use xproc.Builders.Socket.{
  SocketListenerBuilder, SocketConnectorBuilder, listen_fixed_socket, connect_fixed_socket,
}
use xproc.Builders.Existing.{attach_channel, max_attach_retries, open_rounds}
use xproc.Builders.Retry.{Found, Missed, open_rounds_outcome}
use xproc.Builders.Segments.{Admitted, quiet}
use xproc.Builders.Reopen.{Reopens, fixed_options-reopen}
use xproc.Shm.{empty_shm}

abbrev builder : FixedChannelBuilder
builder = with_schema_id 9 (make_fixed_channel (bytes "/x") 4)

abbrev opts : TransportOptions
opts = fixed_fields abi builder 16

abbrev formatted : ControlBlock
formatted = record {
  spscring_cb = record blank_ring {
    magic = 77;
    version_major = 1;
    header_size = 64;
    data_capacity = 16;
    data_alignment = 8;
    fixed_item_size = 4;
  };
  attach_count = 1;
  is_ready = true;
  producer_pid = 42;
  schema_id = 9;
  creator_timestamp_ns = 0;
  creator_flags = 0;
  reserved_xproc = 0;
}

-- The segment appears at the third attempt.
abbrev kernel : ℕ → Kernel
kernel i = record {
  open_rdwr = fails 2;
  open_excl = fails 2;
  reopen_rdwr = fails 2;
  open_rdonly = if ltb i 2 then fails 2 else gives 5;
  truncate = fails 22;
  stat = gives 80;
  map = gives 4096;
}

fits : FitsSize abi 16
fits = (omega arith, omega arith)

usable : Usable (bytes "/x") 0
usable = record { named = λ e. ground arith; aligned = inl refl }

third : Admitted kernel
third = record {
  i = 2;
  soon = omega arith;
  readable = record {
    fd = 5;
    last = 79;
    address = 4096;
    opens = refl;
    sized = refl;
    mapped = refl;
  };
}

fixed_options-reopen_example :
    Reopens abi init (quiet kernel formatted) formatted (attach_channel (bytes "/x")) opts creation
unfolding format init_header shm_size_for_data_capacity shm_data_capacity_for_size
fixed_options-reopen_example =
    fixed_options-reopen abi init init-InitLaw 16 42 (λ i. blank) formatted kernel
      (attach_channel (bytes "/x")) creation builder fits usable (λ e. ground arith) refl third
      (record { path = refl; namespace = refl; schema = inl refl })

create_fixed-OpensAll_example :
    (create_fixed abi builder 16 ≡ ok (record { opts = opts }))
    × OpensAll abi (record { opts = opts })
create_fixed-OpensAll_example = create_fixed-OpensAll abi builder 16 fits usable (λ e. ground arith)

open_rounds_outcome_example :
    let a = open_rounds kernel (bytes "/x") max_attach_retries 0 empty_shm 0 in
    Found kernel 10 0 0 a ⊎ Missed kernel 10 0 0 a
open_rounds_outcome_example = open_rounds_outcome (bytes "/x") kernel

abbrev listener : SocketListenerBuilder
listener = listen_fixed_socket 4

abbrev connector_to : SocketConnectorBuilder
connector_to = connect_fixed_socket (bytes "localhost") 7 4

-- The socket transport is its port, and the other one is not made.
abbrev port_of : TransportOptions → Result ℕ
port_of o = ok o.socket_port
