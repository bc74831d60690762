-- ===== src/Capi/Producer.antt =====
-- src/capi/xproc_c.cpp: the producer's part of the C interface. `send_*` of the channel are arguments,
-- the members of `producer_channel_interface`, which both transports implement. A handle is `none` if
-- it, or the channel in it, is null.
use xproc.Prelude.{
  ℕ, Bool, true, false, not, List, [], Option, none, some, ◌==◌, if◌then◌else◌, bytes,
}
use xproc.Errors.{Exception, Result, ok, ◌>>=◌, ◌>>◌}
use xproc.Options.{Abi, TransportOptions}
use xproc.SendResult.{MessageMeta, empty_meta}
use xproc.Capi.{success, Reply, succeed, refuse, catch_status}
use xproc.Capi.Options.{COptions, to_cpp_options, fill_borrowed_options, validate_options_for_kind}

-- `const void* data` with its length: null, or the bytes there.
pub data Data : Type 0 where
  null_data : ℕ → Data
  data_at : List ℕ → Data

-- `data == nullptr && len != 0u`
abbrev pub lacks_data : Data → Bool
lacks_data (null_data len) = not (len == 0)
lacks_data (data_at payload) = false

abbrev pub payload_of : Data → List ℕ
payload_of (null_data len) = []
payload_of (data_at payload) = payload

-- producer_channel_interface: a send leaves the channel, and returns or throws.
pub record ProducerInterface (P : Type 0) : Type 0 where
  pub send_fixed_bytes : List ℕ → P → P × Result (Unit {0})
  pub send_fixed_sized : List ℕ → MessageMeta → P → P × Result (Unit {0})
  pub send_varlen : List ℕ → MessageMeta → P → P × Result (Unit {0})
  pub options : P → TransportOptions

-- `to_cpp_meta`
unfoldable pub to_cpp_meta : Option MessageMeta → MessageMeta
to_cpp_meta none = empty_meta
to_cpp_meta (some m) = record {
  user_data = m.user_data;
  timestamp_ns = m.timestamp_ns;
  schema_id = m.schema_id;
  flags = m.flags;
}

module _ (what : Exception → List ℕ) {P : Type 0} where
  -- A send behind its guards, with the texts of the two refusals.
  abbrev pub guarded_send :
      List ℕ → List ℕ → (List ℕ → P → P × Result (Unit {0})) → Option P → Data → Reply (Option P)
  guarded_send null_message data_message send none input = refuse null_message none
  guarded_send null_message data_message send (some p) input =
      let (p', r) = send (payload_of input) p in
      if lacks_data input
      then refuse data_message (some p)
      else catch_status what (some p') (r >> ok (succeed (some p')))

  -- copy_options_from_handle: `out` is what stands behind out_options, if that is not null.
  unfoldable pub copy_options_from_handle :
      List ℕ
      → List ℕ
      → (P → TransportOptions)
      → Option P
      → Option COptions
      → Reply (Option COptions)
  copy_options_from_handle handle_message out_message options handle none = refuse out_message none
  copy_options_from_handle handle_message out_message options none (some out) =
      refuse handle_message (some out)
  copy_options_from_handle handle_message out_message options (some p) (some out) =
      succeed (some (fill_borrowed_options (options p)))

  -- producer_socket_port_impl, which the consumer's call uses too.
  unfoldable pub producer_socket_port_impl :
      List ℕ → (P → TransportOptions) → Option P → Option ℕ → Reply (Option ℕ)
  producer_socket_port_impl message options handle none =
      refuse (bytes "xproc_c: out_port must not be null") none
  producer_socket_port_impl message options none (some port) = refuse message (some 0)
  producer_socket_port_impl message options (some p) (some port) =
      succeed (some ((options p).socket_port))

module _ (what : Exception → List ℕ) {P : Type 0} (ops : ProducerInterface P) where
  unfoldable pub producer_send_fixed_bytes : Option P → Data → Reply (Option P)
  producer_send_fixed_bytes producer input =
      guarded_send what (bytes "xproc_c_producer_send_fixed_bytes: producer is null")
        (bytes "xproc_c_producer_send_fixed_bytes: data is null while payload_len is non-zero")
        (ops.send_fixed_bytes) producer input

  unfoldable pub producer_send_fixed_sized : Option P → Data → Reply (Option P)
  producer_send_fixed_sized producer input =
      guarded_send what (bytes "xproc_c_producer_send_fixed_sized: producer is null")
        (bytes "xproc_c_producer_send_fixed_sized: data is null while byte_length is non-zero")
        (λ d. ops.send_fixed_sized d empty_meta) producer input

  unfoldable pub producer_send_fixed_sized_with_meta :
      Option P → Data → Option MessageMeta → Reply (Option P)
  producer_send_fixed_sized_with_meta producer input meta =
      guarded_send what (bytes "xproc_c_producer_send_fixed_sized_with_meta: producer is null")
        (bytes
          "xproc_c_producer_send_fixed_sized_with_meta: data is null while byte_length is non-zero")
        (λ d. ops.send_fixed_sized d (to_cpp_meta meta)) producer input

  unfoldable pub producer_send_varlen : Option P → Data → Reply (Option P)
  producer_send_varlen producer input =
      guarded_send what (bytes "xproc_c_producer_send_varlen: producer is null")
        (bytes "xproc_c_producer_send_varlen: data is null while len is non-zero")
        (λ d. ops.send_varlen d empty_meta) producer input

  unfoldable pub producer_send_varlen_with_meta :
      Option P → Data → Option MessageMeta → Reply (Option P)
  producer_send_varlen_with_meta producer input meta =
      guarded_send what (bytes "xproc_c_producer_send_varlen_with_meta: producer is null")
        (bytes "xproc_c_producer_send_varlen_with_meta: data is null while byte_length is non-zero")
        (λ d. ops.send_varlen d (to_cpp_meta meta)) producer input

  unfoldable pub producer_options : Option P → Option COptions → Reply (Option COptions)
  unfolding copy_options_from_handle
  producer_options producer out =
      copy_options_from_handle what (bytes "xproc_c_producer_options: producer is null")
        (bytes "xproc_c_producer_options: out_options must not be null") ops.options producer out

  unfoldable pub producer_socket_port : Option P → Option ℕ → Reply (Option ℕ)
  unfolding producer_socket_port_impl
  producer_socket_port producer out =
      producer_socket_port_impl what (bytes "xproc_c_producer_socket_port: producer is null")
        ops.options producer out

-- What follows the check of an open: a failed check is passed on, and the channel is not made.
abbrev pub after_check :
    {P W : Type 0}
    → (Exception → List ℕ)
    → Reply (Unit {0})
    → (W → Result P × W)
    → W
    → Reply (Option P) × W
after_check what checked create w = elim (checked.status) [
  | success ↦
      let (created, w') = create w in
      (catch_status what none (created >>= λ p. ok (succeed (some p))), w')
  | _ ↦ (record { status = checked.status; last = checked.last; out = none }, w)
]

-- An open: `kind` is the kind of the endpoint, `create` makes the channel (the factory, or the
-- constructor of the observer) and changes the world `w` outside. The result is what stands behind the
-- out pointer, if that is not null: null or the handle; and the world.
abbrev pub open_endpoint :
    {P W : Type 0}
    → Abi
    → (Exception → List ℕ)
    → ℕ
    → List ℕ
    → List ℕ
    → (TransportOptions → W → Result P × W)
    → Option COptions
    → Bool
    → W
    → Reply (Option P) × W
open_endpoint abi what kind out_message options_message create options true w =
    (refuse out_message none, w)
open_endpoint abi what kind out_message options_message create none false w =
    (refuse options_message none, w)
open_endpoint abi what kind out_message options_message create (some options) false w =
    after_check what (validate_options_for_kind abi what kind (some options))
      (create (to_cpp_options options)) w

module _ (abi : Abi) (what : Exception → List ℕ) {P W : Type 0}
    (create : TransportOptions → W → Result P × W) where
  unfoldable pub producer_open : Option COptions → Bool → W → Reply (Option P) × W
  producer_open options null_out w =
      open_endpoint abi what 0 (bytes "xproc_c_producer_open: out_producer must not be null")
        (bytes "xproc_c_producer_open: options must not be null") create options null_out w

  unfoldable pub consumer_open : Option COptions → Bool → W → Reply (Option P) × W
  consumer_open options null_out w =
      open_endpoint abi what 1 (bytes "xproc_c_consumer_open: out_consumer must not be null")
        (bytes "xproc_c_consumer_open: options must not be null") create options null_out w

  unfoldable pub observer_open : Option COptions → Bool → W → Reply (Option P) × W
  observer_open options null_out w =
      open_endpoint abi what 2 (bytes "xproc_c_observer_open: out_observer must not be null")
        (bytes "xproc_c_observer_open: options must not be null") create options null_out w
