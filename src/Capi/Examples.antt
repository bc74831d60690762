-- ===== src/Capi/Examples.antt =====
-- The C interface over small channels: a text of an exception is a letter for its class.
use xproc.Prelude.{
  ℕ, suc, ◌≡◌, refl, false, List, [], ◌∷◌, ◌++◌, Option, none, some, arith, bytes, replicate,
}
use xproc.Errors.{
  Message, Exception, Result, ok, throw, invalid_argument, logic_error, runtime_error,
  layout_exception,
}
use xproc.Options.{
  TransportOptions, default_options, validate_producer_transport_options,
  validate_consumer_transport_options, validate_observer_transport_options,
}
use xproc.SendResult.{empty_meta}
use xproc.Examples.{abi}
use xproc.Builders.Socket.{listener_fields, listen_fixed_socket}
use xproc.Capi.Options.{
  c_str, options_init, to_cpp_options, fill_borrowed_options, fill_owned_options,
}
use xproc.Capi.Producer.{
  ProducerInterface, data_at, producer_open, consumer_open, observer_open,
  producer_send_fixed_bytes, producer_send_fixed_sized, producer_send_fixed_sized_with_meta,
  producer_send_varlen, producer_send_varlen_with_meta,
}
use xproc.Capi.Consumer.{ConsumerInterface, ConsumerHandle, consumer_poll_copy}
use xproc.Capi.Reports.{Opened, Sent, open_outcome-Opened, sends-Sent}
use xproc.Capi.Delivery.{QueueLaw, messages, copies, copies_all}
use xproc.Channel.Examples.{State, ring, ring_law, varlen_options, first_entry}
use xproc.Capi.OverRing.{shm_consumer, shm_consumer-QueueLaw, copies-ring}
use xproc.Capi.RoundTrip.{NoNul, to_cpp_options-fill}

abbrev what : Exception → List ℕ
what (invalid_argument m) = bytes "i"
what (logic_error m) = bytes "l"
what (runtime_error m) = bytes "r"
what (layout_exception e) = bytes "y"

-- A channel that is the list of its messages, oldest first.
abbrev Box : Type 0
Box = List (List ℕ)

abbrev poll_box : Box → Box × Result (Option (List ℕ))
poll_box [] = ([], ok none)
poll_box (m ∷ ms) = (ms, ok (some m))

abbrev consumer_box : ConsumerInterface Box
consumer_box = record { poll = poll_box; wait = λ b. (b, ok tt); options = λ b. default_options }

box_law : QueueLaw consumer_box
box_law = record {
  queue = λ b. b;
  empty = λ b e. empty_box b e;
  front = λ b m q e. front_box b m q e;
}
  where
    empty_box : (b : Box) → b ≡ [] → ((poll_box b).1 ≡ ok none) × ((poll_box b).0 ≡ [])
    empty_box [] e = (refl, refl)
    empty_box (m ∷ ms) e = ground arith

    front_box :
        (b : Box) (m : List ℕ) (q : Box)
        → b ≡ m ∷ q
        → ((poll_box b).1 ≡ ok (some m)) × ((poll_box b).0 ≡ q)
    front_box [] m q e = ground arith
    front_box (x ∷ xs) m q e = (ground arith, ground arith)

abbrev handle : ConsumerHandle Box
handle = record { impl = (1 ∷ 2 ∷ 3 ∷ []) ∷ (4 ∷ []) ∷ []; pending = [] }

-- A buffer that is too small, the same again, one that is large enough.
kept_then_copied :
    (copies what consumer_box (2 ∷ 1 ∷ 8 ∷ []) handle).delivered ≡ (1 ∷ 2 ∷ 3 ∷ []) ∷ []
unfolding copies consumer_poll_copy
kept_then_copied = refl

copies_all_example :
    (copies what consumer_box (replicate 2 3) handle).delivered ≡ (1 ∷ 2 ∷ 3 ∷ []) ∷ (4 ∷ []) ∷ []
unfolding box_law
copies_all_example =
    copies_all what consumer_box box_law 3 handle ((1 ∷ 2 ∷ 3 ∷ []) ∷ (4 ∷ []) ∷ []) refl
      (omega arith, (omega arith, tt))

-- A world that counts the channels made.
abbrev open_box : TransportOptions → ℕ → Result Box × ℕ
open_box o made = (ok [], suc made)

open_outcome-Opened_example :
    Opened what
      (validate_producer_transport_options abi (to_cpp_options options_init))
      (open_box (to_cpp_options options_init))
      4
      (producer_open abi what open_box (some options_init) false 4)
    × Opened what
        (validate_consumer_transport_options abi (to_cpp_options options_init))
        (open_box (to_cpp_options options_init))
        4
        (consumer_open abi what open_box (some options_init) false 4)
    × Opened what
        (validate_observer_transport_options abi (to_cpp_options options_init))
        (open_box (to_cpp_options options_init))
        4
        (observer_open abi what open_box (some options_init) false 4)
open_outcome-Opened_example = open_outcome-Opened abi what open_box options_init 4

abbrev producer_box : ProducerInterface Box
producer_box = record {
  send_fixed_bytes = λ m b. (b ++ m ∷ [], ok tt);
  send_fixed_sized = λ m t b. (b ++ m ∷ [], ok tt);
  send_varlen = λ m t b. (b, throw (logic_error Message.varlen_channel_required));
  options = λ b. default_options;
}

sends-Sent_example :
    let d = data_at (5 ∷ []) in
    Sent what ((5 ∷ []) ∷ [], ok tt) (producer_send_fixed_bytes what producer_box (some []) d)
    × Sent what ((5 ∷ []) ∷ [], ok tt) (producer_send_fixed_sized what producer_box (some []) d)
    × Sent what
        ((5 ∷ []) ∷ [], ok tt)
        (producer_send_fixed_sized_with_meta what producer_box (some []) d (some empty_meta))
    × Sent what
        ([], throw (logic_error Message.varlen_channel_required))
        (producer_send_varlen what producer_box (some []) d)
    × Sent what
        ([], throw (logic_error Message.varlen_channel_required))
        (producer_send_varlen_with_meta what producer_box (some []) d (some empty_meta))
sends-Sent_example = sends-Sent what producer_box [] (data_at (5 ∷ [])) (some empty_meta) refl

-- The options of a listener, whose host is empty, come back with a host.
abbrev listening : TransportOptions
listening = listener_fields (listen_fixed_socket 4)

no_nul : NoNul listening
unfolding c_str
no_nul = record { path = refl; namespace = refl; host = refl }

to_cpp_options-fill_example :
    (to_cpp_options (fill_borrowed_options listening)
      ≡ record listening { socket_host = bytes "127.0.0.1" })
    × (to_cpp_options (fill_owned_options listening).1
        ≡ record listening { socket_host = bytes "127.0.0.1" })
    × (to_cpp_options options_init ≡ default_options)
to_cpp_options-fill_example = to_cpp_options-fill listening no_nul

-- Two messages in a ring of shared memory, with metadata that the copy drops.
abbrev ring_handle : ConsumerHandle State
ring_handle = record { impl = (first_entry ∷ (empty_meta, 7 ∷ []) ∷ [], empty_meta); pending = [] }

abbrev no_wait : State → State × Result (Unit {0})
no_wait s = (s, ok tt)

copies-ring_example :
    let x = copies what (shm_consumer ring no_wait varlen_options) (1 ∷ 2 ∷ []) ring_handle in
    x.delivered
      ++ messages what
          (shm_consumer ring no_wait varlen_options)
          (shm_consumer-QueueLaw ring ring_law no_wait varlen_options refl)
          x.handle
    ≡ messages what
        (shm_consumer ring no_wait varlen_options)
        (shm_consumer-QueueLaw ring ring_law no_wait varlen_options refl)
        ring_handle
copies-ring_example =
    copies-ring ring ring_law no_wait varlen_options refl what (1 ∷ 2 ∷ []) ring_handle
