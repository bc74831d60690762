-- ===== src/Socket/Examples.antt =====
-- The theorems on the socket channel at concrete inputs: a message of three bytes in pieces.
use xproc.Prelude.{
  ℕ, ◌≤◌, ◌≡◌, refl, true, false, List, [], ◌∷◌, ◌++◌, none, some, arith, length, pos, ltb,
  if◌then◌else◌,
}
use xproc.Errors.{Result, ok, throw, runtime_error, connect_failed, recv_failed}
use xproc.Options.{TransportOptions, fixed, varlen, socket, default_options}
use xproc.Socket.Wire.{k_max_varlen, load_le32, store_le32}
use xproc.Socket.Stream.{AllMove, read_exact_sock}
use xproc.Socket.Producer.{SocketProducer, send_varlen}
use xproc.Socket.Sends.{Wrote, varlen_frame, send_varlen-Wrote, send_varlen_returns}
use xproc.Socket.Resolve.{
  Candidate, try_resolved_stream_socket, Probed, of_family, try_resolved_stream_socket-Probed,
}
use xproc.Socket.Consumer.{SocketConsumer, Kernel, Handler, read_payload, read_message, poll_impl}
use xproc.Socket.Frames.{read_varlen_got, varlen_frame-injective}
use xproc.Socket.Delivery.{
  Send, Sendable, send_all, poll_all, delivery, poll_impl_torn, poll_impl_throws,
}

abbrev varlen_socket : TransportOptions
varlen_socket = record default_options { backend = socket; type = varlen }

abbrev fixed_socket : TransportOptions
fixed_socket = record default_options { backend = socket; type = fixed; item_size = 5 }

abbrev message : List ℕ
message = 7 ∷ 0 ∷ 255 ∷ []

abbrev pieces : List ℕ
pieces = 3 ∷ 1 ∷ 2 ∷ 1 ∷ 1 ∷ 9 ∷ 1 ∷ 1 ∷ []

abbrev connected : TransportOptions → SocketProducer
connected o = record { opts = o; sock = true; wire = [] }

send_varlen-Wrote_example :
    Wrote
      (connected varlen_socket)
      (varlen_frame message)
      (send_varlen (connected varlen_socket) (4 ∷ 2 ∷ 0 ∷ []) message)
send_varlen-Wrote_example =
    send_varlen-Wrote (connected varlen_socket) (4 ∷ 2 ∷ 0 ∷ []) message refl (omega arith)

pieces-AllMove : AllMove pieces
pieces-AllMove = ground arith

frame-length : length (varlen_frame message) ≡ 7
unfolding store_le32
frame-length = refl

send_varlen_returns_example :
    ((send_varlen (connected varlen_socket) pieces message).result ≡ some (ok tt))
    × ((send_varlen (connected varlen_socket) pieces message).producer.sock ≡ true)
send_varlen_returns_example =
    send_varlen_returns (connected varlen_socket) pieces message refl refl (omega arith)
      pieces-AllMove (omega (arith, frame-length))

abbrev two_sends : List Send
two_sends =
    record { script = pieces; payload = message }
    ∷ record { script = 1 ∷ 1 ∷ 1 ∷ 1 ∷ []; payload = [] }
    ∷ []

abbrev kernel : List ℕ → Kernel
kernel script = record { pending = none; readable = true; script = script }

abbrev accepts_all : Handler
accepts_all m = ok tt

abbrev listening : TransportOptions → List ℕ → SocketConsumer
listening o stream = record { opts = o; listening = true; sock = some stream }

empty-Sendable : Sendable (record { script = 1 ∷ 1 ∷ 1 ∷ 1 ∷ []; payload = [] })
unfolding store_le32
empty-Sendable = (omega arith, ground arith, omega arith)

delivery_example :
    (poll_all
      (kernel pieces ∷ kernel (1 ∷ 1 ∷ 1 ∷ 1 ∷ []) ∷ [])
      accepts_all
      (listening varlen_socket (send_all (connected varlen_socket) two_sends).0.wire)).1
    ≡ message ∷ [] ∷ []
unfolding store_le32
delivery_example =
    delivery (connected varlen_socket) two_sends (kernel pieces ∷ kernel (1 ∷ 1 ∷ 1 ∷ 1 ∷ []) ∷ [])
      accepts_all (listening varlen_socket (send_all (connected varlen_socket) two_sends).0.wire)
      refl refl refl ((omega arith, pieces-AllMove, omega arith), (empty-Sendable, tt)) (λ m. refl)
      refl refl (refl, pieces-AllMove, omega arith, (refl, ground arith, omega arith, tt))

-- The connection ends behind the second byte of the message.
poll_impl_torn_example :
    (poll_impl
      (kernel pieces)
      accepts_all
      (listening varlen_socket (3 ∷ 0 ∷ 0 ∷ 0 ∷ 7 ∷ 0 ∷ []))).delivered
    ≡ none
unfolding store_le32
poll_impl_torn_example =
    poll_impl_torn (kernel pieces) accepts_all
      (listening varlen_socket (3 ∷ 0 ∷ 0 ∷ 0 ∷ 7 ∷ 0 ∷ [])) message (3 ∷ 0 ∷ 0 ∷ 0 ∷ 7 ∷ 0 ∷ []) []
      255 refl refl (omega arith) (ground arith) refl

abbrev two_bytes : List ℕ
two_bytes = 7 ∷ 9 ∷ []

abbrev trailing : List ℕ
trailing = 4 ∷ []

abbrev framed : List ℕ
framed = 2 ∷ 0 ∷ 0 ∷ 0 ∷ 7 ∷ 9 ∷ 4 ∷ []

read_varlen_got_example :
    (framed ≡ varlen_frame two_bytes ++ trailing) × (length two_bytes ≤ k_max_varlen)
unfolding read_message read_exact_sock read_payload load_le32
read_varlen_got_example = read_varlen_got 0 pieces framed two_bytes trailing (ground arith) refl

varlen_frame-injective_example : (message ≡ message) × (trailing ≡ trailing)
varlen_frame-injective_example =
    varlen_frame-injective message message trailing trailing (omega arith) (omega arith) refl

-- The second attempt succeeds.
abbrev attempts : ℕ → Result (Unit {0})
attempts i = if ltb i 1 then throw (runtime_error connect_failed) else ok tt

abbrev unconnected : SocketProducer
unconnected = record {
  opts = record varlen_socket { socket_connect_retries = pos 3 };
  sock = false;
  wire = [];
}

abbrev addresses : List Candidate
addresses =
    record { is_ipv6 = false; handle = some 5; works = true }
    ∷ record { is_ipv6 = true; handle = some 6; works = false }
    ∷ []

try_resolved_stream_socket-Probed_example :
    Probed
      (of_family true addresses ++ of_family false addresses)
      (try_resolved_stream_socket addresses)
try_resolved_stream_socket-Probed_example = try_resolved_stream_socket-Probed addresses

abbrev refuses : Handler
refuses m = throw (runtime_error recv_failed)

poll_impl_throws_example :
    let r =
      poll_impl
        (kernel pieces)
        refuses
        (listening varlen_socket (varlen_frame message ++ 5 ∷ [])) in
    (r.delivered ≡ some message) × ((r.result ≡ some (ok false)) × (r.consumer.sock ≡ none))
poll_impl_throws_example =
    poll_impl_throws (kernel pieces) refuses
      (listening varlen_socket (varlen_frame message ++ 5 ∷ [])) message (5 ∷ [])
      (runtime_error recv_failed) refl refl refl pieces-AllMove (omega (arith, frame-length))
      (omega arith) refl
