-- ===== src/Socket/Consumer.antt =====
-- src/ipc/socket_channel.cpp: socket_consumer. What the kernel answers to a poll is an argument.
use xproc.Prelude.{
  ℕ, Bool, true, false, not, List, [], ◌∷◌, Option, none, some, ltb, ◌==◌, if◌then◌else◌,
}
use xproc.Errors.{Exception, Result, ok, throw, runtime_error, layout_exception}
use xproc.Options.{TransportOptions, ChannelType, fixed, varlen}
use xproc.Socket.Wire.{k_max_varlen, load_le32}
use xproc.Socket.Stream.{done, failed, blocked, Received, read_exact_sock}

-- `listening` says that `listen_` is a descriptor. `sock` is `none` if `sock_` is -1; else it holds
-- what the peer of the connection has sent, and will have sent when it closes, less what was read.
pub record SocketConsumer : Type 0 where
  pub opts : TransportOptions
  pub listening : Bool
  pub sock : Option (List ℕ)

-- The kernel's part in one poll: the connection that ::select reports on the listening socket and
-- ::accept returns, if any; whether ::select reports the connection as readable; and the choices of
-- its calls of ::recv.
pub record Kernel : Type 0 where
  pub pending : Option (List ℕ)
  pub readable : Bool
  pub script : List ℕ

-- What the handler does with a message.
abbrev pub Handler : Type 0
Handler = List ℕ → Result (Unit {0})

pub data Read : Type 0 where
  got : List ℕ → List ℕ → Read
  broken : List ℕ → Read
  waiting : List ℕ → Read

-- The consumer after a poll, the message that the handler was called with, and what the poll
-- returned or threw; `none` is a poll that is still waiting in the kernel.
pub record Polled : Type 0 where
  pub consumer : SocketConsumer
  pub delivered : Option (List ℕ)
  pub result : Option (Result Bool)

unfoldable pub close_sock : SocketConsumer → SocketConsumer
close_sock c = record c { sock = none }

accept_pending : Option (List ℕ) → SocketConsumer → SocketConsumer × Bool
accept_pending none c = (c, false)
accept_pending (some stream) c = (record c { sock = some stream }, true)

unfoldable pub ensure_peer_connected : Option (List ℕ) → SocketConsumer → SocketConsumer × Bool
unfolding accept_pending
ensure_peer_connected pending c = elim (c.sock) [
  | some stream ↦ (c, true)
  | none ↦ if not c.listening then (c, false) else accept_pending pending c
]

-- After a read_exact_sock: the payload and what is left, an exception, or no return.
abbrev pub as_read : Received → Read
as_read r = elim (r.outcome) [
  | done ↦ got r.payload r.incoming
  | failed ↦ broken r.incoming
  | blocked ↦ waiting r.incoming
]

-- `len` is the length that the prefix announces. A payload of no bytes is not read.
unfoldable pub read_payload : ℕ → List ℕ → List ℕ → Read
read_payload len script incoming =
    if ltb k_max_varlen len
    then broken incoming
    else if len == 0
    then got [] incoming
    else as_read (read_exact_sock script incoming len)

abbrev pub prefix_length : List ℕ → ℕ
prefix_length (b0 ∷ b1 ∷ b2 ∷ b3 ∷ _) = load_le32 b0 b1 b2 b3
prefix_length _ = 0

unfoldable pub read_message : ChannelType → ℕ → List ℕ → List ℕ → Read
read_message fixed item_size script incoming = as_read (read_exact_sock script incoming item_size)
read_message varlen item_size script incoming =
    let r = read_exact_sock script incoming 4 in
    elim (r.outcome) [
      | done ↦ read_payload (prefix_length r.payload) r.script r.incoming
      | failed ↦ broken r.incoming
      | blocked ↦ waiting r.incoming
    ]

-- `catch (const std::runtime_error&)`; a layout_exception is a runtime_error.
abbrev pub is_runtime_error : Exception → Bool
is_runtime_error (runtime_error m) = true
is_runtime_error (layout_exception e) = true
is_runtime_error _ = false

after_handler : SocketConsumer → List ℕ → Result (Unit {0}) → Polled
after_handler c payload (ok u) = record {
  consumer = c;
  delivered = some payload;
  result = some (ok true);
}
after_handler c payload (throw e) =
    if is_runtime_error e
    then record {
      consumer = record c { sock = none };
      delivered = some payload;
      result = some (ok false);
    }
    else record { consumer = c; delivered = some payload; result = some (throw e) }

after_read : SocketConsumer → Handler → Read → Polled
unfolding after_handler
after_read c handler (got payload rest) =
    after_handler (record c { sock = some rest }) payload (handler payload)
after_read c handler (broken rest) = record {
  consumer = record c { sock = none };
  delivered = none;
  result = some (ok false);
}
after_read c handler (waiting rest) = record {
  consumer = record c { sock = some rest };
  delivered = none;
  result = none;
}

poll_connected : Kernel → Handler → SocketConsumer → Option (List ℕ) → Polled
unfolding after_read
poll_connected k handler c none = record {
  consumer = c;
  delivered = none;
  result = some (ok false);
}
poll_connected k handler c (some incoming) =
    if not k.readable
    then record { consumer = c; delivered = none; result = some (ok false) }
    else after_read c handler (read_message c.opts.type c.opts.item_size k.script incoming)

unfoldable pub poll_impl : Kernel → Handler → SocketConsumer → Polled
unfolding ensure_peer_connected poll_connected
poll_impl k handler c =
    let (c', connected) = ensure_peer_connected k.pending c in
    if connected
    then poll_connected k handler c' c'.sock
    else record { consumer = c'; delivered = none; result = some (ok false) }
