-- ===== src/Socket/Producer.antt =====
-- src/ipc/socket_channel.cpp: socket_producer. The data of a call is the list of its bytes, and the
-- length argument is its length. The metadata overloads drop their last argument, so they are the
-- functions below.
use xproc.Prelude.{
  ℕ, zero, suc, ◌-◌, Bool, true, false, not, ◌||◌, List, [], ◌++◌, Option, none, some, ltb,
  if◌then◌else◌, length, replicate, ℤ, to_nat,
}
use xproc.Errors.{
  Message, Exception, Result, ok, throw, invalid_argument, logic_error, runtime_error, send_failed,
}
use xproc.Options.{TransportOptions, is_fixed, is_empty}
use xproc.Socket.Wire.{k_max_varlen, store_le32}
use xproc.Socket.Stream.{Outcome, done, failed, blocked, write_full_sock}

-- `sock` says that `sock_` is a descriptor, and `wire` is all that the kernel has taken on the
-- connection that was opened last.
pub record SocketProducer : Type 0 where
  pub opts : TransportOptions
  pub sock : Bool
  pub wire : List ℕ

-- The producer after a call, what is left of the kernel's choices, and the outcome; `none` is a
-- call that is still waiting in the kernel.
pub record Run : Type 0 where
  pub producer : SocketProducer
  pub script : List ℕ
  pub result : Option (Result (Unit {0}))

pub is_connected : SocketProducer → Bool
is_connected p = p.sock

unfoldable pub close_sock : SocketProducer → SocketProducer
close_sock p = record p { sock = false }

abbrev pub finish_write : Outcome → SocketProducer → List ℕ → Run
finish_write done p script = record { producer = p; script = script; result = some (ok tt) }
finish_write failed p script = record {
  producer = record p { sock = false };
  script = script;
  result = some (throw (runtime_error send_failed));
}
finish_write blocked p script = record { producer = p; script = script; result = none }

-- On `sock_ == -1` the first ::send fails, so only a write of no bytes returns.
unfoldable pub write_full : SocketProducer → List ℕ → List ℕ → Run
write_full p script bytes =
    let s = write_full_sock script bytes in
    if p.sock || is_empty bytes
    then finish_write s.outcome (record p { wire = p.wire ++ s.wire }) s.script
    else finish_write failed p script

abbrev pub refused : SocketProducer → List ℕ → Exception → Run
refused p script e = record { producer = p; script = script; result = some (throw e) }

-- `a; b` where `a` may throw.
abbrev pub continue : Option (Result (Unit {0})) → Run → Run → Run
continue (some (ok u)) first second = second
continue _ first second = first

unfoldable pub send_fixed_bytes : SocketProducer → List ℕ → List ℕ → Run
send_fixed_bytes p script payload =
    if not (is_fixed p.opts.type)
    then refused p script (logic_error Message.fixed_channel_required)
    else if ltb p.opts.item_size (length payload)
    then refused p script (invalid_argument Message.length_exceeds_item_size)
    else write_full p script (payload ++ replicate (p.opts.item_size - length payload) 0)

unfoldable pub send_fixed_sized : SocketProducer → List ℕ → List ℕ → Run
send_fixed_sized p script payload =
    if not (is_fixed p.opts.type)
    then refused p script (logic_error Message.fixed_channel_required)
    else if ltb p.opts.item_size (length payload)
    then refused p script (invalid_argument Message.length_exceeds_item_size)
    else write_full p script (payload ++ replicate (p.opts.item_size - length payload) 0)

unfoldable pub send_varlen : SocketProducer → List ℕ → List ℕ → Run
send_varlen p script payload =
    if is_fixed p.opts.type
    then refused p script (logic_error Message.varlen_channel_required)
    else if ltb k_max_varlen (length payload)
    then refused p script (invalid_argument Message.length_too_large)
    else let first = write_full p script (store_le32 (length payload)) in
      continue first.result first
        (if is_empty payload then first else write_full first.producer first.script payload)

-- `INT_MAX`
abbrev pub int_max : ℕ
int_max = 2147483647

abbrev pub max_retries : ℤ → ℕ
max_retries r = if ltb 0 (to_nat r) then to_nat r else int_max

-- The producer, the number of sleeps between attempts, and the outcome.
pub record Connecting : Type 0 where
  pub producer : SocketProducer
  pub sleeps : ℕ
  pub result : Result (Unit {0})

-- The loop of connect_with_retries from `attempt` on, with `left` rounds before max_retries:
-- `attempts i` is the outcome of the i-th tcp_connect.
unfoldable pub connect_loop : (ℕ → Result (Unit {0})) → ℕ → ℕ → SocketProducer → ℕ → Connecting
connect_loop attempts zero attempt p sleeps = record {
  producer = p;
  sleeps = sleeps;
  result = ok tt;
}
connect_loop attempts (suc left) attempt p sleeps = elim (attempts attempt) [
  | ok u ↦ record {
    producer = record p { sock = true; wire = [] };
    sleeps = sleeps;
    result = ok tt;
  }
  | throw e ↦ elim left [
    | zero ↦ record { producer = p; sleeps = sleeps; result = throw e }
    | suc l ↦ connect_loop attempts left (suc attempt) p (suc sleeps)
  ]
]

unfoldable pub connect_with_retries : (ℕ → Result (Unit {0})) → SocketProducer → Connecting
connect_with_retries attempts p =
    connect_loop attempts (max_retries p.opts.socket_connect_retries) 0 p 0

unfoldable pub reconnect : (ℕ → Result (Unit {0})) → SocketProducer → Connecting
unfolding close_sock
reconnect attempts p = connect_with_retries attempts (close_sock p)

abbrev pub returned : Result (Unit {0}) → Bool
returned (ok u) = true
returned (throw e) = false

-- The producer afterwards, and what `try_reconnect` returns.
unfoldable pub try_reconnect : (ℕ → Result (Unit {0})) → SocketProducer → SocketProducer × Bool
unfolding close_sock
try_reconnect attempts p =
    let c = connect_with_retries attempts (close_sock p) in
    if returned c.result then (c.producer, true) else (close_sock c.producer, false)
