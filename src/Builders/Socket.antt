-- ===== src/Builders/Socket.antt =====
-- include/xproc/ipc/socket_builders.hpp: the builders of the options of a TCP channel, and
-- include/xproc/ipc/transport_factory.hpp: the choice of the transport that the options name.
use xproc.Prelude.{ℕ, true, false, List, [], ℤ}
use xproc.Errors.{Result, ok, ◌>>=◌, ◌>>◌}
use xproc.Options.{
  Abi, TransportOptions, TransportBackend, default_options, ChannelType, fixed, varlen,
  shared_memory, socket, validate_producer_transport_options, validate_consumer_transport_options,
}

pub record SocketListenerBuilder : Type 0 where
  pub type : ChannelType
  pub item_size : ℕ
  pub port : ℕ

abbrev pub listen_varlen_socket : SocketListenerBuilder
listen_varlen_socket = record { type = varlen; item_size = 0; port = 0 }

abbrev pub listen_fixed_socket : ℕ → SocketListenerBuilder
listen_fixed_socket item_size = record { type = fixed; item_size = item_size; port = 0 }

abbrev pub listener_fields : SocketListenerBuilder → TransportOptions
listener_fields b = record default_options {
  backend = socket;
  type = b.type;
  item_size = b.item_size;
  socket_listen = true;
  socket_host = [];
  socket_port = b.port;
}

-- `socket_listener_builder::options`
unfoldable pub listener_options : Abi → SocketListenerBuilder → Result TransportOptions
listener_options abi b = do
  validate_consumer_transport_options abi (listener_fields b)
  ok (listener_fields b)

pub record SocketConnectorBuilder : Type 0 where
  pub type : ChannelType
  pub item_size : ℕ
  pub host : List ℕ
  pub port : ℕ
  pub connect_retries : ℤ
  pub connect_retry_ms : ℤ

abbrev pub connector : ChannelType → ℕ → List ℕ → ℕ → SocketConnectorBuilder
connector type item_size host port = record {
  type = type;
  item_size = item_size;
  host = host;
  port = port;
  connect_retries = default_options.socket_connect_retries;
  connect_retry_ms = default_options.socket_connect_retry_ms;
}

abbrev pub connect_varlen_socket : List ℕ → ℕ → SocketConnectorBuilder
connect_varlen_socket host port = connector varlen 0 host port

abbrev pub connect_fixed_socket : List ℕ → ℕ → ℕ → SocketConnectorBuilder
connect_fixed_socket host port item_size = connector fixed item_size host port

abbrev pub connector_fields : SocketConnectorBuilder → TransportOptions
connector_fields b = record default_options {
  backend = socket;
  type = b.type;
  item_size = b.item_size;
  socket_listen = false;
  socket_host = b.host;
  socket_port = b.port;
  socket_connect_retries = b.connect_retries;
  socket_connect_retry_ms = b.connect_retry_ms;
}

-- `socket_connector_builder::options`
unfoldable pub connector_options : Abi → SocketConnectorBuilder → Result TransportOptions
connector_options abi b = do
  validate_producer_transport_options abi (connector_fields b)
  ok (connector_fields b)

-- A transport that the factory made: the one of the shared-memory backend or that of the socket one.
pub data Transport {ℓ} (S K : Type ℓ) : Type ℓ where
  over_shm : S → Transport S K
  over_socket : K → Transport S K

-- The arguments are the constructors of the two channels. The `throw` behind the switch is for
-- values that `enum class transport_backend` does not name.
module _ {S K : Type 0} (shm_channel : TransportOptions → Result S)
    (socket_channel : TransportOptions → Result K) where
  abbrev pub make_transport : TransportBackend → TransportOptions → Result (Transport S K)
  make_transport shared_memory opts = shm_channel opts >>= λ s. ok (over_shm s)
  make_transport socket opts = socket_channel opts >>= λ k. ok (over_socket k)

  unfoldable pub create_producer_transport : Abi → TransportOptions → Result (Transport S K)
  create_producer_transport abi opts = do
    validate_producer_transport_options abi opts
    make_transport opts.backend opts

  unfoldable pub create_consumer_transport : Abi → TransportOptions → Result (Transport S K)
  create_consumer_transport abi opts = do
    validate_consumer_transport_options abi opts
    make_transport opts.backend opts
