-- ===== src/Session/Port/Mux/Serving.antt =====
-- session/portsession/muxportforwarding.go: the connections of the clients, each over a stream of its own.
use ecstoolkit.Base.{
  ℕ, Option, some, none, [], ◌||◌, panic, is_eof, not_tcp_listener, if◌then◌else◌, eq_bytes,
}
use ecstoolkit.Buffer.{Bytes}
use ecstoolkit.Message.Types.{codes}
use ecstoolkit.Method.{Method, fail, lift, catch, ◌>>=◌, ◌>>◌, pure, get_state, modify}
use ecstoolkit.Session.{Support}
use ecstoolkit.Session.Port.Net.{Network}
use ecstoolkit.Session.Port.Closing.{both, forgive, is_closed_pipe, joined}
use ecstoolkit.Session.Port.Mux.{MuxPortForwarding, MuxClient, Multiplexer, outside}

module _ {S : Type 0} (net : Network S) (mux : Multiplexer S) (session : Support S) where
  unfoldable pub setup_unix_listener : Method (MuxPortForwarding S) ℕ
  setup_unix_listener = do
    s ← get_state
    outside (net.listen s.port_parameters.local_connection_type s.port_parameters.local_unix_socket)

  -- The port of the listener, which may not be known.
  known_port : ℕ → Option Bytes → Method (MuxPortForwarding S) ℕ
  known_port l none = fail not_tcp_listener
  known_port l (some port) = do
    modify
        (λ s. record s { port_parameters = record s.port_parameters { local_port_number = port } })
    pure l

  unfoldable pub setup_tcp_listener : Method (MuxPortForwarding S) ℕ
  unfolding known_port
  setup_tcp_listener = do
    s ← get_state
    (let port = s.port_parameters.local_port_number in
        do
          l ← outside (
              net.listen (codes "tcp") (
                net.join_host_port (codes "localhost")
                  (if eq_bytes port [] then codes "0" else port)))
          known_port l (net.tcp_port l))

  -- The listener of `handleClientConnections`.
  unfoldable pub setup_listener : Method (MuxPortForwarding S) ℕ
  setup_listener = do
    s ← get_state
    if eq_bytes s.port_parameters.local_connection_type (codes "unix")
        then setup_unix_listener
        else setup_tcp_listener

  -- A round of `serve`: the connection, for a goroutine that runs `accept_connection`.
  unfoldable pub serve_round : ℕ → Method (MuxPortForwarding S) ℕ
  serve_round listener = outside (net.accept listener)

  open_own : Option MuxClient → Method (MuxPortForwarding S) ℕ
  open_own none = lift panic
  open_own (some c) = outside (mux.open_stream c.session)

  -- The two goroutines of `handleDataTransfer`: copy until the end of one side, then close the other.
  unfoldable pub transfer : Method S (Unit {0}) → Method S (Unit {0}) → Method S (Unit {0})
  transfer copy close = do forgive (λ e. is_eof e || is_closed_pipe e) copy; forgive is_eof close

  unfoldable pub accept_connection : ℕ → Method (MuxPortForwarding S) (Unit {0})
  unfolding open_own
  accept_connection conn = do
    s ← get_state
    stream ← open_own s.mux_client
    outside (
        both (transfer (mux.copy_to_stream conn stream) (mux.close_stream stream))
          (transfer (mux.copy_from_stream conn stream) (net.close_connection conn)))

  -- The end of `handleClientConnections` and of `ReadStream`, after their goroutines: the end of the stream is
  -- no error.
  unfoldable pub wait :
      Method (MuxPortForwarding S) (Unit {0}) → Method (MuxPortForwarding S) (Unit {0})
  wait group = forgive is_eof group

  -- `group` is what the goroutines for a listener do and what they come to. The listener is closed after them
  -- in any case, and an error of that is only logged.
  unfoldable pub handle_client_connections :
      (ℕ → Method (MuxPortForwarding S) (Unit {0})) → Method (MuxPortForwarding S) (Unit {0})
  handle_client_connections group = do
    listener ← setup_listener
    e ← catch (wait (group listener))
    _ ← catch (outside (net.close_listener listener))
    lift (joined e none)
