-- ===== src/Session/Port/Mux.antt =====
-- session/portsession/muxportforwarding.go: many connections over one. Package smux, the hash and the file
-- system are parameters.
pub mod Serving
use ecstoolkit.Base.{
  ℕ, ℤ, Bool, true, false, not, ◌||◌, ◌++◌, Option, some, none, Result, ok, err, panic, Error, eof,
  unexpected_eof, closed_pipe, is_eof, context_done, connection_failed, if◌then◌else◌, ◌==◌, length,
  take, ltb,
}
use ecstoolkit.Buffer.{Bytes, be_value}
use ecstoolkit.Message.PayloadType
use ecstoolkit.Message.Types.{ClientMessage, codes, connect_to_port_error, terminate_session}
use ecstoolkit.Version.{does_agent_support_disable_smux_keep_alive}
use ecstoolkit.Method.{Method, pure, fail, lift, catch, ◌>>=◌, ◌>>◌, get_state, modify}
use ecstoolkit.Session.{Support}
use ecstoolkit.Session.Port.{PortSession}
use ecstoolkit.Session.Port.Net.{PortParameters, Network}
use ecstoolkit.Session.Port.Closing.{both, forgive}

pub record MuxClient : Type 0 where
  pub conn : Option ℕ
  pub session : ℕ

pub record MgsConn : Type 0 where
  pub listener : ℕ
  pub conn : ℕ

-- `MuxPortForwarding` with the state around it.
pub record MuxPortForwarding (S : Type 0) : Type 0 where
  pub session_id : Bytes
  pub socket_file : Bytes
  pub port_parameters : PortParameters
  pub mux_client : Option MuxClient
  pub mgs_conn : Option MgsConn
  pub outer : S

-- Package smux, the hash FNV-1a in decimal, the file system, and `Done` of the context. `client` takes
-- whether the keepalive is off, and a connection; a session and a stream are known by a number.
pub record Multiplexer (S : Type 0) : Type 0 where
  pub hash_digits : Bytes → Bytes
  pub temp_dir : Bytes
  pub join : Bytes → Bytes → Bytes
  pub remove : Bytes → S → Result (Unit {0}) × S
  pub is_not_exist : Error → Bool
  pub client : Bool → ℕ → S → Result ℕ × S
  pub close_session : ℕ → S → Result (Unit {0}) × S
  pub open_stream : ℕ → S → Result ℕ × S
  pub copy_to_stream : ℕ → ℕ → S → Result (Unit {0}) × S
  pub copy_from_stream : ℕ → ℕ → S → Result (Unit {0}) × S
  pub close_stream : ℕ → S → Result (Unit {0}) × S
  pub done : S → Bool

-- A call of what is outside.
abbrev pub outside : {S A : Type 0} → Method S A → Method (MuxPortForwarding S) A
outside m s = let (r, o) = m s.outer in (r, record s { outer = o })

module _ {S : Type 0} (net : Network S) (mux : Multiplexer S) (session : Support S) where
  unfoldable pub close_conn : Option ℕ → Method S (Unit {0})
  close_conn none = lift panic
  close_conn (some k) = net.close_connection k

  unfoldable pub close_mgs_conn : MgsConn → Method S (Unit {0})
  close_mgs_conn c = both (net.close_listener c.listener) (net.close_connection c.conn)

  unfoldable pub close_mux_client : MuxClient → Method S (Unit {0})
  unfolding close_conn
  close_mux_client c = both (mux.close_session c.session) (close_conn c.conn)

  unfoldable pub set : Option ℕ → Bool
  set none = false
  set (some k) = true

  unfoldable pub unset : Option MuxClient → Result Bool
  unfolding set
  unset none = panic
  unset (some c) = ok (not (set c.conn))

  unfoldable pub is_stream_not_set : Method (MuxPortForwarding S) Bool
  unfolding unset set
  is_stream_not_set = do s ← get_state; lift (unset s.mux_client)

  unfoldable pub clean_up : Method (MuxPortForwarding S) (Unit {0})
  clean_up = do s ← get_state; outside (forgive mux.is_not_exist (mux.remove s.socket_file))

  close_mgs : Option MgsConn → Method (MuxPortForwarding S) (Unit {0})
  close_mgs none = pure tt
  close_mgs (some c) = outside (close_mgs_conn c)

  close_client : Option MuxClient → Method (MuxPortForwarding S) (Unit {0})
  close_client none = pure tt
  close_client (some c) = outside (close_mux_client c)

  unfoldable pub stop : Method (MuxPortForwarding S) (Unit {0})
  unfolding close_mgs close_client
  stop = do s ← get_state; both (close_mgs s.mgs_conn) (both (close_client s.mux_client) clean_up)

  get_unix_socket_path : Bytes → Bytes → Bytes → Bytes
  get_unix_socket_path session_id dir suffix =
      mux.join dir (mux.hash_digits session_id ++ codes "_" ++ suffix)

  -- The goroutine that accepts the connection of the plugin to its own listener.
  accept_own : ℕ → Method (MuxPortForwarding S) (Unit {0})
  accept_own l = do
    k ← outside (net.accept l)
    modify (λ s. record s { mgs_conn = some (record { listener = l; conn = k }) })

  -- Whether the keepalive is off; it is on for a version that does not compare.
  off : Result Bool → Bool
  off (ok b) = b
  off _ = false

  -- The goroutine that makes that connection, and the client on it.
  dial_own : (Bytes → Result ℤ) → Bytes → ℕ → Method (MuxPortForwarding S) (Unit {0})
  unfolding off
  dial_own atoi agent_version l = do
    mux_conn ← outside (net.dial_listener l)
    k ←
        outside (
          mux.client (off (does_agent_support_disable_smux_keep_alive atoi agent_version)) mux_conn)
    modify (λ s. record s { mux_client = some (record { conn = some mux_conn; session = k }) })

  -- The group of the two, in either order: both run to their ends, and the first error is the result.
  unfoldable pub initialize :
      Bool → (Bytes → Result ℤ) → Bytes → Method (MuxPortForwarding S) (Unit {0})
  unfolding accept_own dial_own
  initialize dial_first atoi agent_version = do
    s ← get_state
    l ← outside (net.listen (codes "unix") s.socket_file)
    if dial_first
        then both (dial_own atoi agent_version l) (accept_own l)
        else both (accept_own l) (dial_own atoi agent_version l)

  -- After an error of `initialize`; an error of the cleaning up is only logged.
  abandon : Option Error → Method (MuxPortForwarding S) (Unit {0})
  abandon none = pure tt
  abandon (some e) = do _ ← catch clean_up; fail e

  unfoldable pub initialize_streams :
      Bool → (Bytes → Result ℤ) → Bytes → Method (MuxPortForwarding S) (Unit {0})
  unfolding abandon get_unix_socket_path
  initialize_streams dial_first atoi agent_version = do
    modify (λ s. record s {
      socket_file =
          get_unix_socket_path s.session_id mux.temp_dir (codes "session_manager_plugin_mux.sock");
    })
    e ← catch (initialize dial_first atoi agent_version)
    abandon e

  -- `binary.Read` of the flag.
  read_flag : Bytes → Result ℕ
  read_flag payload =
      if length payload == 0
      then err eof
      else if ltb (length payload) 4
      then err unexpected_eof
      else ok (be_value (take 4 payload))

  write_output : Option MgsConn → Bytes → Method (MuxPortForwarding S) (Unit {0})
  write_output none payload = lift panic
  write_output (some c) payload = outside (net.write c.conn payload)

  unfoldable pub write_stream : ClientMessage → Method (MuxPortForwarding S) (Unit {0})
  unfolding write_output read_flag
  write_stream m = do
    s ← get_state
    if m.payload_type == PayloadType.output
        then write_output s.mgs_conn m.payload
        else if m.payload_type == PayloadType.flag
        then (do
          number ← lift (read_flag m.payload)
          if number == connect_to_port_error then fail connection_failed else pure tt)
        else pure tt

  read_own : Option MgsConn → Method (MuxPortForwarding S) Bytes
  read_own none = lift panic
  read_own (some c) = outside (net.read c.conn)

  -- A round of `transferDataToServer`.
  unfoldable pub transfer_round : Method (MuxPortForwarding S) (Unit {0})
  unfolding read_own
  transfer_round = do
    s ← get_state
    if mux.done s.outer then fail context_done else (do
      msg ← read_own s.mgs_conn
      outside (session.send_input_data_message PayloadType.output msg))

  -- What `HandleControlSignals` does with a signal.
  unfoldable pub handle_signal : Method (MuxPortForwarding S) (Unit {0})
  handle_signal = do outside (session.send_flag terminate_session); stop

  unfoldable pub port_session : Bool → (Bytes → Result ℤ) → PortSession (MuxPortForwarding S)
  port_session dial_first atoi = record {
    is_stream_not_set = is_stream_not_set;
    initialize_streams = initialize_streams dial_first atoi;
    write_stream = write_stream;
    stop = stop;
  }
