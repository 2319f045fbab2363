-- ===== src/Session/Port/Basic.antt =====
-- session/portsession/basicportforwarding.go: one connection at a time, with the mutex that its
-- methods hold. The steps of the goroutines that want the mutex are in Session.Port.Locking.
use ecstoolkit.Base.{
  ℕ, ℤ, Bool, true, false, [], Option, some, none, Result, ok, err, panic, blocked,
  not_tcp_listener, if◌then◌else◌, eq_bytes,
}
use ecstoolkit.Buffer.{Bytes}
use ecstoolkit.Message.PayloadType
use ecstoolkit.Message.Types.{ClientMessage, codes, disconnect_to_port, terminate_session}
use ecstoolkit.Version.{does_agent_support_terminate_session_flag}
use ecstoolkit.Method.{Method, pure, fail, lift, attempt, ◌>>=◌, ◌>>◌, get_state, modify}
use ecstoolkit.Session.{Support}
use ecstoolkit.Session.Port.{PortSession}
use ecstoolkit.Session.Port.Net.{PortParameters, Network}

-- `BasicPortForwarding` with the state around it.
pub record BasicPortForwarding (S : Type 0) : Type 0 where
  pub stream : Option ℕ
  pub listener : Option ℕ
  pub port_parameters : PortParameters
  pub mutex_held : Bool
  pub outer : S

module _ {S : Type 0} (net : Network S) (session : Support S) where
  -- A call of the session or of package net.
  abbrev pub outside : {A : Type 0} → Method S A → Method (BasicPortForwarding S) A
  outside m s = let (r, o) = m s.outer in (r, record s { outer = o })

  -- The deferred `Unlock`, which is run unless the method never returns.
  unlock : {A : Type 0} → Result A → BasicPortForwarding S → Result A × BasicPortForwarding S
  unlock (ok a) s = (ok a, record s { mutex_held = false })
  unlock (err e) s = (err e, record s { mutex_held = false })
  unlock panic s = (panic, record s { mutex_held = false })
  unlock blocked s = (blocked, s)

  -- `p.mu.Lock()`, the method and `p.mu.Unlock()`.
  unfoldable pub holding :
      {A : Type 0} → Method (BasicPortForwarding S) A → Method (BasicPortForwarding S) A
  unfolding unlock
  holding m s =
      if s.mutex_held
      then (blocked, s)
      else (let (r, s') = m (record s { mutex_held = true }) in unlock r s')

  unfoldable pub set : Option ℕ → Bool
  set none = false
  set (some k) = true

  unfoldable pub is_stream_not_set : Method (BasicPortForwarding S) Bool
  unfolding set holding
  is_stream_not_set = holding (do s ← get_state; if set s.stream then pure false else pure true)

  stop_by : Option ℕ → Method (BasicPortForwarding S) (Unit {0})
  stop_by none = pure tt
  stop_by (some k) = outside (net.close_connection k)

  -- `Stop` and, below, `WriteStream`, by the goroutine that holds the mutex.
  unfoldable pub stop_held : Method (BasicPortForwarding S) (Unit {0})
  unfolding stop_by
  stop_held = do s ← get_state; stop_by s.stream

  unfoldable pub stop : Method (BasicPortForwarding S) (Unit {0})
  unfolding stop_held holding
  stop = holding stop_held

  tcp_listener : ℕ → Option Bytes → Method (BasicPortForwarding S) ℕ
  tcp_listener l none = fail not_tcp_listener
  tcp_listener l (some port) = do
    modify
        (λ s. record s { port_parameters = record s.port_parameters { local_port_number = port } })
    pure l

  unfoldable pub start_local_listener : Bytes → Method (BasicPortForwarding S) ℕ
  unfolding tcp_listener
  start_local_listener port_number = do
    s ← get_state
    if eq_bytes s.port_parameters.local_connection_type (codes "unix")
        then outside
            (net.listen s.port_parameters.local_connection_type s.port_parameters.local_unix_socket)
        else (do
          l ←
              outside
                (net.listen (codes "tcp") (net.join_host_port (codes "localhost") port_number))
          tcp_listener l (net.tcp_port l))

  unfoldable pub start_local_conn : Method (BasicPortForwarding S) (Unit {0})
  start_local_conn = do
    s ← get_state
    l ← start_local_listener (
        if eq_bytes s.port_parameters.local_port_number []
        then codes "0"
        else s.port_parameters.local_port_number)
    tcp_conn ← outside (net.accept l)
    modify (λ s. record s { listener = some l; stream = some tcp_conn })

  unfoldable pub initialize_streams : Bytes → Method (BasicPortForwarding S) (Unit {0})
  unfolding start_local_conn holding
  initialize_streams agent_version = holding start_local_conn

  -- A method of a connection or a listener; nil has none.
  with : {A : Type 0} → Option ℕ → (ℕ → S → Result A × S) → Method (BasicPortForwarding S) A
  with none f = lift panic
  with (some k) f = outside (f k)

  unfoldable pub reconnect : Method (BasicPortForwarding S) (Unit {0})
  unfolding with
  reconnect = do
    s ← get_state
    with s.stream net.close_connection
    conn ← with s.listener net.accept
    modify (λ s. record s { stream = some conn })

  after_read : Result Bytes → Method (BasicPortForwarding S) (Unit {0})
  after_read (ok msg) = outside (session.send_input_data_message PayloadType.output msg)
  after_read (err e) = do outside (session.send_flag disconnect_to_port); reconnect
  after_read panic = lift panic
  after_read blocked = lift blocked

  -- A round of `ReadStream`, which holds the mutex for all its rounds and ends only with an error.
  unfoldable pub read_round : Method (BasicPortForwarding S) (Unit {0})
  unfolding with after_read
  read_round = do s ← get_state; r ← attempt (with s.stream net.read); after_read r

  unfoldable pub write_held : ClientMessage → Method (BasicPortForwarding S) (Unit {0})
  unfolding with
  write_held output_message = do
    s ← get_state
    with s.stream (λ k. net.write k output_message.payload)

  unfoldable pub write_stream : ClientMessage → Method (BasicPortForwarding S) (Unit {0})
  unfolding write_held holding
  write_stream output_message = holding (write_held output_message)

  -- Whether the agent knows the flag; a version that does not compare does not.
  abbrev pub flag_supported : Result Bool → Bool
  flag_supported (ok b) = b
  flag_supported _ = false

  -- What `HandleControlSignals` does with a signal.
  unfoldable pub handle_signal : (Bytes → Result ℤ) → Method (BasicPortForwarding S) (Unit {0})
  handle_signal atoi = do
    s ← get_state
    if flag_supported
          (does_agent_support_terminate_session_flag atoi (session.agent_version s.outer))
        then (do outside (session.send_flag terminate_session); stop)
        else outside session.terminate_session

  unfoldable pub port_session : PortSession (BasicPortForwarding S)
  port_session = record {
    is_stream_not_set = is_stream_not_set;
    initialize_streams = initialize_streams;
    write_stream = write_stream;
    stop = stop;
  }
