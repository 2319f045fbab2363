-- ===== src/Session/Port/Early.antt =====
-- Messages that come while `InitializeStreams` of a basic port session waits for its client.
use ecstoolkit.Base.{
  ℕ, ◌≡◌, [], if◌then◌else◌, refl, true, false, some, ok, blocked, Bool-cases, inl, inr, arith,
  eq_bytes,
}
use ecstoolkit.Buffer.{Bytes}
use ecstoolkit.Message.Types.{ClientMessage, Libraries, codes}
use ecstoolkit.Session.{Support}
use ecstoolkit.Session.Port.{PortSession, process_stream_message_payload, incoming_message_handler}
use ecstoolkit.Session.Port.Net.{Network}
use ecstoolkit.Session.Port.Basic.{
  BasicPortForwarding, is_stream_not_set, initialize_streams, start_local_conn,
  start_local_listener, stop, port_session,
}

module _ {P : Type 0} (port : PortSession P) where
  incoming-blocks :
      (lib : Libraries) (input : Bytes) (s : P)
      → port.is_stream_not_set s ≡ (blocked, s)
      → incoming_message_handler port lib input s ≡ (blocked, s)
  unfolding incoming_message_handler
  incoming-blocks lib input s e = rw e refl

  output-blocks :
      (message : ClientMessage) (s : P)
      → port.is_stream_not_set s ≡ (blocked, s)
      → process_stream_message_payload port message s ≡ (blocked, s)
  unfolding process_stream_message_payload
  output-blocks message s e = rw e refl

module _ {S : Type 0} (net : Network S) (session : Support S) where
  -- Listening succeeds, and no client connects.
  pub record IsWaiting : Type 0 where
    pub listens : (kind address : Bytes) (o : S) → (l : ℕ) × ((net.listen kind address o).0 ≡ ok l)
    pub has_port : (l : ℕ) → (port : Bytes) × (net.tcp_port l ≡ some port)
    pub no_client : (l : ℕ) (o : S) → (net.accept l o).0 ≡ blocked

  -- The listener is made, on either kind of local connection.
  listened :
      (w : IsWaiting) (port_number : Bytes) (s : BasicPortForwarding S)
      → (l : ℕ) × ((start_local_listener net session port_number s).0 ≡ ok l)
  unfolding start_local_listener
  listened w port_number s =
      let kind = s.port_parameters.local_connection_type in
      elim (Bool-cases (eq_bytes kind (codes "unix"))) [
        | inl e ↦
            let d = w.listens kind s.port_parameters.local_unix_socket s.outer in
            (d.0, rw (e, d.1) refl)
        | inr e ↦
            let d =
              w.listens (codes "tcp") (net.join_host_port (codes "localhost") port_number)
                s.outer in
            (d.0, rw (e, d.1, (w.has_port d.0).1) refl)
      ]

  accepting :
      (w : IsWaiting) (s : BasicPortForwarding S) → (start_local_conn net session s).0 ≡ blocked
  unfolding start_local_conn
  accepting w s =
      let d =
        listened w
          (if eq_bytes s.port_parameters.local_port_number []
            then codes "0"
            else s.port_parameters.local_port_number)
          s in
      rw (d.1, w.no_client d.0) refl

  -- Making the connection leaves the mutex to the method that holds it.
  conn-mutex :
      (s : BasicPortForwarding S) → (start_local_conn net session s).1.mutex_held ≡ s.mutex_held
  unfolding start_local_conn start_local_listener
  conn-mutex s = ground arith

  unset-blocked :
      (s : BasicPortForwarding S)
      → s.mutex_held ≡ true
      → is_stream_not_set net session s ≡ (blocked, s)
  unfolding is_stream_not_set
  unset-blocked s e = rw e refl

  stop-blocked :
      (s : BasicPortForwarding S) → s.mutex_held ≡ true → stop net session s ≡ (blocked, s)
  unfolding stop
  stop-blocked s e = rw e refl

  -- The state in which `InitializeStreams` waits.
  waiting_lem :
      (w : IsWaiting) (agent_version : Bytes) (s : BasicPortForwarding S)
      → s.mutex_held ≡ false
      → let started = initialize_streams net session agent_version s in
        (started.0 ≡ blocked) × (started.1.mutex_held ≡ true)
  unfolding initialize_streams
  waiting_lem w agent_version s free =
      let s' = record s { mutex_held = true } in rw (free, accepting w s') (refl, conn-mutex s')

  -- While `InitializeStreams`, which was called with the mutex free, waits for the client in Accept after its
  -- listener has been made, and no client connects: the handlers of incoming messages and of output messages
  -- wait as well, whatever the message is, and so does `Stop`.
  pub waiting-blocks :
      (lib : Libraries) (input : Bytes) (message : ClientMessage) (agent_version : Bytes)
      (s : BasicPortForwarding S)
      → IsWaiting
      → s.mutex_held ≡ false
      → let port = port_session net session in
        let (r, s') = port.initialize_streams agent_version s in
        (r ≡ blocked)
        × (incoming_message_handler port lib input s' ≡ (blocked, s'))
        × (process_stream_message_payload port message s' ≡ (blocked, s'))
        × (port.stop s' ≡ (blocked, s'))
  unfolding port_session
  waiting-blocks lib input message agent_version s w free =
      let (b, h) = waiting_lem w agent_version s free in
      let s' = (initialize_streams net session agent_version s).1 in
      let port = port_session net session in
      let e = unset-blocked s' h in
      (b, incoming-blocks port lib input s' e, output-blocks port message s' e, stop-blocked s' h)
