-- ===== src/Executor.antt =====
-- executor/executor.go: the target of a session, what the API is asked for, how the session is put together, and
-- its run. The AWS clients are a parameter, and so are the calls of the session, by its parts.
use ecstoolkit.Base.{
  Bool, true, false, List, [], ◌∷◌, ◌++◌, Option, some, none, Result, ok, err, Error, net_closed,
  if◌then◌else◌, eq_bytes, invalid_arn, invalid_session_type, relabel,
}
use ecstoolkit.Buffer.{Bytes}
use ecstoolkit.Message.Types.{codes}
use ecstoolkit.Method.{Method, pure, fail, lift, catch, ◌>>=◌, ◌>>◌}
use ecstoolkit.DataChannel.State.{
  Env, DataChannel, new_data_channel, shell_plugin_name, port_plugin_name,
}
use ecstoolkit.Communicator.{WebSocketChannel, new_web_socket_channel}
use ecstoolkit.Cluster.{deref}
use ecstoolkit.Cluster.Images.{split, slash}

-- `PortForwardSessionOptions`; `port_number` and `local_port_number` are the decimal texts of the numbers.
pub record PortForwardSessionOptions : Type 0 where
  pub cluster_name : Bytes
  pub task_arn : Bytes
  pub container_runtime_id : Bytes
  pub host : Bytes
  pub port_number : Bytes
  pub local_port_number : Bytes

-- `ShellSessionOptions`
pub record ShellSessionOptions : Type 0 where
  pub cluster_name : Bytes
  pub task_arn : Bytes
  pub container_name : Bytes
  pub container_runtime_id : Bytes
  pub command : Bytes

-- What `StartSession` is asked for.
pub record StartSessionInput : Type 0 where
  pub target : Bytes
  pub document_name : Bytes
  pub parameters : List (Bytes × Bytes)

-- What the API answers: the id of the session, the URL of its stream, and its token.
pub record Started : Type 0 where
  pub session_id : Option Bytes
  pub stream_url : Option Bytes
  pub token_value : Option Bytes

-- The session that `newSession` makes, with the parts that it is made of. The encrypters that its channel builds
-- are those of its environment.
pub record SessionParts (F : Type 0) : Type 0 where
  pub client_id : Bytes
  pub web_socket : WebSocketChannel
  pub data_channel : DataChannel F
  pub session_id : Bytes

-- `new_random` is that of the UUID package.
pub record Clients (W F : Type 0) : Type 0 where
  pub resource : Bytes → Result Bytes
  pub start_session : StartSessionInput → W → Result Started × W
  pub execute_command : Bytes → Bytes → Bytes → Bytes → W → Result Started × W
  pub new_random : W → Result Bytes × W
  pub open_data_channel : SessionParts F → W → Result Bytes × W
  pub new_shell_session : SessionParts F → W → Result (Unit {0}) × W
  pub new_port_session : SessionParts F → W → Result (Unit {0}) × W
  pub set_session_handlers : SessionParts F → W → Result (Unit {0}) × W

task_id : List Bytes → Result Bytes
task_id (kind ∷ cluster ∷ id ∷ rest) = ok id
task_id _ = err invalid_arn

-- `errors.Is(err, net.ErrClosed)`
is_net_closed : Error → Bool
is_net_closed net_closed = true
is_net_closed _ = false

ended_with : Option Error → Result (Unit {0})
unfolding is_net_closed
ended_with none = ok tt
ended_with (some e) = if is_net_closed e then ok tt else err e

module _ {W F : Type 0} (env : Env W F) (clients : Clients W F) where
  unfoldable pub build_target_id : Bytes → Bytes → Bytes → Method W Bytes
  unfolding task_id
  build_target_id cluster_name task_arn container_runtime_id = do
    resource ← lift (relabel invalid_arn (clients.resource task_arn))
    id ← lift (task_id (split slash resource))
    pure (codes "ecs:" ++ cluster_name ++ codes "_" ++ id ++ codes "_" ++ container_runtime_id)

  -- The document and the parameters of a port forwarding, which has a host or not.
  unfoldable pub port_forwarding_input : Bytes → PortForwardSessionOptions → StartSessionInput
  port_forwarding_input target options =
      let params =
        (codes "portNumber", options.port_number)
        ∷ (codes "localPortNumber", options.local_port_number)
        ∷ [] in
      if eq_bytes options.host []
      then (record {
        target = target;
        document_name = codes "AWS-StartPortForwardingSession";
        parameters = params;
      })
      else (record {
        target = target;
        document_name = codes "AWS-StartPortForwardingSessionToRemoteHost";
        parameters = params ++ ((codes "host", options.host) ∷ []);
      })

  -- Of the constructors only that of the client's id can fail.
  unfoldable pub new_session : Bytes → Bytes → Bytes → Bytes → Method W (SessionParts F)
  new_session target_id session_id stream_url token_value = do
    client_id ← clients.new_random
    pure (record {
      client_id = env.uuid_string client_id;
      web_socket = new_web_socket_channel stream_url token_value;
      data_channel = new_data_channel env session_id target_id;
      session_id = session_id;
    })

  -- The session of the plugin for the type.
  new_plugin : SessionParts F → Bytes → Method W (Unit {0})
  new_plugin sess session_type =
      if eq_bytes session_type shell_plugin_name
      then clients.new_shell_session sess
      else if eq_bytes session_type port_plugin_name
      then clients.new_port_session sess
      else fail invalid_session_type

  unfoldable pub init_session : SessionParts F → Method W (Unit {0})
  unfolding new_plugin ended_with
  init_session sess = do
    session_type ← clients.open_data_channel sess
    new_plugin sess session_type
    e ← catch (clients.set_session_handlers sess)
    lift (ended_with e)

  -- The session of an answer: reading a field that is not there panics.
  unfoldable pub run_session : Bytes → Started → Method W (Unit {0})
  run_session target started = do
    id ← lift (deref started.session_id)
    url ← lift (deref started.stream_url)
    token ← lift (deref started.token_value)
    sess ← new_session target id url token
    init_session sess

  unfoldable pub port_forward_session : PortForwardSessionOptions → Method W (Unit {0})
  port_forward_session options = do
    target ← build_target_id options.cluster_name options.task_arn options.container_runtime_id
    started ← clients.start_session (port_forwarding_input target options)
    run_session target started

  unfoldable pub shell_session : ShellSessionOptions → Method W (Unit {0})
  shell_session options = do
    target ← build_target_id options.cluster_name options.task_arn options.container_runtime_id
    started ←
        clients.execute_command options.cluster_name options.task_arn options.container_name
          options.command
    run_session target started
