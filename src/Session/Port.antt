-- ===== src/Session/Port.antt =====
-- session/portsession/portsession.go: the plugin of a port session, over the kinds of port session below.
pub mod Net
pub mod Closing
pub mod Basic
pub mod Mux
pub mod Stdio
pub mod Locking
pub mod Stopping
pub mod Early
use ecstoolkit.Base.{
  ℤ, Bool, true, false, Result, ok, err, panic, blocked, Error, Option, some, none, if◌then◌else◌,
  eq_bytes,
}
use ecstoolkit.Buffer.{Bytes}
use ecstoolkit.Json.{Marshaler, Unmarshaler, remarshal}
use ecstoolkit.Session.Port.Net.{PortParameters}
use ecstoolkit.Message.Types.{ClientMessage, Libraries, codes}
use ecstoolkit.Message.Codec.{deserialize_client_message}
use ecstoolkit.Version.{does_agent_support_tcp_multiplexing}
use ecstoolkit.Method.{Method, pure, lift, catch, continue, ◌>>=◌, ◌>>◌}

-- `IPortSession`, over the state `P` of the kind and of what is around it.
pub record PortSession (P : Type 0) : Type 0 where
  pub is_stream_not_set : Method P Bool
  pub initialize_streams : Bytes → Method P (Unit {0})
  pub write_stream : ClientMessage → Method P (Unit {0})
  pub stop : Method P (Unit {0})

-- Which kind `NewPortSession` makes.
pub data Kind : Type 0 where
  mux basic standard : Kind

abbrev pub local_port_forwarding_type : Bytes
local_port_forwarding_type = codes "LocalPortForwarding"

-- An agent version that does not compare has no multiplexing.
abbrev pub kind_of : Result Bool → Result Kind
kind_of (ok true) = ok mux
kind_of (ok false) = ok basic
kind_of (err e) = ok basic
kind_of panic = panic
kind_of blocked = blocked

-- The choice in `NewPortSession`, by the type of the parameters and the version of the agent.
unfoldable pub choose_kind : (Bytes → Result ℤ) → Bytes → Bytes → Result Kind
choose_kind atoi parameters_type agent_version =
    if eq_bytes parameters_type local_port_forwarding_type
    then kind_of (does_agent_support_tcp_multiplexing atoi agent_version)
    else ok standard

-- The parameters and the kind that `NewPortSession` makes of the properties of the session. Where they cannot be
-- read as parameters there is no session.
unfoldable pub new_port_session :
    {S A : Type 0}
    → Marshaler A
    → Unmarshaler PortParameters
    → (Bytes → Result ℤ)
    → A
    → Bytes
    → Method S (PortParameters × Kind)
new_port_session m u atoi properties agent_version = do
  parameters ← lift (remarshal m u properties)
  kind ← lift (choose_kind atoi parameters.parameters_type agent_version)
  pure (parameters, kind)

module _ {P : Type 0} (port : PortSession P) where
  unfoldable pub stop_session : Method P (Unit {0})
  stop_session = port.stop

  -- Whether the handler took the message. An error comes with true, and is the handler's error.
  unfoldable pub process_stream_message_payload : ClientMessage → Method P Bool
  process_stream_message_payload output_message = do
    not_set ← port.is_stream_not_set
    if not_set then pure false else (do port.write_stream output_message; pure true)

  -- The handler of incoming messages: while there is no stream it reads the message, for the log.
  unfoldable pub incoming_message_handler : Libraries → Bytes → Method P (Unit {0})
  incoming_message_handler lib input = do
    not_set ← port.is_stream_not_set
    if not_set
        then (do _ ← catch (lift (deserialize_client_message lib input)); pure tt)
        else pure tt

  -- The second goroutine of `SetSessionHandlers`; `read_stream` is the loop of the kind.
  unfoldable pub run_streams : Bytes → Method P (Unit {0}) → Method P (Unit {0})
  run_streams agent_version read_stream = do port.initialize_streams agent_version; read_stream
