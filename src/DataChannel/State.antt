-- ===== src/DataChannel/State.antt =====
-- datachannel/datachannel.go and datachannel/streaming.go: the state of a data channel, what it uses of
-- the outside, and the monad of its methods. `W` is the state of everything outside the package (the
-- connection, the plugin, the clock), `F` is float64.
pub mod Monad
use ecstoolkit.Base.{
  ℕ, ℤ, Bool, true, false, List, [], Option, some, none, Result, ok, err, panic, blocked, Error,
  eqb_ℤ, eqb_ℤ_iff, pos,
}
use ecstoolkit.Buffer.{Bytes}
use ecstoolkit.Message.Types.{ClientMessage, AcknowledgeContent, ChannelClosed, Libraries, codes}
use ecstoolkit.Message.Handshake.{
  KmsEncryptionRequest, SessionTypeRequest, HandshakeRequestPayload, HandshakeResponsePayload,
  HandshakeCompletePayload, EncryptionChallenge,
}
use ecstoolkit.DataChannel.ListBuffer.{ListMessageBuffer, new_list_message_buffer}
use ecstoolkit.DataChannel.MapBuffer.{MapMessageBuffer, Comparable, new_map_message_buffer}

-- `StreamingMessage`; a time is in nanoseconds.
pub record StreamingMessage : Type 0 where
  pub content : Bytes
  pub sequence_number : ℤ
  pub last_sent_time : ℕ
  pub resend_attempt : ℕ

instance abbrev pub int64_comparable : Comparable ℤ
int64_comparable = record { eqb = eqb_ℤ; eqb_iff = eqb_ℤ_iff }

-- The handlers that can be registered: `firstMessageHandler`, and those of other packages.
pub data Handler : Type 0 where
  first_message : Handler
  registered : ℕ → Handler

-- The arithmetic of float64 that the source uses. `ratio n d` is the constant n / d, `truncate` the
-- conversion to a duration.
pub record Floats (F : Type 0) : Type 0 where
  pub of_ℤ : ℤ → F
  pub ratio : ℕ → ℕ → F
  pub add : F → F → F
  pub sub : F → F → F
  pub mul : F → F → F
  pub abs : F → F
  pub max : F → F → F
  pub truncate : F → ℤ

-- The interfaces `IWebSocketChannel`, `IEncrypter` and `EncryptorBuilder`, the handlers of other
-- packages, the clock, the random UUIDs, and encoding/json at the types that the source uses.
-- An encrypter is known by a number.
pub record Env (W F : Type 0) : Type 0 where
  pub lib : Libraries
  pub floats : Floats F
  pub now : W → ℕ × W
  pub new_uuid : W → Bytes × W
  pub ws_send : Bytes → ℕ → W → Result (Unit {0}) × W
  pub call_handler : ℕ → ClientMessage → W → Result Bool × W
  pub call_stop_handler : W → Result (Unit {0}) × W
  pub build_encryptor : Bytes → Bytes → Bytes → W → Result ℕ × W
  pub encrypt : ℕ → Bytes → W → Result Bytes × W
  pub decrypt : ℕ → Bytes → W → Result Bytes × W
  pub get_encrypted_data_key : ℕ → W → Bytes
  pub uuid_string : Bytes → Bytes
  pub marshal_acknowledge : AcknowledgeContent → Result Bytes
  pub unmarshal_acknowledge : Bytes → Result AcknowledgeContent
  pub unmarshal_channel_closed : Bytes → Result ChannelClosed
  pub unmarshal_handshake_request : Bytes → Result HandshakeRequestPayload
  pub unmarshal_handshake_complete : Bytes → Result HandshakeCompletePayload
  pub unmarshal_kms_request : Bytes → Result KmsEncryptionRequest
  pub unmarshal_session_type : Bytes → Result SessionTypeRequest
  pub marshal_handshake_response : HandshakeResponsePayload → Result Bytes
  pub unmarshal_challenge : Bytes → Result EncryptionChallenge
  pub marshal_challenge : EncryptionChallenge → Result Bytes

-- `DataChannel`. The two channels hold what was sent and not yet received; each has room for one.
pub record DataChannel (F : Type 0) : Type 0 where
  pub session_id : Bytes
  pub target_id : Bytes
  pub expected_sequence_number : ℤ
  pub stream_data_sequence_number : ℤ
  pub outgoing_message_buffer : ListMessageBuffer StreamingMessage
  pub incoming_message_buffer : MapMessageBuffer ℤ StreamingMessage
  pub round_trip_time : F
  pub round_trip_time_variation : F
  pub retransmission_timeout : ℤ
  pub encryption : Option ℕ
  pub encryption_enabled : Bool
  pub session_type : Bytes
  pub is_session_type_set : List Bool
  pub session_properties : Bytes
  pub output_stream_handlers : List Handler
  pub is_session_specific_handler_set : Bool
  pub agent_version : Bytes
  pub display_messages : List ClientMessage

pub record State (W F : Type 0) : Type 0 where
  pub channel : DataChannel F
  pub world : W

-- config/config.go
abbrev pub outgoing_message_buffer_capacity : ℕ
outgoing_message_buffer_capacity = 10000

abbrev pub incoming_message_buffer_capacity : ℕ
incoming_message_buffer_capacity = 10000

abbrev pub default_round_trip_time : ℕ
default_round_trip_time = 100000000

abbrev pub default_transmission_timeout : ℕ
default_transmission_timeout = 200000000

abbrev pub max_transmission_timeout : ℕ
max_transmission_timeout = 1000000000

abbrev pub clock_granularity : ℕ
clock_granularity = 10000000

abbrev pub resend_max_attempt : ℕ
resend_max_attempt = 3000

abbrev pub shell_plugin_name : Bytes
shell_plugin_name = codes "Standard_Stream"

abbrev pub port_plugin_name : Bytes
port_plugin_name = codes "Port"

abbrev pub interactive_commands_plugin_name : Bytes
interactive_commands_plugin_name = codes "InteractiveCommands"

abbrev pub non_interactive_commands_plugin_name : Bytes
non_interactive_commands_plugin_name = codes "NonInteractiveCommands"

unfoldable pub new_data_channel : {W F : Type 0} → Env W F → Bytes → Bytes → DataChannel F
unfolding new_list_message_buffer new_map_message_buffer
new_data_channel env session_id target_id = record {
  session_id = session_id;
  target_id = target_id;
  expected_sequence_number = pos 0;
  stream_data_sequence_number = pos 0;
  outgoing_message_buffer = new_list_message_buffer outgoing_message_buffer_capacity;
  incoming_message_buffer = new_map_message_buffer incoming_message_buffer_capacity;
  round_trip_time = env.floats.of_ℤ (pos default_round_trip_time);
  round_trip_time_variation = env.floats.of_ℤ (pos 0);
  retransmission_timeout = pos default_transmission_timeout;
  encryption = none;
  encryption_enabled = false;
  session_type = [];
  is_session_type_set = [];
  session_properties = [];
  output_stream_handlers = [];
  is_session_specific_handler_set = false;
  agent_version = [];
  display_messages = [];
}
