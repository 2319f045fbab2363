-- ===== src/Message/Types.antt =====
-- message/types.go and the struct of message/clientmessage.go: message types, payload types, and the
-- place of each field in the wire format. `ℕ` stands for the unsigned types, `ℤ` for the signed ones.
use Prim.Native.String.{String}
use Prim.Native.Char.{code}
use ecstoolkit.Base.{ℕ, ◌+◌, ◌≡◌, ℤ, [], ◌∷◌, Bool, Result, ok, length, eq_bytes, All}
use ecstoolkit.Buffer.{Bytes, IsByte}

-- The bytes of an ASCII text.
abbrev pub codes : String → Bytes
codes String.[] = []
codes (String.◌∷◌ c s) = code c ∷ codes s

abbrev pub input_stream_message : Bytes
input_stream_message = codes "input_stream_data"

abbrev pub output_stream_message : Bytes
output_stream_message = codes "output_stream_data"

abbrev pub acknowledge_message : Bytes
acknowledge_message = codes "acknowledge"

abbrev pub channel_closed_message : Bytes
channel_closed_message = codes "channel_closed"

abbrev pub start_publication_message : Bytes
start_publication_message = codes "start_publication"

abbrev pub pause_publication_message : Bytes
pause_publication_message = codes "pause_publication"

-- `AcknowledgeContent`
pub record AcknowledgeContent : Type 0 where
  pub message_type : Bytes
  pub message_id : Bytes
  pub sequence_number : ℤ
  pub is_sequential_message : Bool

-- `ChannelClosed`
pub record ChannelClosed : Type 0 where
  pub message_id : Bytes
  pub created_date : Bytes
  pub destination_id : Bytes
  pub session_id : Bytes
  pub message_type : Bytes
  pub schema_version : ℤ
  pub output : Bytes

-- `PayloadTypeFlag`
abbrev pub disconnect_to_port : ℕ
disconnect_to_port = 1

abbrev pub terminate_session : ℕ
terminate_session = 2

abbrev pub connect_to_port_error : ℕ
connect_to_port_error = 3

-- The lengths of the fields.
abbrev pub hl_length : ℕ
hl_length = 4

abbrev pub message_type_length : ℕ
message_type_length = 32

abbrev pub schema_version_length : ℕ
schema_version_length = 4

abbrev pub created_date_length : ℕ
created_date_length = 8

abbrev pub sequence_number_length : ℕ
sequence_number_length = 8

abbrev pub flags_length : ℕ
flags_length = 8

abbrev pub message_id_length : ℕ
message_id_length = 16

abbrev pub payload_digest_length : ℕ
payload_digest_length = 32

abbrev pub payload_type_length : ℕ
payload_type_length = 4

abbrev pub payload_length_length : ℕ
payload_length_length = 4

-- The offsets of the fields.
abbrev pub hl_offset : ℕ
hl_offset = 0

abbrev pub message_type_offset : ℕ
message_type_offset = hl_offset + hl_length

abbrev pub schema_version_offset : ℕ
schema_version_offset = message_type_offset + message_type_length

abbrev pub created_date_offset : ℕ
created_date_offset = schema_version_offset + schema_version_length

abbrev pub sequence_number_offset : ℕ
sequence_number_offset = created_date_offset + created_date_length

abbrev pub flags_offset : ℕ
flags_offset = sequence_number_offset + sequence_number_length

abbrev pub message_id_offset : ℕ
message_id_offset = flags_offset + flags_length

abbrev pub payload_digest_offset : ℕ
payload_digest_offset = message_id_offset + message_id_length

abbrev pub payload_type_offset : ℕ
payload_type_offset = payload_digest_offset + payload_digest_length

abbrev pub payload_length_offset : ℕ
payload_length_offset = payload_type_offset + payload_type_length

abbrev pub payload_offset : ℕ
payload_offset = payload_length_offset + payload_length_length

-- `ClientMessage`
pub record ClientMessage : Type 0 where
  pub header_length : ℕ
  pub message_type : Bytes
  pub schema_version : ℕ
  pub created_date : ℕ
  pub sequence_number : ℤ
  pub flags : ℕ
  pub message_id : Bytes
  pub payload_digest : Bytes
  pub payload_type : ℕ
  pub payload_length : ℕ
  pub payload : Bytes

-- What the source uses of github.com/google/uuid, whose UUID is an array of 16 bytes, and of
-- crypto/sha256.
pub record Libraries : Type 0 where
  pub uuid_from_bytes : Bytes → Result Bytes
  pub uuid_marshal_binary : Bytes → Result Bytes
  pub sha256 : Bytes → Bytes

-- An array of 16 bytes.
pub record IsUuid (u : Bytes) : Type 0 where
  pub size : length u ≡ 16
  pub bytes : All IsByte u

-- The documented behaviour of the two packages: the bytes of a UUID make that UUID, they are what
-- MarshalBinary returns, and a digest has 32 bytes.
pub record Documented (lib : Libraries) : Type 0 where
  pub from_bytes : (u : Bytes) → IsUuid u → lib.uuid_from_bytes u ≡ ok u
  pub marshal_binary : (u : Bytes) → IsUuid u → lib.uuid_marshal_binary u ≡ ok u
  pub digest_size : (b : Bytes) → length (lib.sha256 b) ≡ 32

-- `uuid.Nil`
abbrev pub uuid_nil : Bytes
uuid_nil = 0 ∷ 0 ∷ 0 ∷ 0 ∷ 0 ∷ 0 ∷ 0 ∷ 0 ∷ 0 ∷ 0 ∷ 0 ∷ 0 ∷ 0 ∷ 0 ∷ 0 ∷ 0 ∷ []

abbrev pub is_uuid_nil : Bytes → Bool
is_uuid_nil u = eq_bytes u uuid_nil
