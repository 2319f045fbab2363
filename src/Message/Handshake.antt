-- ===== src/Message/Handshake.antt =====
-- message/handshakemessage.go. A JSON value of no fixed type (`any`, `json.RawMessage`) is its text.
use ecstoolkit.Base.{ℕ, ℤ, List, Option, Error}
use ecstoolkit.Buffer.{Bytes}
use ecstoolkit.Message.Types.{codes}

-- `ActionType`
abbrev pub kms_encryption : Bytes
kms_encryption = codes "KMSEncryption"

abbrev pub session_type_action : Bytes
session_type_action = codes "SessionType"

-- `ActionStatus`; 0 is the value of a field that was never set.
abbrev pub success : ℕ
success = 1

abbrev pub failed : ℕ
failed = 2

abbrev pub unsupported : ℕ
unsupported = 3

-- `KMSEncryptionRequest`
pub record KmsEncryptionRequest : Type 0 where
  pub kms_key_id : Bytes

-- `KMSEncryptionResponse`; the source never sets the hash.
pub record KmsEncryptionResponse : Type 0 where
  pub kms_cipher_text_key : Bytes
  pub kms_cipher_text_hash : Bytes

-- `SessionTypeRequest`
pub record SessionTypeRequest : Type 0 where
  pub session_type : Bytes
  pub properties : Bytes

-- `RequestedClientAction`
pub record RequestedClientAction : Type 0 where
  pub action_type : Bytes
  pub action_parameters : Bytes

-- `HandshakeRequestPayload`
pub record HandshakeRequestPayload : Type 0 where
  pub agent_version : Bytes
  pub requested_client_actions : List RequestedClientAction

-- What the source stores in `ActionResult any`.
pub data ActionResult : Type 0 where
  nothing : ActionResult
  kms_response : KmsEncryptionResponse → ActionResult
  status : ℕ → ActionResult

-- `ProcessedClientAction`; `error` is the error whose text the field holds.
pub record ProcessedClientAction : Type 0 where
  pub action_type : Bytes
  pub action_status : ℕ
  pub action_result : ActionResult
  pub error : Option Error

-- `HandshakeResponsePayload`
pub record HandshakeResponsePayload : Type 0 where
  pub client_version : Bytes
  pub processed_client_actions : List ProcessedClientAction
  pub errors : List Error

-- `EncryptionChallengeRequest` and `EncryptionChallengeResponse`
pub record EncryptionChallenge : Type 0 where
  pub challenge : Bytes

-- `HandshakeCompletePayload`
pub record HandshakeCompletePayload : Type 0 where
  pub handshake_time_to_complete : ℤ
  pub customer_message : Bytes
