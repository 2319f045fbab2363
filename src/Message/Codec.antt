-- ===== src/Message/Codec.antt =====
-- message/clientmessage.go: serialization, deserialization and validation of a client message.
pub mod Layout
pub mod RoundTrip
pub mod Errors
pub mod Safety
pub mod Validation
use ecstoolkit.Base.{
  ℕ, ◌+◌, ◌-◌, ◌%◌, ◌^◌, ℤ, pos, ◌+ℤ◌, ◌-ℤ◌, Bool, true, false, not, ◌||◌, ◌==◌, Result, ok, err,
  panic, blocked, invalid, ◌>>=◌, ◌>>◌, fail_if, length, eq_bytes, [], if◌then◌else◌,
}
use ecstoolkit.Buffer.{Bytes, slice, zeros}
use ecstoolkit.Util.{safe_uint32}
use ecstoolkit.Message.Types
use ecstoolkit.Message.Types.{
  ClientMessage, Libraries, message_type_offset, message_type_length, schema_version_offset,
  created_date_offset, sequence_number_offset, flags_offset, message_id_offset,
  payload_digest_offset, payload_digest_length, payload_type_offset, payload_length_offset,
  payload_length_length, payload_offset, hl_offset, start_publication_message,
  pause_publication_message,
}
use ecstoolkit.Message.Readers.{
  get_string, get_u_integer, get_u_long, get_long, get_uuid, get_bytes,
}
use ecstoolkit.Message.Writers.{
  put_string, put_u_integer, put_u_long, put_long, put_uuid, put_bytes,
}

module _ (lib : Libraries) where
  -- Every field of the receiver is assigned. `m.HeaderLength+4` is a sum of uint32.
  unfoldable pub deserialize_client_message : Bytes → Result ClientMessage
  deserialize_client_message input = do
    message_type ← get_string input (pos message_type_offset) (pos message_type_length)
    schema_version ← get_u_integer input (pos schema_version_offset)
    created_date ← get_u_long input (pos created_date_offset)
    sequence_number ← get_long input (pos sequence_number_offset)
    flags ← get_u_long input (pos flags_offset)
    message_id ← get_uuid lib input (pos message_id_offset)
    payload_digest ← get_bytes input (pos payload_digest_offset) (pos payload_digest_length)
    payload_type ← get_u_integer input (pos payload_type_offset)
    payload_length ← get_u_integer input (pos payload_length_offset)
    header_length ← get_u_integer input (pos hl_offset)
    payload ←
        slice input (pos ((header_length + payload_length_length) % 2 ^ 32)) (pos (length input))
    ok (record {
      header_length = header_length;
      message_type = message_type;
      schema_version = schema_version;
      created_date = created_date;
      sequence_number = sequence_number;
      flags = flags;
      message_id = message_id;
      payload_digest = payload_digest;
      payload_type = payload_type;
      payload_length = payload_length;
      payload = payload;
    })

  -- The checks of a message that is no publication message.
  unfoldable pub validate_fields : ClientMessage → Result (Unit {0})
  validate_fields m = do
    fail_if (m.header_length == 0) invalid
    fail_if (eq_bytes m.message_type []) invalid
    fail_if (m.created_date == 0) invalid
    if m.payload_length == 0
        then ok tt
        else fail_if (not (eq_bytes (lib.sha256 m.payload) m.payload_digest)) invalid

  unfoldable pub validate : ClientMessage → Result (Unit {0})
  validate m =
      if eq_bytes start_publication_message m.message_type
        || eq_bytes pause_publication_message m.message_type
      then ok tt
      else validate_fields m

  -- The header fields of `SerializeClientMessage`, up to the message id.
  pub put_header : ClientMessage → ℕ → Bytes → Result Bytes
  put_header m header_length result = do
    b1 ← put_u_integer result (pos hl_offset) header_length
    b2 ←
        put_string b1 (pos message_type_offset)
          (pos (message_type_offset + message_type_length - 1)) m.message_type
    b3 ← put_u_integer b2 (pos schema_version_offset) m.schema_version
    b4 ← put_u_long b3 (pos created_date_offset) m.created_date
    b5 ← put_long b4 (pos sequence_number_offset) m.sequence_number
    b6 ← put_u_long b5 (pos flags_offset) m.flags
    put_uuid lib b6 (pos message_id_offset) m.message_id

  -- The rest: digest, payload type, payload length and payload.
  pub put_payload : ClientMessage → ℕ → Bytes → Result Bytes
  put_payload m payload_length b7 = do
    b8 ←
        put_bytes b7 (pos payload_digest_offset)
          (pos (payload_digest_offset + payload_digest_length - 1)) (lib.sha256 m.payload)
    b9 ← put_u_integer b8 (pos payload_type_offset) m.payload_type
    b10 ← put_u_integer b9 (pos payload_length_offset) payload_length
    put_bytes b10 (pos payload_offset) (pos payload_offset +ℤ pos payload_length -ℤ pos 1) m.payload

  -- The bytes. The sum of uint32 values is the size of the slice.
  unfoldable pub serialize_bytes : ClientMessage → Result Bytes
  unfolding put_header put_payload
  serialize_bytes m = do
    payload_length ← safe_uint32 (pos (length m.payload))
    let header_length : ℕ = payload_length_offset
    let total = (header_length + payload_length_length + payload_length) % 2 ^ 32
    b7 ← put_header m header_length (zeros total)
    put_payload m payload_length b7

  -- The receiver afterwards: its payload length is set once that has been computed.
  unfoldable pub serialize_receiver : ClientMessage → ClientMessage
  serialize_receiver m = elim (safe_uint32 (pos (length m.payload))) [
    | ok n ↦ record m { payload_length = n }
    | _ ↦ m
  ]
