-- ===== src/Tests/Messages.antt =====
-- The codec of client messages at concrete messages.
use ecstoolkit.Base.{
  ◌≡◌, ◌↔◌, refl, [], ok, err, panic, offset_outside, arith, replicate, ◌>>=◌, inl, inr,
}
use ecstoolkit.Buffer.{Bytes}
use ecstoolkit.Message.Types.{ClientMessage}
use ecstoolkit.Message.Codec.{deserialize_client_message, serialize_bytes, validate}
use ecstoolkit.Message.Codec.Layout.{layout, layout_with, serialize-layout, HasFields}
use ecstoolkit.Message.Codec.RoundTrip.{received, deserialize-serialize, deserialize_panics}
use ecstoolkit.Message.Codec.Validation.{validate_iff, IsIntact}
use ecstoolkit.Message.Codec.Errors.{serialize-empty}
use ecstoolkit.Tests.World.{
  sample_libraries, sample_libraries-Documented, sample_message, sample_message-HasFields,
  sample_message-IsSendable,
}

deserialize-serialize_example :
    (serialize_bytes sample_libraries sample_message
      >>= deserialize_client_message sample_libraries)
    ≡ ok (received sample_libraries sample_message)
deserialize-serialize_example =
    deserialize-serialize sample_libraries sample_message sample_libraries-Documented
      sample_message-IsSendable

serialize-layout_example :
    serialize_bytes sample_libraries sample_message ≡ ok (layout sample_libraries sample_message)
serialize-layout_example =
    serialize-layout sample_libraries sample_libraries-Documented sample_message
      sample_message-IsSendable

validate_iff_example :
    (validate sample_libraries sample_message ≡ ok tt) ↔ IsIntact sample_libraries sample_message
validate_iff_example =
    validate_iff sample_libraries sample_message (λ p. elim p [ inl e ↦ cc | inr e ↦ cc ])

deserialize_panics_example :
    deserialize_client_message sample_libraries (layout_with sample_libraries 1000 sample_message)
    ≡ panic
deserialize_panics_example =
    deserialize_panics sample_libraries sample_libraries-Documented sample_message
      sample_message-HasFields 1000 (omega arith) (omega arith)

abbrev zero_bytes : Bytes
zero_bytes = replicate 120 0

abbrev empty_message : ClientMessage
empty_message = record sample_message { payload = []; payload_length = 0 }

empty_message-HasFields : HasFields empty_message
empty_message-HasFields = record {
  type_token = sample_message-HasFields.type_token;
  type_fits = sample_message-HasFields.type_fits;
  schema_fits = sample_message-HasFields.schema_fits;
  date_fits = sample_message-HasFields.date_fits;
  sequence_fits = sample_message-HasFields.sequence_fits;
  flags_fit = sample_message-HasFields.flags_fit;
  id_uuid = sample_message-HasFields.id_uuid;
  id_not_nil = sample_message-HasFields.id_not_nil;
  payload_type_fits = sample_message-HasFields.payload_type_fits;
  payload_fits = omega arith;
}

serialize-empty_example : serialize_bytes sample_libraries empty_message ≡ err offset_outside
serialize-empty_example =
    serialize-empty sample_libraries sample_libraries-Documented empty_message
      empty_message-HasFields refl
