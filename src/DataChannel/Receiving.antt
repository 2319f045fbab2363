-- ===== src/DataChannel/Receiving.antt =====
-- datachannel/datachannel.go: what becomes of a message that comes in.
pub mod Sequence
pub mod Buffered
pub mod Reference
pub mod Aside
pub mod Working
pub mod Delivery
pub mod TakenUp
pub mod Arrival
pub mod Reliable
pub mod Peer
use ecstoolkit.Base.{
  ℕ, zero, suc, ℤ, pos, ltb_ℤ, eqb_ℤ, Bool, true, false, not, ◌&&◌, ◌||◌, List, [], ◌∷◌, Option,
  some, none, Result, ok, err, blocked, invalid, if◌then◌else◌, ◌==◌, eq_bytes, length,
}
use ecstoolkit.Buffer.{Bytes}
use ecstoolkit.Message.PayloadType
use ecstoolkit.Message.Types.{
  ClientMessage, AcknowledgeContent, ChannelClosed, acknowledge_message, channel_closed_message,
  output_stream_message, start_publication_message, pause_publication_message,
}
use ecstoolkit.Message.Codec.{deserialize_client_message, validate}
use ecstoolkit.DataChannel.MapBuffer.{get, set_unless_full, remove, is_full}
use ecstoolkit.DataChannel.State.{State, DataChannel, Env, StreamingMessage, int64_comparable}
use ecstoolkit.DataChannel.State.Monad.{
  M, pure, lift, outside, ask, ◌>>=◌, ◌>>◌, read, modify, continue,
}
use ecstoolkit.DataChannel.Sending.{
  send_acknowledge_message, process_acknowledged_message, next_int64,
}
use ecstoolkit.DataChannel.Handlers.{process_output_message_with_handlers}
use ecstoolkit.DataChannel.Handshake.{
  handle_handshake_request, handle_handshake_complete, handle_encryption_challenge_request,
  decrypt_data,
}

module _ {W F : Type 0} (env : Env W F) where
  -- `c.expectedSequenceNumber.Add(1)`
  unfoldable pub advance : M W F (Unit {0})
  advance =
      modify (λ c. record c { expected_sequence_number = next_int64 c.expected_sequence_number })

  -- Whether a payload of the type is encrypted once encryption is enabled.
  abbrev pub is_encrypted_type : ℕ → Bool
  is_encrypted_type t =
      t == PayloadType.output || (t == PayloadType.std_err || t == PayloadType.exit_code)

  unfoldable pub decrypt_payload : ClientMessage → M W F ClientMessage
  decrypt_payload m = do
    c ← read
    if c.encryption_enabled && is_encrypted_type m.payload_type
        then (do payload ← decrypt_data env m.payload; pure (record m { payload = payload }))
        else pure m

  unfoldable pub handle_default_output_message : ClientMessage → M W F (Unit {0})
  handle_default_output_message m = do
    m' ← decrypt_payload m
    is_handler_ready ← process_output_message_with_handlers env m'
    if is_handler_ready then send_acknowledge_message env m' else pure tt

  unfoldable pub handle_handshake_request_output_message : ClientMessage → M W F (Unit {0})
  handle_handshake_request_output_message m = do
    send_acknowledge_message env m
    handle_handshake_request env m

  unfoldable pub handle_handshake_complete_output_message : ClientMessage → M W F (Unit {0})
  handle_handshake_complete_output_message m = do
    send_acknowledge_message env m
    handle_handshake_complete env m

  unfoldable pub handle_encryption_challenge_request_output_message :
      ClientMessage → M W F (Unit {0})
  handle_encryption_challenge_request_output_message m = do
    send_acknowledge_message env m
    handle_encryption_challenge_request env m

  -- The switch over the payload type.
  unfoldable pub process_payload : ClientMessage → M W F (Unit {0})
  process_payload m =
      if m.payload_type == PayloadType.handshake_request
      then handle_handshake_request_output_message m
      else if m.payload_type == PayloadType.handshake_complete
      then handle_handshake_complete_output_message m
      else if m.payload_type == PayloadType.enc_challenge_request
      then handle_encryption_challenge_request_output_message m
      else handle_default_output_message m

  unfoldable pub handle_unexpected_sequence_message : ClientMessage → Bytes → M W F (Unit {0})
  handle_unexpected_sequence_message m raw_message = do
    c ← read
    if ltb_ℤ c.expected_sequence_number m.sequence_number && not (is_full c.incoming_message_buffer)
        then (do
          send_acknowledge_message env m
          now ← ask env.now
          modify (λ c. record c {
            incoming_message_buffer =
                (set_unless_full c.incoming_message_buffer m.sequence_number (record {
                  content = raw_message;
                  sequence_number = m.sequence_number;
                  last_sent_time = now;
                  resend_attempt = 0;
                })).1;
          }))
        else pure tt

  unfoldable pub process_buffered_message : StreamingMessage → M W F (Unit {0})
  unfolding advance
  process_buffered_message buffered = do
    m ← lift (deserialize_client_message env.lib buffered.content)
    m' ← decrypt_payload m
    _ ← process_output_message_with_handlers env m'
    advance
    modify (λ c. record c {
      incoming_message_buffer = (remove c.incoming_message_buffer buffered.sequence_number).1;
    })

  -- The message that is next in order, if it is in the buffer.
  unfoldable pub next_buffered : DataChannel F → Option StreamingMessage
  next_buffered c = elim (get c.incoming_message_buffer c.expected_sequence_number) [
    | none ↦ none
    | some b ↦ if eq_bytes b.content [] then none else some b
  ]

  -- The loop of `ProcessIncomingMessageBufferItems` on fuel; `blocked` stands for fuel that ran out.
  -- A message put aside is never empty, so that empty content stands for the nil of the source.
  unfoldable pub process_buffer_loop : ℕ → M W F (Unit {0})
  process_buffer_loop zero = lift blocked
  process_buffer_loop (suc fuel) = do
    c ← read
    elim (next_buffered c) [
      | none ↦ pure tt
      | some b ↦ do process_buffered_message b; process_buffer_loop fuel
    ]

  -- Each round takes a message out of the buffer.
  unfoldable pub process_incoming_message_buffer_items : M W F (Unit {0})
  process_incoming_message_buffer_items = do
    c ← read
    process_buffer_loop (suc (length c.incoming_message_buffer.messages))

  unfoldable pub handle_output_message : ClientMessage → Bytes → M W F (Unit {0})
  unfolding advance
  handle_output_message m raw_message = do
    c ← read
    if eqb_ℤ m.sequence_number c.expected_sequence_number
        then (do process_payload m; advance; process_incoming_message_buffer_items)
        else handle_unexpected_sequence_message m raw_message

  -- `DeserializeDataStreamAcknowledgeContent` and `DeserializeChannelClosedMessage`
  unfoldable pub deserialize_acknowledge : ClientMessage → Result AcknowledgeContent
  deserialize_acknowledge m =
      if eq_bytes m.message_type acknowledge_message
      then env.unmarshal_acknowledge m.payload
      else err invalid

  unfoldable pub deserialize_channel_closed : ClientMessage → Result ChannelClosed
  deserialize_channel_closed m =
      if eq_bytes m.message_type channel_closed_message
      then env.unmarshal_channel_closed m.payload
      else err invalid

  unfoldable pub handle_acknowledge_message : ClientMessage → M W F (Unit {0})
  handle_acknowledge_message m = do
    content ← lift (deserialize_acknowledge m)
    process_acknowledged_message env content

  unfoldable pub handle_channel_closed_message : ClientMessage → M W F (Unit {0})
  handle_channel_closed_message m = do
    _ ← lift (deserialize_channel_closed m)
    outside env.call_stop_handler

  -- The switch over the message type.
  unfoldable pub dispatch : ClientMessage → Bytes → M W F (Unit {0})
  dispatch m raw_message =
      if eq_bytes m.message_type output_stream_message
      then handle_output_message m raw_message
      else if eq_bytes m.message_type acknowledge_message
      then handle_acknowledge_message m
      else if eq_bytes m.message_type channel_closed_message
      then handle_channel_closed_message m
      else pure tt

  unfoldable pub output_message_handler : Bytes → M W F (Unit {0})
  output_message_handler raw_message = do
    m ← lift (deserialize_client_message env.lib raw_message)
    lift (validate env.lib m)
    dispatch m raw_message
