-- ===== src/DataChannel/Sending.antt =====
-- datachannel/datachannel.go, and message/messageparser.go: messages that go out, their
-- acknowledgement, and their repetition.
pub mod Bounds
pub mod Resend
pub mod Race
pub mod Order
pub mod Outcome
pub mod Replay
use ecstoolkit.Base.{
  ℕ, zero, suc, ◌/◌, ℤ, pos, ◌+ℤ◌, sub_ℕ, ltb_ℤ, eqb_ℤ, wrap, half64, Bool, true, false, ◌&&◌, List,
  [], ◌∷◌, Option, some, none, Result, ok, err, panic, timed_out, ◌==◌, leb, if◌then◌else◌,
  eq_bytes,
}
use ecstoolkit.Buffer.{Bytes, be_bytes}
use ecstoolkit.Message.PayloadType
use ecstoolkit.Message.Types.{
  ClientMessage, AcknowledgeContent, acknowledge_message, input_stream_message,
}
use ecstoolkit.Message.Codec.{serialize_bytes}
use ecstoolkit.DataChannel.ListBuffer.{front, force_push_back, remove_if}
use ecstoolkit.DataChannel.State.{
  State, DataChannel, Env, StreamingMessage, max_transmission_timeout, clock_granularity,
  resend_max_attempt,
}
use ecstoolkit.DataChannel.State.Monad.{
  M, pure, fail, lift, outside, ask, catch, ◌>>=◌, ◌>>◌, read, modify, continue,
}

-- `websocket.BinaryMessage`
abbrev pub binary_message : ℕ
binary_message = 2

-- `time.Time.UnixMilli`
abbrev pub unix_milli : ℕ → ℕ
unix_milli t = t / 1000000

-- `c.streamDataSequenceNumber.Add(1)`: an int64 wraps.
abbrev pub next_int64 : ℤ → ℤ
next_int64 z = wrap half64 (z +ℤ pos 1)

module _ {W F : Type 0} (env : Env W F) where
  unfoldable pub send_message : Bytes → ℕ → M W F (Unit {0})
  send_message input input_type = outside (env.ws_send input input_type)

  -- `SerializeClientMessageWithAcknowledgeContent`
  unfoldable pub serialize_acknowledge : AcknowledgeContent → M W F Bytes
  serialize_acknowledge content = do
    content_bytes ← lift (env.marshal_acknowledge content)
    message_id ← ask env.new_uuid
    now ← ask env.now
    lift (
        serialize_bytes env.lib (record {
          header_length = 0;
          message_type = acknowledge_message;
          schema_version = 1;
          created_date = unix_milli now;
          sequence_number = pos 0;
          flags = 3;
          message_id = message_id;
          payload_digest = [];
          payload_type = 0;
          payload_length = 0;
          payload = content_bytes;
        }))

  unfoldable pub send_acknowledge_message : ClientMessage → M W F (Unit {0})
  unfolding send_message serialize_acknowledge
  send_acknowledge_message m = do
    msg ← serialize_acknowledge (record {
      message_type = m.message_type;
      message_id = env.uuid_string m.message_id;
      sequence_number = m.sequence_number;
      is_sequential_message = true;
    })
    send_message msg binary_message

  -- A call of a method of the encrypter; a nil interface has none.
  unfoldable pub encrypt_by : Option ℕ → Bytes → M W F Bytes
  encrypt_by none b = lift panic
  encrypt_by (some k) b = outside (env.encrypt k b)

  unfoldable pub encrypt_data : Bytes → M W F Bytes
  unfolding encrypt_by
  encrypt_data b = do c ← read; encrypt_by c.encryption b

  -- `c.outgoingMessageBuffer.ForcePushBack`
  unfoldable pub push_outgoing : StreamingMessage → M W F (Unit {0})
  push_outgoing m = do
    c ← read
    b ← lift (force_push_back c.outgoing_message_buffer m)
    modify (λ c. record c { outgoing_message_buffer = b })

  abbrev pub input_message : ℤ → ℕ → Bytes → ℕ → Bytes → ClientMessage
  input_message sequence_number payload_type id now input = record {
    header_length = 0;
    message_type = input_stream_message;
    schema_version = 1;
    created_date = unix_milli now;
    sequence_number = sequence_number;
    flags = 0;
    message_id = id;
    payload_digest = [];
    payload_type = payload_type;
    payload_length = 0;
    payload = input;
  }

  -- A single line feed goes out as a carriage return.
  abbrev pub as_enter : Bytes → Bytes
  as_enter input = if eq_bytes input (10 ∷ []) then 13 ∷ [] else input

  unfoldable pub send_input_data_message : ℕ → Bytes → M W F (Unit {0})
  unfolding send_message encrypt_data push_outgoing
  send_input_data_message payload_type input_data = do
    message_id ← ask env.new_uuid
    before ← read
    input ←
        if before.encryption_enabled && payload_type == PayloadType.output
        then encrypt_data (as_enter input_data)
        else pure (as_enter input_data)
    c ← read
    created ← ask env.now
    let sequence_number = c.stream_data_sequence_number
    msg ← lift (
        serialize_bytes env.lib
          (input_message sequence_number payload_type message_id created input))
    send_message msg binary_message
    sent ← ask env.now
    modify
        (λ c. record c { stream_data_sequence_number = next_int64 c.stream_data_sequence_number })
    push_outgoing (record {
      content = msg;
      sequence_number = sequence_number;
      last_sent_time = sent;
      resend_attempt = 0;
    })

  -- `binary.Write` of a uint32 into a buffer succeeds.
  unfoldable pub send_flag : ℕ → M W F (Unit {0})
  unfolding send_input_data_message
  send_flag flag_type = send_input_data_message PayloadType.flag (be_bytes 4 flag_type)

  -- `calculateRetransmissionTimeout`, with `time.Since(m.LastSentTime)` in it.
  unfoldable pub calculate_retransmission_timeout : StreamingMessage → M W F (Unit {0})
  calculate_retransmission_timeout m = do
    now ← ask env.now
    modify (λ c.
        let new_round_trip_time = of_ℤ (sub_ℕ now m.last_sent_time) in
        let variation =
          add (mul (ratio 3 4) c.round_trip_time_variation)
            (mul (ratio 1 4) (abs (sub c.round_trip_time new_round_trip_time))) in
        let time = add (mul (ratio 7 8) c.round_trip_time) (mul (ratio 1 8) new_round_trip_time) in
        let timeout =
          truncate (add time (max (of_ℤ (pos clock_granularity)) (mul (ratio 4 1) variation))) in
        record c {
          round_trip_time_variation = variation;
          round_trip_time = time;
          retransmission_timeout =
              if ltb_ℤ (pos max_transmission_timeout) timeout
              then pos max_transmission_timeout
              else timeout;
        })
    where
      open env.floats use {of_ℤ, ratio, add, sub, mul, abs, max, truncate}

  unfoldable pub timeout_of : Option StreamingMessage → M W F (Unit {0})
  timeout_of none = pure tt
  timeout_of (some m) = calculate_retransmission_timeout m

  unfoldable pub process_acknowledged_message : AcknowledgeContent → M W F (Unit {0})
  unfolding timeout_of
  process_acknowledged_message content = do
    c ← read
    let removed =
        remove_if c.outgoing_message_buffer (λ m. eqb_ℤ m.sequence_number content.sequence_number)
    modify (λ c. record c { outgoing_message_buffer = removed.1 })
    timeout_of removed.0

  -- One round of `resendStreamDataMessageScheduler` for the message in front. `streamMessage` is a copy
  -- of the element: what the source assigns to its fields goes nowhere.
  resend_due : StreamingMessage → M W F (Unit {0})
  unfolding send_message
  resend_due m =
      if leb resend_max_attempt m.resend_attempt
      then fail timed_out
      else (do _ ← catch (send_message m.content binary_message); _ ← ask env.now; pure tt)

  resend_front : Option StreamingMessage → M W F (Unit {0})
  unfolding resend_due
  resend_front none = pure tt
  resend_front (some m) = do
    now ← ask env.now
    c ← read
    if ltb_ℤ c.retransmission_timeout (sub_ℕ now m.last_sent_time) then resend_due m else pure tt

  unfoldable pub resend_round : M W F (Unit {0})
  unfolding resend_front
  resend_round = do c ← read; resend_front (front c.outgoing_message_buffer)

  -- The loop, for some number of rounds.
  unfoldable pub resend_rounds : ℕ → M W F (Unit {0})
  resend_rounds zero = pure tt
  resend_rounds (suc n) = do resend_round; resend_rounds n
