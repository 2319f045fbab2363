-- ===== src/DataChannel/Sending/Bounds.antt =====
-- The outgoing buffer and the retransmission timeout.
use ecstoolkit.Base.{
  ℕ, ◌<◌, ◌≤◌, ◌≡◌, refl, pos, ltb_ℤ, eqb_ℤ, false, Option, some, none, arith, length, Bool-cases,
  ◌&&◌, ◌==◌, inl, inr,
}
use ecstoolkit.Buffer.{Bytes}
use ecstoolkit.Message.PayloadType
use ecstoolkit.Message.Types.{AcknowledgeContent}
use ecstoolkit.DataChannel.ListBuffer.{remove_if}
use ecstoolkit.DataChannel.ListBuffer.Laws.{
  Search, remove_if_lem, force_push_back_lem, force_push_back_bounded,
}
use ecstoolkit.DataChannel.State.{
  State, DataChannel, Env, StreamingMessage, max_transmission_timeout,
}
use ecstoolkit.DataChannel.Sending.{
  calculate_retransmission_timeout, process_acknowledged_message, timeout_of, push_outgoing,
  send_input_data_message, encrypt_data, encrypt_by, send_message,
}

-- The outgoing buffer has room for one at least, and holds no more than it has room for.
pub record IsBounded {F : Type 0} (c : DataChannel F) : Type 0 where
  pub some_room : 0 < c.outgoing_message_buffer.capacity
  pub within : length c.outgoing_message_buffer.messages ≤ c.outgoing_message_buffer.capacity

module _ {W F : Type 0} (env : Env W F) where
  timeout-outgoing :
      (o : Option StreamingMessage) (s : State W F)
      → (timeout_of env o s).1.channel.outgoing_message_buffer ≡ s.channel.outgoing_message_buffer
  unfolding timeout_of calculate_retransmission_timeout
  timeout-outgoing none s = refl
  timeout-outgoing (some m) s = refl

  -- An acknowledgement takes out of the outgoing buffer the oldest message with its sequence number, and
  -- nothing else; if there is none the buffer stays as it is.
  pub acknowledged-removed :
      (content : AcknowledgeContent) (s : State W F)
      → let is_acknowledged =
          λ (m : StreamingMessage). eqb_ℤ m.sequence_number content.sequence_number in
        Search is_acknowledged s.channel.outgoing_message_buffer.messages (
          (remove_if s.channel.outgoing_message_buffer is_acknowledged).0,
          (process_acknowledged_message env content s).1.channel.outgoing_message_buffer.messages,
        )
  unfolding process_acknowledged_message
  acknowledged-removed content s =
      let removed =
        remove_if s.channel.outgoing_message_buffer
          (λ m. eqb_ℤ m.sequence_number content.sequence_number) in
      rw
        (timeout-outgoing removed.0
          (record s { channel = record s.channel { outgoing_message_buffer = removed.1 } }))
        (remove_if_lem s.channel.outgoing_message_buffer
          (λ m. eqb_ℤ m.sequence_number content.sequence_number)).0

  -- However the round trips went, the retransmission timeout never exceeds its maximum after an
  -- acknowledgement has been accounted for.
  pub timeout-bounded :
      (m : StreamingMessage) (s : State W F)
      → ltb_ℤ
          (pos max_transmission_timeout)
          (calculate_retransmission_timeout env m s).1.channel.retransmission_timeout
        ≡ false
  unfolding calculate_retransmission_timeout
  timeout-bounded m s = ground arith

  push-IsBounded :
      (m : StreamingMessage) (s : State W F)
      → IsBounded s.channel
      → IsBounded (push_outgoing env m s).1.channel
  unfolding push_outgoing
  push-IsBounded m s h =
      rw (force_push_back_lem s.channel.outgoing_message_buffer m h.some_room h.within) (record {
        some_room = h.some_room;
        within = force_push_back_bounded s.channel.outgoing_message_buffer m h.some_room h.within;
      })

  -- Sending keeps the outgoing buffer within its capacity, whatever fails on the way.
  pub send_input-IsBounded :
      (payload_type : ℕ) (input : Bytes) (s : State W F)
      → IsBounded s.channel
      → IsBounded (send_input_data_message env payload_type input s).1.channel
  unfolding send_input_data_message encrypt_data encrypt_by send_message
  send_input-IsBounded payload_type input s h =
      elim (Bool-cases (s.channel.encryption_enabled && payload_type == PayloadType.output)) [
        | inl e ↦ rw e (grind (arith, push-IsBounded))
        | inr e ↦ rw e (grind (arith, push-IsBounded))
      ]
