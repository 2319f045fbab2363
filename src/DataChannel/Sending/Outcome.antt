-- ===== src/DataChannel/Sending/Outcome.antt =====
-- What a sending comes to.
use ecstoolkit.Base.{
  ℕ, ℤ, ◌≡◌, ◌≢◌, ◌&&◌, ◌==◌, Result, ok, err, panic, blocked, if◌then◌else◌, arith,
}
use ecstoolkit.Buffer.{Bytes}
use ecstoolkit.Message.PayloadType
use ecstoolkit.Message.Codec.{serialize_bytes}
use ecstoolkit.DataChannel.State.{State, DataChannel, Env}
use ecstoolkit.DataChannel.State.Monad.{M, continue, read, pure, ask, modify, ◌>>=◌, ◌>>◌}
use ecstoolkit.DataChannel.Sending.{
  as_enter, binary_message, input_message, push_outgoing, send_input_data_message, encrypt_data,
  encrypt_by, send_message, next_int64,
}

module _ {W F : Type 0} (env : Env W F) where
  -- The last steps of a sending: the number goes up, and the message is kept.
  abbrev pub push_sent : Bytes → ℕ → DataChannel F → W → Result (Unit {0}) × State W F
  push_sent content t c w =
      push_outgoing env
        (record {
          content = content;
          sequence_number = c.stream_data_sequence_number;
          last_sent_time = t;
          resend_attempt = 0;
        })
        (record {
          channel = record c {
            stream_data_sequence_number = next_int64 c.stream_data_sequence_number;
          };
          world = w;
        })

  -- A call that comes to a value goes on, and any other ends there.
  continue_cases :
      {A : Type 0} (P : Result (Unit {0}) × State W F → Type 0) (r : Result A)
      (f : A → M W F (Unit {0})) (s : State W F)
      → ((q : Result (Unit {0})) → q ≢ ok tt → P (q, s))
      → ((a : A) → P (f a s))
      → P (continue r f s)
  continue_cases P (ok a) f s h k = k a
  continue_cases P (err e) f s h k = h (err e) (λ q. cc)
  continue_cases P panic f s h k = h panic (λ q. cc)
  continue_cases P blocked f s h k = h blocked (λ q. cc)

  -- The input that goes out, and what the making of it leaves.
  abbrev input_of : ℕ → Bytes → M W F Bytes
  input_of payload_type input = do
    c ← read
    if c.encryption_enabled && payload_type == PayloadType.output
        then encrypt_data env (as_enter env input)
        else pure (as_enter env input)

  input_of-world :
      (payload_type : ℕ) (input : Bytes) (s : State W F)
      → (input_of payload_type input s).1
        ≡ record s { world = (input_of payload_type input s).1.world }
  unfolding encrypt_data encrypt_by
  input_of-world payload_type input s = ground arith

  -- The steps after the sending, and those after the serialization.
  abbrev kept_as : ℤ → Bytes → M W F (Unit {0})
  kept_as number msg = do
    sent ← ask env.now
    modify
        (λ c. record c { stream_data_sequence_number = next_int64 c.stream_data_sequence_number })
    push_outgoing env (record {
      content = msg;
      sequence_number = number;
      last_sent_time = sent;
      resend_attempt = 0;
    })

  abbrev sent_as : ℤ → Bytes → M W F (Unit {0})
  sent_as number msg = send_message env msg binary_message >> kept_as number msg

  pub send_outcome :
      (P : Result (Unit {0}) × State W F → Type 0) (payload_type : ℕ) (input : Bytes)
      (s : State W F)
      → ((r : Result (Unit {0})) (w : W) → r ≢ ok tt → P (r, record s { world = w }))
      → ((content : Bytes) (t : ℕ) (w : W) → P (push_sent content t s.channel w))
      → P (send_input_data_message env payload_type input s)
  unfolding send_input_data_message send_message
  send_outcome P payload_type input s h k =
      let s1 : State W F = record s { world = (env.new_uuid s.world).1 } in
      let m = input_of payload_type input s1 in
      let w1 = m.1.world in
      let s2 : State W F = record s { world = (env.now w1).1 } in
      let number = s.channel.stream_data_sequence_number in
      continue_cases P m.0 _ m.1 (λ q ne. rw (input_of-world payload_type input s1) (h q w1 ne))
        (λ a. rw (input_of-world payload_type input s1) (
          continue_cases P
            (serialize_bytes env.lib
              (input_message env number payload_type (env.new_uuid s.world).0 (env.now w1).0 a))
            (sent_as number) s2 (λ q ne. h q s2.world ne)
            (λ msg.
              let sending = env.ws_send msg binary_message s2.world in
              continue_cases P sending.0 (λ _. kept_as number msg) (record s { world = sending.1 })
                (λ q ne. h q sending.1 ne)
                (λ x. k msg (env.now sending.1).0 (env.now sending.1).1))))
