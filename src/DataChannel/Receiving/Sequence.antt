-- ===== src/DataChannel/Receiving/Sequence.antt =====
-- What the sequence number of a message that comes in decides.
use ecstoolkit.Base.{
  ℕ, ◌<◌, ◌≡◌, ◌≢◌, refl, sym, ◌∙◌, ℤ, pos, ◌+ℤ◌, ltb_ℤ, eqb_ℤ, eqb_ℤ_iff, true, false, not, ◌&&◌,
  [], some, ok, arith, ◌==◌, eq_bytes, half64, ◌+◌,
}
use ecstoolkit.Buffer.{Bytes}
use ecstoolkit.Message.PayloadType
use ecstoolkit.Message.Types.{ClientMessage}
use ecstoolkit.DataChannel.MapBuffer.{get, set_unless_full, is_full, lookup}
use ecstoolkit.DataChannel.MapBuffer.Laws.{set-room}
use mathlib.Core.Option
use ecstoolkit.DataChannel.State.{State, Env, int64_comparable}
use ecstoolkit.DataChannel.Sending.{
  send_message, serialize_acknowledge, send_acknowledge_message, next_int64,
}
use ecstoolkit.DataChannel.Handlers.{process_output_message_with_handlers}
use ecstoolkit.DataChannel.Receiving.{
  advance, decrypt_payload, handle_default_output_message, process_payload,
  handle_unexpected_sequence_message, next_buffered, process_buffer_loop,
  process_incoming_message_buffer_items, handle_output_message,
}

pub next_int64-pos : (n : ℕ) → n + 1 < half64 → next_int64 (pos n) ≡ pos (n + 1)
unfolding ◌+ℤ◌
next_int64-pos n h = ground arith

module _ {W F : Type 0} (env : Env W F) where
  -- A message below the expected number, or above it when the buffer is full, has no effect at all: the
  -- method succeeds and leaves the channel and the world as they were.
  pub ignored :
      (m : ClientMessage) (raw : Bytes) (s : State W F)
      → m.sequence_number ≢ s.channel.expected_sequence_number
      → (ltb_ℤ s.channel.expected_sequence_number m.sequence_number
          && not (is_full s.channel.incoming_message_buffer))
        ≡ false
      → handle_output_message env m raw s ≡ (ok tt, s)
  unfolding handle_output_message handle_unexpected_sequence_message
  ignored m raw s ne h =
      let e : eqb_ℤ m.sequence_number s.channel.expected_sequence_number ≡ false =
        ground (arith, eqb_ℤ_iff m.sequence_number s.channel.expected_sequence_number) in
      rw e (rw h refl)

  -- To acknowledge a message leaves the channel as it is.
  pub acknowledge-channel :
      (m : ClientMessage) (s : State W F) → (send_acknowledge_message env m s).1.channel ≡ s.channel
  unfolding send_acknowledge_message serialize_acknowledge send_message
  acknowledge-channel m s = ground arith

  -- The state after a message has been put aside, at the time of the world `w`.
  abbrev pub put_aside : ClientMessage → Bytes → W → State W F → State W F
  put_aside m raw w s = record {
    channel = record s.channel {
      incoming_message_buffer =
          (set_unless_full s.channel.incoming_message_buffer m.sequence_number (record {
            content = raw;
            sequence_number = m.sequence_number;
            last_sent_time = (env.now w).0;
            resend_attempt = 0;
          })).1;
    };
    world = (env.now w).1;
  }

  -- What becomes of such a message, as one equation.
  pub higher :
      (m : ClientMessage) (raw : Bytes) (s : State W F) (w : W)
      → ltb_ℤ s.channel.expected_sequence_number m.sequence_number ≡ true
      → is_full s.channel.incoming_message_buffer ≡ false
      → send_acknowledge_message env m s ≡ (ok tt, record s { world = w })
      → handle_output_message env m raw s ≡ (ok tt, put_aside m raw w s)
  unfolding handle_output_message handle_unexpected_sequence_message
  higher m raw s w h room a =
      let e : eqb_ℤ m.sequence_number s.channel.expected_sequence_number ≡ false = ground arith in
      let g : (ltb_ℤ s.channel.expected_sequence_number m.sequence_number
            && not (is_full s.channel.incoming_message_buffer))
          ≡ true =
        rw h (rw room refl) in
      rw e (rw g (rw a refl))

  -- A message above the expected number, with room in the buffer: once its acknowledgement has gone out, the
  -- method succeeds, the message's bytes are in the buffer under its number, every other number has
  -- in the buffer what it had, and the expected number stays.
  pub higher-buffered :
      (m : ClientMessage) (raw : Bytes) (s : State W F) (w : W)
      → ltb_ℤ s.channel.expected_sequence_number m.sequence_number ≡ true
      → is_full s.channel.incoming_message_buffer ≡ false
      → send_acknowledge_message env m s ≡ (ok tt, record s { world = w })
      → let (r, s') = handle_output_message env m raw s in
        (r ≡ ok tt)
        × (Option.map (λ x. x.content) (get s'.channel.incoming_message_buffer m.sequence_number)
            ≡ some raw)
        × ((j : ℤ)
            → j ≢ m.sequence_number
            → get s'.channel.incoming_message_buffer j ≡ get s.channel.incoming_message_buffer j)
        × (s'.channel.expected_sequence_number ≡ s.channel.expected_sequence_number)
  higher-buffered m raw s w h room a = rw (higher m raw s w h room a) (
    refl,
    (let q : eqb_ℤ m.sequence_number m.sequence_number ≡ true =
          (eqb_ℤ_iff m.sequence_number m.sequence_number).1 refl in
        rw (set-room s.channel.incoming_message_buffer m.sequence_number _ m.sequence_number room)
          (rw q refl)),
    (λ j ne.
        let q : eqb_ℤ m.sequence_number j ≡ false = ground (arith, eqb_ℤ_iff m.sequence_number j) in
        rw (set-room s.channel.incoming_message_buffer m.sequence_number _ j room) (rw q refl)),
    refl,
  )

  unready :
      (m : ClientMessage) (s : State W F)
      → (m.payload_type == PayloadType.handshake_request) ≡ false
      → (m.payload_type == PayloadType.handshake_complete) ≡ false
      → (m.payload_type == PayloadType.enc_challenge_request) ≡ false
      → s.channel.encryption_enabled ≡ false
      → eq_bytes s.channel.session_type [] ≡ false
      → s.channel.is_session_specific_handler_set ≡ false
      → process_payload env m s ≡ (ok tt, s)
  unfolding process_payload handle_default_output_message decrypt_payload
      process_output_message_with_handlers
  unready m s t1 t2 t3 enc ty sp = rw t1 (rw t2 (rw t3 (rw enc (rw ty (rw sp refl)))))

  next_in_order :
      (m : ClientMessage) (raw : Bytes) (s s' : State W F)
      → m.sequence_number ≡ s.channel.expected_sequence_number
      → process_payload env m s ≡ (ok tt, s')
      → s'.channel.incoming_message_buffer.messages ≡ []
      → handle_output_message env m raw s ≡ (
        ok tt,
        record s' {
          channel = record s'.channel {
            expected_sequence_number = next_int64 s'.channel.expected_sequence_number;
          };
        },
      )
  unfolding handle_output_message advance process_incoming_message_buffer_items process_buffer_loop
      next_buffered get lookup
  next_in_order m raw s s' e p b =
      let q : eqb_ℤ m.sequence_number s.channel.expected_sequence_number ≡ true =
        (eqb_ℤ_iff m.sequence_number s.channel.expected_sequence_number).1 e in
      rw q (rw p (rw b refl))

  -- A message with the expected number n, n + 1 < 2^63, of none of the three handshake and challenge types,
  -- comes in while encryption is off, the session type is set, its handler is not, and nothing is put
  -- aside. Then it is lost: the method succeeds without an acknowledgement or any other effect outside,
  -- n + 1 is expected next, and the same message sent again has no effect at all.
  pub unready-lost :
      (m : ClientMessage) (raw : Bytes) (s : State W F)
      → m.sequence_number ≡ s.channel.expected_sequence_number
      → (n : ℕ) → m.sequence_number ≡ pos n
      → n + 1 < half64
      → (m.payload_type == PayloadType.handshake_request) ≡ false
      → (m.payload_type == PayloadType.handshake_complete) ≡ false
      → (m.payload_type == PayloadType.enc_challenge_request) ≡ false
      → s.channel.encryption_enabled ≡ false
      → eq_bytes s.channel.session_type [] ≡ false
      → s.channel.is_session_specific_handler_set ≡ false
      → s.channel.incoming_message_buffer.messages ≡ []
      → let s' = record s {
        channel = record s.channel { expected_sequence_number = pos (n + 1) };
      } in
        (handle_output_message env m raw s ≡ (ok tt, s'))
        × (handle_output_message env m raw s' ≡ (ok tt, s'))
  unready-lost m raw s e n z l t1 t2 t3 enc ty sp b =
      let x : next_int64 s.channel.expected_sequence_number ≡ pos (n + 1) =
        rw (sym e) (rw z (next_int64-pos n l)) in
      (
        next_in_order m raw s s e (unready m s t1 t2 t3 enc ty sp) b ∙ rw x refl,
        ignored m raw _ (λ q. ground arith) (rw z (ground arith)),
      )
