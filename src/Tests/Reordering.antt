-- ===== src/Tests/Reordering.antt =====
-- A data channel that has put a message aside.
use ecstoolkit.Base.{ℕ, ◌+◌, ◌≡◌, ◌≢◌, refl, [], ◌∷◌, ℤ, pos, some, ok, arith}
use mathlib.Core.Option
use ecstoolkit.Message.Types.{ClientMessage, acknowledge_message}
use ecstoolkit.Message.Codec.Layout.{serialize-layout, IsSendable}
use ecstoolkit.DataChannel.MapBuffer.{get, is_full}
use ecstoolkit.DataChannel.State.{State, int64_comparable}
use ecstoolkit.DataChannel.Sending.{send_acknowledge_message, serialize_acknowledge, send_message}
use ecstoolkit.DataChannel.Receiving.{handle_output_message, process_buffer_loop}
use ecstoolkit.DataChannel.Receiving.Sequence.{higher-buffered}
use ecstoolkit.DataChannel.Receiving.Buffered.Termination.{Ends, loop-Ends}
use ecstoolkit.Tests.World.{
  sample_libraries, sample_env, sample_state, sample_message, sample_message-HasFields, sample_id,
  sample_libraries-Documented,
}

-- Number 1 is expected, and number 3 is put aside.
abbrev aside_state : State ℕ ℕ
aside_state = record sample_state {
  channel = record sample_state.channel {
    expected_sequence_number = pos 1;
    incoming_message_buffer = record {
      messages =
          (
            pos 3,
            record {
              content = 9 ∷ [];
              sequence_number = pos 3;
              last_sent_time = 0;
              resend_attempt = 0;
            },
          )
          ∷ [];
      capacity = 2;
    };
  };
}

-- Now number 3 is expected.
abbrev due_state : State ℕ ℕ
due_state = record aside_state {
  channel = record aside_state.channel { expected_sequence_number = pos 3 };
}

loop-Ends_example :
    Ends sample_env due_state
      (process_buffer_loop sample_env 2 due_state).0
      (process_buffer_loop sample_env 2 due_state).1
    × (process_buffer_loop sample_env (2 + 5) due_state
        ≡ process_buffer_loop sample_env 2 due_state)
loop-Ends_example = loop-Ends sample_env 2 5 due_state (refl, tt) (omega arith)

-- A message between the expected one and the one put aside.
abbrev later_message : ClientMessage
later_message = record sample_message { sequence_number = pos 2 }

-- The acknowledgement of a message at time 500.
abbrev pub sample_acknowledgement : ClientMessage
sample_acknowledgement = record {
  header_length = 0;
  message_type = acknowledge_message;
  schema_version = 1;
  created_date = 0;
  sequence_number = pos 0;
  flags = 3;
  message_id = sample_id;
  payload_digest = [];
  payload_type = 0;
  payload_length = 0;
  payload = 123 ∷ 125 ∷ [];
}

pub sample_acknowledgement-IsSendable : IsSendable sample_acknowledgement
sample_acknowledgement-IsSendable = record {
  fields = record {
    type_token = ground arith;
    type_fits = omega arith;
    schema_fits = omega arith;
    date_fits = omega arith;
    sequence_fits = (omega arith, omega arith);
    flags_fit = omega arith;
    id_uuid = sample_message-HasFields.id_uuid;
    id_not_nil = sample_message-HasFields.id_not_nil;
    payload_type_fits = omega arith;
    payload_fits = omega arith;
  };
  payload_some = omega arith;
}

acknowledged :
    send_acknowledge_message sample_env later_message aside_state
    ≡ (ok tt, record aside_state { world = 501 })
unfolding send_acknowledge_message serialize_acknowledge send_message
acknowledged =
    rw
      (serialize-layout sample_libraries sample_libraries-Documented sample_acknowledgement
        sample_acknowledgement-IsSendable)
      refl

higher-buffered_example :
    let r = handle_output_message sample_env later_message (5 ∷ []) aside_state in
    (r.0 ≡ ok tt)
    × (Option.map (λ x. x.content) (get r.1.channel.incoming_message_buffer (pos 2))
        ≡ some (5 ∷ []))
    × ((j : ℤ)
        → j ≢ pos 2
        → get r.1.channel.incoming_message_buffer j
          ≡ get aside_state.channel.incoming_message_buffer j)
    × (r.1.channel.expected_sequence_number ≡ pos 1)
unfolding is_full
higher-buffered_example =
    higher-buffered sample_env later_message (5 ∷ []) aside_state 501 refl refl acknowledged
