-- ===== src/Tests/Channels.antt =====
-- A data channel at concrete states.
use ecstoolkit.Base.{ℕ, ◌<◌, ◌≡◌, refl, false, [], ◌∷◌, pos, ltb_ℤ, some, ok, arith}
use ecstoolkit.Message.Handshake.{RequestedClientAction, kms_encryption}
use ecstoolkit.DataChannel.ListBuffer.{front, front_of}
use ecstoolkit.DataChannel.State.{
  State, StreamingMessage, new_data_channel, int64_comparable, resend_max_attempt,
  max_transmission_timeout,
}
use ecstoolkit.DataChannel.Sending.{resend_rounds, calculate_retransmission_timeout}
use ecstoolkit.DataChannel.Sending.Bounds.{timeout-bounded}
use ecstoolkit.DataChannel.Sending.Resend.{Idle, resend_rounds-Idle}
use ecstoolkit.DataChannel.Handshake.{process_actions}
use ecstoolkit.DataChannel.Handshake.Encryption.{IsArmed, process_actions-IsArmed}
use ecstoolkit.DataChannel.Receiving.{handle_output_message}
use ecstoolkit.DataChannel.Receiving.Sequence.{unready-lost}
use ecstoolkit.Tests.World.{sample_env, sample_state, sample_message}

-- Two messages have been sent, the first of them nine times.
abbrev first_sent : StreamingMessage
first_sent = record {
  content = 1 ∷ [];
  sequence_number = pos 0;
  last_sent_time = 100;
  resend_attempt = 9;
}

abbrev second_sent : StreamingMessage
second_sent = record {
  content = 2 ∷ [];
  sequence_number = pos 1;
  last_sent_time = 200;
  resend_attempt = 0;
}

abbrev sent_state : State ℕ ℕ
sent_state = record sample_state {
  channel = record sample_state.channel {
    outgoing_message_buffer = record { messages = first_sent ∷ second_sent ∷ []; capacity = 10 };
  };
}

-- Number 3 is expected, of the type of the shell plugin, without a handler for it.
abbrev waiting_state : State ℕ ℕ
waiting_state = record sample_state {
  channel = record sample_state.channel {
    expected_sequence_number = pos 3;
    session_type = 83 ∷ [];
    incoming_message_buffer = record { messages = []; capacity = 2 };
  };
}

few_attempts :
    (m : StreamingMessage)
    → front sent_state.channel.outgoing_message_buffer ≡ some m
    → m.resend_attempt < resend_max_attempt
unfolding front front_of
few_attempts m e = ground arith

resend_rounds-Idle_example : Idle sent_state.channel (resend_rounds sample_env 5000 sent_state)
resend_rounds-Idle_example = resend_rounds-Idle sample_env 5000 sent_state few_attempts

timeout-bounded_example :
    ltb_ℤ
      (pos max_transmission_timeout)
      (calculate_retransmission_timeout sample_env first_sent
        sent_state).1.channel.retransmission_timeout
    ≡ false
timeout-bounded_example = timeout-bounded sample_env first_sent sent_state

abbrev kms_action : RequestedClientAction
kms_action = record { action_type = kms_encryption; action_parameters = 107 ∷ [] }

process_actions-IsArmed_example :
    IsArmed (process_actions sample_env (kms_action ∷ []) waiting_state).1.channel
unfolding new_data_channel
process_actions-IsArmed_example =
    process_actions-IsArmed sample_env (kms_action ∷ []) waiting_state (λ e. cc)

unready-lost_example :
    let after = record waiting_state {
      channel = record waiting_state.channel { expected_sequence_number = pos 4 };
    } in
    (handle_output_message sample_env sample_message [] waiting_state ≡ (ok tt, after))
    × (handle_output_message sample_env sample_message [] after ≡ (ok tt, after))
unfolding new_data_channel
unready-lost_example =
    unready-lost sample_env sample_message [] waiting_state refl 3 refl (omega arith) refl refl refl
      refl refl refl refl
