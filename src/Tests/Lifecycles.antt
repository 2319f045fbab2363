-- ===== src/Tests/Lifecycles.antt =====
-- A listener whose first read fails, and messages that are sent in order.
use ecstoolkit.Base.{ℕ, ◌+◌, ◌≡◌, refl, arith, pos, [], ◌∷◌, ok, err, offset_outside, closed_pipe}
use ecstoolkit.DataChannel.State.{new_data_channel}
use ecstoolkit.DataChannel.Lifecycle.{
  Peer, close, open_socket, reconnect, reconnect_with_token, call_error_retrier,
  finalize_data_channel_handshake, listen,
}
use ecstoolkit.DataChannel.Lifecycle.Reconnection.{reconnect-ends}
use ecstoolkit.DataChannel.Sending.{send_message, send_input_data_message}
use ecstoolkit.DataChannel.Sending.Bounds.{IsBounded}
use ecstoolkit.DataChannel.Sending.Order.{IsSequenced, send_input-IsSequenced}
use ecstoolkit.DataChannel.Sending.Race.{ready, Reach, before, duplicate}
use ecstoolkit.Retry.Repeatable.{call, call_loop}
use ecstoolkit.DataChannel.Sending.{next_int64}
use ecstoolkit.Tests.World.{sample_env, sample_state}

-- Every call takes a unit of time; a read fails.
abbrev pub broken_peer : Peer ℕ
broken_peer = record {
  client_id = 99 ∷ [];
  ws_open = λ w. (ok tt, w + 1);
  ws_close = λ w. (ok tt, w + 1);
  ws_read = λ w. (err closed_pipe, w + 1);
  ws_token = λ w. 116 ∷ [];
  ws_set_token = λ t w. w;
  call_incoming_handler = λ b w. (ok tt, w + 1);
  refresh_token = λ w. (ok (117 ∷ []), w + 1);
  call_timeout_handler = λ w. (ok tt, w);
  marshal_open_input = λ i. ok (123 ∷ 125 ∷ []);
  delay_of_attempt = λ n. pos 50;
  sleep = λ d w. w + 50;
}

-- The token at 502, the close at 503 and the opening at 504.
reconnected_at_504 :
    call_error_retrier sample_env broken_peer (record sample_state { world = 501 })
    ≡ (ok tt, record sample_state { world = 504 })
unfolding call_error_retrier call call_loop reconnect_with_token reconnect close open_socket
    finalize_data_channel_handshake send_message
reconnected_at_504 = refl

reconnect-ends_example :
    listen sample_env broken_peer 9 sample_state
    ≡ (err offset_outside, record sample_state { world = 506 })
reconnect-ends_example =
    reconnect-ends sample_env broken_peer 8 sample_state (record sample_state { world = 504 }) 501
      505 506 closed_pipe refl refl reconnected_at_504 refl refl

sample_state-IsSequenced : IsSequenced sample_state.channel
unfolding new_data_channel
sample_state-IsSequenced = record { next = 0; number = refl; ascending = omega arith }

sample_state-IsBounded : IsBounded sample_state.channel
unfolding new_data_channel
sample_state-IsBounded = record { some_room = omega arith; within = omega arith }

send_input-IsSequenced_example :
    IsSequenced (send_input_data_message sample_env 1 (104 ∷ 105 ∷ []) sample_state).1.channel
unfolding new_data_channel sample_state-IsSequenced
send_input-IsSequenced_example =
    send_input-IsSequenced sample_env 1 (104 ∷ 105 ∷ []) sample_state sample_state-IsSequenced
      sample_state-IsBounded (omega arith)

duplicate_example : Reach (ready (pos 5)) (record {
  stream_data_sequence_number = next_int64 (next_int64 (pos 5));
  wire = pos 5 ∷ pos 5 ∷ [];
  left = before;
  right = before;
})
duplicate_example = duplicate (pos 5)
