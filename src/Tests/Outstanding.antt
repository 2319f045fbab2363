-- ===== src/Tests/Outstanding.antt =====
-- A data channel over some calls.
use ecstoolkit.Base.{◌≡◌, refl, pos, true, [], ◌∷◌, map, List, arith}
use ecstoolkit.Message.PayloadType
use ecstoolkit.DataChannel.ListBuffer.{new_list_message_buffer}
use ecstoolkit.DataChannel.State.{new_data_channel}
use ecstoolkit.DataChannel.Sending.Replay.{Call, send, acknowledge, run, events, replay}
use ecstoolkit.DataChannel.Sending.Replay.Numbers.{number_of}
use ecstoolkit.DataChannel.Sending.Replay.Faithful.{run-replay}
use ecstoolkit.Tests.World.{sample_env, sample_state}

-- Two messages, the acknowledgement of the first, an empty message, and an acknowledgement of none.
abbrev sample_calls : List Call
sample_calls =
    send PayloadType.output (108 ∷ 115 ∷ [])
    ∷ send PayloadType.output (10 ∷ [])
    ∷ acknowledge (record {
      message_type = [];
      message_id = [];
      sequence_number = pos 0;
      is_sequential_message = true;
    })
    ∷ send PayloadType.output []
    ∷ acknowledge (record {
      message_type = [];
      message_id = [];
      sequence_number = pos 7;
      is_sequential_message = true;
    })
    ∷ []

run-replay_example :
    let c' = (run sample_env sample_calls sample_state).channel in
    let r' =
      replay 10000
        (events sample_env sample_calls sample_state)
        (record { next = 0; waiting = [] }) in
    (map number_of c'.outgoing_message_buffer.messages ≡ r'.waiting)
    × (c'.stream_data_sequence_number ≡ pos r'.next)
unfolding new_data_channel new_list_message_buffer
run-replay_example =
    run-replay sample_env sample_calls sample_state 0 refl refl (omega arith) (omega arith)
