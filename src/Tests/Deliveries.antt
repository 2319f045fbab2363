-- ===== src/Tests/Deliveries.antt =====
-- A data channel and a peer whose messages come out of order.
use ecstoolkit.Base.{ℕ, ◌+◌, ◌<◌, ◌≡◌, refl, true, [], ◌∷◌, ◌++◌, List, pos, ok, arith, half64, map}
use ecstoolkit.Message.Types.{ClientMessage, output_stream_message}
use ecstoolkit.Message.Codec.Layout.{layout}
use ecstoolkit.Message.Codec.RoundTrip.{received}
use ecstoolkit.DataChannel.MapBuffer.{new_map_message_buffer}
use ecstoolkit.DataChannel.State.{Env, State, registered, new_data_channel}
use ecstoolkit.DataChannel.Receiving.Reference.{member, gapless, in_order, numbers}
use ecstoolkit.DataChannel.Receiving.Working.{IsWorking}
use ecstoolkit.DataChannel.Receiving.Peer.{IsForHandlers, layout-IsPeerMessage}
use ecstoolkit.DataChannel.Receiving.Arrival.{handle_all}
use ecstoolkit.DataChannel.Receiving.Reliable.{delivery}
use ecstoolkit.Tests.World.{
  sample_libraries, still_env, sample_message, sample_message-HasFields,
  sample_libraries-Documented,
}

-- The world is what the plugin has been given.
abbrev plugin_env : Env (List ClientMessage) ℕ
plugin_env = record still_env { call_handler = λ k m w. (ok true, w ++ (m ∷ [])) }

plugin_env-IsWorking : IsWorking plugin_env (λ w. w) 1
plugin_env-IsWorking = record {
  documented = sample_libraries-Documented;
  clock = λ w. omega arith;
  clock_log = λ w. refl;
  uuid = λ w. sample_message-HasFields.id_uuid;
  uuid_some = λ w. sample_message-HasFields.id_not_nil;
  uuid_log = λ w. refl;
  acknowledgement = λ a. record {
    bytes = 123 ∷ 125 ∷ [];
    returns = refl;
    some = omega arith;
    fits = omega arith;
  };
  sending = λ b kind w. refl;
  sending_log = λ b kind w. refl;
  handling = λ m w. refl;
  handling_log = λ m w. refl;
}

-- The peer's message with a number.
abbrev peer_message : ℕ → ClientMessage
peer_message k = record sample_message {
  message_type = output_stream_message;
  sequence_number = pos k;
}

peer_message-IsForHandlers : (k : ℕ) → k + 1 < half64 → IsForHandlers k (peer_message k)
peer_message-IsForHandlers k l = record {
  fields = record {
    type_token = ground arith;
    type_fits = omega arith;
    schema_fits = omega arith;
    date_fits = omega arith;
    sequence_fits = (omega arith, omega arith);
    flags_fit = omega arith;
    id_uuid = sample_message-HasFields.id_uuid;
    id_not_nil = sample_message-HasFields.id_not_nil;
    payload_type_fits = omega arith;
    payload_fits = omega arith;
  };
  dated = λ e. omega arith;
  kind = refl;
  number = refl;
  no_request = refl;
  no_complete = refl;
  no_challenge = refl;
}

-- Number 4 is expected.
abbrev plugin_state : State (List ClientMessage) ℕ
plugin_state = record {
  channel = record (new_data_channel plugin_env (115 ∷ []) (116 ∷ [])) {
    expected_sequence_number = pos 4;
    output_stream_handlers = registered 1 ∷ [];
    is_session_specific_handler_set = true;
  };
  world = [];
}

delivery_example :
    let (r, s') =
      handle_all plugin_env
        (map (λ k. layout sample_libraries (peer_message k)) (5 ∷ 4 ∷ 5 ∷ 7 ∷ []))
        plugin_state in
    (r ≡ ok tt)
    × (s'.world
        ≡ received sample_libraries (peer_message 4)
          ∷ received sample_libraries (peer_message 5)
          ∷ [])
    × (s'.channel.expected_sequence_number ≡ pos 6)
unfolding new_data_channel new_map_message_buffer in_order gapless member numbers
delivery_example =
    delivery plugin_env (λ w. w) 1 plugin_env-IsWorking
      (λ k. received sample_libraries (peer_message k))
      (λ k. layout sample_libraries (peer_message k))
      (λ k l.
        layout-IsPeerMessage sample_libraries k (peer_message k) sample_libraries-Documented
          (peer_message-IsForHandlers k l))
      plugin_state 4 (5 ∷ 4 ∷ 5 ∷ 7 ∷ [])
      (record { handlers = refl; specific = refl; plain = refl }) refl refl
      (omega arith, (omega arith, (omega arith, (omega arith, tt)))) (omega arith)
