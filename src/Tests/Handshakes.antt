-- ===== src/Tests/Handshakes.antt =====
-- A handshake with three actions, one for a port session, and a challenge after one without encryption.
use ecstoolkit.Base.{
  pos, panic, ◌+ℤ◌, ap, arith, if◌then◌else◌, eq_bytes, true, ℕ, ◌≡◌, refl, [], ◌∷◌, List, ok,
}
use ecstoolkit.Message.PayloadType
use ecstoolkit.Message.Types.{ClientMessage}
use ecstoolkit.Message.Handshake.{
  kms_encryption, session_type_action, RequestedClientAction, ProcessedClientAction,
  HandshakeRequestPayload,
}
use ecstoolkit.DataChannel.State.{State, Env, new_data_channel, port_plugin_name}
use ecstoolkit.DataChannel.Lifecycle.{establish_session_type, session_type_set}
use ecstoolkit.DataChannel.Handshake.Established.{session_type-established}
use ecstoolkit.DataChannel.Handshake.Asked.{asked_for}
use ecstoolkit.DataChannel.Handshake.Encryption.{challenge-panic}
use ecstoolkit.DataChannel.Receiving.{handle_output_message}
use ecstoolkit.Tests.Reordering.{sample_acknowledgement, sample_acknowledgement-IsSendable}
use ecstoolkit.Tests.Lifecycles.{broken_peer}
use ecstoolkit.DataChannel.Handshake.{
  errors_of, send_handshake_response, handle_handshake_request, process_actions, process_action,
  deserialize_handshake_request, deserialize_handshake_complete, handle_handshake_complete,
}
use ecstoolkit.DataChannel.Handshake.Response.{
  Answers, IsAnswering, handle_handshake_request-Answers,
}
use ecstoolkit.DataChannel.Sending.{
  input_message, push_outgoing, send_acknowledge_message, serialize_acknowledge,
  send_input_data_message, send_message,
}
use ecstoolkit.DataChannel.ListBuffer.{force_push_back}
use ecstoolkit.Message.Codec.Layout.{serialize-layout, layout, IsSendable}
use ecstoolkit.Version.{version}
use ecstoolkit.Tests.World.{
  sample_env, sample_state, sample_message, sample_id, sample_libraries,
  sample_libraries-Documented, sample_message-HasFields,
}

abbrev sample_request : HandshakeRequestPayload
sample_request = record {
  agent_version = 51 ∷ [];
  requested_client_actions =
      (record { action_type = kms_encryption; action_parameters = 107 ∷ [] })
      ∷ (record { action_type = session_type_action; action_parameters = [] })
      ∷ (record { action_type = 88 ∷ []; action_parameters = [] })
      ∷ [];
}

abbrev request_env : Env ℕ ℕ
request_env = record sample_env { unmarshal_handshake_request = λ b. ok sample_request }

request_env-IsAnswering : IsAnswering request_env
request_env-IsAnswering = record {
  kms = λ b. tt;
  session_type = λ b. tt;
  encryptor = λ k s t w. tt;
}

abbrev request_message : ClientMessage
request_message = record sample_message { payload_type = PayloadType.handshake_request }

handle_handshake_request-Answers_example :
    let s' = record sample_state {
      channel = record sample_state.channel { agent_version = 51 ∷ [] };
    } in
    (ps : List ProcessedClientAction) × Answers sample_request.requested_client_actions ps
    × (handle_handshake_request request_env request_message sample_state
        ≡ send_handshake_response request_env
            (record {
              client_version = version;
              processed_client_actions = ps;
              errors = errors_of request_env ps;
            })
            (process_actions request_env sample_request.requested_client_actions s').1)
unfolding deserialize_handshake_request
handle_handshake_request-Answers_example =
    handle_handshake_request-Answers request_env request_env-IsAnswering request_message
      sample_state sample_request refl

-- The agent asks for a session type that there is no plugin for, for encryption, and for a port session.
abbrev port_request : RequestedClientAction
port_request = record { action_type = session_type_action; action_parameters = 123 ∷ [] }

abbrev port_actions : List RequestedClientAction
port_actions =
    (record { action_type = session_type_action; action_parameters = [] })
    ∷ (record { action_type = kms_encryption; action_parameters = 107 ∷ [] })
    ∷ port_request
    ∷ []

abbrev port_env : Env ℕ ℕ
port_env = record sample_env {
  marshal_handshake_response = λ r. ok (123 ∷ 125 ∷ []);
  unmarshal_handshake_request =
      λ b. ok (record { agent_version = 51 ∷ []; requested_client_actions = port_actions });
  unmarshal_handshake_complete =
      λ b. ok (record { handshake_time_to_complete = pos 7; customer_message = [] });
  unmarshal_session_type = λ b.
      ok (record { session_type = if eq_bytes b [] then [] else port_plugin_name; properties = b });
}

abbrev complete_message : ClientMessage
complete_message = record sample_message { payload_type = PayloadType.handshake_complete }

abbrev port_response : ClientMessage
port_response =
    input_message port_env (pos 0) PayloadType.handshake_response sample_id 500 (123 ∷ 125 ∷ [])

port_response-IsSendable : IsSendable port_response
port_response-IsSendable = record {
  fields = record {
    type_token = ground arith;
    type_fits = omega arith;
    schema_fits = omega arith;
    date_fits = omega arith;
    sequence_fits = (omega arith, omega arith);
    flags_fit = omega arith;
    id_uuid = sample_message-HasFields.id_uuid;
    id_not_nil = sample_message-HasFields.id_not_nil;
    payload_type_fits = omega arith;
    payload_fits = omega arith;
  };
  payload_some = omega arith;
}

responded :
    handle_handshake_request port_env request_message sample_state
    ≡ (ok tt, (handle_handshake_request port_env request_message sample_state).1)
unfolding new_data_channel deserialize_handshake_request handle_handshake_request process_actions
    send_handshake_response process_action send_input_data_message send_message push_outgoing
    force_push_back
responded = ap (λ r. (r, (handle_handshake_request port_env request_message sample_state).1)) sent
  where
    sent : (handle_handshake_request port_env request_message sample_state).0 ≡ ok tt
    sent =
        rw
          (serialize-layout sample_libraries sample_libraries-Documented port_response
            port_response-IsSendable)
          refl

session_type-established_example :
    let s = (handle_handshake_request port_env request_message sample_state).1 in
    let (r, t) = handle_handshake_complete port_env complete_message s in
    (r ≡ ok tt)
    × (t.channel.is_session_type_set ≡ true ∷ [])
    × (establish_session_type broken_peer (session_type_set true) t ≡ (ok port_plugin_name, t))
unfolding deserialize_handshake_request deserialize_handshake_complete new_data_channel asked_for
session_type-established_example =
    session_type-established port_env broken_peer request_message complete_message
      (record { agent_version = 51 ∷ []; requested_client_actions = port_actions })
      (record { handshake_time_to_complete = pos 7; customer_message = [] }) sample_state
      (handle_handshake_request port_env request_message sample_state).1 refl refl refl refl
      responded

-- The agent asks for a port session only.
abbrev unarmed_env : Env ℕ ℕ
unarmed_env = record port_env {
  unmarshal_handshake_request =
      λ b. ok (record { agent_version = 51 ∷ []; requested_client_actions = port_request ∷ [] });
}

abbrev challenge_message : ClientMessage
challenge_message = record sample_message {
  payload_type = PayloadType.enc_challenge_request;
  sequence_number = pos 0;
}

-- The channel after the response, at time 502.
abbrev asked_state : State ℕ ℕ
asked_state = record {
  channel = record sample_state.channel {
    agent_version = 51 ∷ [];
    session_type = port_plugin_name;
    session_properties = 123 ∷ [];
    stream_data_sequence_number = pos 1;
    outgoing_message_buffer = record {
      messages =
          (record {
            content = layout sample_libraries port_response;
            sequence_number = pos 0;
            last_sent_time = 501;
            resend_attempt = 0;
          })
          ∷ [];
      capacity = 10000;
    };
  };
  world = 502;
}

asked : handle_handshake_request unarmed_env request_message sample_state ≡ (ok tt, asked_state)
unfolding new_data_channel deserialize_handshake_request handle_handshake_request process_actions
    send_handshake_response process_action send_input_data_message send_message push_outgoing
    force_push_back ◌+ℤ◌
asked =
    rw
      (serialize-layout sample_libraries sample_libraries-Documented port_response
        port_response-IsSendable)
      refl

challenge_acknowledged :
    send_acknowledge_message unarmed_env challenge_message asked_state
    ≡ (ok tt, record asked_state { world = 503 })
unfolding send_acknowledge_message serialize_acknowledge send_message
challenge_acknowledged =
    rw
      (serialize-layout sample_libraries sample_libraries-Documented sample_acknowledgement
        sample_acknowledgement-IsSendable)
      refl

challenge-panic_example :
    handle_output_message unarmed_env challenge_message (7 ∷ []) asked_state
    ≡ (panic, record asked_state { world = 503 })
unfolding new_data_channel deserialize_handshake_request
challenge-panic_example =
    challenge-panic unarmed_env request_message challenge_message (7 ∷ [])
      (record { agent_version = 51 ∷ []; requested_client_actions = port_request ∷ [] })
      (record { challenge = 104 ∷ 105 ∷ [] }) sample_state asked_state 503 refl refl
      ((λ e. ground arith), tt) asked refl refl refl challenge_acknowledged
