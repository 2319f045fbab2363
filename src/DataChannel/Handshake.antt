-- ===== src/DataChannel/Handshake.antt =====
-- datachannel/datachannel.go: the handshake with the agent.
pub mod Encryption
pub mod Response
pub mod Asked
pub mod Established
use ecstoolkit.Base.{
  ℕ, Bool, true, false, not, ◌||◌, List, [], ◌∷◌, ◌++◌, Option, some, none, Result, ok, err, panic,
  Error, unknown_session_type, unsupported_action, invalid, if◌then◌else◌, ◌==◌, eq_bytes,
}
use ecstoolkit.Buffer.{Bytes}
use ecstoolkit.Message.PayloadType
use ecstoolkit.Message.Types.{ClientMessage, codes}
use ecstoolkit.Message.Handshake.{
  kms_encryption, session_type_action, success, failed, unsupported, RequestedClientAction,
  ProcessedClientAction, HandshakeResponsePayload, HandshakeRequestPayload,
  HandshakeCompletePayload, ActionResult, nothing, kms_response, status, KmsEncryptionRequest,
  SessionTypeRequest,
}
use ecstoolkit.DataChannel.State.{
  State, DataChannel, Env, shell_plugin_name, port_plugin_name, interactive_commands_plugin_name,
  non_interactive_commands_plugin_name,
}
use ecstoolkit.DataChannel.State.Monad.{
  M, pure, fail, lift, outside, ask, catch, ◌>>=◌, ◌>>◌, read, modify, continue,
}
use ecstoolkit.DataChannel.Sending.{send_input_data_message, encrypt_data}
use ecstoolkit.DataChannel.Handlers.{send_type_set}
use ecstoolkit.Version.{version}

module _ {W F : Type 0} (env : Env W F) where
  -- `DeserializeHandshakeRequest` and `DeserializeHandshakeComplete`
  unfoldable pub deserialize_handshake_request : ClientMessage → Result HandshakeRequestPayload
  deserialize_handshake_request m =
      if m.payload_type == PayloadType.handshake_request
      then env.unmarshal_handshake_request m.payload
      else err invalid

  unfoldable pub deserialize_handshake_complete : ClientMessage → Result HandshakeCompletePayload
  deserialize_handshake_complete m =
      if m.payload_type == PayloadType.handshake_complete
      then env.unmarshal_handshake_complete m.payload
      else err invalid

  unfoldable pub process_kms_encryption_handshake_action : Bytes → M W F (Unit {0})
  process_kms_encryption_handshake_action action_params = do
    request ← lift (env.unmarshal_kms_request action_params)
    c ← read
    encryptor ← outside (env.build_encryptor request.kms_key_id c.session_id c.target_id)
    modify (λ c. record c { encryption = some encryptor })

  set_session_type : Bytes → Bytes → M W F (Unit {0})
  set_session_type kind properties =
      modify (λ c. record c { session_type = kind; session_properties = properties })

  choose_session_type : SessionTypeRequest → M W F (Unit {0})
  unfolding set_session_type
  choose_session_type request =
      if eq_bytes request.session_type shell_plugin_name
        || (eq_bytes request.session_type interactive_commands_plugin_name
            || eq_bytes request.session_type non_interactive_commands_plugin_name)
      then set_session_type shell_plugin_name request.properties
      else if eq_bytes request.session_type port_plugin_name
      then set_session_type request.session_type request.properties
      else fail unknown_session_type

  unfoldable pub process_session_type_handshake_action : Bytes → M W F (Unit {0})
  unfolding choose_session_type
  process_session_type_handshake_action action_params = do
    request ← lift (env.unmarshal_session_type action_params)
    choose_session_type request

  -- `c.encryption.GetEncryptedDataKey()`
  data_key : Option ℕ → M W F Bytes
  data_key none = lift panic
  data_key (some k) = ask (λ w. (env.get_encrypted_data_key k w, w))

  processed : Bytes → ℕ → ActionResult → Option Error → ProcessedClientAction
  processed kind action_status result error = record {
    action_type = kind;
    action_status = action_status;
    action_result = result;
    error = error;
  }

  kms_done : Bytes → Option Error → M W F ProcessedClientAction
  unfolding data_key processed
  kms_done kind (some e) = pure (processed kind failed nothing (some e))
  kms_done kind none = do
    c ← read
    key ← data_key c.encryption
    modify (λ c. record c { encryption_enabled = true })
    pure (
        processed kind success
          (kms_response (record { kms_cipher_text_key = key; kms_cipher_text_hash = [] })) none)

  session_type_done : Bytes → Option Error → ProcessedClientAction
  unfolding processed
  session_type_done kind (some e) = processed kind failed nothing (some e)
  session_type_done kind none = processed kind success nothing none

  -- One round of the loop over the requested actions.
  unfoldable pub process_action : RequestedClientAction → M W F ProcessedClientAction
  unfolding kms_done session_type_done processed process_kms_encryption_handshake_action
      process_session_type_handshake_action
  process_action action =
      if eq_bytes action.action_type kms_encryption
      then (do
        error ← catch (process_kms_encryption_handshake_action action.action_parameters)
        kms_done action.action_type error)
      else if eq_bytes action.action_type session_type_action
      then (do
        error ← catch (process_session_type_handshake_action action.action_parameters)
        pure (session_type_done action.action_type error))
      else pure (processed action.action_type 0 (status unsupported) (some unsupported_action))

  unfoldable pub process_actions : List RequestedClientAction → M W F (List ProcessedClientAction)
  process_actions [] = pure []
  process_actions (a ∷ as') = do p ← process_action a; ps ← process_actions as'; pure (p ∷ ps)

  -- The texts of `errorList`: the errors of the processed actions, in their order.
  unfoldable pub errors_of : List ProcessedClientAction → List Error
  errors_of [] = []
  errors_of (p ∷ ps) = elim p.error [ none ↦ errors_of ps | some e ↦ e ∷ errors_of ps ]

  unfoldable pub send_handshake_response : HandshakeResponsePayload → M W F (Unit {0})
  send_handshake_response response = do
    result_bytes ← lift (env.marshal_handshake_response response)
    send_input_data_message env PayloadType.handshake_response result_bytes

  unfoldable pub handle_handshake_request : ClientMessage → M W F (Unit {0})
  unfolding errors_of
  handle_handshake_request m = do
    request ← lift (deserialize_handshake_request m)
    modify (λ c. record c { agent_version = request.agent_version })
    actions ← process_actions request.requested_client_actions
    send_handshake_response (record {
      client_version = version;
      processed_client_actions = actions;
      errors = errors_of actions;
    })

  unfoldable pub handle_handshake_complete : ClientMessage → M W F (Unit {0})
  handle_handshake_complete m = do
    _ ← lift (deserialize_handshake_complete m)
    c ← read
    send_type_set (not (eq_bytes c.session_type []))

  unfoldable pub decrypt_by : Option ℕ → Bytes → M W F Bytes
  decrypt_by none b = lift panic
  decrypt_by (some k) b = outside (env.decrypt k b)

  unfoldable pub decrypt_data : Bytes → M W F Bytes
  unfolding decrypt_by
  decrypt_data b = do c ← read; decrypt_by c.encryption b

  unfoldable pub handle_encryption_challenge_request : ClientMessage → M W F (Unit {0})
  handle_encryption_challenge_request m = do
    request ← lift (env.unmarshal_challenge m.payload)
    plain ← decrypt_data request.challenge
    cipher ← encrypt_data env plain
    result_bytes ← lift (env.marshal_challenge (record { challenge = cipher }))
    send_input_data_message env PayloadType.enc_challenge_response result_bytes
