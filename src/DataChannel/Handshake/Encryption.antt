-- ===== src/DataChannel/Handshake/Encryption.antt =====
-- The state of the encryption during the handshake, and a challenge without it.
use mathlib.Core.Path.{subst}
use ecstoolkit.Base.{
  ℕ, All, Result, err, blocked, eq_bytes_iff, ◌∙◌, eqb_ℤ, eqb_ℤ_iff, ◌==◌, false, ◌≡◌, ◌≢◌, refl,
  true, none, ok, panic, arith, List, [], ◌∷◌,
}
use ecstoolkit.Message.Types.{ClientMessage}
use ecstoolkit.Buffer.{Bytes}
use ecstoolkit.Message.PayloadType
use ecstoolkit.DataChannel.State.Monad.{M, continue}
use ecstoolkit.DataChannel.Sending.{
  push_outgoing, send_input_data_message, send_acknowledge_message,
}
use ecstoolkit.DataChannel.Sending.Outcome.{push_sent, send_outcome}
use ecstoolkit.DataChannel.Receiving.{
  handle_output_message, process_payload, handle_encryption_challenge_request_output_message,
}
use ecstoolkit.Message.Handshake.{
  kms_encryption, HandshakeRequestPayload, HandshakeResponsePayload, RequestedClientAction,
  EncryptionChallenge,
}
use ecstoolkit.DataChannel.State.{State, DataChannel, Env}
use ecstoolkit.DataChannel.Handshake.{
  deserialize_handshake_request, handle_handshake_request, send_handshake_response,
  process_kms_encryption_handshake_action, process_session_type_handshake_action, process_action,
  process_actions, choose_session_type, set_session_type, data_key, kms_done, decrypt_by,
  decrypt_data, handle_encryption_challenge_request,
}

-- Encryption is enabled only once there is an encrypter.
abbrev pub IsArmed : {F : Type 0} → DataChannel F → Type 0
IsArmed c = c.encryption_enabled ≡ true → c.encryption ≢ none

module _ {W F : Type 0} (env : Env W F) where
  action-IsArmed :
      (a : RequestedClientAction) (s : State W F)
      → IsArmed s.channel
      → IsArmed (process_action env a s).1.channel
  unfolding process_action process_kms_encryption_handshake_action
      process_session_type_handshake_action choose_session_type set_session_type kms_done data_key
  action-IsArmed a s h = ground arith

  -- Processing the requested actions of a handshake keeps it so that encryption is enabled only once there
  -- is an encrypter, whatever the actions and wherever the processing stops.
  pub process_actions-IsArmed :
      (as' : List RequestedClientAction) (s : State W F)
      → IsArmed s.channel
      → IsArmed (process_actions env as' s).1.channel
  unfolding process_actions
  process_actions-IsArmed [] s h = h
  process_actions-IsArmed (a ∷ as') s h = ground (
    arith,
    action-IsArmed a s h,
    process_actions-IsArmed as' (process_action env a s).1 (action-IsArmed a s h),
  )

  typed-encryption :
      (a : RequestedClientAction) (s : State W F)
      → a.action_type ≢ kms_encryption
      → (process_action env a s).1.channel.encryption ≡ s.channel.encryption
  unfolding process_action process_session_type_handshake_action choose_session_type
      set_session_type
  typed-encryption a s ne = ground (arith, eq_bytes_iff a.action_type kms_encryption)

  -- A chain leaves what its first link and the rest of it leave.
  chained :
      {A B : Type 0} (P : State W F → Type 0) (r : Result A) (f : A → M W F B) (s : State W F)
      → P s
      → ((x : A) → P (f x s).1)
      → P (continue r f s).1
  chained P (ok x) f s p h = h x
  chained P (err e) f s p h = p
  chained P panic f s p h = p
  chained P blocked f s p h = p

  abbrev IsUnarmed : State W F → Type 0
  IsUnarmed s = s.channel.encryption ≡ none

  actions-IsUnarmed :
      (as' : List RequestedClientAction) (s : State W F)
      → All (λ a. a.action_type ≢ kms_encryption) as'
      → IsUnarmed s
      → IsUnarmed (process_actions env as' s).1
  unfolding process_actions
  actions-IsUnarmed [] s n u = u
  actions-IsUnarmed (a ∷ as') s n u =
      let t = (process_action env a s).1 in
      let u' = typed-encryption a s n.0 ∙ u in
      chained IsUnarmed (process_action env a s).0 _ t u' (λ p.
        let v = actions-IsUnarmed as' t n.1 u' in
        chained IsUnarmed (process_actions env as' t).0 _ (process_actions env as' t).1 v (λ ps. v))

  pushed-IsUnarmed :
      (content : Bytes) (t : ℕ) (c : DataChannel F) (w : W)
      → c.encryption ≡ none
      → IsUnarmed (push_sent env content t c w).1
  unfolding push_outgoing
  pushed-IsUnarmed content t c w u = ground (arith, u)

  response-IsUnarmed :
      (response : HandshakeResponsePayload) (s : State W F)
      → IsUnarmed s
      → IsUnarmed (send_handshake_response env response s).1
  unfolding send_handshake_response
  response-IsUnarmed response s u =
      chained IsUnarmed (env.marshal_handshake_response response)
        (send_input_data_message env PayloadType.handshake_response) s u
        (λ b.
          send_outcome env (λ p. IsUnarmed p.1) PayloadType.handshake_response b s (λ r w ne. u)
            (λ content t w. pushed-IsUnarmed content t s.channel w u))

  request-IsUnarmed :
      (m : ClientMessage) (request : HandshakeRequestPayload) (s : State W F)
      → deserialize_handshake_request env m ≡ ok request
      → All (λ a. a.action_type ≢ kms_encryption) request.requested_client_actions
      → IsUnarmed s
      → IsUnarmed (handle_handshake_request env m s).1
  unfolding handle_handshake_request
  request-IsUnarmed m request s d n u =
      let as' = request.requested_client_actions in
      let s' = record s { channel = record s.channel { agent_version = request.agent_version } } in
      let done = process_actions env as' s' in
      let v = actions-IsUnarmed as' s' n u in
      rw d (chained IsUnarmed done.0 _ done.1 v (λ ps. response-IsUnarmed _ done.1 v))

  -- A challenge that is in order meets the encrypter once it is acknowledged.
  met :
      (m : ClientMessage) (raw : Bytes) (challenge : EncryptionChallenge) (s : State W F) (w : W)
      → IsUnarmed s
      → m.payload_type ≡ PayloadType.enc_challenge_request
      → m.sequence_number ≡ s.channel.expected_sequence_number
      → env.unmarshal_challenge m.payload ≡ ok challenge
      → send_acknowledge_message env m s ≡ (ok tt, record s { world = w })
      → handle_output_message env m raw s ≡ (panic, record s { world = w })
  unfolding handle_output_message process_payload handle_encryption_challenge_request_output_message
      handle_encryption_challenge_request decrypt_data decrypt_by
  met m raw challenge s w u t q c a =
      let e : eqb_ℤ m.sequence_number s.channel.expected_sequence_number ≡ true =
        (eqb_ℤ_iff m.sequence_number s.channel.expected_sequence_number).1 q in
      let x : (m.payload_type == PayloadType.handshake_request) ≡ false = rw t refl in
      let y : (m.payload_type == PayloadType.handshake_complete) ≡ false = rw t refl in
      let z : (m.payload_type == PayloadType.enc_challenge_request) ≡ true = rw t refl in
      rw e (rw x (rw y (rw z (rw a (rw c (rw u refl))))))

  -- The channel has no encrypter, and a handshake request without a KMS action is handled with success. An
  -- encryption challenge after it that has the expected number and can be read makes the program panic once
  -- it has been acknowledged.
  pub challenge-panic :
      (request_message m : ClientMessage) (raw : Bytes) (request : HandshakeRequestPayload)
      (challenge : EncryptionChallenge) (s s' : State W F) (w : W)
      → s.channel.encryption ≡ none
      → deserialize_handshake_request env request_message ≡ ok request
      → All (λ a. a.action_type ≢ kms_encryption) request.requested_client_actions
      → handle_handshake_request env request_message s ≡ (ok tt, s')
      → m.payload_type ≡ PayloadType.enc_challenge_request
      → m.sequence_number ≡ s'.channel.expected_sequence_number
      → env.unmarshal_challenge m.payload ≡ ok challenge
      → send_acknowledge_message env m s' ≡ (ok tt, record s' { world = w })
      → handle_output_message env m raw s' ≡ (panic, record s' { world = w })
  challenge-panic request_message m raw request challenge s s' w u d n h t q c a =
      let v = request-IsUnarmed request_message request s d n u in
      let v' : IsUnarmed s' = subst (λ (x : Result (Unit {0}) × State W F). IsUnarmed x.1) h v in
      met m raw challenge s' w v' t q c a
