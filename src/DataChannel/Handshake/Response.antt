-- ===== src/DataChannel/Handshake/Response.antt =====
-- The answer to a handshake request.
use ecstoolkit.Base.{
  ◌≡◌, refl, Bool, true, false, ◌||◌, List, [], ◌∷◌, some, none, Result, ok, Error,
  unsupported_action, Returns, Returns-cases, Bool-cases, inl, inr, eq_bytes, arith,
}
use ecstoolkit.Buffer.{Bytes}
use ecstoolkit.Message.Types.{ClientMessage}
use ecstoolkit.Message.Handshake.{
  kms_encryption, session_type_action, success, failed, unsupported, RequestedClientAction,
  ProcessedClientAction, nothing, status, HandshakeRequestPayload,
}
use ecstoolkit.DataChannel.State.{State, Env}
use ecstoolkit.DataChannel.Handshake.{
  process_kms_encryption_handshake_action, process_session_type_handshake_action, process_action,
  process_actions, choose_session_type, set_session_type, data_key, kms_done, session_type_done,
  processed, errors_of, send_handshake_response, handle_handshake_request,
  deserialize_handshake_request,
}
use ecstoolkit.Version.{version}

abbrev pub is_known : RequestedClientAction → Bool
is_known a = eq_bytes a.action_type kms_encryption || eq_bytes a.action_type session_type_action

-- How a requested action can be answered: a known one as a success without an error or as a failure with one
-- and without a result, an unknown one with an error, the result `unsupported`, and no status.
pub data Outcome (a : RequestedClientAction) (p : ProcessedClientAction) : Type 0 where
  done : is_known a ≡ true → p.action_status ≡ success → p.error ≡ none → Outcome a p
  refused :
      (e : Error)
      → is_known a ≡ true
      → p.action_status ≡ failed
      → p.error ≡ some e
      → p.action_result ≡ nothing
      → Outcome a p
  unknown :
      is_known a ≡ false
      → p.action_status ≡ 0
      → p.error ≡ some unsupported_action
      → p.action_result ≡ status unsupported
      → Outcome a p

-- An answer to each action, in the order of the actions.
pub data Answers : List RequestedClientAction → List ProcessedClientAction → Type 0 where
  no_answer : Answers [] []
  answer :
      (a : RequestedClientAction) (p : ProcessedClientAction) (as' : List RequestedClientAction)
      (ps : List ProcessedClientAction)
      → p.action_type ≡ a.action_type
      → Outcome a p
      → Answers as' ps
      → Answers (a ∷ as') (p ∷ ps)

-- The parsing of parameters and the making of an encrypter return, with a value or an error.
pub record IsAnswering {W F : Type 0} (env : Env W F) : Type 0 where
  pub kms : (b : Bytes) → Returns (env.unmarshal_kms_request b)
  pub session_type : (b : Bytes) → Returns (env.unmarshal_session_type b)
  pub encryptor : (k s t : Bytes) (w : W) → Returns (env.build_encryptor k s t w).0

record IsAnswered (a : RequestedClientAction) (r : Result ProcessedClientAction) : Type 0 where
  pub answered : ProcessedClientAction
  pub returns : r ≡ ok answered
  pub kind : answered.action_type ≡ a.action_type
  pub outcome : Outcome a answered

-- The answers to a list of actions.
record AllAnswered (as' : List RequestedClientAction) (r : Result (List ProcessedClientAction))
    : Type 0 where
  pub answered : List ProcessedClientAction
  pub returns : r ≡ ok answered
  pub each : Answers as' answered

module _ {W F : Type 0} (env : Env W F) (returns : IsAnswering env) where
  kms-IsAnswered :
      (a : RequestedClientAction) (s : State W F)
      → eq_bytes a.action_type kms_encryption ≡ true
      → IsAnswered a (process_action env a s).0
  unfolding process_action process_kms_encryption_handshake_action kms_done data_key processed
  kms-IsAnswered a s q =
      let known : is_known a ≡ true = rw q refl in
      elim (Returns-cases (env.unmarshal_kms_request a.action_parameters)
        (returns.kms a.action_parameters)) [
          | inl (request, u) ↦
              elim (Returns-cases
                (env.build_encryptor request.kms_key_id s.channel.session_id s.channel.target_id
                  s.world).0
                (returns.encryptor request.kms_key_id s.channel.session_id s.channel.target_id
                  s.world)) [
                    | inl (k, b) ↦
                        rw (q, u, b)
                          (record {
                            answered = _;
                            returns = refl;
                            kind = refl;
                            outcome = done known refl refl;
                          })
                    | inr (e, b) ↦
                        rw (q, u, b)
                          (record {
                            answered = _;
                            returns = refl;
                            kind = refl;
                            outcome = refused e known refl refl refl;
                          })
                  ]
          | inr (e, u) ↦
              rw (q, u)
                (record {
                  answered = _;
                  returns = refl;
                  kind = refl;
                  outcome = refused e known refl refl refl;
                })
        ]

  session_type-Returns :
      (b : Bytes) (s : State W F) → Returns (process_session_type_handshake_action env b s).0
  unfolding process_session_type_handshake_action choose_session_type set_session_type
  session_type-Returns b s = ground (arith, returns.session_type b)

  session_type-IsAnswered :
      (a : RequestedClientAction) (s : State W F)
      → eq_bytes a.action_type kms_encryption ≡ false
      → eq_bytes a.action_type session_type_action ≡ true
      → IsAnswered a (process_action env a s).0
  unfolding process_action session_type_done processed
  session_type-IsAnswered a s q q' =
      let known : is_known a ≡ true = rw q q' in
      elim (Returns-cases (process_session_type_handshake_action env a.action_parameters s).0
        (session_type-Returns a.action_parameters s)) [
          | inl (x, u) ↦
              rw (q, q', u)
                (record {
                  answered = _;
                  returns = refl;
                  kind = refl;
                  outcome = done known refl refl;
                })
          | inr (e, u) ↦
              rw (q, q', u)
                (record {
                  answered = _;
                  returns = refl;
                  kind = refl;
                  outcome = refused e known refl refl refl;
                })
        ]

  action-IsAnswered :
      (a : RequestedClientAction) (s : State W F) → IsAnswered a (process_action env a s).0
  unfolding process_action processed
  action-IsAnswered a s = elim (Bool-cases (eq_bytes a.action_type kms_encryption)) [
    | inl q ↦ kms-IsAnswered a s q
    | inr q ↦ elim (Bool-cases (eq_bytes a.action_type session_type_action)) [
      | inl q' ↦ session_type-IsAnswered a s q q'
      | inr q' ↦
          rw (q, q')
            (record {
              answered = _;
              returns = refl;
              kind = refl;
              outcome = unknown (rw q q') refl refl refl;
            })
    ]
  ]

  actions-AllAnswered :
      (as' : List RequestedClientAction) (s : State W F)
      → AllAnswered as' (process_actions env as' s).0
  unfolding process_actions
  actions-AllAnswered [] s = record { answered = []; returns = refl; each = no_answer }
  actions-AllAnswered (a ∷ as') s =
      let p = action-IsAnswered a s in
      let r = actions-AllAnswered as' (process_action env a s).1 in
      rw (p.returns, r.returns)
        (record {
          answered = p.answered ∷ r.answered;
          returns = refl;
          each = answer a p.answered as' r.answered p.kind p.outcome r.each;
        })

  -- A request of the handshake that can be parsed is always answered, if parsing and the making of an encrypter
  -- return: the response that is sent has the version of the client and an answer to each requested action, in the
  -- order of the request. It is sent by the channel that processing the actions has left, which knows the
  -- agent's version.
  pub handle_handshake_request-Answers :
      (m : ClientMessage) (s : State W F) (request : HandshakeRequestPayload)
      → deserialize_handshake_request env m ≡ ok request
      → let s' = record s {
        channel = record s.channel { agent_version = request.agent_version };
      } in
        (ps : List ProcessedClientAction) × Answers request.requested_client_actions ps
        × (handle_handshake_request env m s
            ≡ send_handshake_response env
                (record {
                  client_version = version;
                  processed_client_actions = ps;
                  errors = errors_of env ps;
                })
                (process_actions env request.requested_client_actions s').1)
  unfolding handle_handshake_request
  handle_handshake_request-Answers m s request u =
      let s' = record s { channel = record s.channel { agent_version = request.agent_version } } in
      let r = actions-AllAnswered request.requested_client_actions s' in
      (r.answered, r.each, rw (u, r.returns) refl)
