-- ===== src/DataChannel/Handshake/Established.antt =====
-- What a handshake makes of the session type, up to the result of Open.
use mathlib.Core.Path.{subst}
use ecstoolkit.Base.{
  ◌∙◌, ℕ, sym, ◌≡◌, refl, ap, not, List, [], ◌∷◌, Result, ok, err, unknown_session_type,
  if◌then◌else◌, eq_bytes, arith, panic, blocked, Bool-cases, inl, inr,
}
use ecstoolkit.Buffer.{Bytes}
use ecstoolkit.Message.PayloadType
use ecstoolkit.Message.Types.{ClientMessage}
use ecstoolkit.Message.Handshake.{
  HandshakeRequestPayload, HandshakeCompletePayload, HandshakeResponsePayload,
  ProcessedClientAction,
}
use ecstoolkit.DataChannel.State.{State, DataChannel, Env}
use ecstoolkit.DataChannel.State.Monad.{continue}
use ecstoolkit.DataChannel.Sending.{push_outgoing, send_input_data_message}
use ecstoolkit.DataChannel.Sending.Outcome.{push_sent, send_outcome}
use ecstoolkit.DataChannel.Handlers.{send_type_set}
use ecstoolkit.DataChannel.Handshake.{
  process_actions, send_handshake_response, handle_handshake_request, errors_of,
  handle_handshake_complete, deserialize_handshake_request, deserialize_handshake_complete,
}
use ecstoolkit.Version.{version}
use ecstoolkit.DataChannel.Lifecycle.{Peer, session_type_set, establish_session_type}
use ecstoolkit.DataChannel.Handshake.Asked.{Knows, linked, actions-Knows, asked_for}

established :
    {W F : Type 0} (peer : Peer W) (kind : Bytes) (s : State W F)
    → s.channel.session_type ≡ kind
    → establish_session_type peer (session_type_set (not (eq_bytes kind []))) s
      ≡ ((if eq_bytes kind [] then err unknown_session_type else ok kind), s)
unfolding establish_session_type
established peer kind s e = elim (Bool-cases (eq_bytes kind [])) [
  | inl q ↦ rw q refl
  | inr q ↦ rw q (ap (λ k. (ok k, s)) e)
]

module _ {W F : Type 0} (env : Env W F) where
  pushed-Knows :
      (kind content : Bytes) (t : ℕ) (c : DataChannel F) (w : W)
      → Knows kind c
      → Knows kind (push_sent env content t c w).1.channel
  unfolding push_outgoing
  pushed-Knows kind content t c w k = record {
    session_type = ground (arith, k.session_type);
    nothing_set = ground (arith, k.nothing_set);
  }

  responded-Knows :
      (kind : Bytes) (r : Result Bytes) (s : State W F)
      → Knows kind s.channel
      → Knows kind
          (continue r (send_input_data_message env PayloadType.handshake_response) s).1.channel
  responded-Knows kind (ok b) s k =
      send_outcome env (λ p. Knows kind p.1.channel) PayloadType.handshake_response b s
        (λ r w ne. k) (λ content t w. pushed-Knows kind content t s.channel w k)
  responded-Knows kind (err e) s k = k
  responded-Knows kind panic s k = k
  responded-Knows kind blocked s k = k

  response-Knows :
      (kind : Bytes) (response : HandshakeResponsePayload) (s : State W F)
      → Knows kind s.channel
      → Knows kind (send_handshake_response env response s).1.channel
  unfolding send_handshake_response
  response-Knows kind response s k =
      responded-Knows kind (env.marshal_handshake_response response) s k

  request-Knows :
      (m : ClientMessage) (request : HandshakeRequestPayload) (s : State W F)
      → deserialize_handshake_request env m ≡ ok request
      → (handle_handshake_request env m s).0 ≡ ok tt
      → Knows [] s.channel
      → Knows
          (asked_for env [] request.requested_client_actions)
          (handle_handshake_request env m s).1.channel
  unfolding handle_handshake_request
  request-Knows m request s d e k =
      let as' = request.requested_client_actions in
      let kind = asked_for env [] as' in
      let s' = record s { channel = record s.channel { agent_version = request.agent_version } } in
      let k' : Knows [] s'.channel = record {
        session_type = k.session_type;
        nothing_set = k.nothing_set;
      } in
      let done = process_actions env as' s' in
      let f = λ (ps : List ProcessedClientAction). send_handshake_response env (record {
        client_version = version;
        processed_client_actions = ps;
        errors = errors_of env ps;
      }) in
      let q : handle_handshake_request env m s ≡ continue done.0 f done.1 = rw d refl in
      let kind = asked_for env [] as' in
      subst (λ (x : Result (Unit {0}) × State W F). Knows kind x.1.channel) (sym q)
        (linked env (λ (t : State W F). Knows kind t.channel) done.0 f done.1 tt
          (ap (λ x. x.0) (sym q) ∙ e)
          (λ ps e' _. response-Knows kind _ done.1 (actions-Knows env [] as' s' ps e' k')))

  complete-Knows :
      (m : ClientMessage) (kind : Bytes) (done : HandshakeCompletePayload) (s : State W F)
      → deserialize_handshake_complete env m ≡ ok done
      → Knows kind s.channel
      → ((handle_handshake_complete env m s).0 ≡ ok tt)
        × ((handle_handshake_complete env m s).1.channel.session_type ≡ kind)
        × ((handle_handshake_complete env m s).1.channel.is_session_type_set
            ≡ not (eq_bytes kind []) ∷ [])
  unfolding handle_handshake_complete send_type_set
  complete-Knows m kind done s d k = rw (d, k.nothing_set, k.session_type) (refl, refl, refl)

  -- The handler of a handshake request succeeds, whatever actions the request has, before which no session type
  -- was known; and next the handshake completes. Then the select of Open receives whether a session type has
  -- been asked for that there is a plugin for, and Open returns the plugin of the last such action, or the
  -- error of an unknown session type where there is none.
  pub session_type-established :
      (peer : Peer W) (request_message complete_message : ClientMessage)
      (request : HandshakeRequestPayload) (done : HandshakeCompletePayload) (s s' : State W F)
      → deserialize_handshake_request env request_message ≡ ok request
      → deserialize_handshake_complete env complete_message ≡ ok done
      → s.channel.session_type ≡ []
      → s.channel.is_session_type_set ≡ []
      → handle_handshake_request env request_message s ≡ (ok tt, s')
      → let kind = asked_for env [] request.requested_client_actions in
        let (r, t) = handle_handshake_complete env complete_message s' in
        (r ≡ ok tt)
        × (t.channel.is_session_type_set ≡ not (eq_bytes kind []) ∷ [])
        × (establish_session_type peer (session_type_set (not (eq_bytes kind []))) t
            ≡ ((if eq_bytes kind [] then err unknown_session_type else ok kind), t))
  session_type-established peer request_message complete_message request done s s' r d none_known
        nothing_sent h =
      let kind = asked_for env [] request.requested_client_actions in
      let k =
        request-Knows request_message request s r (ap (λ x. x.0) h)
          (record { session_type = none_known; nothing_set = nothing_sent }) in
      let k' : Knows kind s'.channel =
        subst (λ (x : Result (Unit {0}) × State W F). Knows kind x.1.channel) h k in
      let c = complete-Knows complete_message kind done s' d k' in
      let t = (handle_handshake_complete env complete_message s').1 in
      (c.0, c.2, established peer kind t c.1)
