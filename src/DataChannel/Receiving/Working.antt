-- ===== src/DataChannel/Receiving/Working.antt =====
-- What a call that hands a message on, or acknowledges it, leaves when everything outside works.
use ecstoolkit.Base.{
  not, ◌&&◌, ap, ℕ, ◌/◌, ◌<◌, ◌^◌, ◌≡◌, ◌≢◌, refl, ◌∙◌, pos, true, false, List, [], ◌∷◌, ◌++◌,
  Result, ok, arith, length, eq_bytes, ◌==◌,
}
use ecstoolkit.Buffer.{Bytes}
use ecstoolkit.Message.PayloadType
use ecstoolkit.Message.Types.{
  ClientMessage, AcknowledgeContent, Documented, IsUuid, uuid_nil, acknowledge_message,
}
use ecstoolkit.Message.Codec.Layout.{IsSendable, serialize-layout}
use ecstoolkit.DataChannel.State.{State, DataChannel, Env, registered}
use ecstoolkit.DataChannel.Sending.{send_acknowledge_message, serialize_acknowledge, send_message}
use ecstoolkit.DataChannel.Handlers.{process_output_message_with_handlers, call_handlers, call}
use ecstoolkit.DataChannel.Receiving.{
  decrypt_payload, handle_default_output_message, process_payload,
}
use ecstoolkit.DataChannel.Receiving.Sequence.{acknowledge-channel}

-- The outcome of encoding/json: some bytes, which fit in a message.
pub record IsMarshalled (r : Result Bytes) : Type 0 where
  pub bytes : Bytes
  pub returns : r ≡ ok bytes
  pub some : 0 < length bytes
  pub fits : length bytes < 2 ^ 31

-- Everything outside works: the libraries do as documented, the clock is before the year 292 million, each
-- new UUID is one and not nil, an acknowledgement can be encoded and sent. The handler `h` is always ready, and it
-- alone writes to the log of the plugin, the message it is given.
pub record IsWorking {W F : Type 0} (env : Env W F) (log : W → List ClientMessage) (h : ℕ)
    : Type 0 where
  pub documented : Documented env.lib
  pub clock : (w : W) → (env.now w).0 / 1000000 < 2 ^ 63
  pub clock_log : (w : W) → log (env.now w).1 ≡ log w
  pub uuid : (w : W) → IsUuid (env.new_uuid w).0
  pub uuid_some : (w : W) → (env.new_uuid w).0 ≢ uuid_nil
  pub uuid_log : (w : W) → log (env.new_uuid w).1 ≡ log w
  pub acknowledgement : (a : AcknowledgeContent) → IsMarshalled (env.marshal_acknowledge a)
  pub sending : (b : Bytes) (kind : ℕ) (w : W) → (env.ws_send b kind w).0 ≡ ok tt
  pub sending_log : (b : Bytes) (kind : ℕ) (w : W) → log (env.ws_send b kind w).1 ≡ log w
  pub handling : (m : ClientMessage) (w : W) → (env.call_handler h m w).0 ≡ ok true
  pub handling_log :
      (m : ClientMessage) (w : W) → log (env.call_handler h m w).1 ≡ log w ++ (m ∷ [])

-- A channel for which the handler `h` of the session is registered, without encryption.
pub record IsServing {F : Type 0} (h : ℕ) (c : DataChannel F) : Type 0 where
  pub handlers : c.output_stream_handlers ≡ registered h ∷ []
  pub specific : c.is_session_specific_handler_set ≡ true
  pub plain : c.encryption_enabled ≡ false

module _ {W F : Type 0} (env : Env W F) (log : W → List ClientMessage) (h : ℕ)
    (k : IsWorking env log h) where
  pub acknowledge-success :
      (m : ClientMessage) (s : State W F)
      → ((send_acknowledge_message env m s).0 ≡ ok tt)
        × (log (send_acknowledge_message env m s).1.world ≡ log s.world)
  unfolding send_acknowledge_message serialize_acknowledge send_message
  acknowledge-success m s =
      let content : AcknowledgeContent = record {
        message_type = m.message_type;
        message_id = env.uuid_string m.message_id;
        sequence_number = m.sequence_number;
        is_sequential_message = true;
      } in
      let c = k.acknowledgement content in
      let w1 = (env.new_uuid s.world).1 in
      let w2 = (env.now w1).1 in
      let a : ClientMessage = record {
        header_length = 0;
        message_type = acknowledge_message;
        schema_version = 1;
        created_date = (env.now w1).0 / 1000000;
        sequence_number = pos 0;
        flags = 3;
        message_id = (env.new_uuid s.world).0;
        payload_digest = [];
        payload_type = 0;
        payload_length = 0;
        payload = c.bytes;
      } in
      let i : IsSendable a = record {
        fields = record {
          type_token = ground arith;
          type_fits = omega arith;
          schema_fits = omega arith;
          date_fits = k.clock w1;
          sequence_fits = (omega arith, omega arith);
          flags_fit = omega arith;
          id_uuid = k.uuid s.world;
          id_not_nil = k.uuid_some s.world;
          payload_type_fits = omega arith;
          payload_fits = c.fits;
        };
        payload_some = c.some;
      } in
      rw c.returns (
        rw (serialize-layout env.lib k.documented a i)
          (k.sending _ _ _, k.sending_log _ _ _ ∙ k.clock_log _ ∙ k.uuid_log _))

  -- To acknowledge a message changes the world only.
  pub acknowledge-world :
      (m : ClientMessage) (s : State W F)
      → send_acknowledge_message env m s
        ≡ (ok tt, record s { world = (send_acknowledge_message env m s).1.world })
  acknowledge-world m s =
      let t = send_acknowledge_message env m s in
      ap (λ r. (r, t.1)) (acknowledge-success m s).0
      ∙ ap (λ c. (ok tt, record { channel = c; world = t.1.world })) (acknowledge-channel env m s)

  one_handler :
      (m : ClientMessage) (s : State W F)
      → call_handlers env 1 0 (registered h ∷ []) false m s
        ≡ (ok true, record s { world = (env.call_handler h m s.world).1 })
  unfolding call_handlers call
  one_handler m s = rw (k.handling m s.world) refl

  pub handlers-success :
      (m : ClientMessage) (s : State W F)
      → IsServing h s.channel
      → process_output_message_with_handlers env m s
        ≡ (ok true, record s { world = (env.call_handler h m s.world).1 })
  unfolding process_output_message_with_handlers
  handlers-success m s v =
      let e : (not (eq_bytes s.channel.session_type [])
            && not s.channel.is_session_specific_handler_set)
          ≡ false =
        ground (arith, v.specific) in
      rw e (ap (λ hs. call_handlers env (length hs) 0 hs false m s) v.handlers ∙ one_handler m s)

  pub decrypt-plain :
      (m : ClientMessage) (s : State W F)
      → IsServing h s.channel
      → decrypt_payload env m s ≡ (ok m, s)
  unfolding decrypt_payload
  decrypt-plain m s v = rw v.plain refl

  -- A message that is for the handlers is handed on and then acknowledged, which leaves the channel.
  pub record IsHandedOn (m : ClientMessage) (s : State W F) (p : Result (Unit {0}) × State W F)
      : Type 0 where
    pub returns : p.0 ≡ ok tt
    pub channel : p.1.channel ≡ s.channel
    pub logged : log p.1.world ≡ log s.world ++ (m ∷ [])

  pub process_payload-IsHandedOn :
      (m : ClientMessage) (s : State W F)
      → (m.payload_type == PayloadType.handshake_request) ≡ false
      → (m.payload_type == PayloadType.handshake_complete) ≡ false
      → (m.payload_type == PayloadType.enc_challenge_request) ≡ false
      → IsServing h s.channel
      → IsHandedOn m s (process_payload env m s)
  unfolding process_payload handle_default_output_message
  process_payload-IsHandedOn m s t1 t2 t3 v =
      let w = (env.call_handler h m s.world).1 in
      let a = acknowledge-success m (record s { world = w }) in
      rw (t1, t2, t3)
        (rw (decrypt-plain m s v) (
          rw (handlers-success m s v) (record {
            returns = a.0;
            channel = acknowledge-channel env m (record s { world = w });
            logged = a.1 ∙ k.handling_log m s.world;
          })))
