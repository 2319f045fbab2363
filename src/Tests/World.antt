-- ===== src/Tests/World.antt =====
-- A concrete outside for the tests: libraries that behave as documented, a clock that counts, and a
-- connection that takes everything.
use ecstoolkit.Base.{
  ℕ, ◌+◌, ◌*◌, ◌/◌, ◌-◌, refl, true, [], ◌∷◌, pos, pos_part, ok, err, invalid, if◌then◌else◌,
  length, replicate, ◌==◌, arith, Returns, leb,
}
use ecstoolkit.Buffer.{Bytes}
use ecstoolkit.Message.Types.{ClientMessage, Libraries, Documented}
use ecstoolkit.Message.Codec.Layout.{HasFields, IsSendable}
use ecstoolkit.DataChannel.State.{Env, State, Floats, new_data_channel}

abbrev pub sample_libraries : Libraries
sample_libraries = record {
  uuid_from_bytes = λ b. if length b == 16 then ok b else err invalid;
  uuid_marshal_binary = λ u. ok u;
  sha256 = λ b. replicate 32 7;
}

pub sample_libraries-Documented : Documented sample_libraries
sample_libraries-Documented = record {
  from_bytes = λ u h. ground (arith, h.size);
  marshal_binary = λ u h. refl;
  digest_size = λ b. refl;
}

pub sample_from_bytes-Returns : (u : Bytes) → Returns (sample_libraries.uuid_from_bytes u)
sample_from_bytes-Returns u = ground arith

abbrev pub sample_id : Bytes
sample_id = 1 ∷ 2 ∷ 3 ∷ 4 ∷ 5 ∷ 6 ∷ 7 ∷ 8 ∷ 9 ∷ 10 ∷ 11 ∷ 12 ∷ 13 ∷ 14 ∷ 15 ∷ 16 ∷ []

-- An input message of type "ack" with the payload "hi".
abbrev pub sample_message : ClientMessage
sample_message = record {
  header_length = 116;
  message_type = 97 ∷ 99 ∷ 107 ∷ [];
  schema_version = 1;
  created_date = 1700000000000;
  sequence_number = pos 3;
  flags = 3;
  message_id = sample_id;
  payload_digest = replicate 32 7;
  payload_type = 1;
  payload_length = 2;
  payload = 104 ∷ 105 ∷ [];
}

pub sample_message-HasFields : HasFields sample_message
sample_message-HasFields = record {
  type_token = ground arith;
  type_fits = omega arith;
  schema_fits = omega arith;
  date_fits = omega arith;
  sequence_fits = (omega arith, omega arith);
  flags_fit = omega arith;
  id_uuid = record { size = refl; bytes = ground arith };
  id_not_nil = λ e. cc;
  payload_type_fits = omega arith;
  payload_fits = omega arith;
}

pub sample_message-IsSendable : IsSendable sample_message
sample_message-IsSendable = record { fields = sample_message-HasFields; payload_some = omega arith }

abbrev pub sample_floats : Floats ℕ
sample_floats = record {
  of_ℤ = pos_part;
  ratio = λ n d. n / d;
  add = λ a b. a + b;
  sub = λ a b. a - b;
  mul = λ a b. a * b;
  abs = λ a. a;
  max = λ a b. if leb a b then b else a;
  truncate = pos;
}

-- Nothing happens, and what is encoded cannot be decoded, but for challenges.
abbrev pub still_env : {W : Type 0} → Env W ℕ
still_env = record {
  lib = sample_libraries;
  floats = sample_floats;
  now = λ w. (1000000, w);
  new_uuid = λ w. (sample_id, w);
  ws_send = λ b kind w. (ok tt, w);
  call_handler = λ k m w. (ok true, w);
  call_stop_handler = λ w. (ok tt, w);
  build_encryptor = λ key session target w. (ok 5, w);
  encrypt = λ k b w. (ok b, w);
  decrypt = λ k b w. (ok b, w);
  get_encrypted_data_key = λ k w. k ∷ [];
  uuid_string = λ u. u;
  marshal_acknowledge = λ c. ok (123 ∷ 125 ∷ []);
  unmarshal_acknowledge = λ b. err invalid;
  unmarshal_channel_closed = λ b. err invalid;
  unmarshal_handshake_request = λ b. err invalid;
  unmarshal_handshake_complete = λ b. err invalid;
  unmarshal_kms_request = λ b. ok (record { kms_key_id = b });
  unmarshal_session_type = λ b. err invalid;
  marshal_handshake_response = λ r. err invalid;
  unmarshal_challenge = λ b. ok (record { challenge = b });
  marshal_challenge = λ c. ok c.challenge;
}

abbrev pub sample_env : Env ℕ ℕ
sample_env = record still_env { now = λ w. (w, w + 1) }

-- A new channel, at time 500.
abbrev pub sample_state : State ℕ ℕ
sample_state = record { channel = new_data_channel sample_env (115 ∷ []) (116 ∷ []); world = 500 }
