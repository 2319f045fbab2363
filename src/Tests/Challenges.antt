-- ===== src/Tests/Challenges.antt =====
-- A channel that has an encrypter, and the challenge of its agent.
use ecstoolkit.Base.{ℕ, ◌≡◌, refl, [], ◌∷◌, ◌++◌, some, ok, replicate}
use ecstoolkit.Buffer.{Bytes}
use ecstoolkit.Message.PayloadType
use ecstoolkit.Message.Types.{ClientMessage}
use ecstoolkit.Encryption.{encrypt, decrypt}
use ecstoolkit.DataChannel.State.{State, new_data_channel}
use ecstoolkit.DataChannel.Sending.{send_input_data_message}
use ecstoolkit.DataChannel.Handshake.{handle_encryption_challenge_request}
use ecstoolkit.DataChannel.Encrypters.{Keyring, encrypter_at, with_encrypters}
use ecstoolkit.DataChannel.Encrypters.Challenge.{challenge-answered}
use ecstoolkit.Tests.Services.{clear_cipher, clear_cipher-IsAead, client, agent}
use ecstoolkit.Tests.World.{still_env, sample_message}

-- The client's encrypter is the second of two.
abbrev armed_state : State (Keyring ℕ) ℕ
armed_state = record {
  channel = record (new_data_channel (still_env {W = Keyring ℕ}) (115 ∷ []) (116 ∷ [])) {
    encryption = some 1;
  };
  world = record { encrypters = agent ∷ client ∷ []; world = 9 };
}

-- The agent's text, sealed when its time is 3.
abbrev sealed_text : Bytes
sealed_text = replicate 12 3 ++ (104 ∷ 105 ∷ [])

abbrev challenge_message : ClientMessage
challenge_message = record sample_message {
  payload_type = PayloadType.enc_challenge_request;
  payload = sealed_text;
}

challenge-answered_example :
    (answer : Bytes) × (w : ℕ) × (handle_encryption_challenge_request
        (with_encrypters clear_cipher still_env)
        challenge_message
        armed_state
      ≡ send_input_data_message
          (with_encrypters clear_cipher still_env)
          PayloadType.enc_challenge_response
          answer
          (record armed_state { world = record armed_state.world { world = w } }))
    × (decrypt clear_cipher agent answer 20 ≡ (ok (104 ∷ 105 ∷ []), 20))
unfolding new_data_channel encrypter_at encrypt
challenge-answered_example =
    challenge-answered clear_cipher clear_cipher-IsAead (still_env {W = Keyring ℕ})
      challenge_message armed_state 1 client agent (104 ∷ 105 ∷ []) sealed_text (λ c. c.challenge) 3
      20 refl refl
      (record { to_agent = refl; to_client = refl; client_valid = refl; agent_valid = refl })
      (record { nonce = replicate 12 3; left = 4; read = refl })
      (record { nonce = replicate 12 9; left = 10; read = refl }) refl refl (λ c. refl)
