-- ===== src/DataChannel/Encrypters/Challenge.antt =====
-- The encryption challenge of an agent, with the encrypters of the repository.
use mathlib.Core.Path.{subst}
use ecstoolkit.Base.{ℕ, ◌≡◌, refl, ap, ◌∙◌, ◌++◌, some, ok, arith, []}
use ecstoolkit.Buffer.{Bytes}
use ecstoolkit.Message.PayloadType
use ecstoolkit.Message.Types.{ClientMessage}
use ecstoolkit.Message.Handshake.{EncryptionChallenge}
use ecstoolkit.Encryption.{Primitives, Encrypter, nonce_size, encrypt, decrypt}
use ecstoolkit.Encryption.RoundTrip.{IsAead, encrypt-frame, decrypt-encrypt}
use ecstoolkit.DataChannel.State.{State, Env}
use ecstoolkit.DataChannel.Sending.{send_input_data_message, encrypt_data, encrypt_by}
use ecstoolkit.DataChannel.Handshake.{handle_encryption_challenge_request, decrypt_data, decrypt_by}
use ecstoolkit.DataChannel.Encrypters.{
  Keyring, encrypter_at, with_encrypters, encrypt_at, decrypt_at, by,
}

-- The keys of the two sides of a session: what one encrypts with, the other decrypts with, and both are valid.
pub record ArePeers {W : Type 0} (prim : Primitives W) (client agent : Encrypter) : Type 0 where
  pub to_agent : agent.decryption_key ≡ client.encryption_key
  pub to_client : client.decryption_key ≡ agent.encryption_key
  pub client_valid : prim.new_aead client.encryption_key ≡ ok tt
  pub agent_valid : prim.new_aead agent.encryption_key ≡ ok tt

-- Such a read of the random source gives a nonce.
pub record HasNonce {W : Type 0} (prim : Primitives W) (w : W) : Type 0 where
  pub nonce : Bytes
  pub left : W
  pub read : prim.read_full nonce_size w ≡ (ok nonce, left)

module _ {W F : Type 0} (prim : Primitives W) (a : IsAead prim) (env : Env (Keyring W) F) where
  -- A side makes a cipher text of a text that the other side reads.
  sealed :
      (client agent : Encrypter) (text : Bytes) (w v : W)
      → agent.decryption_key ≡ client.encryption_key
      → prim.new_aead client.encryption_key ≡ ok tt
      → HasNonce prim w
      → (cipher : Bytes) × ((encrypt prim client text w).0 ≡ ok cipher)
        × (decrypt prim agent cipher v ≡ (ok text, v))
  sealed client agent text w v k h n =
      let e = encrypt-frame prim client text n.nonce w n.left h n.read in
      let q =
        (decrypt-encrypt prim client agent text n.nonce [] w n.left v a k h n.read
          (omega arith)).0 in
      (n.nonce ++ prim.seal client.encryption_key n.nonce text, ap (λ p. p.0) e, rw e at q)

  decrypt_data-client :
      (s : State (Keyring W) F) (i : ℕ) (client : Encrypter) (text : Bytes)
      → s.channel.encryption ≡ some i
      → encrypter_at s.world.encrypters i ≡ some client
      → let p = decrypt prim client text s.world.world in
        decrypt_data (with_encrypters prim env) text s
        ≡ (p.0, record s { world = record s.world { world = p.1 } })
  unfolding decrypt_data decrypt_by decrypt_at by
  decrypt_data-client s i client text armed there = rw (armed, there) refl

  encrypt_data-client :
      (s : State (Keyring W) F) (i : ℕ) (client : Encrypter) (text : Bytes)
      → s.channel.encryption ≡ some i
      → encrypter_at s.world.encrypters i ≡ some client
      → let p = encrypt prim client text s.world.world in
        encrypt_data (with_encrypters prim env) text s
        ≡ (p.0, record s { world = record s.world { world = p.1 } })
  unfolding encrypt_data encrypt_by encrypt_at by
  encrypt_data-client s i client text armed there = rw (armed, there) refl

  -- The sides of a session have matching valid keys, and the channel's encrypter is that of the client. The agent's
  -- challenge is a text that the agent has encrypted, and the random source works on both sides. Then the
  -- client answers: it sends a challenge response, and what is in it the agent reads as the text.
  pub challenge-answered :
      (m : ClientMessage) (s : State (Keyring W) F) (i : ℕ) (client agent : Encrypter)
      (text challenge : Bytes) (marshalled : EncryptionChallenge → Bytes) (u v : W)
      → s.channel.encryption ≡ some i
      → encrypter_at s.world.encrypters i ≡ some client
      → ArePeers prim client agent
      → HasNonce prim u
      → HasNonce prim s.world.world
      → (encrypt prim agent text u).0 ≡ ok challenge
      → env.unmarshal_challenge m.payload ≡ ok (record { challenge = challenge })
      → ((c : EncryptionChallenge) → env.marshal_challenge c ≡ ok (marshalled c))
      → (answer : Bytes) × (w : W) × (handle_encryption_challenge_request
            (with_encrypters prim env)
            m
            s
          ≡ send_input_data_message
              (with_encrypters prim env)
              PayloadType.enc_challenge_response
              (marshalled (record { challenge = answer }))
              (record s { world = record s.world { world = w } }))
        × (decrypt prim agent answer v ≡ (ok text, v))
  unfolding handle_encryption_challenge_request
  challenge-answered m s i client agent text challenge marshalled u v armed there peers nu n sent
        parsed marshal =
      let x = sealed agent client text u s.world.world peers.to_client peers.agent_valid nu in
      let same : x.0 ≡ challenge = cc in
      let d : decrypt prim client challenge s.world.world ≡ (ok text, s.world.world) =
        subst (λ c. decrypt prim client c s.world.world ≡ (ok text, s.world.world)) same x.2 in
      let d' : decrypt_data (with_encrypters prim env) challenge s ≡ (ok text, s) =
        decrypt_data-client s i client challenge armed there
        ∙ ap (λ p. (p.0, record s { world = record s.world { world = p.1 } })) d in
      let y = sealed client agent text s.world.world v peers.to_agent peers.client_valid n in
      let w = (encrypt prim client text s.world.world).1 in
      let e : encrypt_data (with_encrypters prim env) text s
          ≡ (ok y.0, record s { world = record s.world { world = w } }) =
        encrypt_data-client s i client text armed there
        ∙ ap (λ r. (r, record s { world = record s.world { world = w } })) y.1 in
      (y.0, w, rw (parsed, d', e, marshal (record { challenge = y.0 })) refl, y.2)
