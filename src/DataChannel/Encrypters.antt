-- ===== src/DataChannel/Encrypters.antt =====
-- datachannel/encryption.go: the builder of encrypters, and the interface `IEncrypter` as encryption/encrypter.go
-- implements it. The encrypters that have been built stand beside the world, each known by its index.
pub mod Challenge
use ecstoolkit.Base.{
  ℕ, zero, suc, List, [], ◌∷◌, ◌++◌, Option, some, none, Result, ok, err, panic, blocked, length,
}
use ecstoolkit.Buffer.{Bytes}
use ecstoolkit.Message.Types.{codes}
use ecstoolkit.Encryption.{Primitives, Encrypter, new_encrypter, encrypt, decrypt}
use ecstoolkit.DataChannel.State.{Env}

pub record Keyring (W : Type 0) : Type 0 where
  pub encrypters : List Encrypter
  pub world : W

unfoldable pub encrypter_at : List Encrypter → ℕ → Option Encrypter
encrypter_at [] k = none
encrypter_at (e ∷ es) zero = some e
encrypter_at (e ∷ es) (suc k) = encrypter_at es k

-- The context of the key: the session and the target.
abbrev pub encryption_context : Bytes → Bytes → List (Bytes × Bytes)
encryption_context session_id target_id =
    (codes "aws:ssm:SessionId", session_id) ∷ (codes "aws:ssm:TargetId", target_id) ∷ []

module _ {W : Type 0} (prim : Primitives W) where
  added : List Encrypter → Result Encrypter × W → Result ℕ × Keyring W
  added es (ok e, w) = (ok (length es), record { encrypters = es ++ (e ∷ []); world = w })
  added es (err e, w) = (err e, record { encrypters = es; world = w })
  added es (panic, w) = (panic, record { encrypters = es; world = w })
  added es (blocked, w) = (blocked, record { encrypters = es; world = w })

  -- `Build`
  unfoldable pub build : Bytes → Bytes → Bytes → Keyring W → Result ℕ × Keyring W
  unfolding added
  build kms_key_id session_id target_id k =
      added k.encrypters
        (new_encrypter prim kms_key_id (encryption_context session_id target_id) k.world)

  -- A call of a method of an encrypter; a nil pointer has none.
  by : Option Encrypter → (Encrypter → W → Result Bytes × W) → Keyring W → Result Bytes × Keyring W
  by none m k = (panic, k)
  by (some e) m k = let (r, w) = m e k.world in (r, record k { world = w })

  unfoldable pub encrypt_at : ℕ → Bytes → Keyring W → Result Bytes × Keyring W
  unfolding by
  encrypt_at i text k = by (encrypter_at k.encrypters i) (λ e. encrypt prim e text) k

  unfoldable pub decrypt_at : ℕ → Bytes → Keyring W → Result Bytes × Keyring W
  unfolding by
  decrypt_at i text k = by (encrypter_at k.encrypters i) (λ e. decrypt prim e text) k

key_of : Option Encrypter → Bytes
key_of none = []
key_of (some e) = e.cipher_text_key

-- `GetEncryptedDataKey`
unfoldable pub data_key_at : {W : Type 0} → ℕ → Keyring W → Bytes
unfolding key_of
data_key_at i k = key_of (encrypter_at k.encrypters i)

-- What is outside a channel, with the encrypters of the repository.
abbrev pub with_encrypters : {W F : Type 0} → Primitives W → Env (Keyring W) F → Env (Keyring W) F
with_encrypters prim env = record env {
  build_encryptor = build prim;
  encrypt = encrypt_at prim;
  decrypt = decrypt_at prim;
  get_encrypted_data_key = data_key_at;
}
