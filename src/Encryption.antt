-- ===== src/Encryption.antt =====
-- encryption/encrypter.go and encryption/kmsservice.go. AES-GCM, the random source and KMS are parameters.
pub mod RoundTrip
use ecstoolkit.Base.{
  ℕ, Bool, List, [], ◌++◌, Result, ok, err, panic, blocked, Error, length, take, drop, replicate,
  ltb, ◌+◌, ◌/◌, if◌then◌else◌,
}
use ecstoolkit.Buffer.{Bytes}
use ecstoolkit.Method.{Method, pure, lift, continue, ◌>>=◌, ◌>>◌}

abbrev pub nonce_size : ℕ
nonce_size = 12

abbrev pub kms_key_size_in_bytes : ℕ
kms_key_size_in_bytes = 64

-- `new_aead` is `aes.NewCipher` and `cipher.NewGCM`: it checks the key. `read_full` reads random bytes, and
-- `generate_data_key` gives the key in cipher text and in plain text, by the id, the size and the context.
pub record Primitives (W : Type 0) : Type 0 where
  pub new_aead : Bytes → Result (Unit {0})
  pub seal : Bytes → Bytes → Bytes → Bytes
  pub unseal : Bytes → Bytes → Bytes → Result Bytes
  pub read_full : ℕ → W → Result Bytes × W
  pub generate_data_key : Bytes → ℕ → List (Bytes × Bytes) → W → Result (Bytes × Bytes) × W

-- `Encrypter`
pub record Encrypter : Type 0 where
  pub kms_key_id : Bytes
  pub cipher_text_key : Bytes
  pub encryption_key : Bytes
  pub decryption_key : Bytes

-- Both halves of the key, the first for decryption.
unfoldable pub set_keys : Bytes → Bytes → Bytes → Encrypter
set_keys kms_key_id cipher_text_key plain_text_key =
    let key_size = length plain_text_key / 2 in
    record {
      kms_key_id = kms_key_id;
      cipher_text_key = cipher_text_key;
      encryption_key = drop key_size plain_text_key;
      decryption_key = take key_size plain_text_key;
    }

-- The first `append`, which leaves the zeros of `make` in front of the nonce.
abbrev pub framed : ℕ → Bytes → Bytes
framed len nonce = take nonce_size (replicate (nonce_size + len) 0) ++ nonce

module _ {W : Type 0} (prim : Primitives W) where
  unfoldable pub new_encrypter : Bytes → List (Bytes × Bytes) → Method W Encrypter
  new_encrypter kms_key_id encryption_context = do
    keys ← prim.generate_data_key kms_key_id kms_key_size_in_bytes encryption_context
    pure (set_keys kms_key_id keys.0 keys.1)

  unfoldable pub encrypt : Encrypter → Bytes → Method W Bytes
  encrypt e plain_text = do
    lift (prim.new_aead e.encryption_key)
    nonce ← prim.read_full nonce_size
    pure (
        drop nonce_size (framed (length plain_text) nonce)
        ++ prim.seal e.encryption_key nonce plain_text)

  -- The second slice of a text that is shorter than a nonce is out of range.
  unfoldable pub decrypt : Encrypter → Bytes → Method W Bytes
  decrypt e cipher_text = do
    lift (prim.new_aead e.decryption_key)
    if ltb (length cipher_text) nonce_size
        then lift panic
        else lift (
            prim.unseal e.decryption_key (take nonce_size cipher_text)
              (drop nonce_size cipher_text))
