-- ===== src/Tests/Services.antt =====
-- Keys, slices and images.
use ecstoolkit.Base.{
  ℕ, ◌+◌, ◌≡◌, refl, arith, pos, [], ◌∷◌, ok, panic, List, length-replicate, replicate, eq_bytes,
  if◌then◌else◌, err, invalid,
}
use ecstoolkit.Message.Types.{codes}
use ecstoolkit.Method.{continue}
use ecstoolkit.Encryption.{Primitives, Encrypter, encrypt, decrypt}
use ecstoolkit.Encryption.RoundTrip.{IsAead, decrypt-encrypt}
use ecstoolkit.Cluster.Chunk.{chunk, concat, Sized, chunk-concat}
use ecstoolkit.Cluster.Images.{
  Image, split_image-join_image, split_image, join_image, split_image-retag,
}

-- A cipher that shows the text behind the key and the nonce, and random bytes that are the time.
abbrev pub clear_cipher : Primitives ℕ
clear_cipher = record {
  new_aead = λ key. if eq_bytes key [] then err invalid else ok tt;
  seal = λ key nonce text. text;
  unseal = λ key nonce sealed. ok sealed;
  read_full = λ n w. (ok (replicate n w), w + 1);
  generate_data_key = λ id n context w. (ok (id, 1 ∷ 2 ∷ []), w);
}

pub clear_cipher-IsAead : IsAead clear_cipher
clear_cipher-IsAead = record {
  unseal-seal = λ key nonce text. refl;
  full = λ n w w' bs e. ground (arith, length-replicate {A = ℕ} n w);
}

abbrev pub client : Encrypter
client = record {
  kms_key_id = [];
  cipher_text_key = [];
  encryption_key = 2 ∷ [];
  decryption_key = 1 ∷ [];
}

abbrev pub agent : Encrypter
agent = record {
  kms_key_id = [];
  cipher_text_key = [];
  encryption_key = 1 ∷ [];
  decryption_key = 2 ∷ [];
}

decrypt-encrypt_example :
    (continue (encrypt clear_cipher client (104 ∷ 105 ∷ []) 7).0 (decrypt clear_cipher agent) 9
      ≡ (ok (104 ∷ 105 ∷ []), 9))
    × (decrypt clear_cipher agent (1 ∷ []) 9 ≡ (panic, 9))
decrypt-encrypt_example =
    decrypt-encrypt clear_cipher client agent (104 ∷ 105 ∷ []) (replicate 12 7) (1 ∷ []) 7 8 9
      clear_cipher-IsAead refl refl refl (omega arith)

abbrev five : List ℕ
five = 1 ∷ 2 ∷ 3 ∷ 4 ∷ 5 ∷ []

chunk-concat_example : (concat (chunk (five) (pos 2)) ≡ five) × Sized 2 (chunk (five) (pos 2))
chunk-concat_example = chunk-concat (five) (pos 2) (omega arith)

abbrev web_image : Image
web_image = record { repo = codes "hub"; image = codes "a/web"; tag = codes "v1" }

split_image-retag_example :
    split_image (join_image (record web_image { tag = codes "v2" }))
    ≡ ok (record web_image { tag = codes "v2" })
split_image-retag_example =
    split_image-retag (join_image web_image) (codes "v2") web_image
      (split_image-join_image web_image (ground arith) (ground arith) (ground arith)) (ground arith)
