-- ===== src/Encryption/RoundTrip.antt =====
-- What one side encrypts, the other side decrypts.
use ecstoolkit.Base.{
  ℕ, ◌++◌, ◌≡◌, refl, ap, arith, true, false, ok, panic, length, take, replicate, take-append,
  drop-append, length-append, ltb, ◌<◌, ◌+◌, length-take, length-replicate,
}
use ecstoolkit.Buffer.{Bytes}
use ecstoolkit.Method.{continue}
use ecstoolkit.Encryption.{Primitives, Encrypter, nonce_size, encrypt, decrypt}

-- What AES-GCM and the random source are documented to do: a sealed text opens with its key and nonce, and a
-- read of the random source that succeeds gives as many bytes as it was asked for.
pub record IsAead {W : Type 0} (prim : Primitives W) : Type 0 where
  pub unseal-seal :
      (key nonce text : Bytes) → prim.unseal key nonce (prim.seal key nonce text) ≡ ok text
  pub full : (n : ℕ) (w w' : W) (bs : Bytes) → prim.read_full n w ≡ (ok bs, w') → length bs ≡ n

module _ {W : Type 0} (prim : Primitives W) where
  -- What goes out is the nonce and the sealed text.
  pub encrypt-frame :
      (e : Encrypter) (text nonce : Bytes) (w w' : W)
      → prim.new_aead e.encryption_key ≡ ok tt
      → prim.read_full nonce_size w ≡ (ok nonce, w')
      → encrypt prim e text w ≡ (ok (nonce ++ prim.seal e.encryption_key nonce text), w')
  unfolding encrypt
  encrypt-frame e text nonce w w' h r =
      let n : length (take nonce_size (replicate (nonce_size + length text) 0)) ≡ nonce_size =
        ground (
          arith,
          length-take {A = ℕ} nonce_size (replicate (nonce_size + length text) 0),
          length-replicate {A = ℕ} (nonce_size + length text) 0,
        ) in
      rw (h, r)
        (ap (λ bs. (ok (bs ++ prim.seal e.encryption_key nonce text), w'))
          (drop-append nonce_size (take nonce_size (replicate (nonce_size + length text) 0)) nonce
            n))

  -- Where the key that the agent decrypts with is the key that this side encrypts with, and that is a valid
  -- key, what this side makes of a text, with the random bytes that it reads, the agent reads as that text.
  -- A text that is shorter than a nonce ends the program of the side that decrypts it.
  pub decrypt-encrypt :
      (e agent : Encrypter) (text nonce short : Bytes) (w w' v : W)
      → IsAead prim
      → agent.decryption_key ≡ e.encryption_key
      → prim.new_aead e.encryption_key ≡ ok tt
      → prim.read_full nonce_size w ≡ (ok nonce, w')
      → length short < nonce_size
      → (continue (encrypt prim e text w).0 (decrypt prim agent) v ≡ (ok text, v))
        × (decrypt prim agent short v ≡ (panic, v))
  unfolding decrypt
  decrypt-encrypt e agent text nonce short w w' v a k h r small =
      let n : length nonce ≡ nonce_size = a.full nonce_size w w' nonce r in
      let long : ltb (length (nonce ++ prim.seal e.encryption_key nonce text)) nonce_size ≡ false =
        ground (arith, n, length-append nonce (prim.seal e.encryption_key nonce text)) in
      (
        rw
            (
              encrypt-frame e text nonce w w' h r,
              k,
              h,
              long,
              take-append nonce_size nonce (prim.seal e.encryption_key nonce text) n,
              drop-append nonce_size nonce (prim.seal e.encryption_key nonce text) n,
              a.unseal-seal e.encryption_key nonce text,
            )
            refl,
        let p : ltb (length short) nonce_size ≡ true = ground (arith, small) in rw (k, h, p) refl,
      )
