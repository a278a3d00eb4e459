-- ===== src/Crypto/RoundTrip.antt =====
-- What is encrypted can be decrypted.
use envoy_trade.Common.{
  ℕ, ◌≡◌, ◌⊎◌, inl, inr, refl, sym, ap, ◌∙◌, subst, arith, false, List, [], ◌∷◌, ◌++◌, length, take,
  drop, is_empty, ltb, All, All-append, take-append, drop-append, length-append, ok,
}
use envoy_trade.Crypto.{
  Primitives, nonce_size, ArePrimitives, new_cipher, get_key, encrypt, decoded, open_raw, decrypt,
}
use envoy_trade.Crypto.Base64.{encode, IsByte, decode-encode}

encode_nonempty : (bs : List ℕ) → is_empty bs ≡ false → is_empty (encode bs) ≡ false
unfolding encode
encode_nonempty [] h = h
encode_nonempty (a ∷ []) h = refl
encode_nonempty (a ∷ b ∷ []) h = refl
encode_nonempty (a ∷ b ∷ c ∷ rest) h = refl

nonempty_front : (xs ys : List ℕ) → length xs ≡ nonce_size → is_empty (xs ++ ys) ≡ false
nonempty_front [] ys h = absurd (omega (arith, h))
nonempty_front (x ∷ xs) ys h = refl

empty_or_not : (xs : List ℕ) → (xs ≡ []) ⊎ (is_empty xs ≡ false)
empty_or_not [] = inl refl
empty_or_not (x ∷ xs) = inr refl

module _ (P : Primitives) (laws : ArePrimitives P) (k : List ℕ) (key_set : is_empty k ≡ false) where
  cipher_ready : new_cipher (P.sum256 k) ≡ ok tt
  unfolding new_cipher
  cipher_ready = rw (laws.digest_size k) refl

  decrypt_empty : decrypt P k [] ≡ ok []
  unfolding decrypt
  decrypt_empty = refl

  module _ (nonce text : List ℕ) (bytes : All IsByte nonce) (size : length nonce ≡ nonce_size)
      (plain : All IsByte text) where
    sealed : List ℕ
    sealed = nonce ++ P.seal (P.sum256 k) nonce text

    sealed_bytes : All IsByte sealed
    unfolding sealed
    sealed_bytes = All-append IsByte nonce _ bytes (laws.sealed_bytes (P.sum256 k) nonce text)

    take_nonce : take nonce_size sealed ≡ nonce
    unfolding sealed
    take_nonce = subst (λ n. take n sealed ≡ nonce) size (take-append nonce _)

    drop_nonce : drop nonce_size sealed ≡ P.seal (P.sum256 k) nonce text
    unfolding sealed
    drop_nonce =
        subst (λ n. drop n sealed ≡ P.seal (P.sum256 k) nonce text) size (drop-append nonce _)

    long_enough : ltb (length sealed) nonce_size ≡ false
    unfolding sealed
    long_enough = ground (arith, length-append nonce (P.seal (P.sum256 k) nonce text), size)

    open_sealed : open_raw P k (P.sum256 k) sealed ≡ ok text
    unfolding open_raw
    open_sealed =
        rw
          (long_enough, take_nonce, drop_nonce, laws.unseal-seal (P.sum256 k) nonce text size plain)
          refl

    decrypt-sealed : decrypt P k (encode sealed) ≡ ok text
    unfolding decrypt get_key decoded
    decrypt-sealed =
        rw
          (
            encode_nonempty sealed (unfold sealed in nonempty_front nonce _ size),
            key_set,
            decode-encode sealed sealed_bytes,
            cipher_ready,
            laws.gcm_of_cipher (P.sum256 k),
          )
          open_sealed

    -- With SHA-256 and AES-GCM as documented and a key in the environment, Encrypt succeeds on every text for
    -- every nonce of twelve bytes that the random source gives, and Decrypt of its result gives the text back, the empty text included.
    pub decrypt-encrypt :
        (c : List ℕ) × (encrypt P k (ok nonce) text ≡ ok c) × (decrypt P k c ≡ ok text)
    unfolding encrypt get_key
    decrypt-encrypt = elim (empty_or_not text) [
      | inl e ↦ ([], rw e refl, decrypt_empty ∙ ap ok (sym e))
      | inr n ↦ (
        encode sealed,
        rw (n, key_set, cipher_ready, laws.gcm_of_cipher (P.sum256 k)) (unfold sealed in refl),
        decrypt-sealed,
      )
    ]
