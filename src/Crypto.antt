-- ===== src/Crypto.antt =====
-- internal/crypto/cipher.go: the encryption of stored credentials. A Go string is the list of its
-- bytes. SHA-256 and AES-GCM are a parameter, and so is what rand.Reader gives.
pub mod Base64
pub mod RoundTrip
use envoy_trade.Common.{
  ℕ, ◌+◌, ◌≡◌, Bool, ◌||◌, Option, none, some, List, [], ◌∷◌, ◌++◌, length, take, drop, is_empty,
  ltb, ◌==◌, All, Result, ok, err, other, wrap, if◌then◌else◌,
}
use envoy_trade.Common.Fallible.{◌>>=◌, ◌>>◌, wrapped}
use envoy_trade.Crypto.Base64.{encode, decode, IsByte}

pub record Primitives : Type 0 where
  pub sum256 : List ℕ → List ℕ
  pub new_gcm : List ℕ → Result (Unit {0})
  -- Seal without its destination, and Open
  pub seal : List ℕ → List ℕ → List ℕ → List ℕ
  pub unseal : List ℕ → List ℕ → List ℕ → Result (List ℕ)

abbrev pub nonce_size : ℕ
nonce_size = 12

-- What the documentation of the packages says of them.
pub record ArePrimitives (P : Primitives) : Type 0 where
  pub digest_size : (k : List ℕ) → length (P.sum256 k) ≡ 32
  pub gcm_of_cipher : (key : List ℕ) → P.new_gcm key ≡ ok tt
  pub sealed_bytes : (key nonce text : List ℕ) → All IsByte (P.seal key nonce text)
  pub unseal-seal :
      (key nonce text : List ℕ)
      → length nonce ≡ nonce_size
      → All IsByte text
      → P.unseal key nonce (P.seal key nonce text) ≡ ok text

-- aes.NewCipher
unfoldable pub new_cipher : List ℕ → Result (Unit {0})
new_cipher key =
    if length key == 16 || (length key == 24 || length key == 32)
    then ok tt
    else err (other "crypto/aes: invalid key size")

module _ (P : Primitives) (environment_key : List ℕ) where
  -- getKey
  unfoldable pub get_key : Result (List ℕ)
  get_key =
      if is_empty environment_key
      then err (other "crypto: ENCRYPTION_KEY environment variable is required")
      else ok (P.sum256 environment_key)

  -- Encrypt, with what io.ReadFull(rand.Reader, nonce) gives
  unfoldable pub encrypt : Result (List ℕ) → List ℕ → Result (List ℕ)
  encrypt read_nonce plaintext = if is_empty plaintext then ok [] else do
    key ← get_key
    wrapped "cipher init" (new_cipher key)
    wrapped "gcm init" (P.new_gcm key)
    nonce ← wrapped "nonce generation" read_nonce
    ok (encode (nonce ++ P.seal key nonce plaintext))

  unfoldable pub decoded : Option (List ℕ) → Result (List ℕ)
  decoded none = err (wrap "base64 decode" (other "illegal base64 data"))
  decoded (some raw) = ok raw

  unfoldable pub open_raw : List ℕ → List ℕ → Result (List ℕ)
  open_raw key raw =
      if ltb (length raw) nonce_size
      then err (other "ciphertext too short")
      else wrapped "decrypt" (P.unseal key (take nonce_size raw) (drop nonce_size raw))

  -- Decrypt
  unfoldable pub decrypt : List ℕ → Result (List ℕ)
  decrypt encoded = if is_empty encoded then ok [] else do
    key ← get_key
    raw ← decoded (decode encoded)
    wrapped "cipher init" (new_cipher key)
    wrapped "gcm init" (P.new_gcm key)
    open_raw key raw
