-- ===== src/Tests/Crypto.antt =====
-- A toy cipher, and a text that goes there and back.
use envoy_trade.Common.{ap, some, ◌++◌, ℕ, ◌%◌, ◌≡◌, refl, arith, List, [], ◌∷◌, map, All, ok}
use envoy_trade.Crypto.{Primitives, ArePrimitives, encrypt, decrypt}
use envoy_trade.Crypto.Base64.{
  encode, decode, IsByte, symbol_of, value_of, decode_quads, last_quad, join, join_one, join_two,
}
use envoy_trade.Crypto.RoundTrip.{decrypt-encrypt}

abbrev to_bytes : List ℕ → List ℕ
to_bytes = map (λ b. b % 256)

abbrev zeros : List ℕ
zeros = 0 ∷ 0 ∷ 0 ∷ 0 ∷ 0 ∷ 0 ∷ 0 ∷ 0 ∷ []

abbrev toy : Primitives
toy = record {
  sum256 = λ k. zeros ++ (zeros ++ (zeros ++ zeros));
  new_gcm = λ key. ok tt;
  seal = λ key nonce text. to_bytes text;
  unseal = λ key nonce raw. ok raw;
}

to_bytes-IsByte : (text : List ℕ) → All IsByte (to_bytes text)
to_bytes-IsByte [] = tt
to_bytes-IsByte (b ∷ text) = (omega arith, to_bytes-IsByte text)

to_bytes_same : (text : List ℕ) → All IsByte text → to_bytes text ≡ text
to_bytes_same [] h = refl
to_bytes_same (b ∷ text) h = ground (arith, to_bytes_same text h.1)

toy-ArePrimitives : ArePrimitives toy
toy-ArePrimitives = record {
  digest_size = λ k. refl;
  gcm_of_cipher = λ key. refl;
  sealed_bytes = λ key nonce text. to_bytes-IsByte text;
  unseal-seal = λ key nonce text size plain. ap ok (to_bytes_same text plain);
}

abbrev twelve : List ℕ
twelve = 250 ∷ 1 ∷ 2 ∷ 3 ∷ 4 ∷ 5 ∷ 6 ∷ 7 ∷ 8 ∷ 9 ∷ 10 ∷ 11 ∷ []

-- "token"
abbrev token : List ℕ
token = 116 ∷ 111 ∷ 107 ∷ 101 ∷ 110 ∷ []

decrypt-encrypt_example :
    (c : List ℕ) × (encrypt toy (107 ∷ []) (ok twelve) token ≡ ok c)
    × (decrypt toy (107 ∷ []) c ≡ ok token)
decrypt-encrypt_example =
    decrypt-encrypt toy toy-ArePrimitives (107 ∷ []) refl twelve token (omega arith) refl
      (omega arith)

-- "any", "an" and "a" as the standard has them
three_bytes : encode (97 ∷ 110 ∷ 121 ∷ []) ≡ 89 ∷ 87 ∷ 53 ∷ 53 ∷ []
unfolding encode symbol_of
three_bytes = refl

two_bytes : encode (97 ∷ 110 ∷ []) ≡ 89 ∷ 87 ∷ 52 ∷ 61 ∷ []
unfolding encode symbol_of
two_bytes = refl

one_byte : encode (97 ∷ []) ≡ 89 ∷ 81 ∷ 61 ∷ 61 ∷ []
unfolding encode symbol_of
one_byte = refl

line_ends_skipped : decode (89 ∷ 87 ∷ 13 ∷ 10 ∷ 53 ∷ 53 ∷ []) ≡ some (97 ∷ 110 ∷ 121 ∷ [])
unfolding decode value_of decode_quads last_quad join join_one join_two
line_ends_skipped = refl
