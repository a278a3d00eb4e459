-- ===== src/Crypto/Base64.antt =====
-- encoding/base64's StdEncoding, over bytes.
use envoy_trade.Common.{
  ℕ, ◌+◌, ◌-◌, ◌*◌, ◌/◌, ◌%◌, ◌<◌, ◌≡◌, refl, arith, Bool, true, false, ◌&&◌, ◌||◌, not, Option,
  none, some, List, [], ◌∷◌, select, ltb, leb, ◌==◌, All, if◌then◌else◌,
}

-- a sextet's letter
unfoldable pub symbol_of : ℕ → ℕ
symbol_of s =
    if ltb s 26
    then s + 65
    else if ltb s 52
    then s + 71
    else if ltb s 62
    then s - 4
    else if s == 62
    then 43
    else 47

unfoldable pub value_of : ℕ → Option ℕ
value_of c =
    if leb 65 c && leb c 90
    then some (c - 65)
    else if leb 97 c && leb c 122
    then some (c - 71)
    else if leb 48 c && leb c 57
    then some (c + 4)
    else if c == 43
    then some 62
    else if c == 47
    then some 63
    else none

abbrev pub pad : ℕ
pad = 61

-- EncodeToString
unfoldable pub encode : List ℕ → List ℕ
encode [] = []
encode (a ∷ []) = symbol_of (a / 4) ∷ symbol_of (a % 4 * 16) ∷ pad ∷ pad ∷ []
encode (a ∷ b ∷ []) =
    symbol_of (a / 4) ∷ symbol_of (a % 4 * 16 + b / 16) ∷ symbol_of (b % 16 * 4) ∷ pad ∷ []
encode (a ∷ b ∷ c ∷ rest) =
    symbol_of (a / 4)
    ∷ symbol_of (a % 4 * 16 + b / 16)
    ∷ symbol_of (b % 16 * 4 + c / 64)
    ∷ symbol_of (c % 64)
    ∷ encode rest

-- the bytes of four sextets, in front of the rest's
unfoldable pub join : Option ℕ → Option ℕ → Option ℕ → Option ℕ → Option (List ℕ) → Option (List ℕ)
join (some w) (some x) (some y) (some z) (some more) =
    some ((w * 4 + x / 16) ∷ (x % 16 * 16 + y / 4) ∷ (y % 4 * 64 + z) ∷ more)
join _ _ _ _ _ = none

unfoldable pub join_two : Option ℕ → Option ℕ → Option ℕ → Option (List ℕ)
join_two (some w) (some x) (some y) = some ((w * 4 + x / 16) ∷ (x % 16 * 16 + y / 4) ∷ [])
join_two _ _ _ = none

unfoldable pub join_one : Option ℕ → Option ℕ → Option (List ℕ)
join_one (some w) (some x) = some ((w * 4 + x / 16) ∷ [])
join_one _ _ = none

-- the last four letters, of which the fourth is padding
unfoldable pub last_quad : ℕ → ℕ → ℕ → List ℕ → Option (List ℕ)
last_quad a b c [] =
    if c == pad
    then join_one (value_of a) (value_of b)
    else join_two (value_of a) (value_of b) (value_of c)
last_quad a b c (d ∷ rest) = none

unfoldable pub decode_quads : List ℕ → Option (List ℕ)
decode_quads [] = some []
decode_quads (a ∷ b ∷ c ∷ d ∷ rest) =
    let more = decode_quads rest in
    if d == pad
    then last_quad a b c rest
    else join (value_of a) (value_of b) (value_of c) (value_of d) more
decode_quads (a ∷ []) = none
decode_quads (a ∷ b ∷ []) = none
decode_quads (a ∷ b ∷ c ∷ []) = none

abbrev pub is_text : ℕ → Bool
is_text c = not (c == 10 || c == 13)

-- DecodeString, which skips line ends and does not look at the bits behind the last byte
unfoldable pub decode : List ℕ → Option (List ℕ)
decode text = decode_quads (select is_text text)

abbrev pub IsByte : ℕ → Type 0
IsByte b = b < 256

value_of-symbol_of : (s : ℕ) → s < 64 → value_of (symbol_of s) ≡ some s
unfolding value_of symbol_of
value_of-symbol_of s h = ground arith

symbol_of_text : (s : ℕ) → s < 64 → (is_text (symbol_of s) ≡ true) × ((symbol_of s == pad) ≡ false)
unfolding symbol_of
symbol_of_text s h = ground arith

select_text :
    (s : ℕ) (rest : List ℕ)
    → s < 64
    → select is_text rest ≡ rest
    → select is_text (symbol_of s ∷ rest) ≡ symbol_of s ∷ rest
select_text s rest h e = ground (arith, (symbol_of_text s h).0)

encode_text : (bs : List ℕ) → All IsByte bs → select is_text (encode bs) ≡ encode bs
unfolding encode
encode_text [] h = refl
encode_text (a ∷ []) h =
    select_text (a / 4) _ (omega (arith, h.0)) (select_text (a % 4 * 16) _ (omega arith) refl)
encode_text (a ∷ b ∷ []) h = select_text (a / 4) _ (omega (arith, h.0)) (
    select_text (a % 4 * 16 + b / 16) _ (omega (arith, h.1.0))
      (select_text (b % 16 * 4) _ (omega arith) refl))
encode_text (a ∷ b ∷ c ∷ rest) h = select_text (a / 4) _ (omega (arith, h.0)) (
    select_text (a % 4 * 16 + b / 16) _ (omega (arith, h.1.0)) (
      select_text (b % 16 * 4 + c / 64) _ (omega (arith, h.1.1.0))
        (select_text (c % 64) _ (omega arith) (encode_text rest h.1.1.1))))

quads-encode : (bs : List ℕ) → All IsByte bs → decode_quads (encode bs) ≡ some bs
unfolding encode decode_quads last_quad join join_one join_two
quads-encode [] h = refl
quads-encode (a ∷ []) h =
    rw
      (
        value_of-symbol_of (a / 4) (omega (arith, h.0)),
        value_of-symbol_of (a % 4 * 16) (omega arith),
      )
      (ground arith)
quads-encode (a ∷ b ∷ []) h =
    rw
      (
        (symbol_of_text (b % 16 * 4) (omega arith)).1,
        value_of-symbol_of (a / 4) (omega (arith, h.0)),
        value_of-symbol_of (a % 4 * 16 + b / 16) (omega (arith, h.1.0)),
        value_of-symbol_of (b % 16 * 4) (omega arith),
      )
      (ground arith)
quads-encode (a ∷ b ∷ c ∷ rest) h =
    rw
      (
        (symbol_of_text (c % 64) (omega arith)).1,
        value_of-symbol_of (a / 4) (omega (arith, h.0)),
        value_of-symbol_of (a % 4 * 16 + b / 16) (omega (arith, h.1.0)),
        value_of-symbol_of (b % 16 * 4 + c / 64) (omega (arith, h.1.1.0)),
        value_of-symbol_of (c % 64) (omega arith),
        quads-encode rest h.1.1.1,
      )
      (ground arith)

pub decode-encode : (bs : List ℕ) → All IsByte bs → decode (encode bs) ≡ some bs
unfolding decode
decode-encode bs h = rw (encode_text bs h) (quads-encode bs h)
