-- ===== src/Common/Words.antt =====
-- strings.ToLower, ToUpper, TrimSpace, TrimSuffix, EqualFold, Split and Join, on ASCII: the case of
-- other letters is kept, and only ASCII's white space is trimmed.
use Prim.Native.Nat.{ℕ, ◌-◌}
use Prim.Native.Char.{Char, code}
use Prim.Native.String.{String, len, slice, char_at, ◌++◌ as str_append}
use text.Mathlib.Text.{◌==◌ as str_eq}
use mathlib.Core.Bool.{Bool, true, false, ◌&&◌, ◌||◌, not}
use mathlib.Core.Path.{◌≡◌, refl}
use native.Mathlib.Omega.{arith}
use mathlib.Core.List.{List, [], ◌∷◌}
use envoy_trade.Common.Tests.{leb, ◌==◌, if◌then◌else◌, if_cases}

abbrev lower_char : Char → Char
lower_char c =
    if leb 65 (code c) && leb (code c) 90
    then char_at "abcdefghijklmnopqrstuvwxyz" (code c - 65)
    else c

unfoldable pub to_lower : String → String
to_lower String.[] = String.[]
to_lower (String.◌∷◌ c s) = String.◌∷◌ (lower_char c) (to_lower s)

abbrev is_space : Char → Bool
is_space c = leb 9 (code c) && leb (code c) 13 || code c == 32

unfoldable pub is_blank : String → Bool
is_blank s = str_eq s ""

trim_left : String → String
trim_left String.[] = String.[]
trim_left (String.◌∷◌ c s) = let rest = trim_left s in if is_space c then rest else String.◌∷◌ c s

trim_right : String → String
unfolding is_blank
trim_right String.[] = String.[]
trim_right (String.◌∷◌ c s) =
    let rest = trim_right s in if is_space c && is_blank rest then String.[] else String.◌∷◌ c rest

unfoldable pub trim_space : String → String
unfolding trim_left trim_right
trim_space s = trim_right (trim_left s)

unfoldable pub equal_fold : String → String → Bool
unfolding to_lower
equal_fold a b = str_eq (to_lower a) (to_lower b)

abbrev push_front : Char → List String → List String
push_front c [] = String.◌∷◌ c String.[] ∷ []
push_front c (w ∷ ws) = String.◌∷◌ c w ∷ ws

abbrev upper_char : Char → Char
upper_char c =
    if leb 97 (code c) && leb (code c) 122
    then char_at "ABCDEFGHIJKLMNOPQRSTUVWXYZ" (code c - 97)
    else c

unfoldable pub to_upper : String → String
to_upper String.[] = String.[]
to_upper (String.◌∷◌ c s) = String.◌∷◌ (upper_char c) (to_upper s)

-- Some character is no white space.
unfoldable pub has_ink : String → Bool
has_ink String.[] = false
has_ink (String.◌∷◌ c s) = let rest = has_ink s in not (is_space c) || rest

ink_of_rest :
    (a : Bool) (t : String)
    → (a && is_blank t) ≡ false
    → (is_blank t ≡ false → has_ink t ≡ true)
    → (not a || has_ink t) ≡ true
ink_of_rest true t e f = f e
ink_of_rest false t e f = refl

trim_right_ink : (s : String) → is_blank (trim_right s) ≡ false → has_ink (trim_right s) ≡ true
unfolding trim_right has_ink is_blank
trim_right_ink String.[] h = ground arith
trim_right_ink (String.◌∷◌ c s) h =
    if_cases (λ t. is_blank t ≡ false → has_ink t ≡ true) (is_space c && is_blank (trim_right s)) ""
      (String.◌∷◌ c (trim_right s)) (λ _ h. ground arith)
      (λ e _. ink_of_rest (is_space c) (trim_right s) e (trim_right_ink s)) h

-- What is left by strings.TrimSpace is empty, or has a character that is no white space.
pub trim_space_ink : (s : String) → is_blank (trim_space s) ≡ false → has_ink (trim_space s) ≡ true
unfolding trim_space
trim_space_ink s = trim_right_ink (trim_left s)

-- strings.TrimSuffix
unfoldable pub trim_suffix : String → String → String
trim_suffix s suffix =
    let front = len s - len suffix in
    if leb (len suffix) (len s) && str_eq (slice s front (len s)) suffix then slice s 0 front else s

-- strings.Split at one character, which is given by its number
unfoldable pub split_at : ℕ → String → List String
split_at sep String.[] = "" ∷ []
split_at sep (String.◌∷◌ c s) =
    let rest = split_at sep s in if code c == sep then "" ∷ rest else push_front c rest

unfoldable pub join_with : String → List String → String
join_with sep [] = ""
join_with sep (w ∷ []) = w
join_with sep (w ∷ v ∷ ws) = str_append w (str_append sep (join_with sep (v ∷ ws)))
