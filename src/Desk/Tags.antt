-- ===== src/Desk/Tags.antt =====
-- The tags of orders that copy no fill: a prefix, four letters of the account's id, and the time in
-- seven digits.
use Prim.Native.Char.{code}
use Prim.Native.String.{char_at, len}
use envoy_trade.Common.{
  ℕ, zero, suc, ◌/◌, ◌%◌, ◌^◌, String, slice, str_append, ltb, ◌==◌, if◌then◌else◌,
}

-- strings.ReplaceAll(s, "-", "")
unfoldable pub without_dashes : String → String
without_dashes String.[] = String.[]
without_dashes (String.◌∷◌ c s) =
    let rest = without_dashes s in if code c == 45 then rest else String.◌∷◌ c rest

-- the last digits of a number, so many of them
abbrev pub digits : ℕ → ℕ → String
digits zero n = ""
digits (suc w) n =
    str_append (digits w (n / 10)) (String.◌∷◌ (char_at "0123456789" (n % 10)) String.[])

unfoldable pub short_id : String → String
short_id id = let plain = without_dashes id in if ltb 4 (len plain) then slice plain 0 4 else plain

unfoldable pub cut : ℕ → String → String
cut n s = if ltb n (len s) then slice s 0 n else s

-- the prefix, the short id, a dash, and ts % 10000000 as %07d, cut at 20 bytes
unfoldable pub order_tag : String → String → ℕ → String
order_tag prefix id ts =
    cut 20 (str_append prefix (str_append (short_id id) (str_append "-" (digits 7 (ts % 10 ^ 7)))))
