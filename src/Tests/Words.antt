-- ===== src/Tests/Words.antt =====
-- The text functions on short texts.
use envoy_trade.Common.{◌≡◌, refl, true, [], ◌∷◌}
use envoy_trade.Common.Words.{to_lower, trim_space, equal_fold, split_at, join_with}

lowered : to_lower "Zerodha-9" ≡ "zerodha-9"
unfolding to_lower
lowered = refl

trimmed : trim_space " \t Kite Connect \n" ≡ "Kite Connect"
unfolding trim_space
trimmed = refl

folded : equal_fold "InFy" "iNfY" ≡ true
unfolding equal_fold
folded = refl

split : split_at 44 "a, b,,c" ≡ "a" ∷ " b" ∷ "" ∷ "c" ∷ []
unfolding split_at
split = refl

joined : join_with ", " ("a" ∷ "b" ∷ "c" ∷ []) ≡ "a, b, c"
unfolding join_with
joined = refl
