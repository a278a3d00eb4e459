-- ===== src/Common/State.antt =====
-- Code that reads and changes a state: an action takes the state and returns its value and the new
-- state. A Go call that may fail is an action whose value is a `Result`.
use envoy_trade.Common.Outcome.{Error, Result, ok, err}

abbrev pub State : Type 0 → Type 0 → Type 0
State S A = S → A × S

abbrev pub pure : {S A : Type 0} → A → State S A
pure a s = (a, s)

infixl 5 ◌>>=◌ ◌>>◌
abbrev pub ◌>>=◌ : {S A B : Type 0} → State S A → (A → State S B) → State S B
◌>>=◌ m f s = let r = m s in f r.0 r.1

abbrev pub ◌>>◌ : {S A B : Type 0} → State S A → State S B → State S B
◌>>◌ m k s = k (m s).1

-- if err != nil { return …, prefix: err }; then go on with the value.
abbrev pub or_return :
    {S A B : Type 0} → (Error → Error) → (A → State S (Result B)) → Result A → State S (Result B)
or_return f k (ok a) s = k a s
or_return f k (err e) s = (err (f e), s)
