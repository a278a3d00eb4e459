-- ===== src/Common/Fallible.antt =====
-- A chain of Go calls that may fail and that change no state.
use Prim.Native.String.{String}
use envoy_trade.Common.Outcome.{Result, ok, err, wrap}

infixl 5 ◌>>=◌ ◌>>◌
abbrev pub ◌>>=◌ {ℓ κ} : {A : Type ℓ} {B : Type κ} → Result A → (A → Result B) → Result B
ok a >>= f = f a
err e >>= f = err e

abbrev pub ◌>>◌ {ℓ κ} : {A : Type ℓ} {B : Type κ} → Result A → Result B → Result B
m >> k = m >>= λ _. k

-- return …, fmt.Errorf("prefix: %w", err)
abbrev pub wrapped {ℓ} : {A : Type ℓ} → String → Result A → Result A
wrapped prefix (ok a) = ok a
wrapped prefix (err e) = err (wrap prefix e)
