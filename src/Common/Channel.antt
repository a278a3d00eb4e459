-- ===== src/Common/Channel.antt =====
-- Go's buffered channel, for a send in a `select` with a default case and for a receive.
use Prim.Native.Nat.{ℕ, ◌≤◌}
use mathlib.Core.Bool.{Bool, true, false}
use mathlib.Core.List.{List, [], ◌∷◌, ◌++◌}
use mathlib.Core.Option.{Option, none, some}
use envoy_trade.Common.Tests.{ltb, if◌then◌else◌}
use envoy_trade.Common.Lists.{length}

pub record Channel (A : Type 0) : Type 0 where
  pub capacity : ℕ
  pub buffered : List A

module _ {A : Type 0} where
  unfoldable pub make : ℕ → Channel A
  make n = record { capacity = n; buffered = [] }

  -- select { case c <- a: return true; default: return false }
  unfoldable pub try_send : A → Channel A → Bool × Channel A
  try_send a c =
      if ltb (length c.buffered) c.capacity
      then (true, record c { buffered = c.buffered ++ a ∷ [] })
      else (false, c)

  -- <-c, where something is buffered; none is a receive that blocks.
  unfoldable pub receive : Channel A → Option (A × Channel A)
  receive c = elim c.buffered [
    | [] ↦ none
    | a ∷ as_left ↦ some (a, record c { buffered = as_left })
  ]

  -- The buffer never holds more than its capacity.
  abbrev pub Fits : Channel A → Type 0
  Fits c = length c.buffered ≤ c.capacity
