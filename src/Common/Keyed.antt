-- ===== src/Common/Keyed.antt =====
-- Go's maps with strings as keys, as association lists.
use Prim.Native.String.{String}
use text.Mathlib.Text.{◌==◌ as str_eq}
use text.Mathlib.TextEquality.{eq_iff}
use mathlib.Core.Path.{◌≡◌, refl}
use mathlib.Core.List.{List, [], ◌∷◌}
use mathlib.Core.Logic.{◌≢◌}
use mathlib.Core.Option.{Option, none, some}
use native.Mathlib.Omega.{arith}
use envoy_trade.Common.Tests.{if◌then◌else◌}

module _ {V : Type 0} where
  unfoldable pub find : String → List (String × V) → Option V
  find k [] = none
  find k ((j, v) ∷ m) = if str_eq j k then some v else find k m

  unfoldable pub without : String → List (String × V) → List (String × V)
  without k [] = []
  without k ((j, v) ∷ m) = let rest = without k m in if str_eq j k then rest else (j, v) ∷ rest

  -- m[k] = v
  unfoldable pub store : String → V → List (String × V) → List (String × V)
  store k v m = (k, v) ∷ without k m

  pub find-without_other :
      (k i : String) (m : List (String × V)) → i ≢ k → find i (without k m) ≡ find i m
  unfolding find without
  find-without_other k i [] h = refl
  find-without_other k i ((j, v) ∷ m) h =
      ground (arith, eq_iff j k, eq_iff j i, find-without_other k i m h)

  pub find-store_self : (k : String) (v : V) (m : List (String × V)) → find k (store k v m) ≡ some v
  unfolding find store
  find-store_self k v m = ground (arith, eq_iff k k)

  pub find-store_other :
      (k i : String) (v : V) (m : List (String × V)) → i ≢ k → find i (store k v m) ≡ find i m
  unfolding find store
  find-store_other k i v m h = ground (arith, eq_iff k i, find-without_other k i m h)
