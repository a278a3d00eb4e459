-- ===== src/Common/Maps.antt =====
-- Go's maps with numbers (UUIDs) as keys, as association lists.
use Prim.Native.Nat.{ℕ}
use mathlib.Core.Path.{◌≡◌, refl}
use mathlib.Core.List.{List, [], ◌∷◌}
use mathlib.Core.Logic.{◌≢◌}
use mathlib.Core.Option.{Option, none, some}
use native.Mathlib.Omega.{arith}
use envoy_trade.Common.Tests.{◌==◌, if◌then◌else◌}

module _ {V : Type 0} where
  unfoldable pub get : ℕ → List (ℕ × V) → Option V
  get k [] = none
  get k ((j, v) ∷ m) = if j == k then some v else get k m

  unfoldable pub remove : ℕ → List (ℕ × V) → List (ℕ × V)
  remove k [] = []
  remove k ((j, v) ∷ m) = let rest = remove k m in if j == k then rest else (j, v) ∷ rest

  -- m[k] = v
  unfoldable pub put : ℕ → V → List (ℕ × V) → List (ℕ × V)
  put k v m = (k, v) ∷ remove k m

  pub get-remove_self : (k : ℕ) (m : List (ℕ × V)) → get k (remove k m) ≡ none
  unfolding get remove
  get-remove_self k [] = refl
  get-remove_self k ((j, v) ∷ m) = ground (arith, get-remove_self k m)

  pub get-remove_other : (k i : ℕ) (m : List (ℕ × V)) → i ≢ k → get i (remove k m) ≡ get i m
  unfolding get remove
  get-remove_other k i [] h = refl
  get-remove_other k i ((j, v) ∷ m) h = ground (arith, get-remove_other k i m h)

  pub get-put_self : (k : ℕ) (v : V) (m : List (ℕ × V)) → get k (put k v m) ≡ some v
  unfolding get put
  get-put_self k v m = ground arith

  pub get-put_other : (k i : ℕ) (v : V) (m : List (ℕ × V)) → i ≢ k → get i (put k v m) ≡ get i m
  unfolding get put
  get-put_other k i v m h = ground (arith, get-remove_other k i m h)
