-- ===== src/Desk/Quiet.antt =====
-- Calls that neither read positions nor place orders.
use envoy_trade.Common.{◌≡◌, refl, ◌∙◌, pos, ltb_ℤ, ℤ, Result, if_cases}
use envoy_trade.Common.State.{State, pure}
use envoy_trade.Domain.Types.{Uuid}
use envoy_trade.Desk.{DeskEnv, Desk, update_if_row, sync_after}

-- Nothing was read or placed between the two.
pub record Quiet {S : Type 0} (d e : Desk S) : Type 0 where
  pub answered_same : e.answered ≡ d.answered
  pub placed_same : e.placed ≡ d.placed

module _ {S : Type 0} where
  pub Quiet-refl : (d : Desk S) → Quiet d d
  Quiet-refl d = record { answered_same = refl; placed_same = refl }

  Quiet-trans : (c d e : Desk S) → Quiet c d → Quiet d e → Quiet c e
  Quiet-trans c d e h k = record {
    answered_same = k.answered_same ∙ h.answered_same;
    placed_same = k.placed_same ∙ h.placed_same;
  }

module _ {B S : Type 0} (E : DeskEnv B S) where
  pub update_if_row-Quiet :
      (row : ℤ) (f : ℤ → S → Result (Unit {0}) × S) (d : Desk S)
      → Quiet d (update_if_row E row f d).1
  unfolding update_if_row
  update_if_row-Quiet row f d =
      if_cases (λ (a : State (Desk S) (Unit {0})). Quiet d (a d).1) (ltb_ℤ (pos 0) row) _ (pure tt)
        (λ _. record { answered_same = refl; placed_same = refl }) (λ _. Quiet-refl d)

  pub sync_after-Quiet : (id : Uuid) (d : Desk S) → Quiet d (sync_after E id d).1
  unfolding sync_after
  sync_after-Quiet id d =
      if_cases (λ (a : State (Desk S) (Unit {0})). Quiet d (a d).1) E.has_syncer _ (pure tt)
        (λ _. record { answered_same = refl; placed_same = refl }) (λ _. Quiet-refl d)
