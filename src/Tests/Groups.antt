-- ===== src/Tests/Groups.antt =====
-- A square-off of a group whose master and follower hold the same positions.
use envoy_trade.Common.{refl, ℕ, suc, true, false, List, [], ◌∷◌, ok}
use envoy_trade.Domain.Types.{Uuid}
use envoy_trade.Desk.{ask}
use envoy_trade.Squareoff.Group.{Group, GroupEnv, square_off_group}
use envoy_trade.Squareoff.Cleared.{Told, square_off_group-Told}
use envoy_trade.Tests.Squareoff.{env, at_start}

abbrev group : Group
group = record { master_id = 9; followers = (5, true) ∷ (6, false) ∷ [] }

abbrev group_env : GroupEnv ℕ ℕ
group_env = record {
  accounts = env;
  group_detail = λ id n. (ok group, suc n);
  set_group_imbalance = λ id b n. (ok tt, suc n);
}

square_off_group-Told_example :
    let found = ask group_env.accounts.desk (group_env.group_detail 3) at_start in
    let end = square_off_group group_env (λ ids. ids) 3 [] at_start in
    Told group_env (λ ids. ids) 3 [] found.0 found.1 end.0 end.1
square_off_group-Told_example =
    square_off_group-Told group_env (λ (ids : List Uuid). ids) 3 [] at_start (λ ids p. refl)
