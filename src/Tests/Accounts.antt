-- ===== src/Tests/Accounts.antt =====
-- Goroutines that resolve one account's broker at the same time.
use envoy_trade.Common.{ℕ, suc, refl, List, [], ◌∷◌, inl, Result, ok}
use envoy_trade.Common.Maps.{get}
use envoy_trade.Domain.Types.{Uuid}
use envoy_trade.Accounts.{
  AccountPool, new_account_pool, PoolEvent, checks, builds, evicts, pool_run,
}
use envoy_trade.Accounts.Shared.{IsShared, given, pool_run-Shares}

-- Each broker that is built is a new one.
abbrev builder : Uuid → ℕ → Result ℕ × ℕ
builder id n = (ok n, suc n)

abbrev empty_pool : AccountPool ℕ ℕ
empty_pool = new_account_pool 0

-- Two miss, the first to get the write lock builds, and a third comes later.
abbrev race : List PoolEvent
race = checks 5 ∷ checks 5 ∷ builds 5 ∷ evicts 6 ∷ builds 5 ∷ checks 5 ∷ []

pool_run-Shares_example : IsShared 5 (pool_run builder race empty_pool)
unfolding get given
pool_run-Shares_example =
    pool_run-Shares builder 5 race empty_pool (refl, (refl, (refl, (refl, (refl, (refl, tt))))))
      (inl (refl, refl, refl))
