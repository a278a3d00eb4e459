-- ===== src/Accounts.antt =====
-- internal/broker/pool.go: the cache of brokers by account. A goroutine that resolves a broker runs two
-- critical sections, `fast_check` and, after a miss, `slow_path`; between the two any other may run.
pub mod Shared
use envoy_trade.Common.{ℕ, Option, none, some, List, [], ◌∷◌, Result, ok, err}
use envoy_trade.Common.Maps.{get, put, remove}
use envoy_trade.Domain.Types.{Uuid}

-- AccountPool. `world` is the resolver's; `built` and `handed` are a history, newest first, of what the
-- resolver has built and of what callers have got, which nothing reads.
pub record AccountPool (B S : Type 0) : Type 0 where
  pub brokers : List (Uuid × B)
  pub world : S
  pub built : List (Uuid × B)
  pub handed : List (Uuid × B)

-- NewAccountPool
abbrev pub new_account_pool : {B S : Type 0} → S → AccountPool B S
new_account_pool w = record { brokers = []; world = w; built = []; handed = [] }

pub data PoolEvent : Type 0 where
  checks builds evicts : Uuid → PoolEvent
  evicts_all : PoolEvent

module _ {B S : Type 0} where
  unfoldable pub hand : Uuid → B → AccountPool B S → AccountPool B S
  hand id b p = record p { handed = (id, b) ∷ p.handed }

  -- the section under the read lock
  unfoldable pub fast_check : Uuid → AccountPool B S → Option B × AccountPool B S
  fast_check id p = elim (get id p.brokers) [ none ↦ (none, p) | some b ↦ (some b, hand id b p) ]

  unfoldable pub keep_fresh : Uuid → Result B × S → AccountPool B S → Result B × AccountPool B S
  keep_fresh id (err e, w) p = (err e, record p { world = w })
  keep_fresh id (ok b, w) p = (
    ok b,
    hand id b (record p { brokers = put id b p.brokers; world = w; built = (id, b) ∷ p.built }),
  )

  unfoldable pub evict : Uuid → AccountPool B S → AccountPool B S
  evict id p = record p { brokers = remove id p.brokers }

  unfoldable pub evict_all : AccountPool B S → AccountPool B S
  evict_all p = record p { brokers = [] }

module _ {B S : Type 0} (resolver : Uuid → S → Result B × S) where
  -- the section under the write lock
  unfoldable pub slow_path : Uuid → AccountPool B S → Result B × AccountPool B S
  slow_path id p = elim (get id p.brokers) [
    | none ↦ keep_fresh id (resolver id p.world) p
    | some b ↦ (ok b, hand id b p)
  ]

  -- ResolveBroker without an interruption
  unfoldable pub resolve_broker : Uuid → AccountPool B S → Result B × AccountPool B S
  resolve_broker id p =
      let r = fast_check id p in elim r.0 [ none ↦ slow_path id r.1 | some b ↦ (ok b, r.1) ]

  unfoldable pub pool_step : PoolEvent → AccountPool B S → AccountPool B S
  pool_step (checks id) p = (fast_check id p).1
  pool_step (builds id) p = (slow_path id p).1
  pool_step (evicts id) p = evict id p
  pool_step evicts_all p = evict_all p

  unfoldable pub pool_run : List PoolEvent → AccountPool B S → AccountPool B S
  pool_run [] p = p
  pool_run (e ∷ es) p = pool_run es (pool_step e p)
