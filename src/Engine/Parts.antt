-- ===== src/Engine/Parts.antt =====
-- engine.go: the engine's state, the interfaces it is wired to (Store, Dispatcher, LotSizeResolver,
-- ExecutionRecorder) and the operations on its own fields. An interface's operation is a function of
-- a world that the engine does not look into. `calls` is the history of what the engine handed out,
-- oldest first; nothing reads it.
use envoy_trade.Common.{
  ℕ, Bool, true, false, String, str_eq, str_append, Option, none, some, List, [], ◌∷◌, ◌++◌, ℤ, pos,
  Result, ok, err, is_not_found, if◌then◌else◌,
}
use envoy_trade.Common.State.{State, pure, ◌>>=◌, ◌>>◌}
use envoy_trade.Domain.Decimal.{Float64, Numerics}
use envoy_trade.Domain.Idempotency.{Digest}
use envoy_trade.Domain.Types.{Uuid, Instant, DispatchState, FollowLink, FollowerOrder, Job}

-- domain.ExecutionEvent
pub record ExecutionEvent : Type 0 where
  pub timestamp : Instant
  pub tradingsymbol : String
  pub exchange : String
  pub transaction_type : String
  pub master_qty : ℤ
  pub price : Float64
  pub followers_count : ℕ
  pub skipped_count : ℕ
  pub latency_ms : ℕ

-- domain.KillSwitchStatus
pub record KillSwitchStatus : Type 0 where
  pub engaged : Bool
  pub engaged_at : Option Instant
  pub engaged_by : String
  pub reason : String

-- The interfaces that engine.go declares, over a world `W`. A nil resolver or recorder is `none`,
-- respectively `false`. `decode_prices` is json.Unmarshal into the two price fields.
pub record Env (W : Type 0) : Type 0 where
  pub numerics : Numerics
  pub digest : Digest
  pub decode_prices : List ℕ → Option (Float64 × Float64)
  pub now : W → Instant × W
  pub master_active : Uuid → W → Result Bool × W
  pub enabled_follow_links : Uuid → W → Result (List FollowLink) × W
  pub instrument_lot_size : String → String → W → Result ℤ × W
  pub insert_follower_orders_batch : List FollowerOrder → W → Result (List (String × ℕ)) × W
  pub set_master_fill_dispatch_state : ℕ → DispatchState → W → Result (Unit {0}) × W
  pub update_follower_order_failed : ℕ → String → String → W → Result (Unit {0}) × W
  pub dispatch : Uuid → Job → W → Bool × W
  pub lot_size_resolver : Option (String → String → W → Result ℤ × W)
  pub records : Bool

-- What the engine hands out.
pub data Call : Type 0 where
  set_state : ℕ → DispatchState → Call
  inserted : List FollowerOrder → Call
  failed : ℕ → String → String → Call
  dispatched : Uuid → Job → Call
  recorded : ExecutionEvent → Call

pub record Engine (W : Type 0) : Type 0 where
  pub kill_switch : Bool
  pub kill_switch_status : Option KillSwitchStatus
  pub lot_size_cache : List (String × ℤ)
  pub world : W
  pub calls : List Call

-- sync.Map.Load and Store; a later entry for a key is found first.
unfoldable pub cache_load : String → List (String × ℤ) → Option ℤ
cache_load key [] = none
cache_load key ((k, v) ∷ rest) = if str_eq k key then some v else cache_load key rest

module _ {W : Type 0} where
  -- An operation of an interface, run on the world.
  abbrev pub ask : {A : Type 0} → (W → A × W) → State (Engine W) A
  ask f e = let r = f e.world in (r.0, record e { world = r.1 })

  abbrev pub note : Call → State (Engine W) (Unit {0})
  note c e = (tt, record e { calls = e.calls ++ c ∷ [] })

  unfoldable pub is_kill_switch_engaged : Engine W → Bool
  is_kill_switch_engaged e = e.kill_switch

  unfoldable pub get_kill_switch_status : Engine W → KillSwitchStatus
  get_kill_switch_status e = elim e.kill_switch_status [
    | none ↦ record { engaged = false; engaged_at = none; engaged_by = ""; reason = "" }
    | some s ↦ s
  ]

  -- SetKillSwitch, at the instant `now`
  unfoldable pub set_kill_switch : Instant → Bool → String → String → Engine W → Engine W
  set_kill_switch now engaged reason by e = record e {
    kill_switch = engaged;
    kill_switch_status = some (
        if engaged
        then record { engaged = true; engaged_at = some now; engaged_by = by; reason = reason }
        else record { engaged = false; engaged_at = none; engaged_by = ""; reason = "" });
  }

  unfoldable pub clear_lot_size_cache : Engine W → Engine W
  clear_lot_size_cache e = record e { lot_size_cache = [] }

  unfoldable pub cache_store : String → ℤ → State (Engine W) (Unit {0})
  cache_store key v e = (tt, record e { lot_size_cache = (key, v) ∷ e.lot_size_cache })

  unfoldable pub cache_miss : String → Result ℤ → State (Engine W) (Result ℤ)
  cache_miss key (ok lot_size) = do cache_store key lot_size; pure (ok lot_size)
  cache_miss key (err e) =
      if is_not_found e then (do cache_store key (pos 0); pure (ok (pos 0))) else pure (err e)

  unfoldable pub cached_lot_size : Env W → String → String → State (Engine W) (Result ℤ)
  cached_lot_size E exchange symbol e =
      let key = str_append exchange (str_append ":" symbol) in
      elim (cache_load key e.lot_size_cache) [
        | some v ↦ (ok v, e)
        | none ↦ (do found ← ask (E.instrument_lot_size exchange symbol); cache_miss key found) e
      ]

  -- `if e.lotSizeResolver != nil`
  unfoldable pub resolve_with :
      Env W
      → Option (String → String → W → Result ℤ × W)
      → String
      → String
      → State (Engine W) (Result ℤ)
  resolve_with E (some resolve) exchange symbol = ask (resolve exchange symbol)
  resolve_with E none exchange symbol = cached_lot_size E exchange symbol

  -- resolveLotSize
  unfoldable pub resolve_lot_size : Env W → String → String → State (Engine W) (Result ℤ)
  resolve_lot_size E exchange symbol = resolve_with E E.lot_size_resolver exchange symbol
