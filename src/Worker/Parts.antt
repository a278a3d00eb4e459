-- ===== src/Worker/Parts.antt =====
-- pool.go: what a worker is wired to, and its history. The broker, the store and the clock are
-- functions of a world. The history keeps, each oldest first: what the broker answered, the waits
-- between the attempts and how they ended, what was written to the order's row, the audit events, the accounts whose
-- portfolio sync was started, and when the placements began. Nothing reads it.
use envoy_trade.Common.{
  ℕ, Bool, ◌||◌, String, List, [], ◌∷◌, ◌++◌, ℤ, Error, is_deadline, error_text, contains, Result,
}
use envoy_trade.Common.State.{State}
use envoy_trade.Domain.Decimal.{Float64}
use envoy_trade.Domain.Types.{Uuid, Instant, Job, OrderEvent}

-- broker.OrderParams
pub record OrderParams : Type 0 where
  pub exchange : String
  pub tradingsymbol : String
  pub transaction_type : String
  pub product : String
  pub order_type : String
  pub quantity : ℤ
  pub price : Float64
  pub trigger_price : Float64
  pub tag : String

unfoldable pub params_of : Job → OrderParams
params_of job = record {
  exchange = job.exchange;
  tradingsymbol = job.tradingsymbol;
  transaction_type = job.transaction_type;
  product = job.product;
  order_type = job.order_type;
  quantity = job.quantity;
  price = job.price;
  trigger_price = job.trigger_price;
  tag = job.idempotency_tag;
}

-- How PlaceOrder ends: a broker order id, an error, or a panic with the text of its value.
pub data Answer : Type 0 where
  accepted : String → Answer
  refused : Error → Answer
  panicked : String → Answer

-- The three cases of a `select` on a timer, the context and the pool's `done` channel.
pub data Waited : Type 0 where
  elapsed : Waited
  context_done : Error → Waited
  pool_done : Waited

-- What is written to the row of an order.
pub data Written : Type 0 where
  placed : ℕ → String → ℤ → Written
  failed : ℕ → String → String → Written

-- `net_timeout` is errors.As to a net.Error with Timeout(), `to_lower` is strings.ToLower, and the
-- two payloads are those that fmt.Sprintf builds with %q.
pub record WorkerEnv (W : Type 0) : Type 0 where
  pub place_order : OrderParams → W → Answer × W
  pub update_placed : ℕ → String → ℤ → W → Result (Unit {0}) × W
  pub update_failed : ℕ → String → String → W → Result (Unit {0}) × W
  pub append_event : OrderEvent → W → Result (Unit {0}) × W
  pub now : W → Instant × W
  pub wait : ℤ → W → Waited × W
  pub net_timeout : Error → Bool
  pub to_lower : String → String
  pub placed_payload : String → ℤ → List ℕ
  pub error_payload : String → List ℕ
  pub has_syncer : Bool

pub record Worker (W : Type 0) : Type 0 where
  pub world : W
  pub answers : List Answer
  pub waits : List ℤ
  pub pauses : List Waited
  pub written : List Written
  pub events : List OrderEvent
  pub synced : List Uuid
  pub started : List Instant

module _ {W : Type 0} where
  abbrev pub ask : {A : Type 0} → (W → A × W) → State (Worker W) A
  ask f w = let r = f w.world in (r.0, record w { world = r.1 })

  abbrev pub note_answer : Answer → State (Worker W) (Unit {0})
  note_answer a w = (tt, record w { answers = w.answers ++ a ∷ [] })

  abbrev pub note_wait : ℤ → State (Worker W) (Unit {0})
  note_wait d w = (tt, record w { waits = w.waits ++ d ∷ [] })

  abbrev pub note_pause : Waited → State (Worker W) (Unit {0})
  note_pause p w = (tt, record w { pauses = w.pauses ++ p ∷ [] })

  abbrev pub note_written : Written → State (Worker W) (Unit {0})
  note_written x w = (tt, record w { written = w.written ++ x ∷ [] })

  abbrev pub note_event : OrderEvent → State (Worker W) (Unit {0})
  note_event ev w = (tt, record w { events = w.events ++ ev ∷ [] })

  abbrev pub note_sync : Uuid → State (Worker W) (Unit {0})
  note_sync id w = (tt, record w { synced = w.synced ++ id ∷ [] })

  abbrev pub note_start : Instant → State (Worker W) (Unit {0})
  note_start t w = (tt, record w { started = w.started ++ t ∷ [] })

  -- isTimeout, of an error that is not nil
  unfoldable pub is_timeout : WorkerEnv W → Error → Bool
  is_timeout E e =
      let msg = E.to_lower (error_text e) in
      is_deadline e || E.net_timeout e || contains msg "timeout" || contains msg "deadline exceeded"
