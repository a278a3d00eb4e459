-- ===== src/Engine/Dispatch.antt =====
-- HandleMasterFill, step 5: the hand-over of the sized orders to the workers.
use envoy_trade.Common.{
  ℕ, suc, Bool, true, false, String, str_eq, Option, none, some, List, [], ◌∷◌, pos, eqb_ℤ,
  if◌then◌else◌,
}
use envoy_trade.Common.State.{State, pure, ◌>>=◌, ◌>>◌}
use envoy_trade.Domain.Decimal.{Float64}
use envoy_trade.Domain.Types.{MasterFill, Job, terminal_dead_lettered, reason_string}
use envoy_trade.Engine.Parts.{Env, Engine, failed, dispatched, ask, note}
use envoy_trade.Engine.Sizing.{Candidate}

-- `insertedMap[tag]`
unfoldable pub inserted_id : String → List (String × ℕ) → Option ℕ
inserted_id tag [] = none
inserted_id tag ((t, id) ∷ rest) = if str_eq t tag then some id else inserted_id tag rest

unfoldable pub job_of : MasterFill → Float64 × Float64 → ℕ → Candidate → Job
job_of fill prices order_id c = record {
  follower_order_id = order_id;
  follower_id = c.follower_id;
  master_fill_id = fill.id;
  idempotency_tag = c.tag;
  exchange = fill.exchange;
  tradingsymbol = fill.tradingsymbol;
  transaction_type = fill.transaction_type;
  product = fill.product;
  order_type = fill.order_type;
  quantity = c.qty;
  price = prices.0;
  trigger_price = prices.1;
}

abbrev pub channel_full : String
channel_full = "worker channel full: fan-out could not hand off in time"

-- `dispatchedCount` and `skippedCount`
abbrev pub Counts : Type 0
Counts = ℕ × ℕ

module _ {W : Type 0} (E : Env W) where
  -- UpdateFollowerOrderFailed; an error of it is only logged.
  unfoldable pub mark_failed : ℕ → String → String → State (Engine W) (Unit {0})
  mark_failed order_id status message = do
    note (failed order_id status message)
    ask (E.update_follower_order_failed order_id status message)
    pure tt

  unfoldable pub after_dispatch : ℕ → Counts → Bool → State (Engine W) Counts
  after_dispatch order_id counts true = pure (suc counts.0, counts.1)
  after_dispatch order_id counts false = do
    mark_failed order_id terminal_dead_lettered channel_full
    pure counts

  unfoldable pub hand_over :
      MasterFill → Float64 × Float64 → ℕ → Candidate → Counts → State (Engine W) Counts
  hand_over fill prices order_id c counts =
      if eqb_ℤ c.qty (pos 0)
      then (do
        mark_failed order_id "SKIPPED" (reason_string c.reason)
        pure (counts.0, suc counts.1))
      else (do
        let job = job_of fill prices order_id c
        note (dispatched c.follower_id job)
        sent ← ask (E.dispatch c.follower_id job)
        after_dispatch order_id counts sent)

  -- One pass of the loop's body: a tag that was not inserted is a redelivery.
  unfoldable pub dispatch_one :
      MasterFill
      → Float64 × Float64
      → List (String × ℕ)
      → Candidate
      → Counts
      → State (Engine W) Counts
  dispatch_one fill prices inserted c counts = elim (inserted_id c.tag inserted) [
    | none ↦ pure counts
    | some order_id ↦ hand_over fill prices order_id c counts
  ]

  unfoldable pub dispatch_all :
      MasterFill
      → Float64 × Float64
      → List (String × ℕ)
      → List Candidate
      → Counts
      → State (Engine W) Counts
  dispatch_all fill prices inserted [] counts e = (counts, e)
  dispatch_all fill prices inserted (c ∷ cs) counts e =
      let r = dispatch_one fill prices inserted c counts e in
      dispatch_all fill prices inserted cs r.0 r.1
