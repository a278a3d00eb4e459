-- ===== src/Recon/Inspected.antt =====
-- What RunOnce does with the orders that are pending.
use envoy_trade.Common.{
  ℕ, ◌+◌, ◌≡◌, ◌⊎◌, true, false, ◌&&◌, String, str_eq, none, some, List, [], ◌∷◌, ◌++◌, get_last,
  ltb, eqb_ℤ, Result, ok, err, Error, if◌then◌else◌,
}
use envoy_trade.Common.State.{State}
use envoy_trade.Domain.Types.{Instant, FollowerOrder, OrderEvent, is_terminal, terminal_complete}
use envoy_trade.Recon.Master.{Order}
use envoy_trade.Recon.Pass.{PassEnv}
use envoy_trade.Recon.Logged.{
  Call, accounts_read, pending_read, clock_read, history_read, failure_written, status_written,
  appended, alerted, logged,
}

-- The order is left to fail: an alert, the clock, and, exactly if the order was created more than five
-- minutes before, a failure with a message.
abbrev pub GivenUp : FollowerOrder → List Call → Type 0
GivenUp fo calls =
    (alert message : String) × (now : Instant) × (calls
      ≡ alerted alert
        ∷ clock_read now
        ∷ (if ltb (fo.created_at + 300000000000) now
            then failure_written fo.id "FAILED" message ∷ []
            else []))

-- The broker gives no terminal status.
abbrev pub Unsettled : Result (List Order) → Type 0
Unsettled (err e) = Unit
Unsettled (ok history) =
    (get_last history ≡ none)
    ⊎ ((o : Order) × (get_last history ≡ some o) × (is_terminal o.status ≡ false))

-- The broker's order was complete with the intended quantity, or there is an alert.
abbrev pub drift_alert : FollowerOrder → Order → List Call
drift_alert fo o =
    if str_eq o.status terminal_complete && eqb_ℤ o.filled_quantity fo.intended_qty
    then []
    else alerted "drift detected on follower order" ∷ []

-- After the write of the status: an event for the order, or an alert if the write failed.
abbrev pub Noted : FollowerOrder → Result ℕ → List Call → Type 0
Noted fo (ok id) calls =
    (ev : OrderEvent) × (ev.follower_order_id ≡ some fo.id)
    × (ev.event_type ≡ "reconciled")
    × (calls ≡ appended ev ∷ [])
Noted fo (err e) calls = (text : String) × (calls ≡ alerted text ∷ [])

abbrev pub Settled : FollowerOrder → Order → List Call → Type 0
Settled fo o calls =
    (answer : Result ℕ) × (noted : List Call) × Noted fo answer noted
    × (calls
        ≡ status_written fo.broker_order_id o.status o.filled_quantity o.average_price answer
          ∷ (noted ++ drift_alert fo o))

-- The calls for one order.
pub data IsHandled (fo : FollowerOrder) : List Call → Type 0 where
  unplaced : {calls : List Call} → fo.broker_order_id ≡ "" → GivenUp fo calls → IsHandled fo calls
  unsettled :
      {calls : List Call} (history : Result (List Order))
      → str_eq fo.broker_order_id "" ≡ false
      → Unsettled history
      → GivenUp fo calls
      → IsHandled fo (history_read fo.follower_id fo.broker_order_id history ∷ calls)
  settled :
      {calls : List Call} (history : List Order) (o : Order)
      → str_eq fo.broker_order_id "" ≡ false
      → get_last history ≡ some o
      → is_terminal o.status ≡ true
      → Settled fo o calls
      → IsHandled fo (history_read fo.follower_id fo.broker_order_id (ok history) ∷ calls)

-- The calls for the orders, one order after the other.
pub data AreHandled : List FollowerOrder → List Call → Type 0 where
  none_left : AreHandled [] []
  handled :
      {fo : FollowerOrder} {fos : List FollowerOrder} {calls rest : List Call}
      → IsHandled fo calls
      → AreHandled fos rest
      → AreHandled (fo ∷ fos) (calls ++ rest)

abbrev pub IsSwept : List Call → Type 0
IsSwept calls = (calls ≡ []) ⊎ ((text : String) × (calls ≡ alerted text ∷ []))

-- A pass that ends without an error, and one that does not.
abbrev pub Passed : List Call → Type 0
Passed calls =
    (before each swept : List Call) × (fos : List FollowerOrder) × (calls
      ≡ (before ++ pending_read (ok fos) ∷ []) ++ (each ++ swept))
    × AreHandled fos each
    × IsSwept swept

abbrev pub Stopped : List Call → Type 0
Stopped calls =
    (before : List Call) × (e : Error) × ((calls ≡ before ++ accounts_read (err e) ∷ [])
      ⊎ (calls ≡ before ++ pending_read (err e) ∷ []))

abbrev pub IsPass : Result (Unit {0}) → List Call → Type 0
IsPass (ok _) calls = Passed calls
IsPass (err e) calls = Stopped calls

-- The action adds calls of a kind to the log.
abbrev Adds : {S A : Type 0} → (List Call → Type 0) → State (S × List Call) A → Type 0
Adds {S} P m = (st : S × List Call) → (new : List Call) × (((m st).1).1 ≡ st.1 ++ new) × P new

module _ {S : Type 0} (E : PassEnv S) where
  abbrev L : PassEnv (S × List Call)
  L = logged E

  -- The calls for the order after its history was read.
  abbrev After : FollowerOrder → Result (List Order) → List Call → Type 0
  After fo history calls =
      (Unsettled history × GivenUp fo calls)
      ⊎ ((os : List Order) × (o : Order) × (history ≡ ok os)
          × (get_last os ≡ some o)
          × (is_terminal o.status ≡ true)
          × Settled fo o calls)
