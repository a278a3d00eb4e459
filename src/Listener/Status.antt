-- ===== src/Listener/Status.antt =====
-- listener.go: FollowerStatusConsumer.Handle. The store is a set of functions on a world; `synced`
-- keeps the accounts whose portfolio sync was started, and `audited` the events that were handed to
-- the store.
use envoy_trade.Common.{
  ℕ, Bool, true, false, ◌&&◌, ◌||◌, String, str_eq, none, some, List, [], ◌∷◌, ◌++◌, ℤ, ◌==◌, Error,
  Result, ok, err, is_not_found, is_duplicate, if◌then◌else◌,
}
use envoy_trade.Common.State.{State, pure, ◌>>=◌, ◌>>◌}
use envoy_trade.Domain.Decimal.{Decimal}
use envoy_trade.Domain.Types.{Uuid, OrderUpdate, OrderEvent, terminal_complete}

-- FollowerStatusStore; of the order that GetFollowerOrder fetches, only the follower's id is read.
pub record StatusEnv (W : Type 0) : Type 0 where
  pub update_status : String → String → ℤ → Decimal → W → Result ℕ × W
  pub update_by_tag : Uuid → String → String → String → ℤ → Decimal → W → Result ℕ × W
  pub insert_direct : OrderUpdate → W → Result ℕ × W
  pub stash : String → String → ℤ → Decimal → List ℕ → W → Result (Unit {0}) × W
  pub follower_of : ℕ → W → Result Uuid × W
  pub append_event : OrderEvent → W → Result (Unit {0}) × W
  pub has_syncer : Bool

pub record Consumer (W : Type 0) : Type 0 where
  pub world : W
  pub synced : List Uuid
  pub audited : List OrderEvent

module _ {W : Type 0} where
  abbrev pub ask : {A : Type 0} → (W → A × W) → State (Consumer W) A
  ask f c = let r = f c.world in (r.0, record c { world = r.1 })

  abbrev pub note_sync : Uuid → State (Consumer W) (Unit {0})
  note_sync id c = (tt, record c { synced = c.synced ++ id ∷ [] })

  abbrev pub note_event : OrderEvent → State (Consumer W) (Unit {0})
  note_event ev c = (tt, record c { audited = c.audited ++ ev ∷ [] })

-- Go's id beside the error: zero where there is an error.
abbrev pub id_of : Result ℕ → ℕ
id_of (ok id) = id
id_of (err e) = 0

abbrev pub fails_not_found : Result ℕ → Bool
fails_not_found (ok id) = false
fails_not_found (err e) = is_not_found e

-- errors.Is(err, domain.ErrNotFound) || id == 0
unfoldable pub unmatched : Result ℕ → Bool
unmatched r = fails_not_found r || id_of r == 0

unfoldable pub status_event : OrderUpdate → ℕ → Uuid → OrderEvent
status_event upd id follower = record {
  id = 0;
  follower_order_id = some id;
  master_fill_id = none;
  account_id = follower;
  event_type = "status_update";
  payload = upd.raw_payload;
  occurred_at = 0;
}

module _ {W : Type 0} (E : StatusEnv W) (upd : OrderUpdate) where
  -- uuid.Nil is replaced by the follower of the update
  unfoldable pub account_of : Uuid → Uuid
  account_of follower = if follower == 0 then upd.follower_id else follower

  unfoldable pub sync_complete : Uuid → State (Consumer W) (Unit {0})
  sync_complete account =
      if str_eq upd.status terminal_complete && E.has_syncer then note_sync account else pure tt

  -- from the fetch of the order on
  unfoldable pub audit_as : ℕ → Result Uuid → State (Consumer W) (Result (Unit {0}))
  audit_as id (err e) = pure (err e)
  audit_as id (ok follower) = do
    let account = account_of follower
    sync_complete account
    note_event (status_event upd id account)
    ask (E.append_event (status_event upd id account))

  unfoldable pub audit : ℕ → State (Consumer W) (Result (Unit {0}))
  audit id = do fetched ← ask (E.follower_of id); audit_as id fetched

  -- `if err != nil { return err }`
  unfoldable pub audit_if_ok : Result ℕ → State (Consumer W) (Result (Unit {0}))
  audit_if_ok (ok id) = audit id
  audit_if_ok (err e) = pure (err e)

  unfoldable pub stash_then_fail : Error → State (Consumer W) (Result (Unit {0}))
  stash_then_fail e = do
    ask (
        E.stash upd.broker_order_id upd.status upd.filled_quantity upd.average_price
          upd.raw_payload)
    pure (err e)

  -- step 3, from the answer of InsertDirectFollowerOrder on
  unfoldable pub after_direct : Result ℕ → State (Consumer W) (Result (Unit {0}))
  after_direct (ok id) = audit id
  after_direct (err e) = if is_duplicate e then pure (ok tt) else stash_then_fail e

  unfoldable pub insert_direct_if : Bool → Result ℕ → State (Consumer W) (Result (Unit {0}))
  insert_direct_if true found = do inserted ← ask (E.insert_direct upd); after_direct inserted
  insert_direct_if false found = audit_if_ok found

  -- step 2, by the tag if there is one
  unfoldable pub by_tag : Error → State (Consumer W) (Result ℕ)
  by_tag e =
      if str_eq upd.tag ""
      then pure (err e)
      else ask (
          E.update_by_tag upd.follower_id upd.tag upd.broker_order_id upd.status upd.filled_quantity
            upd.average_price)

  unfoldable pub not_by_broker_id : Error → State (Consumer W) (Result (Unit {0}))
  not_by_broker_id e = do found ← by_tag e; insert_direct_if (unmatched found) found

  unfoldable pub after_status : Result ℕ → State (Consumer W) (Result (Unit {0}))
  after_status (ok id) = audit id
  after_status (err e) = if is_not_found e then not_by_broker_id e else pure (err e)

  unfoldable pub handle_update : State (Consumer W) (Result (Unit {0}))
  handle_update = do
    updated ←
        ask (E.update_status upd.broker_order_id upd.status upd.filled_quantity upd.average_price)
    after_status updated
