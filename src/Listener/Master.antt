-- ===== src/Listener/Master.antt =====
-- listener.go: MasterFillConsumer.Handle, over a state that the store and the engine share.
use envoy_trade.Common.{ℕ, Bool, Result, ok, err, is_duplicate, if◌then◌else◌}
use envoy_trade.Common.State.{State, pure, ◌>>=◌, ◌>>◌}
use envoy_trade.Domain.Types.{Uuid, MasterFill}

-- `note_sync` is the start of a portfolio sync, if there is a syncer.
pub record MasterEnv (S : Type 0) : Type 0 where
  pub insert_master_fill : MasterFill → S → Result ℕ × S
  pub handle_master_fill : MasterFill → S → Result (Unit {0}) × S
  pub has_syncer : Bool
  pub note_sync : Uuid → S → Unit {0} × S

module _ {S : Type 0} (E : MasterEnv S) (fill : MasterFill) where
  unfoldable pub sync_master : Result (Unit {0}) → State S (Result (Unit {0}))
  sync_master (err e) = pure (err e)
  sync_master (ok u) =
      if E.has_syncer then (do E.note_sync fill.master_id; pure (ok u)) else pure (ok u)

  unfoldable pub fan_out_as : ℕ → State S (Result (Unit {0}))
  fan_out_as id = do handled ← E.handle_master_fill (record fill { id = id }); sync_master handled

  unfoldable pub after_insert : Result ℕ → State S (Result (Unit {0}))
  after_insert (ok id) = fan_out_as id
  after_insert (err e) = if is_duplicate e then pure (ok tt) else pure (err e)

  unfoldable pub handle_fill : State S (Result (Unit {0}))
  handle_fill = do inserted ← E.insert_master_fill fill; after_insert inserted
