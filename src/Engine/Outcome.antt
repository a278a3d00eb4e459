-- ===== src/Engine/Outcome.antt =====
-- What HandleMasterFill can do: either it hands nothing over, or every gate is open, the store has
-- given links and a batch of new rows, and it hands over what the links are due.
use envoy_trade.Common.{
  ℕ, ◌≡◌, refl, ap, ◌∙◌, ◌⊎◌, inl, inr, String, Option, none, some, List, ◌++◌, map, ltb, ℤ, Result,
  ok, err, is_not_found, str_append, Bool-cases, Result-cases, Option-cases,
}
use envoy_trade.Domain.Decimal.{Float64}
use envoy_trade.Domain.Types.{
  Instant, DispatchState, MasterFill, FollowLink, Job, terminal_complete,
}
use envoy_trade.Domain.Types
use envoy_trade.Engine.Parts.{
  Env, Engine, inserted, ask, note, resolve_with, cache_load, cache_miss, cache_store,
  cached_lot_size, resolve_lot_size,
}
use envoy_trade.Engine.Sizing.{Candidate, candidate_of, order_of, has_scaled_ratios}
use envoy_trade.Engine.Prices.{resolve_execution_prices}
use envoy_trade.Engine.Dispatch.{Counts, dispatch_all}
use envoy_trade.Engine.Handle.{
  set_dispatch_state, drop_fill, record_event, record_execution, finish, insert_and_dispatch,
  lot_size_for,
}
use envoy_trade.Engine.Trace.{
  jobs, jobs_laws, jobs-inserted, planned, Reach, here, by_now, by_lot_size, by_batch, by_state,
  by_resolver, Reach-trans,
}
use envoy_trade.Engine.Loop.{dispatch_all-jobs, dispatch_all-Reach}

module _ {W : Type 0} (E : Env W) where
  -- Nothing was handed over.
  pub record Quiet (e f : Engine W) : Type 0 where
    pub reach : Reach E e.world f.world
    pub same : jobs f.calls ≡ jobs e.calls

  pub Quiet-trans : {e f g : Engine W} → Quiet e f → Quiet f g → Quiet e g
  Quiet-trans q r = record { reach = Reach-trans q.reach r.reach; same = r.same ∙ q.same }

  set_dispatch_state-Quiet :
      (id : ℕ) (st : DispatchState) (e : Engine W) → Quiet e (set_dispatch_state E id st e).1
  unfolding set_dispatch_state
  set_dispatch_state-Quiet id st e = record { reach = by_state _ _ _ here; same = simp jobs_laws }

  pub drop_fill-Quiet :
      (fill : MasterFill) (st : DispatchState) (e : Engine W) → Quiet e (drop_fill E fill st e).1
  unfolding drop_fill
  drop_fill-Quiet fill st e = elim (Bool-cases (ltb 0 fill.id)) [
    | inl h ↦ rw h (set_dispatch_state-Quiet fill.id st e)
    | inr h ↦ rw h (record { reach = here; same = refl })
  ]

  record_execution-Quiet :
      (fill : MasterFill) (start : Instant) (price : Float64) (counts : Counts) (e : Engine W)
      → Quiet e (record_execution E fill start price counts e).1
  unfolding record_execution record_event
  record_execution-Quiet fill start price counts e = elim (Bool-cases E.records) [
    | inl h ↦ rw h (record { reach = by_now _ (by_now _ here); same = simp jobs_laws })
    | inr h ↦ rw h (record { reach = here; same = refl })
  ]

  cache_miss-Quiet : (key : String) (r : Result ℤ) (e : Engine W) → Quiet e (cache_miss key r e).1
  unfolding cache_miss cache_store
  cache_miss-Quiet key (ok v) e = record { reach = here; same = refl }
  cache_miss-Quiet key (err x) e = elim (Bool-cases (is_not_found x)) [
    | inl h ↦ rw h (record { reach = here; same = refl })
    | inr h ↦ rw h (record { reach = here; same = refl })
  ]

  cached_lot_size-Quiet : (x s : String) (e : Engine W) → Quiet e (cached_lot_size E x s e).1
  unfolding cached_lot_size
  cached_lot_size-Quiet x s e =
      let key = str_append x (str_append ":" s) in
      elim (Option-cases (cache_load key e.lot_size_cache)) [
        | inl h ↦
            rw (h, cached_lot_size)
              (Quiet-trans {f = (ask (E.instrument_lot_size x s) e).1}
                (record { reach = by_lot_size _ _ _ here; same = refl }) (cache_miss-Quiet key _ _))
        | inr (v, h) ↦ rw (h, cached_lot_size) (record { reach = here; same = refl })
      ]

  resolve_with-Quiet :
      (r : Option (String → String → W → Result ℤ × W)) (x s : String) (e : Engine W)
      → E.lot_size_resolver ≡ r
      → Quiet e (resolve_with E r x s e).1
  unfolding resolve_with
  resolve_with-Quiet none x s e h = cached_lot_size-Quiet x s e
  resolve_with-Quiet (some f) x s e h = record { reach = by_resolver _ f x s h here; same = refl }

  resolve_lot_size-Quiet : (x s : String) (e : Engine W) → Quiet e (resolve_lot_size E x s e).1
  unfolding resolve_lot_size
  resolve_lot_size-Quiet x s e = resolve_with-Quiet E.lot_size_resolver x s e refl

  pub lot_size_for-Quiet :
      (fill : MasterFill) (links : List FollowLink) (e : Engine W)
      → Quiet e (lot_size_for E fill links e).1
  unfolding lot_size_for
  lot_size_for-Quiet fill links e = elim (Bool-cases (has_scaled_ratios E.numerics links)) [
    | inl h ↦ rw h (resolve_lot_size-Quiet fill.exchange fill.tradingsymbol e)
    | inr h ↦ rw h (record { reach = here; same = refl })
  ]

  pub finish-Quiet :
      (fill : MasterFill) (start : Instant) (price : Float64) (counts : Counts) (e : Engine W)
      → Quiet e (finish E fill start price counts e).1
  unfolding finish
  finish-Quiet fill start price counts e =
      Quiet-trans (record_execution-Quiet fill start price counts e)
        (set_dispatch_state-Quiet fill.id Types.dispatched _)

  -- The candidates of a fill and what the loop is given.
  abbrev pub candidates : MasterFill → ℤ → List FollowLink → List Candidate
  candidates fill lot = map (candidate_of E.numerics E.digest fill lot)

  abbrev pub prices : MasterFill → Float64 × Float64
  prices = resolve_execution_prices E.numerics E.decode_prices

  -- The batch was stored, and the candidates got what they were due.
  pub record Batched (fill : MasterFill) (cs : List Candidate) (lot : ℤ) (e f : Engine W)
      : Type 0 where
    pub before : W
    pub ids : List (String × ℕ)
    pub reach : Reach E e.world before
    pub stored :
        (E.insert_follower_orders_batch (map (order_of E.numerics fill lot) cs) before).0 ≡ ok ids
    pub after :
        Reach E
          (E.insert_follower_orders_batch (map (order_of E.numerics fill lot) cs) before).1
          f.world
    pub handed : jobs f.calls ≡ jobs e.calls ++ planned fill (prices fill) ids cs

  pub insert_and_dispatch-Batched :
      (fill : MasterFill) (start : Instant) (lot : ℤ) (cs : List Candidate) (e : Engine W)
      → let f = (insert_and_dispatch E fill start lot cs e).1 in Quiet e f ⊎ Batched fill cs lot e f
  unfolding insert_and_dispatch
  insert_and_dispatch-Batched fill start lot cs e =
      let orders = map (order_of E.numerics fill lot) cs in
      elim (Result-cases (E.insert_follower_orders_batch orders e.world).0) [
        | inl (ids, h) ↦ rw h (
            inr (
              let e' =
                (ask (E.insert_follower_orders_batch orders) (note (inserted orders) e).1).1 in
              let r = dispatch_all E fill (prices fill) ids cs (0, 0) e' in
              let q = finish-Quiet fill start (prices fill).0 r.0 r.1 in
              record {
                before = e.world;
                ids = ids;
                reach = here;
                stored = h;
                after =
                    Reach-trans (dispatch_all-Reach E fill (prices fill) ids cs (0, 0) e') q.reach;
                handed =
                    q.same
                    ∙ dispatch_all-jobs E fill (prices fill) ids cs (0, 0) e'
                    ∙ ap (λ js. js ++ planned fill (prices fill) ids cs)
                        (jobs-inserted e.calls orders);
              }))
        | inr (x, h) ↦ rw h (inl (record { reach = by_batch _ _ here; same = simp jobs_laws }))
      ]
