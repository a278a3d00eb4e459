-- ===== src/Ticker/Accounted.antt =====
-- No ticker is lost: over any interleaving each is in one place, and a master has one at most.
use envoy_trade.Common.{
  ℕ, ◌+◌, ◌≡◌, inl, inr, refl, arith, Bool, true, false, String, Option, none, some, Option-cases,
  List, [], ◌∷◌, any, ltb, Result, ok, err, Error, ◌==◌, if_cases, if◌then◌else◌,
}
use envoy_trade.Common.Maps.{get}
use envoy_trade.Common.State.{State, or_return}
use envoy_trade.Domain.Types.{Uuid}
use envoy_trade.Ticker.Places.{
  unit, count, count-append, owner_of, count-drop_ticker, count-drop_one, UniqueKeys, count-remove,
  remove-UniqueKeys,
}
use envoy_trade.Ticker.Manager.{
  TickerEnv, Manager, new_manager, tickers_of, register_factory, hold_new, hold_created,
  create_with, create_for, if_active, prepare, install, take_out, finish, take_all,
}

pub data ManagerEvent (F : Type 0) : Type 0 where
  registers : String → F → ManagerEvent F
  prepares removes : Uuid → ManagerEvent F
  installs finishes : ℕ → ManagerEvent F
  empties : ManagerEvent F

module _ {F S : Type 0} where
  -- in how many places the ticker is
  abbrev pub places : ℕ → Manager F S → ℕ
  places i m =
      count i (tickers_of m.held)
      + count i (tickers_of m.tickers)
      + count i m.stopping
      + count i m.stopped

  pub record Accounted (m : Manager F S) : Type 0 where
    pub once : (i : ℕ) → places i m ≡ unit (ltb i m.next)
    pub unique : UniqueKeys m.tickers

module _ {F A S : Type 0} (E : TickerEnv F A S) where
  unfoldable pub install_by : Option Uuid → ℕ → Manager F S → Manager F S
  install_by none t m = m
  install_by (some id) t m = install E id t m

  -- One section of one goroutine. A ticker is installed by the StartMaster that holds it, and its Stop is
  -- run by the one that has taken it out.
  unfoldable pub manager_step : ManagerEvent F → Manager F S → Manager F S
  manager_step (registers name f) m = register_factory E name f m
  manager_step (prepares id) m = (prepare E id m).1
  manager_step (removes id) m = (take_out E id m).1
  manager_step (installs t) m = install_by (owner_of t m.held) t m
  manager_step (finishes t) m = if any (λ s. s == t) m.stopping then (finish E t m).1 else m
  manager_step empties m = (take_all E m).1

  unfoldable pub manager_run : List (ManagerEvent F) → Manager F S → Manager F S
  manager_run [] m = m
  manager_run (e ∷ es) m = manager_run es (manager_step e m)

  hold_new-Accounted : (id : Uuid) (m : Manager F S) → Accounted m → Accounted (hold_new E id m).1
  unfolding hold_new
  hold_new-Accounted id m a = record { once = λ i. ground (arith, a.once i); unique = a.unique }

  install-Accounted :
      (id : Uuid) (t : ℕ) (m : Manager F S)
      → owner_of t m.held ≡ some id
      → Accounted m
      → Accounted (install E id t m)
  unfolding install
  install-Accounted id t m h a = elim (Option-cases (get id m.tickers)) [
    | inl e ↦
        rw (e, install)
          (record {
            once = λ i. omega (arith, a.once i, count-drop_ticker i t id m.held h);
            unique = (e, a.unique);
          })
    | inr (s, e) ↦
        rw (e, install)
          (record {
            once = λ i. omega (arith, a.once i, count-drop_ticker i t id m.held h);
            unique = a.unique;
          })
  ]

  take_out-Accounted : (id : Uuid) (m : Manager F S) → Accounted m → Accounted (take_out E id m).1
  unfolding take_out
  take_out-Accounted id m a = elim (Option-cases (get id m.tickers)) [
    | inl e ↦ rw (e, take_out) a
    | inr (t, e) ↦
        rw (e, take_out)
          (record {
            once = λ i. omega (arith, a.once i, count-remove i id t m.tickers a.unique e);
            unique = remove-UniqueKeys id m.tickers a.unique;
          })
  ]

  finish-Accounted :
      (t : ℕ) (m : Manager F S)
      → any (λ s. s == t) m.stopping ≡ true
      → Accounted m
      → Accounted (finish E t m).1
  unfolding finish
  finish-Accounted t m h a = record {
    once = λ i. omega (arith, a.once i, count-drop_one i t m.stopping h);
    unique = a.unique;
  }

  take_all-Accounted : (m : Manager F S) → Accounted m → Accounted (take_all E m).1
  unfolding take_all
  take_all-Accounted m a = record {
    once = λ i. omega (arith, a.once i, count-append i (tickers_of m.tickers) m.stopping);
    unique = tt;
  }

  module _ {B C : Type 0} where
    -- the manager after a chain of calls, of which the first may fail
    or_return-Accounted :
        (f : Error → Error) (k : B → State (Manager F S) (Result C)) (r : Result B)
        (m : Manager F S)
        → ((b : B) (n : Manager F S) → Accounted n → Accounted (k b n).1)
        → Accounted m
        → Accounted (or_return f k r m).1
    or_return-Accounted f k (ok b) m h a = h b m a
    or_return-Accounted f k (err x) m h a = a

  elsewhere-Accounted : (w : S) (m : Manager F S) → Accounted m → Accounted (record m { world = w })
  elsewhere-Accounted w m a = record { once = a.once; unique = a.unique }

  hold_created-Accounted :
      (id : Uuid) (b : Bool) (m : Manager F S) → Accounted m → Accounted (hold_created E id b m).1
  unfolding hold_created
  hold_created-Accounted id false m a = a
  hold_created-Accounted id true m a = hold_new-Accounted id m a

  create_with-Accounted :
      (id : Uuid) (key : String) (info : A) (f : Option F) (m : Manager F S)
      → Accounted m
      → Accounted (create_with E id key info f m).1
  unfolding create_with
  create_with-Accounted id key info none m a = a
  create_with-Accounted id key info (some f) m a =
      let r = E.create f id info m.world in
      or_return-Accounted _ (hold_created E id) r.0 (record m { world = r.1 })
        (hold_created-Accounted id) (elsewhere-Accounted r.1 m a)

  create_for-Accounted :
      (id : Uuid) (info : A) (m : Manager F S) → Accounted m → Accounted (create_for E id info m).1
  unfolding create_for
  create_for-Accounted id info m a = create_with-Accounted id _ info _ m a

  if_active-Accounted :
      (id : Uuid) (b : Bool) (m : Manager F S) → Accounted m → Accounted (if_active E id b m).1
  unfolding if_active
  if_active-Accounted id false m a = a
  if_active-Accounted id true m a =
      let r = E.account_auth_info id m.world in
      or_return-Accounted _ (create_for E id) r.0 (record m { world = r.1 })
        (create_for-Accounted id) (elsewhere-Accounted r.1 m a)

  prepare-Accounted : (id : Uuid) (m : Manager F S) → Accounted m → Accounted (prepare E id m).1
  unfolding prepare
  prepare-Accounted id m a =
      let r = E.master_active id m.world in
      or_return-Accounted _ (if_active E id) r.0 (record m { world = r.1 }) (if_active-Accounted id)
        (elsewhere-Accounted r.1 m a)

  install_by-Accounted :
      (o : Option Uuid) (t : ℕ) (m : Manager F S)
      → owner_of t m.held ≡ o
      → Accounted m
      → Accounted (install_by o t m)
  unfolding install_by
  install_by-Accounted none t m e a = a
  install_by-Accounted (some id) t m e a = install-Accounted id t m e a

  step-Accounted :
      (e : ManagerEvent F) (m : Manager F S) → Accounted m → Accounted (manager_step e m)
  unfolding manager_step register_factory
  step-Accounted (registers name f) m a = record { once = a.once; unique = a.unique }
  step-Accounted (prepares id) m a = prepare-Accounted id m a
  step-Accounted (removes id) m a = take_out-Accounted id m a
  step-Accounted (installs t) m a = install_by-Accounted (owner_of t m.held) t m refl a
  step-Accounted (finishes t) m a =
      if_cases Accounted (any (λ s. s == t) m.stopping) (finish E t m).1 m
        (λ h. finish-Accounted t m h a) (λ _. a)
  step-Accounted empties m a = take_all-Accounted m a

  run-Accounted :
      (es : List (ManagerEvent F)) (m : Manager F S) → Accounted m → Accounted (manager_run es m)
  unfolding manager_run
  run-Accounted [] m a = a
  run-Accounted (e ∷ es) m a = run-Accounted es (manager_step e m) (step-Accounted e m a)

  -- Over any interleaving of the sections of StartMaster, StopMaster, Shutdown and RegisterFactory by any
  -- goroutines, and with any answers of the store, the factories and the tickers: every ticker that was
  -- created is in exactly one place (in the hands of its StartMaster, in the map, taken out with its Stop
  -- still to come, or stopped, once), no other ticker is in any, and the map has one ticker at most for a
  -- master.
  pub manager_run-Accounted :
      (w : S) (es : List (ManagerEvent F))
      → ((i : ℕ)
          → places i (manager_run es (new_manager w))
            ≡ unit (ltb i (manager_run es (new_manager w)).next))
        × UniqueKeys (manager_run es (new_manager w)).tickers
  manager_run-Accounted w es =
      let a = run-Accounted es (new_manager w) (record { once = λ i. ground arith; unique = tt }) in
      (a.once, a.unique)
