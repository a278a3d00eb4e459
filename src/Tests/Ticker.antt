-- ===== src/Tests/Ticker.antt =====
-- Two goroutines that start one master's ticker at the same time.
use envoy_trade.Common.{ℕ, suc, ◌+◌, ◌≡◌, refl, arith, true, String, List, [], ◌∷◌, ok, ltb}
use envoy_trade.Common.Keyed.{find, store, without}
use envoy_trade.Common.Maps.{get, remove}
use envoy_trade.Common.Words.{to_lower, trim_space, is_blank}
use envoy_trade.Ticker.Manager.{
  TickerEnv, Manager, new_manager, tickers_of, register_factory, broker_key, hold_new, hold_created,
  create_with, create_for, if_active, prepare, install, take_out, finish, shutdown,
}
use envoy_trade.Ticker.Places.{unit, count, UniqueKeys, owner_of}
use envoy_trade.Ticker.Accounted.{
  ManagerEvent, registers, prepares, removes, installs, finishes, places, Accounted, install_by,
  manager_step, manager_run, manager_run-Accounted,
}
use envoy_trade.Ticker.Shutdown.{shutdown-stopped}

abbrev always : TickerEnv (Unit {0}) String ℕ
always = record {
  master_active = λ id n. (ok true, suc n);
  account_auth_info = λ id n. (ok " Kite ", suc n);
  broker_of = λ info. info;
  create = λ f id info n. (ok true, suc n);
  stop = λ t n. (ok tt, suc n);
  group_masters = λ n. (ok [], n);
}

-- Both create a ticker; the second to install stops its own; then the master's is taken out.
abbrev two_starts : List (ManagerEvent (Unit {0}))
two_starts =
    registers "KITE" tt
    ∷ prepares 7
    ∷ prepares 7
    ∷ installs 1
    ∷ installs 0
    ∷ finishes 0
    ∷ prepares 8
    ∷ installs 2
    ∷ removes 7
    ∷ []

manager_run-Accounted_example :
    ((i : ℕ)
      → places i (manager_run always two_starts (new_manager 0))
        ≡ unit (ltb i (manager_run always two_starts (new_manager 0)).next))
    × UniqueKeys (manager_run always two_starts (new_manager 0)).tickers
manager_run-Accounted_example = manager_run-Accounted always 0 two_starts

after_two_starts : manager_run always two_starts (new_manager 0) ≡ record {
  factories = ("kite", tt) ∷ [];
  tickers = (8, 2) ∷ [];
  world = 10;
  next = 3;
  held = [];
  stopping = 1 ∷ [];
  stopped = 0 ∷ [];
}
unfolding manager_run manager_step install_by owner_of register_factory prepare if_active create_for
    create_with hold_created hold_new install take_out finish find store to_lower trim_space
    is_blank broker_key get remove without
after_two_starts = refl

abbrev two_running : Manager (Unit {0}) ℕ
two_running = record {
  factories = [];
  tickers = (8, 2) ∷ (7, 0) ∷ [];
  world = 0;
  next = 3;
  held = [];
  stopping = [];
  stopped = 1 ∷ [];
}

two_running-Accounted : Accounted two_running
unfolding get
two_running-Accounted = record { once = λ i. ground arith; unique = (refl, (refl, tt)) }

shutdown-stopped_example :
    ((shutdown always two_running).1.tickers ≡ [])
    × (count 2 (shutdown always two_running).1.stopped
          + count 2 (tickers_of two_running.held)
          + count 2 two_running.stopping
        ≡ unit (ltb 2 3))
shutdown-stopped_example = shutdown-stopped always two_running 2 two_running-Accounted
