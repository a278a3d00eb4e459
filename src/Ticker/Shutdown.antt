-- ===== src/Ticker/Shutdown.antt =====
-- Shutdown.
use envoy_trade.Common.{ℕ, ◌+◌, ◌≡◌, refl, arith, List, [], ◌∷◌, ltb}
use envoy_trade.Ticker.Manager.{
  TickerEnv, Manager, tickers_of, finish, take_all, finish_each, shutdown,
}
use envoy_trade.Ticker.Places.{unit, count}
use envoy_trade.Ticker.Accounted.{Accounted}

module _ {F A S : Type 0} (E : TickerEnv F A S) where
  finish_each_stopped :
      (i : ℕ) (ts : List ℕ) (m : Manager F S)
      → count i (finish_each E ts m).1.stopped ≡ count i ts + count i m.stopped
  unfolding finish_each finish
  finish_each_stopped i [] m = omega arith
  finish_each_stopped i (t ∷ ts) m = omega (arith, finish_each_stopped i ts (finish E t m).1)

  finish_each_tickers : (ts : List ℕ) (m : Manager F S) → (finish_each E ts m).1.tickers ≡ m.tickers
  unfolding finish_each finish
  finish_each_tickers [] m = refl
  finish_each_tickers (t ∷ ts) m = finish_each_tickers ts (finish E t m).1

  -- After Shutdown of a manager whose tickers are accounted for, the map is empty, and every ticker that was
  -- created before it has been stopped exactly once, but for those that a StartMaster has in hand and those whose Stop another goroutine has still to
  -- run; whatever the Stops return.
  pub shutdown-stopped :
      (m : Manager F S) (i : ℕ)
      → Accounted m
      → ((shutdown E m).1.tickers ≡ [])
        × (count i (shutdown E m).1.stopped + count i (tickers_of m.held) + count i m.stopping
            ≡ unit (ltb i m.next))
  unfolding shutdown take_all
  shutdown-stopped m i a =
      let n = (take_all E m).1 in
      (
        finish_each_tickers (tickers_of m.tickers) n,
        omega (arith, finish_each_stopped i (tickers_of m.tickers) n, a.once i),
      )
