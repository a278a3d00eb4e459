-- ===== src/Lib.antt =====
-- The trade copier EnvoyTrade: what a master account's fill leads to, from the queue to the brokers
-- of its followers, what the order tables and the mock broker keep, and how positions are rebalanced
-- and squared off.
--
-- The program. A listener or a postback puts a master's fill into a bounded queue
-- (internal/queue/memchan). MasterFillConsumer (internal/listener) stores it and hands it to the
-- engine (internal/engine), which sizes a copy for each enabled follower (internal/domain), inserts
-- one row for each copy in a single batch, and hands each new row with a quantity to the follower's
-- worker (internal/worker). The worker places the order with the follower's broker and writes one
-- outcome to the row. A postback about the follower's order comes through a second queue to
-- FollowerStatusConsumer, which updates the row, or stashes the update if the row does not know its
-- broker's order id yet. All rows are tables of internal/store/postgres. testbroker is a mock broker.
--
-- The files.
--   Common           lists, integers, texts, errors as values, state passing, channels and maps
--   Domain/Types     internal/domain/types.go: the records and the terminal statuses
--   Domain/Sizing    internal/domain/sizing.go: SizeOrder; below it, Caps and Exact prove
--   Domain/Decimal   shopspring/decimal and float64 as a parameter (Numerics), with what is relied on
--                    (IsExact)
--   Domain/Idempotency  internal/domain/idempotency.go: IdempotencyTag
--   Domain/Status    internal/domain/status.go, with what is proved of it
--   Domain/Proxy     internal/domain/proxy.go; the packages time and net are a parameter (Library);
--                    below it, Input is the import of an address, Expiry, Stats and Valid prove
--   Engine           internal/engine/engine.go: Parts is its state and interfaces (Env), Sizing,
--                    Prices, Dispatch and Handle are HandleMasterFill and resolveExecutionPrices;
--                    Trace, Loop, Outcome, FanOut, Copies and Redelivery prove
--   Store            internal/store/postgres/store.go on the tables of its migrations: Tables,
--                    Inserts and Updates; Rows, Validity, Steps, Tagged and Race prove. Addresses is
--                    proxy_ips.go and the assignment of an address; Pool, Holders and Assigned prove
--   Worker           internal/worker/pool.go: Parts, Place (place, recordFailure, run) and Pool (the
--                    channels); Attempts, Clock, Rate, Moves and Fifo prove
--   Queue            internal/queue/memchan/memchan.go
--   Listener         internal/listener/listener.go: Status and Master are the two handlers; Audit
--                    proves
--   System           the wiring of engine, store and MasterFillConsumer; Once, Known and Fills prove
--   Broker           testbroker/engine.go: Order, Book, Place and Positions; Sound, Final,
--                    Terminal, Tallies and Nets prove
--   Desk             the calls of the broker and the store that square-off and rebalancing share; Tags
--                    makes their order tags
--   Rebalance        internal/rebalance/service.go: Drift is calculateFollowerDrift, Account is
--                    ComputeAccountDiff and RebalanceAccount; Keys, Closes, Goal, Balanced, Orders, Made
--                    and Outcome prove
--   Squareoff        internal/squareoff/service.go: Account is SquareOffAccount, Group is
--                    SquareOffGroup; Flat, Receipts, Closings, Outcome and Cleared prove
--   Ticker           internal/ticker/manager.go: Manager, whose methods are composed of their
--                    critical sections; Places, Accounted and Shutdown prove
--   Debounce         internal/kite/sync_debouncer.go: Syncer; Phases, Refines and Served prove
--   Crypto           internal/crypto/cipher.go; Base64 is encoding/base64, RoundTrip proves
--   Recon            internal/recon/reconciler.go: Master is ReconcileMaster, Follower is
--                    ReconcileFollower, Pass is RunOnce; Backfill proves, over the wiring of System,
--                    and Inspected, on the log of Logged
--   Accounts         internal/broker/pool.go: the cache of brokers; Shared proves
--   Tests            concrete inputs
--
-- How state is modelled. A component's state is a record, and a method is a function that returns its
-- result and the new state; an (int64, error) pair is a Result. An interface is a record of functions
-- on a world of any type (Env, WorkerEnv, StatusEnv, MasterEnv, ReconEnv, PassEnv,
-- DeskEnv, TickerEnv), so that every answer and every error of it is covered; System gives the engine's store interface the functions of Store. Some states
-- carry a history that nothing reads (the engine's calls, the worker's answers and waits, the fired
-- hooks, the orders of a desk, the stopped tickers); what is proved of RunOnce is about the log that
-- Recon/Logged puts around its interfaces. A tick of PostgreSQL's now() is the table state's clock. Go's int is an integer over the
-- native numbers; where the source narrows, multiplies or sums up quantities, the wrap to 32 or 64 bits is
-- written out. A float64 is its bit pattern, and its operations are parameters. UUIDs, ids and instants are
-- numbers. Loops over slices are structural recursions, and the loop over attempts is one on the
-- number of attempts that are left, so that no fuel is needed.
--
-- What is not modelled. Logging; the process and its configuration; HTTP handlers, authentication,
-- archive, instruments, the streams of the tickers, the adapters of the real brokers, the group
-- operations of rebalance, and the interleavings and panics of a group's square-off;
-- the generated code of sqlc, whose queries the functions of Store read from the SQL; foreign keys,
-- gaps in sequences, the rounding of numeric columns, and errors of the connection in Store (the
-- interfaces' worlds have them). Go's memory model: each method is one step, except that FillOrder of
-- the mock broker, the cache of brokers, the ticker manager and the debouncer are also taken apart at
-- their locks. A portfolio sync of the worker is only recorded as started.
pub mod Common
pub mod Domain
pub mod Engine
pub mod Store
pub mod System
pub mod Worker
pub mod Listener
pub mod Queue
pub mod Broker
pub mod Rebalance
pub mod Recon
pub mod Accounts
pub mod Crypto
pub mod Ticker
pub mod Debounce
pub mod Desk
pub mod Squareoff
pub mod Tests
