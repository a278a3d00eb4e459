-- ===== src/Ticker/Manager.antt =====
-- manager.go: Manager. A ticker is identified by a number, its place in the order of creation.
use envoy_trade.Common.{
  ℕ, suc, Bool, true, false, String, Option, none, some, List, [], ◌∷◌, ◌++◌, Result, ok, err,
  other, wrap, str_append, ◌==◌, if◌then◌else◌,
}
use envoy_trade.Common.Maps.{get, remove}
use envoy_trade.Common.Keyed.{find, store}
use envoy_trade.Common.State.{State, pure, ◌>>=◌, ◌>>◌, or_return}
use envoy_trade.Common.Words.{to_lower, trim_space, is_blank}
use envoy_trade.Domain.Types.{Uuid}

-- `F` is the type of factories, and `A` of what AccountAuthInfo answers. `create` tells whether the
-- factory has made a ticker; `note_stop` is the ticker's Stop, after the cancellation of its context.
pub record TickerEnv (F A S : Type 0) : Type 0 where
  pub master_active : Uuid → S → Result Bool × S
  pub account_auth_info : Uuid → S → Result A × S
  pub broker_of : A → String
  pub create : F → Uuid → A → S → Result Bool × S
  pub stop : ℕ → S → Result (Unit {0}) × S
  pub group_masters : S → Result (List Uuid) × S

-- Manager, with its world. Nothing but the sections below reads `held`, the tickers that a StartMaster
-- has created and not yet installed, `stopping`, those whose Stop is still to come, and `stopped`.
pub record Manager (F S : Type 0) : Type 0 where
  pub factories : List (String × F)
  pub tickers : List (Uuid × ℕ)
  pub world : S
  pub next : ℕ
  pub held : List (Uuid × ℕ)
  pub stopping : List ℕ
  pub stopped : List ℕ

-- NewManager
abbrev pub new_manager : {F S : Type 0} → S → Manager F S
new_manager w = record {
  factories = [];
  tickers = [];
  world = w;
  next = 0;
  held = [];
  stopping = [];
  stopped = [];
}

abbrev pub drop_ticker : ℕ → List (Uuid × ℕ) → List (Uuid × ℕ)
drop_ticker i [] = []
drop_ticker i ((id, t) ∷ m) = let rest = drop_ticker i m in if t == i then m else (id, t) ∷ rest

abbrev pub drop_one : ℕ → List ℕ → List ℕ
drop_one i [] = []
drop_one i (t ∷ ts) = let rest = drop_one i ts in if t == i then ts else t ∷ rest

abbrev pub tickers_of : List (Uuid × ℕ) → List ℕ
tickers_of [] = []
tickers_of ((id, t) ∷ m) = t ∷ tickers_of m

unfoldable pub broker_key : String → String
broker_key name = let key = to_lower (trim_space name) in if is_blank key then "zerodha" else key

module _ {F A S : Type 0} (E : TickerEnv F A S) where
  abbrev M : Type 0 → Type 0
  M B = State (Manager F S) B

  -- a call of something outside, which sees the world only
  abbrev pub outside : {B : Type 0} → (S → B × S) → M B
  outside f m = let r = f m.world in (r.0, record m { world = r.1 })

  -- RegisterFactory
  unfoldable pub register_factory : String → F → Manager F S → Manager F S
  register_factory name f m = record m {
    factories = store (to_lower (trim_space name)) f m.factories;
  }

  -- m.tickers[masterID], under the read lock
  abbrev pub running : Uuid → M (Option ℕ)
  running id m = (get id m.tickers, m)

  abbrev pub factory_for : String → M (Option F)
  factory_for key m = (find key m.factories, m)

  -- The new ticker, in the hands of its StartMaster.
  unfoldable pub hold_new : Uuid → M ℕ
  hold_new id m = (m.next, record m { next = suc m.next; held = (id, m.next) ∷ m.held })

  unfoldable pub hold_created : Uuid → Bool → M (Result (Option ℕ))
  hold_created id false = pure (ok none)
  hold_created id true = do t ← hold_new id; pure (ok (some t))

  unfoldable pub create_with : Uuid → String → A → Option F → M (Result (Option ℕ))
  create_with id key info none =
      pure (err (other (str_append "ticker_mgr: unsupported broker " key)))
  create_with id key info (some f) = do
    created ← outside (E.create f id info)
    or_return (wrap (str_append "create ticker for broker " key)) (hold_created id) created

  unfoldable pub create_for : Uuid → A → M (Result (Option ℕ))
  create_for id info = do
    factory ← factory_for (broker_key (E.broker_of info))
    create_with id (broker_key (E.broker_of info)) info factory

  unfoldable pub if_active : Uuid → Bool → M (Result (Option ℕ))
  if_active id false = pure (ok none)
  if_active id true = do
    info ← outside (E.account_auth_info id)
    or_return (wrap "load account auth info") (create_for id) info

  -- StartMaster between its first look at the map and its write lock
  unfoldable pub prepare : Uuid → M (Result (Option ℕ))
  prepare id = do
    active ← outside (E.master_active id)
    or_return (wrap "check master active") (if_active id) active

  -- StartMaster under its write lock: the ticker goes into the map, or is to be stopped
  unfoldable pub install : Uuid → ℕ → Manager F S → Manager F S
  install id t m = elim (get id m.tickers) [
    | none ↦ record m { tickers = (id, t) ∷ m.tickers; held = drop_ticker t m.held }
    | some other_ticker ↦ record m { stopping = t ∷ m.stopping; held = drop_ticker t m.held }
  ]

  -- StopMaster under its lock
  unfoldable pub take_out : Uuid → M (Option ℕ)
  take_out id m = elim (get id m.tickers) [
    | none ↦ (none, m)
    | some t ↦ (some t, record m { tickers = remove id m.tickers; stopping = t ∷ m.stopping })
  ]

  -- cancel and Stop, outside the lock
  unfoldable pub finish : ℕ → M (Result (Unit {0}))
  finish t m =
      let r = E.stop t m.world in
      (r.0, record m { world = r.1; stopping = drop_one t m.stopping; stopped = t ∷ m.stopped })

  -- Shutdown under its lock
  unfoldable pub take_all : M (List ℕ)
  take_all m = (
    tickers_of m.tickers,
    record m { tickers = []; stopping = tickers_of m.tickers ++ m.stopping },
  )

  unfoldable pub after_install : Uuid → ℕ → Option ℕ → M (Result (Unit {0}))
  after_install id t none = pure (ok tt)
  after_install id t (some other_ticker) = do finish t; pure (ok tt)

  unfoldable pub install_held : Uuid → Option ℕ → M (Result (Unit {0}))
  install_held id none = pure (ok tt)
  install_held id (some t) = do
    present ← running id
    (λ m. (tt, install id t m))
    after_install id t present

  unfoldable pub start_absent : Uuid → Option ℕ → M (Result (Unit {0}))
  start_absent id (some t) = pure (ok tt)
  start_absent id none = do prepared ← prepare id; or_return (λ e. e) (install_held id) prepared

  -- StartMaster
  unfoldable pub start_master : Uuid → M (Result (Unit {0}))
  start_master id = do present ← running id; start_absent id present

  unfoldable pub stop_taken : Option ℕ → M (Result (Unit {0}))
  stop_taken none = pure (ok tt)
  stop_taken (some t) = finish t

  -- StopMaster
  unfoldable pub stop_master : Uuid → M (Result (Unit {0}))
  stop_master id = do taken ← take_out id; stop_taken taken

  -- RestartMaster
  unfoldable pub restart_master : Uuid → M (Result (Unit {0}))
  restart_master id = do stop_master id; start_master id

  unfoldable pub start_each : List Uuid → M (Unit {0})
  start_each [] = pure tt
  start_each (id ∷ ids) = do start_master id; start_each ids

  unfoldable pub start_groups : List Uuid → M (Result (Unit {0}))
  start_groups ids = do start_each ids; pure (ok tt)

  -- SyncActiveMasters
  unfoldable pub sync_active_masters : M (Result (Unit {0}))
  sync_active_masters = do
    masters ← outside E.group_masters
    or_return (wrap "load groups") start_groups masters

  unfoldable pub finish_each : List ℕ → M (Unit {0})
  finish_each [] = pure tt
  finish_each (t ∷ ts) = do finish t; finish_each ts

  -- Shutdown
  unfoldable pub shutdown : M (Unit {0})
  shutdown = do ts ← take_all; finish_each ts
