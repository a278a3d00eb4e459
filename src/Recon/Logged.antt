-- ===== src/Recon/Logged.antt =====
-- RunOnce's surroundings with a log of the calls that bear on the pending orders, each with its answer.
use envoy_trade.Common.{ℕ, String, List, [], ◌∷◌, ◌++◌, ℤ, Result}
use envoy_trade.Common.State.{State}
use envoy_trade.Domain.Decimal.{Decimal}
use envoy_trade.Domain.Types.{Uuid, Instant, FollowerOrder, OrderEvent}
use envoy_trade.Recon.Master.{Order}
use envoy_trade.Recon.Pass.{Polled, PassEnv}

pub data Call : Type 0 where
  accounts_read : Result (List Polled) → Call
  pending_read : Result (List FollowerOrder) → Call
  clock_read : Instant → Call
  history_read : Uuid → String → Result (List Order) → Call
  failure_written : ℕ → String → String → Call
  status_written : String → String → ℤ → Decimal → Result ℕ → Call
  appended : OrderEvent → Call
  alerted : String → Call

module _ {S : Type 0} where
  -- A call that is logged, and one that is not.
  abbrev pub seen : {A : Type 0} → (A → Call) → (S → A × S) → State (S × List Call) A
  seen call f st = let r = f st.0 in (r.0, (r.1, st.1 ++ call r.0 ∷ []))

  abbrev pub unseen : {A : Type 0} → (S → A × S) → State (S × List Call) A
  unseen f st = let r = f st.0 in (r.0, (r.1, st.1))

  abbrev pub logged : PassEnv S → PassEnv (S × List Call)
  logged E = record {
    polls = record {
      recon = record {
        numerics = E.polls.recon.numerics;
        marshal = E.polls.recon.marshal;
        polling_window = E.polls.recon.polling_window;
        now = seen (λ t. clock_read t) E.polls.recon.now;
        get_master_orders = λ m. unseen (E.polls.recon.get_master_orders m);
        master_fill_exists = λ m b q t. unseen (E.polls.recon.master_fill_exists m b q t);
        handle = λ fill. unseen (E.polls.recon.handle fill);
        alert = λ text. seen (λ _. alerted text) (E.polls.recon.alert text);
      };
      has_consumer = E.polls.has_consumer;
      get_follower_orders = λ f. unseen (E.polls.get_follower_orders f);
      follower_order_terminal_exists = λ f b. unseen (E.polls.follower_order_terminal_exists f b);
      handle_update = λ upd. unseen (E.polls.handle_update upd);
    };
    pending_threshold = E.pending_threshold;
    accounts = seen (λ r. accounts_read r) E.accounts;
    pending_follower_orders = λ t. seen (λ r. pending_read r) (E.pending_follower_orders t);
    get_follower_order_history =
        λ f b. seen (λ r. history_read f b r) (E.get_follower_order_history f b);
    update_follower_order_failed =
        λ id s m. seen (λ _. failure_written id s m) (E.update_follower_order_failed id s m);
    update_follower_order_status =
        λ b s q p. seen (λ r. status_written b s q p r) (E.update_follower_order_status b s q p);
    append_order_event = λ ev. seen (λ _. appended ev) (E.append_order_event ev);
    sweep_pending_order_updates = λ t. unseen (E.sweep_pending_order_updates t);
  }
