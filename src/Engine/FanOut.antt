-- ===== src/Engine/FanOut.antt =====
-- The whole handler: it hands jobs over only behind every gate, and then those of the stored batch.
use envoy_trade.Common.{
  ◌≡◌, refl, ap, ◌∙◌, Bool, true, false, ◌&&◌, ◌||◌, not, ◌⊎◌, inl, inr, str_eq, starts_with, List,
  [], ◌∷◌, ◌++◌, ℤ, Result, ok, if_cases, Result-cases, arith,
}
use envoy_trade.Domain.Types.{Instant, MasterFill, FollowLink, terminal_complete}
use envoy_trade.Domain.Types
use envoy_trade.Engine.Parts.{Env, Engine, ask, is_kill_switch_engaged}
use envoy_trade.Engine.Handle.{
  lot_size_for, fan_out, with_links, if_active, check_active, gates, handle_master_fill,
}
use envoy_trade.Engine.Sizing.{Candidate}
use envoy_trade.Engine.Trace.{planned, Reach, here, by_now, by_active, by_links, Reach-trans}
use envoy_trade.Engine.Outcome.{
  Quiet, Quiet-trans, Batched, candidates, prices, drop_fill-Quiet, finish-Quiet,
  lot_size_for-Quiet, insert_and_dispatch-Batched,
}

module _ {W : Type 0} (E : Env W) (fill : MasterFill) where
  pub Batched-after :
      {cs : List Candidate} {lot : ℤ} {e f g : Engine W}
      → Quiet E e f
      → Batched E fill cs lot f g
      → Batched E fill cs lot e g
  Batched-after {cs} q b = record {
    before = b.before;
    ids = b.ids;
    reach = Reach-trans q.reach b.reach;
    stored = b.stored;
    after = b.after;
    handed = b.handed ∙ ap (λ js. js ++ planned fill (prices E fill) b.ids cs) q.same;
  }

  -- The links that the store gave, and their batch.
  pub record Linked (links : List FollowLink) (e f : Engine W) : Type 0 where
    pub lot : ℤ
    pub batch : Batched E fill (candidates E fill lot links) lot e f

  fan_out-Linked :
      (start : Instant) (links : List FollowLink) (e : Engine W)
      → let f = (fan_out E fill start links e).1 in Quiet E e f ⊎ Linked links e f
  unfolding fan_out
  fan_out-Linked start links e =
      let r = lot_size_for E fill links e in
      let q = lot_size_for-Quiet E fill links e in
      elim (Result-cases r.0) [
        | inl (lot, h) ↦
            rw h
              (elim (insert_and_dispatch-Batched E fill start lot (candidates E fill lot links)
                r.1) [
                  | inl q' ↦ inl (Quiet-trans E q q')
                  | inr b ↦ inr (record { lot = lot; batch = Batched-after q b })
                ])
        | inr (x, h) ↦ rw h (inl q)
      ]

  -- What precedes a fan-out: the master is active and the store gave the links.
  pub record FannedOut (e f : Engine W) : Type 0 where
    pub at_active : W
    pub reach_active : Reach E e.world at_active
    pub active : (E.master_active fill.master_id at_active).0 ≡ ok true
    pub at_links : W
    pub reach_links : Reach E e.world at_links
    pub links : List FollowLink
    pub given : (E.enabled_follow_links fill.master_id at_links).0 ≡ ok links
    pub linked : Linked links e f

  with_links-Linked :
      (start : Instant) (links : List FollowLink) (e : Engine W)
      → let f = (with_links E fill start links e).1 in Quiet E e f ⊎ Linked links e f
  unfolding with_links
  with_links-Linked start [] e = inl (finish-Quiet E fill start _ (0, 0) e)
  with_links-Linked start (link ∷ links) e = fan_out-Linked start (link ∷ links) e

  Linked-after :
      {links : List FollowLink} {e f g : Engine W}
      → Quiet E e f
      → Linked links f g
      → Linked links e g
  Linked-after q l = record { lot = l.lot; batch = Batched-after q l.batch }

  abbrev active_then : Engine W → Engine W
  active_then e = (ask (E.master_active fill.master_id) e).1

  if_active-FannedOut :
      (start : Instant) (e : Engine W)
      → (E.master_active fill.master_id e.world).0 ≡ ok true
      → let f = (if_active E fill start true (active_then e)).1 in Quiet E e f ⊎ FannedOut e f
  unfolding if_active
  if_active-FannedOut start e active =
      let e' = active_then e in
      let r = ask (E.enabled_follow_links fill.master_id) e' in
      let q : Quiet E e r.1 = record { reach = by_links _ _ (by_active _ _ here); same = refl } in
      elim (Result-cases r.0) [
        | inl (links, h) ↦ rw h (elim (with_links-Linked start links r.1) [
          | inl q' ↦ inl (Quiet-trans E q q')
          | inr l ↦ inr (record {
            at_active = e.world;
            reach_active = here;
            active = active;
            at_links = e'.world;
            reach_links = by_active _ _ here;
            links = links;
            given = h;
            linked = Linked-after q l;
          })
        ])
        | inr (x, h) ↦ rw h (inl q)
      ]

  if_active-outcome :
      (start : Instant) (e : Engine W) (a : Bool)
      → (E.master_active fill.master_id e.world).0 ≡ ok a
      → let f = (if_active E fill start a (active_then e)).1 in Quiet E e f ⊎ FannedOut e f
  unfolding if_active
  if_active-outcome start e true h = if_active-FannedOut start e h
  if_active-outcome start e false h = inl (record { reach = by_active _ _ here; same = refl })

  check_active-FannedOut :
      (start : Instant) (e : Engine W)
      → let f = (check_active E fill start e).1 in Quiet E e f ⊎ FannedOut e f
  unfolding check_active
  check_active-FannedOut start e = elim (Result-cases (E.master_active fill.master_id e.world).0) [
    | inl (a, h) ↦ rw h (if_active-outcome start e a h)
    | inr (x, h) ↦ rw h (inl (record { reach = by_active _ _ here; same = refl }))
  ]

  -- Every gate before the store is open.
  pub record IsOpen (e : Engine W) : Type 0 where
    pub running : e.kill_switch ≡ false
    pub settled : (str_eq fill.status "" || str_eq fill.status terminal_complete) ≡ true
    pub not_square_off : starts_with fill.tag "sqoff" ≡ false

  settled_of :
      (not (str_eq fill.status "") && not (str_eq fill.status terminal_complete)) ≡ false
      → (str_eq fill.status "" || str_eq fill.status terminal_complete) ≡ true
  settled_of h = ground arith

  abbrev ResultOf : Engine W → Result (Unit {0}) × Engine W → Type 0
  ResultOf e r = Quiet E e r.1 ⊎ (IsOpen e × FannedOut e r.1)

  gates-outcome : (start : Instant) (e : Engine W) → ResultOf e (gates E fill start e)
  unfolding gates is_kill_switch_engaged
  gates-outcome start e =
      if_cases (ResultOf e) e.kill_switch _ _ (λ _. inl (drop_fill-Quiet E fill Types.dispatched e))
        λ running.
          if_cases (ResultOf e)
            (not (str_eq fill.status "") && not (str_eq fill.status terminal_complete)) _ _
            (λ _. inl (drop_fill-Quiet E fill Types.dead e))
            λ unsettled.
              if_cases (ResultOf e) (starts_with fill.tag "sqoff") _ _
                (λ _. inl (drop_fill-Quiet E fill Types.dispatched e))
                λ tag. elim (check_active-FannedOut start e) [
                  | inl q ↦ inl q
                  | inr f ↦ inr (
                    record {
                      running = running;
                      settled = settled_of unsettled;
                      not_square_off = tag;
                    },
                    f,
                  )
                ]

  FannedOut-after : {e f g : Engine W} → Quiet E e f → FannedOut f g → FannedOut e g
  FannedOut-after q o = record {
    at_active = o.at_active;
    reach_active = Reach-trans q.reach o.reach_active;
    active = o.active;
    at_links = o.at_links;
    reach_links = Reach-trans q.reach o.reach_links;
    links = o.links;
    given = o.given;
    linked = Linked-after q o.linked;
  }

  -- HandleMasterFill hands nothing over, or it does so behind open gates for the links of an active
  -- master, and then exactly what the rows that the batch has newly inserted are due.
  pub handle_master_fill-outcome :
      (e : Engine W)
      → let f = (handle_master_fill E fill e).1 in Quiet E e f ⊎ (IsOpen e × FannedOut e f)
  unfolding handle_master_fill
  handle_master_fill-outcome e =
      let e' = (ask E.now e).1 in
      let q : Quiet E e e' = record { reach = by_now _ here; same = refl } in
      elim (gates-outcome (E.now e.world).0 e') [
        | inl r ↦ inl (Quiet-trans E q r)
        | inr (o, f) ↦ inr (
          record { running = o.running; settled = o.settled; not_square_off = o.not_square_off },
          FannedOut-after q f,
        )
      ]
