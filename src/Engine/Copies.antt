-- ===== src/Engine/Copies.antt =====
-- Every job is the copy of the fill for one of the links that the store gave.
use envoy_trade.Common.{
  ℕ, ◌<◌, ◌≡◌, ◌≢◌, refl, sym, ◌∙◌, true, false, ◌||◌, ◌⊎◌, inl, inr, String, str_eq, List, [], ◌∷◌,
  ◌++◌, map, ℤ, pos, ◌≤ℤ◌, eqb_ℤ, All, All-append, In, ok, if_cases, Option-cases, arith,
}
use mathlib.Core.List.{append-nil}
use envoy_trade.Domain.Decimal.{Float64, Numerics}
use envoy_trade.Domain.Idempotency.{Digest, idempotency_tag}
use envoy_trade.Domain.Types.{MasterFill, FollowLink, Job}
use envoy_trade.Domain.Sizing.Caps.{size_order-le-cap}
use envoy_trade.Engine.Parts.{Env, Engine}
use envoy_trade.Engine.Sizing.{copy_quantity, size_link, candidate_of}
use envoy_trade.Engine.Dispatch.{inserted_id, job_of}
use envoy_trade.Engine.Handle.{handle_master_fill}
use envoy_trade.Engine.Trace.{jobs, planned_one, planned, Reach}
use envoy_trade.Engine.Outcome.{candidates, prices}
use envoy_trade.Engine.FanOut.{IsOpen, handle_master_fill-outcome}

-- A link whose account is neither in error nor pending.
abbrev pub IsReady : FollowLink → Type 0
IsReady link =
    ((str_eq link.status "error" || str_eq link.auth_status "error") ≡ false)
    × ((str_eq link.status "pending" || str_eq link.auth_status "pending") ≡ false)

size_link-IsReady :
    (N : Numerics) (fill : MasterFill) (lot : ℤ) (link : FollowLink)
    → (size_link N fill lot link).0 ≢ pos 0
    → IsReady link
unfolding size_link
size_link-IsReady N fill lot link h = ground arith

-- A link's cap holds on every branch of the sizing.
pub size_link-le-cap :
    (N : Numerics) (fill : MasterFill) (lot : ℤ) (link : FollowLink) (cap : ℕ)
    → link.max_qty_per_order ≡ pos cap
    → 0 < cap
    → (size_link N fill lot link).0 ≤ℤ pos cap
unfolding size_link copy_quantity
size_link-le-cap N fill lot link cap e h =
    ground (arith, size_order-le-cap N fill.filled_quantity link.clone_factor lot cap)

-- A job that copies the fill for one of `links`.
pub record IsCopy (N : Numerics) (D : Digest) (fill : MasterFill) (links : List FollowLink)
    (job : Job) : Type 0 where
  pub link : FollowLink
  pub lot : ℤ
  pub from : In link links
  pub ready : IsReady link
  pub follower : job.follower_id ≡ link.follower_id
  pub tagged : job.idempotency_tag ≡ idempotency_tag D fill.id link.follower_id
  pub of_fill : job.master_fill_id ≡ fill.id
  pub same_side : job.transaction_type ≡ fill.transaction_type
  pub same_symbol : (job.exchange ≡ fill.exchange) × (job.tradingsymbol ≡ fill.tradingsymbol)
  pub sized : job.quantity ≡ (size_link N fill lot link).0
  pub not_zero : job.quantity ≢ pos 0
  pub within_cap : (cap : ℕ) → link.max_qty_per_order ≡ pos cap → 0 < cap → job.quantity ≤ℤ pos cap

module _ (N : Numerics) (D : Digest) (fill : MasterFill) where
  not_zero_of : (q : ℤ) → eqb_ℤ q (pos 0) ≡ false → q ≢ pos 0
  not_zero_of q h e = ground arith

  job_of-IsCopy :
      (lot : ℤ) (p : Float64 × Float64) (id : ℕ) (link : FollowLink) (links : List FollowLink)
      → In link links
      → eqb_ℤ (size_link N fill lot link).0 (pos 0) ≡ false
      → IsCopy N D fill links (job_of fill p id (candidate_of N D fill lot link))
  unfolding job_of candidate_of
  job_of-IsCopy lot p id link links m h =
      let nz = not_zero_of (size_link N fill lot link).0 h in
      record {
        link = link;
        lot = lot;
        from = m;
        ready = size_link-IsReady N fill lot link nz;
        follower = refl;
        tagged = refl;
        of_fill = refl;
        same_side = refl;
        same_symbol = (refl, refl);
        sized = refl;
        not_zero = nz;
        within_cap = size_link-le-cap N fill lot link;
      }

  planned_one-IsCopy :
      (lot : ℤ) (p : Float64 × Float64) (ids : List (String × ℕ)) (link : FollowLink)
      (links : List FollowLink)
      → In link links
      → All (IsCopy N D fill links) (planned_one fill p ids (candidate_of N D fill lot link))
  unfolding planned_one candidate_of
  planned_one-IsCopy lot p ids link links m =
      elim (Option-cases (inserted_id (idempotency_tag D fill.id link.follower_id) ids)) [
        | inl h ↦ rw (h, planned_one, candidate_of) tt
        | inr (id, h) ↦
            rw (h, planned_one, candidate_of)
              (if_cases (All (IsCopy N D fill links)) (eqb_ℤ (size_link N fill lot link).0 (pos 0))
                _ _ (λ _. tt) (λ z. (job_of-IsCopy lot p id link links m z, tt)))
      ]

  planned-IsCopy :
      (lot : ℤ) (p : Float64 × Float64) (ids : List (String × ℕ))
      (some_links links : List FollowLink)
      → ((l : FollowLink) → In l some_links → In l links)
      → All
          (IsCopy N D fill links)
          (planned fill p ids (map (candidate_of N D fill lot) some_links))
  unfolding planned
  planned-IsCopy lot p ids [] links sub = tt
  planned-IsCopy lot p ids (l ∷ ls) links sub =
      All-append (IsCopy N D fill links) (planned_one fill p ids (candidate_of N D fill lot l))
        (planned fill p ids (map (candidate_of N D fill lot) ls))
        (planned_one-IsCopy lot p ids l links (sub l (inl refl)))
        (planned-IsCopy lot p ids ls links (λ k m. sub k (inr m)))

-- Whatever the store, the workers and the decimal library answer, either HandleMasterFill hands no
-- job over, or the kill switch is off, the fill is complete (or has no status) and is no square-off,
-- the store has said during this call that the master is active, and every job handed over is a copy
-- of the fill for one of the links that the store gave for that master: to a follower that is
-- neither in error nor pending, under the tag of the pair, with the sized quantity, which is not
-- zero and within the link's cap.
pub handle_master_fill-IsCopy :
    {W : Type 0} (E : Env W) (fill : MasterFill) (e : Engine W)
    → let f = (handle_master_fill E fill e).1 in
      (new : List Job) × (jobs f.calls ≡ jobs e.calls ++ new)
      × ((new ≡ [])
          ⊎ (IsOpen E fill e
              × ((w : W) × Reach E e.world w × ((E.master_active fill.master_id w).0 ≡ ok true))
              × ((links : List FollowLink) × ((w : W) × Reach E e.world w
                    × ((E.enabled_follow_links fill.master_id w).0 ≡ ok links))
                  × All (IsCopy E.numerics E.digest fill links) new)))
handle_master_fill-IsCopy E fill e = elim (handle_master_fill-outcome E fill e) [
  | inl q ↦ ([], q.same ∙ sym (append-nil (jobs e.calls)), inl refl)
  | inr (o, f) ↦ (
    planned fill (prices E fill) f.linked.batch.ids (candidates E fill f.linked.lot f.links),
    f.linked.batch.handed,
    inr (
      o,
      (f.at_active, f.reach_active, f.active),
      (
        f.links,
        (f.at_links, f.reach_links, f.given),
        planned-IsCopy E.numerics E.digest fill f.linked.lot (prices E fill) f.linked.batch.ids
            f.links f.links (λ l m. m),
      ),
    ),
  )
]
