-- ===== src/Engine/Sizing.antt =====
-- HandleMasterFill, step 3: the quantity and the row of each follow link.
use envoy_trade.Common.{
  Bool, true, false, ◌||◌, not, String, str_eq, List, [], ◌∷◌, ℤ, pos, none, if◌then◌else◌,
}
use envoy_trade.Domain.Decimal.{Numerics, Decimal}
use envoy_trade.Domain.Idempotency.{Digest, idempotency_tag}
use envoy_trade.Domain.Sizing.{size_order, over_cap}
use envoy_trade.Domain.Types.{
  Uuid, SizingReason, reason_ok, capped, follower_in_error, follower_pending, MasterFill,
  FollowLink, FollowerOrder,
}

-- `decimal.NewFromInt(1)`
abbrev pub one : Numerics → Decimal
one N = N.from_int (pos 1)

-- the `else if link.CloneFactor.Equal(one)` branch
unfoldable pub copy_quantity : ℤ → ℤ → ℤ × SizingReason
unfolding over_cap
copy_quantity filled max_qty =
    if over_cap max_qty filled then (max_qty, capped) else (filled, reason_ok)

unfoldable pub size_link : Numerics → MasterFill → ℤ → FollowLink → ℤ × SizingReason
size_link N fill lot_size link =
    if str_eq link.status "error" || str_eq link.auth_status "error"
    then (pos 0, follower_in_error)
    else if str_eq link.status "pending" || str_eq link.auth_status "pending"
    then (pos 0, follower_pending)
    else if N.equal link.clone_factor (one N)
    then copy_quantity fill.filled_quantity link.max_qty_per_order
    else size_order N fill.filled_quantity link.clone_factor lot_size link.max_qty_per_order

-- `candidateJob`
pub record Candidate : Type 0 where
  pub follower_id : Uuid
  pub tag : String
  pub qty : ℤ
  pub reason : SizingReason

unfoldable pub candidate_of : Numerics → Digest → MasterFill → ℤ → FollowLink → Candidate
candidate_of N D fill lot_size link =
    let sized = size_link N fill lot_size link in
    record {
      follower_id = link.follower_id;
      tag = idempotency_tag D fill.id link.follower_id;
      qty = sized.0;
      reason = sized.1;
    }

-- The row; the fields that the Go literal leaves out have their zero values.
unfoldable pub order_of : Numerics → MasterFill → ℤ → Candidate → FollowerOrder
order_of N fill lot_size c = record {
  id = 0;
  master_fill_id = fill.id;
  follower_id = c.follower_id;
  idempotency_tag = c.tag;
  intended_qty = c.qty;
  lot_size = lot_size;
  sizing_reason = c.reason;
  placed_qty = none;
  broker_order_id = "";
  terminal_status = "";
  filled_qty = pos 0;
  average_price = record { coeff = pos 0; exp = pos 0 };
  attempt_count = 0;
  last_error = "";
  origin = "copy_trade";
  tradingsymbol = fill.tradingsymbol;
  exchange = fill.exchange;
  product = fill.product;
  transaction_type = fill.transaction_type;
  order_type = fill.order_type;
  created_at = 0;
  updated_at = 0;
}

-- the loop that sets `hasScaledRatios`
unfoldable pub has_scaled_ratios : Numerics → List FollowLink → Bool
has_scaled_ratios N [] = false
has_scaled_ratios N (link ∷ links) =
    let rest = has_scaled_ratios N links in
    if not (N.equal link.clone_factor (one N)) then true else rest
