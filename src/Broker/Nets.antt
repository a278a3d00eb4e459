-- ===== src/Broker/Nets.antt =====
-- The positions of a user are the sums of the user's filled orders.
use envoy_trade.Common.{
  ◌≡◌, refl, sym, ap, subst, ◌∙◌, Bool, false, String, str_eq, str_append, some, List, [], ◌∷◌, any,
  map, All, ℤ, ◌-ℤ◌, zero-+ℤ, wrap64, wrap64_difference,
}
use envoy_trade.Common.Keyed.{find}
use envoy_trade.Broker.Order.{Order, Floats, OrderEngine}
use envoy_trade.Broker.Positions.{
  Tally, Position, is_buy, is_sell, orders_of, tally_each, position_of, positions_of, get_positions,
}
use envoy_trade.Broker.Tallies.{
  is_of, total, tally_key, has, Measure, buys-Measure, sells-Measure, amount, amount-tally_each,
  has-tally_each, Unique, tally_each-Unique, IsKeyed, tally_each-IsKeyed, every_found,
}

abbrev pub key_of : Position → String
key_of p =
    str_append p.exchange (str_append ":" (str_append p.tradingsymbol (str_append ":" p.product)))

abbrev pub Distinct : List String → Type 0
Distinct [] = Unit
Distinct (k ∷ ks) = (any (λ j. str_eq j k) ks ≡ false) × Distinct ks

-- The position sums the filled orders of its key, on an int of 64 bits.
pub record IsNet (os : List Order) (p : Position) : Type 0 where
  pub bought : p.buy_quantity ≡ wrap64 (total is_buy (key_of p) os)
  pub sold : p.sell_quantity ≡ wrap64 (total is_sell (key_of p) os)
  pub netted : p.quantity ≡ wrap64 (total is_buy (key_of p) os -ℤ total is_sell (key_of p) os)

-- The net positions for the orders, and the day's.
pub record AreNets (os : List Order) (positions : List Position × List Position) : Type 0 where
  pub same : positions.1 ≡ positions.0
  pub sums : All (IsNet os) positions.0
  pub distinct : Distinct (map key_of positions.0)
  pub complete : (k : String) → any (λ j. str_eq j k) (map key_of positions.0) ≡ any (is_of k) os

module _ (F : Floats) where
  module _ (e : OrderEngine) (os : List Order) where
    abbrev tallies : List (String × Tally)
    tallies = tally_each F os []

    found_amount :
        (f : Tally → ℤ) (side : String → Bool) (g : Measure F f side) (k : String) (t : Tally)
        → find k tallies ≡ some t
        → f t ≡ wrap64 (total side k os)
    unfolding find amount wrap64
    found_amount f side g k t h =
        sym (ap (amount F f) h)
        ∙ amount-tally_each F f side g k os [] refl
        ∙ ap wrap64 (zero-+ℤ (total side k os))

    position-IsNet :
        (k : String) (t : Tally)
        → tally_key t ≡ k
        → find k tallies ≡ some t
        → IsNet os (position_of F e t)
    unfolding position_of
    position-IsNet k t keyed h =
        let bought : t.buy_qty ≡ wrap64 (total is_buy (tally_key t) os) =
          subst (λ j. t.buy_qty ≡ wrap64 (total is_buy j os)) (sym keyed)
            (found_amount (λ r. r.buy_qty) is_buy (buys-Measure F) k t h) in
        let sold : t.sell_qty ≡ wrap64 (total is_sell (tally_key t) os) =
          subst (λ j. t.sell_qty ≡ wrap64 (total is_sell j os)) (sym keyed)
            (found_amount (λ r. r.sell_qty) is_sell (sells-Measure F) k t h) in
        record {
          bought = bought;
          sold = sold;
          netted =
              ap (λ x. wrap64 (x -ℤ t.sell_qty)) bought
              ∙ ap (λ y. wrap64 (wrap64 (total is_buy (tally_key t) os) -ℤ y)) sold
              ∙ wrap64_difference _ _;
        }

    positions-IsNet :
        (m : List (String × Tally))
        → All (IsKeyed F) m
        → All (λ (x : String × Tally). find x.0 tallies ≡ some x.1) m
        → All (IsNet os) (positions_of F e m)
    unfolding positions_of IsKeyed
    positions-IsNet [] h k = tt
    positions-IsNet ((j, t) ∷ m) h k = (position-IsNet j t h.0 k.0, positions-IsNet m h.1 k.1)

    any_key :
        (k : String) (m : List (String × Tally))
        → All (IsKeyed F) m
        → any (λ j. str_eq j k) (map key_of (positions_of F e m)) ≡ has k m
    unfolding positions_of has IsKeyed position_of
    any_key k [] h = refl
    any_key k ((j, t) ∷ m) h = rw (h.0, any_key k m h.1) refl

    keys-Distinct :
        (m : List (String × Tally))
        → All (IsKeyed F) m
        → Unique F m
        → Distinct (map key_of (positions_of F e m))
    unfolding positions_of Unique IsKeyed position_of
    keys-Distinct [] h u = tt
    keys-Distinct ((j, t) ∷ m) h u = (
      subst (λ i. any (λ x. str_eq x i) (map key_of (positions_of F e m)) ≡ false) (sym h.0)
          (any_key j m h.1 ∙ u.0),
      keys-Distinct m h.1 u.1,
    )

    tallies-AreNets : AreNets os (positions_of F e tallies, positions_of F e tallies)
    unfolding Unique has
    tallies-AreNets =
        let keyed = tally_each-IsKeyed F os [] tt in
        let unique = tally_each-Unique F os [] tt in
        record {
          same = refl;
          sums = positions-IsNet tallies keyed (every_found F tallies unique);
          distinct = keys-Distinct tallies keyed unique;
          complete = λ k. any_key k tallies keyed ∙ has-tally_each F k os [];
        }

  -- Whatever the arithmetic of prices, GetPositions gives one position for each text exchange:symbol:product
  -- of which the user has a filled order, and no other; its bought and sold quantities are the sums of those
  -- orders of each side, and its quantity is the difference of those sums, each as an int of 64 bits holds
  -- it, which wraps around; the positions of the day are the same.
  pub get_positions-AreNets :
      (user : String) (e : OrderEngine) → AreNets (orders_of user e) (get_positions F user e)
  unfolding get_positions
  get_positions-AreNets user e = tallies-AreNets e (orders_of user e)
