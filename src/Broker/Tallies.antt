-- ===== src/Broker/Tallies.antt =====
-- GetPositions' tallies: what they hold, under which keys.
use envoy_trade.Common.{
  ◌≡◌, inl, inr, refl, sym, subst, ◌∙◌, arith, Bool, true, false, ◌&&◌, ◌||◌, String, str_eq,
  eq_iff, str_append, Option, none, some, List, [], ◌∷◌, any, All, ℤ, pos, ◌+ℤ◌, +ℤ-zero, +ℤ_assoc,
  wrap64, wrap64_sum, wrap64_idem, if_true, if_false, ap, if_cases, Bool-cases, if◌then◌else◌,
}
use envoy_trade.Common.Keyed.{find}
use envoy_trade.Broker.Order.{Order, Floats}
use envoy_trade.Broker.Positions.{
  Tally, is_filled, is_buy, is_sell, position_key, new_tally, add_to, tally, tally_each,
}

-- a filled order under the key
abbrev pub is_of : String → Order → Bool
is_of k o = is_filled o && str_eq (position_key o) k

-- The quantity that was filled under the key on a side.
abbrev pub total : (String → Bool) → String → List Order → ℤ
total side k [] = pos 0
total side k (o ∷ os) =
    let rest = total side k os in
    if is_of k o && side o.transaction_type then o.filled_quantity +ℤ rest else rest

abbrev pub tally_key : Tally → String
tally_key t =
    str_append t.exchange (str_append ":" (str_append t.symbol (str_append ":" t.product)))

sell_not_buy : (side : String) → is_sell side ≡ true → is_buy side ≡ false
unfolding is_sell is_buy
sell_not_buy side h = elim (Bool-cases (str_eq side "SELL")) [
  | inl e ↦ subst (λ t. is_buy t ≡ false) (sym ((eq_iff side "SELL").0 e)) refl
  | inr e ↦ subst (λ t. is_buy t ≡ false) (sym ((eq_iff side "S").0 (ground (arith, h, e)))) refl
]

unfoldable pub has : {V : Type 0} → String → List (String × V) → Bool
has k m = any (λ e. str_eq e.0 k) m

module _ (F : Floats) where
  -- A quantity of the tallies that one side of the orders adds to.
  pub record Measure (f : Tally → ℤ) (side : String → Bool) : Type 0 where
    pub fresh : (o : Order) → f (new_tally F o) ≡ pos 0
    pub grows :
        (o : Order) (t : Tally)
        → f (add_to F o t)
          ≡ (if side o.transaction_type then wrap64 (f t +ℤ o.filled_quantity) else f t)

  pub buys-Measure : Measure (λ t. t.buy_qty) is_buy
  unfolding new_tally add_to
  buys-Measure = record { fresh = λ o. refl; grows = λ o t. ground arith }

  pub sells-Measure : Measure (λ t. t.sell_qty) is_sell
  unfolding new_tally add_to
  sells-Measure = record {
    fresh = λ o. refl;
    grows = λ o t. ground (arith, sell_not_buy o.transaction_type);
  }

  unfoldable pub amount : (Tally → ℤ) → Option Tally → ℤ
  amount f none = pos 0
  amount f (some t) = f t

  amount-tally :
      (f : Tally → ℤ) (side : String → Bool) (g : Measure f side) (j k : String) (o : Order)
      (m : List (String × Tally))
      → amount f (find k (tally F j o m)) ≡ (
          if str_eq j k && side o.transaction_type
          then wrap64 (amount f (find k m) +ℤ o.filled_quantity)
          else amount f (find k m))
  unfolding tally find amount
  amount-tally f side g j k o [] = ground (arith, g.fresh o, g.grows o (new_tally F o))
  amount-tally f side g j k o ((i, t) ∷ m) = ground (
    arith,
    eq_iff i j,
    eq_iff j k,
    eq_iff i k,
    eq_iff i i,
    g.grows o t,
    amount-tally f side g j k o m,
  )

  pub amount-tally_each :
      (f : Tally → ℤ) (side : String → Bool) (g : Measure f side) (k : String) (os : List Order)
      (m : List (String × Tally))
      → wrap64 (amount f (find k m)) ≡ amount f (find k m)
      → amount f (find k (tally_each F os m)) ≡ wrap64 (amount f (find k m) +ℤ total side k os)
  unfolding tally_each
  amount-tally_each f side g k [] m fits = sym (ap wrap64 (+ℤ-zero (amount f (find k m))) ∙ fits)
  amount-tally_each f side g k (o ∷ os) m fits = elim (Bool-cases (is_filled o)) [
    | inr e ↦ rw e (amount-tally_each f side g k os m fits)
    | inl e ↦ elim (Bool-cases (str_eq (position_key o) k && side o.transaction_type)) [
      | inl h ↦
          let added =
            amount-tally f side g (position_key o) k o m
            ∙ if_true (λ x. x ≡ wrap64 (amount f (find k m) +ℤ o.filled_quantity)) _ _ _ h refl in
          rw (e, h)
            (amount-tally_each f side g k os (tally F (position_key o) o m)
                (ap wrap64 added ∙ wrap64_idem _ ∙ sym added)
              ∙ ap (λ x. wrap64 (x +ℤ total side k os)) added
              ∙ wrap64_sum (amount f (find k m) +ℤ o.filled_quantity) (total side k os)
              ∙ ap wrap64 (+ℤ_assoc (amount f (find k m)) o.filled_quantity (total side k os)))
      | inr h ↦
          let kept =
            amount-tally f side g (position_key o) k o m
            ∙ if_false (λ x. x ≡ amount f (find k m)) _ _ _ h refl in
          rw (e, h)
            (amount-tally_each f side g k os (tally F (position_key o) o m)
                (ap wrap64 kept ∙ fits ∙ sym kept)
              ∙ ap (λ x. wrap64 (x +ℤ total side k os)) kept)
    ]
  ]

  has-tally :
      (j k : String) (o : Order) (m : List (String × Tally))
      → has k (tally F j o m) ≡ (has k m || str_eq j k)
  unfolding tally has
  has-tally j k o [] = ground arith
  has-tally j k o ((i, t) ∷ m) =
      ground (arith, eq_iff i j, eq_iff j k, eq_iff i k, has-tally j k o m)

  pub has-tally_each :
      (k : String) (os : List Order) (m : List (String × Tally))
      → has k (tally_each F os m) ≡ (has k m || any (is_of k) os)
  unfolding tally_each
  has-tally_each k [] m = ground arith
  has-tally_each k (o ∷ os) m = ground (
    arith,
    has-tally_each k os m,
    has-tally_each k os (tally F (position_key o) o m),
    has-tally (position_key o) k o m,
  )

  unfoldable pub Unique : List (String × Tally) → Type 0
  Unique [] = Unit
  Unique ((k, t) ∷ m) = (has k m ≡ false) × Unique m

  tally-Unique :
      (j : String) (o : Order) (m : List (String × Tally)) → Unique m → Unique (tally F j o m)
  unfolding tally Unique has
  tally-Unique j o [] u = (refl, tt)
  tally-Unique j o ((i, t) ∷ m) u =
      if_cases Unique (str_eq i j) ((i, add_to F o t) ∷ m) ((i, t) ∷ tally F j o m) (λ _. u)
        (λ h. (
          ground (arith, has-tally j i o m, u.0, h, eq_iff i j, eq_iff j i),
          tally-Unique j o m u.1,
        ))

  pub tally_each-Unique :
      (os : List Order) (m : List (String × Tally)) → Unique m → Unique (tally_each F os m)
  unfolding tally_each
  tally_each-Unique [] m u = u
  tally_each-Unique (o ∷ os) m u =
      tally_each-Unique os (if is_filled o then tally F (position_key o) o m else m)
        (if_cases Unique (is_filled o) _ m (λ _. tally-Unique (position_key o) o m u) (λ _. u))

  -- Each tally stands under its own key.
  unfoldable pub IsKeyed : String × Tally → Type 0
  IsKeyed e = tally_key e.1 ≡ e.0

  add_to_key : (o : Order) (t : Tally) → tally_key (add_to F o t) ≡ tally_key t
  unfolding add_to
  add_to_key o t =
      if_cases (λ r. tally_key r ≡ tally_key t) (is_buy o.transaction_type) _ _ (λ _. refl)
        (λ _.
          if_cases (λ r. tally_key r ≡ tally_key t) (is_sell o.transaction_type) _ t (λ _. refl)
            (λ _. refl))

  tally-IsKeyed :
      (o : Order) (m : List (String × Tally))
      → All IsKeyed m
      → All IsKeyed (tally F (position_key o) o m)
  unfolding tally IsKeyed new_tally position_key
  tally-IsKeyed o [] h = (add_to_key o (new_tally F o), tt)
  tally-IsKeyed o ((i, t) ∷ m) h =
      if_cases (All IsKeyed) (str_eq i (position_key o)) ((i, add_to F o t) ∷ m)
        ((i, t) ∷ tally F (position_key o) o m) (λ _. (add_to_key o t ∙ h.0, h.1))
        (λ _. (h.0, tally-IsKeyed o m h.1))

  pub tally_each-IsKeyed :
      (os : List Order) (m : List (String × Tally))
      → All IsKeyed m
      → All IsKeyed (tally_each F os m)
  unfolding tally_each
  tally_each-IsKeyed [] m h = h
  tally_each-IsKeyed (o ∷ os) m h =
      tally_each-IsKeyed os (if is_filled o then tally F (position_key o) o m else m)
        (if_cases (All IsKeyed) (is_filled o) _ m (λ _. tally-IsKeyed o m h) (λ _. h))

  widen :
      (j : String) (t : Tally) (m sub : List (String × Tally))
      → has j sub ≡ false
      → All (λ (e : String × Tally). find e.0 m ≡ some e.1) sub
      → All (λ (e : String × Tally). find e.0 ((j, t) ∷ m) ≡ some e.1) sub
  unfolding find has
  widen j t m [] h a = tt
  widen j t m ((i, r) ∷ sub) h a =
      (ground (arith, a.0, h, eq_iff j i, eq_iff i j), widen j t m sub (ground (arith, h)) a.1)

  pub every_found :
      (m : List (String × Tally)) → Unique m → All (λ (e : String × Tally). find e.0 m ≡ some e.1) m
  unfolding find Unique
  every_found [] u = tt
  every_found ((j, t) ∷ m) u = (ground (arith, eq_iff j j), widen j t m m u.0 (every_found m u.1))
