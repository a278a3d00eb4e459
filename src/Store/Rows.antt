-- ===== src/Store/Rows.antt =====
-- Lemmas on the rows of follower_orders: their tags, their ids, and updates that leave both alone.
use envoy_trade.Common.{
  ℕ, ◌≡◌, ◌≢◌, refl, Bool, true, false, String, str_eq, eq_iff, List, [], ◌∷◌, ◌++◌, map, All,
  All-append, Distinct, if◌then◌else◌, arith,
}
use envoy_trade.Store.Tables.{OrderRow, has_tag, update_where}

abbrev pub tags : List OrderRow → List String
tags = map (λ (r : OrderRow). r.idempotency_tag)

abbrev pub ids : List OrderRow → List ℕ
ids = map (λ (r : OrderRow). r.id)

pub not_tagged :
    (t : String) (rows : List OrderRow) → has_tag t rows ≡ false → All (λ y. y ≢ t) (tags rows)
unfolding has_tag
not_tagged t [] h = tt
not_tagged t (r ∷ rs) h =
    (λ e. ground (arith, eq_iff r.idempotency_tag t), not_tagged t rs (ground arith))

pub tagged-append :
    (t : String) (rows : List OrderRow) (r : OrderRow)
    → has_tag t (rows ++ r ∷ []) ≡ (if str_eq r.idempotency_tag t then true else has_tag t rows)
unfolding has_tag
tagged-append t [] r = refl
tagged-append t (q ∷ qs) r = ground (arith, tagged-append t qs r)

pub Distinct-snoc {ℓ} :
    {A : Type ℓ} (xs : List A) (x : A) → Distinct xs → All (λ y. y ≢ x) xs → Distinct (xs ++ x ∷ [])
Distinct-snoc [] x d h = (tt, tt)
Distinct-snoc (y ∷ ys) x d h =
    (All-append (λ z. y ≢ z) ys (x ∷ []) d.0 (h.0, tt), Distinct-snoc ys x d.1 h.1)

-- A change that keeps the tag, and one that keeps the id.
module _ (p : OrderRow → Bool) (change : OrderRow → OrderRow) where
  pub tags-update_where :
      ((r : OrderRow) → (change r).idempotency_tag ≡ r.idempotency_tag)
      → (rows : List OrderRow) → tags (update_where p change rows) ≡ tags rows
  unfolding update_where
  tags-update_where same [] = refl
  tags-update_where same (r ∷ rs) = ground (arith, same r, tags-update_where same rs)

  pub ids-update_where :
      ((r : OrderRow) → (change r).id ≡ r.id)
      → (rows : List OrderRow) → ids (update_where p change rows) ≡ ids rows
  unfolding update_where
  ids-update_where same [] = refl
  ids-update_where same (r ∷ rs) = ground (arith, same r, ids-update_where same rs)

  pub has_tag-update_where :
      ((r : OrderRow) → (change r).idempotency_tag ≡ r.idempotency_tag)
      → (t : String) (rows : List OrderRow)
      → has_tag t (update_where p change rows) ≡ has_tag t rows
  unfolding has_tag update_where
  has_tag-update_where same t [] = refl
  has_tag-update_where same t (r ∷ rs) = ground (arith, same r, has_tag-update_where same t rs)
