-- ===== src/Store/Pool.antt =====
-- The rows of proxy_ips have different addresses.
use envoy_trade.Common.{
  ◌≡◌, refl, sym, ◌∙◌, ap, arith, true, false, ◌||◌, String, str_eq, eq_iff, none, List, [], ◌∷◌,
  if_cases, Bool-cases, inl, inr, if◌then◌else◌,
}
use envoy_trade.Store.Addresses.{ProxyRow, find_row, upsert_row, change_row, drop_row, has_row}

unfoldable pub UniqueRows : List ProxyRow → Type 0
UniqueRows [] = Unit
UniqueRows (r ∷ rs) = (has_row r.ip_address rs ≡ false) × UniqueRows rs

has-upsert :
    (k : String) (row : ProxyRow) (rs : List ProxyRow)
    → has_row k (upsert_row row rs) ≡ (has_row k rs || str_eq row.ip_address k)
unfolding has_row upsert_row
has-upsert k row [] = ground arith
has-upsert k row (r ∷ rs) = ground (
  arith,
  eq_iff r.ip_address row.ip_address,
  eq_iff row.ip_address k,
  eq_iff r.ip_address k,
  has-upsert k row rs,
)

pub upsert-UniqueRows :
    (row : ProxyRow) (rs : List ProxyRow) → UniqueRows rs → UniqueRows (upsert_row row rs)
unfolding UniqueRows upsert_row
upsert-UniqueRows row [] u = (unfold has_row in refl, tt)
upsert-UniqueRows row (r ∷ rs) u = elim (Bool-cases (str_eq r.ip_address row.ip_address)) [
  | inl e ↦
      rw e ((ap (λ k. has_row k rs) (sym ((eq_iff r.ip_address row.ip_address).0 e)) ∙ u.0), u.1)
  | inr e ↦ rw e (
    ground (
      arith,
      has-upsert r.ip_address row rs,
      u.0,
      e,
      eq_iff r.ip_address row.ip_address,
      eq_iff row.ip_address r.ip_address,
    ),
    upsert-UniqueRows row rs u.1,
  )
]

module _ (ip : String) (f : ProxyRow → ProxyRow)
    (keeps : (r : ProxyRow) → str_eq r.ip_address ip ≡ true → (f r).ip_address ≡ r.ip_address) where
  has-change : (k : String) (rs : List ProxyRow) → has_row k (change_row ip f rs) ≡ has_row k rs
  unfolding has_row change_row
  has-change k [] = refl
  has-change k (r ∷ rs) = elim (Bool-cases (str_eq r.ip_address ip)) [
    | inl e ↦ rw (e, keeps r e) refl
    | inr e ↦ rw (e, has-change k rs) refl
  ]

  pub change-UniqueRows : (rs : List ProxyRow) → UniqueRows rs → UniqueRows (change_row ip f rs)
  unfolding UniqueRows change_row
  change-UniqueRows [] u = tt
  change-UniqueRows (r ∷ rs) u = elim (Bool-cases (str_eq r.ip_address ip)) [
    | inl e ↦ rw e (ap (λ k. has_row k rs) (keeps r e) ∙ u.0, u.1)
    | inr e ↦ rw e (has-change r.ip_address rs ∙ u.0, change-UniqueRows rs u.1)
  ]

has-drop :
    (ip k : String) (rs : List ProxyRow) → has_row k rs ≡ false → has_row k (drop_row ip rs) ≡ false
unfolding has_row drop_row
has-drop ip k [] h = refl
has-drop ip k (r ∷ rs) h = ground (arith, h, has-drop ip k rs)

pub drop-UniqueRows :
    (ip : String) (rs : List ProxyRow) → UniqueRows rs → UniqueRows (drop_row ip rs)
unfolding UniqueRows drop_row
drop-UniqueRows ip [] u = tt
drop-UniqueRows ip (r ∷ rs) u =
    if_cases UniqueRows (str_eq r.ip_address ip) rs (r ∷ drop_row ip rs) (λ _. u.1)
      (λ _. (has-drop ip r.ip_address rs u.0, drop-UniqueRows ip rs u.1))

absent-find : (k : String) (rs : List ProxyRow) → has_row k rs ≡ false → find_row k rs ≡ none
unfolding has_row find_row
absent-find k [] h = refl
absent-find k (r ∷ rs) h = ground (arith, h, absent-find k rs)

-- A dropped row is gone, and the others stay.
pub find-drop :
    (ip k : String) (rs : List ProxyRow)
    → UniqueRows rs
    → find_row k (drop_row ip rs) ≡ (if str_eq ip k then none else find_row k rs)
unfolding UniqueRows drop_row find_row
find-drop ip k [] u = ground arith
find-drop ip k (r ∷ rs) u = elim (Bool-cases (str_eq r.ip_address ip)) [
  | inl e ↦ elim (Bool-cases (str_eq ip k)) [
    | inl h ↦
        rw (e, h)
          (absent-find k rs
            (ap (λ i. has_row i rs) (sym ((eq_iff r.ip_address ip).0 e ∙ (eq_iff ip k).0 h)) ∙ u.0))
    | inr h ↦
        rw (e, h) (ground (arith, e, h, eq_iff r.ip_address ip, eq_iff r.ip_address k, eq_iff ip k))
  ]
  | inr e ↦ rw e (
      ground (
        arith,
        e,
        find-drop ip k rs u.1,
        eq_iff r.ip_address ip,
        eq_iff r.ip_address k,
        eq_iff ip k,
      ))
]
