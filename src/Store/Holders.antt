-- ===== src/Store/Holders.antt =====
-- No two accounts have one proxy address.
use envoy_trade.Common.{
  ◌≡◌, refl, ◌∙◌, ap, arith, Bool, true, false, ◌&&◌, ◌||◌, not, String, str_eq, eq_iff, List, [],
  ◌∷◌, any, ◌==◌, Bool-cases, inl, inr,
}
use envoy_trade.Domain.Types.{Uuid}
use envoy_trade.Store.Addresses.{AccountRow, is_account, change_account, is_taken}

abbrev pub has_address : String → List AccountRow → Bool
has_address ip rows = any (λ (a : AccountRow). str_eq a.ip_address ip) rows

abbrev pub has_account : Uuid → List AccountRow → Bool
has_account id rows = any (is_account id) rows

-- Different ids, and no address twice but the empty text.
unfoldable pub UniqueHolders : List AccountRow → Type 0
UniqueHolders [] = Unit
UniqueHolders (a ∷ rows) =
    (has_account a.id rows ≡ false)
    × ((not (str_eq a.ip_address "") && has_address a.ip_address rows) ≡ false)
    × UniqueHolders rows

-- Of the others, none has the address.
abbrev pub is_free : Uuid → String → List AccountRow → Bool
is_free id ip rows = str_eq ip "" || not (is_taken id ip rows)

module _ (id : Uuid) (ip : String) (f : AccountRow → AccountRow)
    (keeps : (a : AccountRow) → (f a).id ≡ a.id)
    (sets : (a : AccountRow) → (f a).ip_address ≡ ip) where
  has_account-change :
      (j : Uuid) (rows : List AccountRow)
      → has_account j (change_account id f rows) ≡ has_account j rows
  unfolding change_account
  has_account-change j [] = refl
  has_account-change j (a ∷ rows) = ground (arith, keeps a, has_account-change j rows)

  has_address-change :
      (k : String) (rows : List AccountRow)
      → has_address k rows ≡ false
      → str_eq ip k ≡ false
      → has_address k (change_account id f rows) ≡ false
  unfolding change_account
  has_address-change k [] h n = refl
  has_address-change k (a ∷ rows) h n = elim (Bool-cases (a.id == id)) [
    | inl e ↦ rw (e, sets a, n) (ground (arith, h))
    | inr e ↦ rw e (ground (arith, h, has_address-change k rows (ground (arith, h)) n))
  ]

  not_taken :
      (rows : List AccountRow)
      → is_taken id ip rows ≡ false
      → has_account id rows ≡ false
      → has_address ip rows ≡ false
  unfolding is_taken
  not_taken [] h k = refl
  not_taken (a ∷ rows) h k = ground (arith, h, k, not_taken rows)

  free_tail :
      (a : AccountRow) (rows : List AccountRow)
      → is_free id ip (a ∷ rows) ≡ true
      → is_free id ip rows ≡ true
  unfolding is_taken
  free_tail a rows h = ground (arith, h)

  changed_head :
      (a : AccountRow) (rows : List AccountRow)
      → (a.id == id) ≡ true
      → has_account a.id rows ≡ false
      → is_free id ip (a ∷ rows) ≡ true
      → (not (str_eq ip "") && has_address ip rows) ≡ false
  unfolding is_taken
  changed_head a rows e h free = elim (Bool-cases (str_eq ip "")) [
    | inl b ↦ rw b refl
    | inr b ↦
        rw
          (
            b,
            not_taken rows (ground (arith, free, b)) (ap (λ i. has_account i rows) (same_id e) ∙ h),
          )
          refl
  ]
    where
      same_id : (a.id == id) ≡ true → id ≡ a.id
      same_id e = ground (arith, e)

  kept_head :
      (a : AccountRow) (rows : List AccountRow)
      → (a.id == id) ≡ false
      → (not (str_eq a.ip_address "") && has_address a.ip_address rows) ≡ false
      → is_free id ip (a ∷ rows) ≡ true
      → (not (str_eq a.ip_address "") && has_address a.ip_address (change_account id f rows))
        ≡ false
  unfolding is_taken
  kept_head a rows e h free = elim (Bool-cases (str_eq a.ip_address "")) [
    | inl b ↦ rw b refl
    | inr b ↦
        rw
          (
            b,
            has_address-change a.ip_address rows (ground (arith, h, b)) (
                ground (
                  arith,
                  free,
                  b,
                  e,
                  eq_iff ip "",
                  eq_iff ip a.ip_address,
                  eq_iff a.ip_address ip,
                  eq_iff a.ip_address "",
                )),
          )
          refl
  ]

  pub change-UniqueHolders :
      (rows : List AccountRow)
      → is_free id ip rows ≡ true
      → UniqueHolders rows
      → UniqueHolders (change_account id f rows)
  unfolding UniqueHolders change_account
  change-UniqueHolders [] free u = tt
  change-UniqueHolders (a ∷ rows) free u = elim (Bool-cases (a.id == id)) [
    | inl e ↦ rw (e, keeps a, sets a) (u.0, changed_head a rows e u.0 free, u.2)
    | inr e ↦ rw e (
      has_account-change a.id rows ∙ u.0,
      kept_head a rows e u.1 free,
      change-UniqueHolders rows (free_tail a rows free) u.2,
    )
  ]
