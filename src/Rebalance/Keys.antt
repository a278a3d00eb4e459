-- ===== src/Rebalance/Keys.antt =====
-- The keys over which calculateFollowerDrift runs.
use envoy_trade.Common.{
  arith, ◌≡◌, ◌⊎◌, inl, inr, true, false, ◌&&◌, ◌||◌, String, str_eq, eq_iff, List, [], ◌∷◌, ◌++◌,
  any, In, pos, eqb_ℤ, if_cases, if◌then◌else◌, subst,
}
use envoy_trade.Rebalance.Drift.{Position, Key, key_of, same_key, add_keys, all_keys}

pub same_key_refl : (k : Key) → same_key k k ≡ true
unfolding same_key
same_key_refl k = ground (arith, eq_iff k.exchange k.exchange, eq_iff k.symbol k.symbol)

both_same : (a b c d : String) → (str_eq a b && str_eq c d) ≡ true → (a ≡ b) × (c ≡ d)
both_same a b c d h = ground (arith, eq_iff a b, eq_iff c d)

pub same_key-equal : (a b : Key) → same_key a b ≡ true → a ≡ b
unfolding same_key
same_key-equal a b h =
    let e = both_same a.exchange b.exchange a.symbol b.symbol h in
    λ i. record { exchange = e.0 i; symbol = e.1 i }

-- The list has the key.
abbrev pub Listed : Key → List Key → Type 0
Listed k ks = any (same_key k) ks ≡ true

any_front : (k : Key) (ks rest : List Key) → Listed k ks → Listed k (ks ++ rest)
any_front k [] rest h = ground arith
any_front k (a ∷ ks) rest h = ground (arith, any_front k ks rest)

any_end : (k : Key) (ks : List Key) → Listed k (ks ++ k ∷ [])
any_end k [] = ground (arith, same_key_refl k)
any_end k (a ∷ ks) = ground (arith, any_end k ks)

pub add_keys-Listed :
    (k : Key) (ps : List Position) (known : List Key)
    → Listed k known
    → Listed k (add_keys ps known)
unfolding add_keys
add_keys-Listed k [] known h = h
add_keys-Listed k (p ∷ ps) known h = add_keys-Listed k ps _ (
    if_cases (Listed k) (eqb_ℤ p.quantity (pos 0) || any (same_key (key_of p)) known) known
      (known ++ key_of p ∷ []) (λ t. h) (λ n. any_front k known (key_of p ∷ []) h))

-- A position with a quantity has its key among those that are added.
pub add_keys_covers :
    (p : Position) (ps : List Position) (known : List Key)
    → In p ps
    → eqb_ℤ p.quantity (pos 0) ≡ false
    → Listed (key_of p) (add_keys ps known)
unfolding add_keys
add_keys_covers p [] known h z = elim h [ ]
add_keys_covers p (q ∷ ps) known (inr h) z = add_keys_covers p ps _ h z
add_keys_covers p (q ∷ ps) known (inl e) z = add_keys-Listed (key_of p) ps _ (
    subst
      (λ r. Listed (key_of p) (
        if eqb_ℤ r.quantity (pos 0) || any (same_key (key_of r)) known
        then known
        else known ++ key_of r ∷ []))
      e
      (if_cases (Listed (key_of p)) (eqb_ℤ p.quantity (pos 0) || any (same_key (key_of p)) known)
        known (known ++ key_of p ∷ []) (λ t. ground arith) (λ n. any_end (key_of p) known)))

pub all_keys-Listed :
    (p : Position) (master follower : List Position)
    → In p master ⊎ In p follower
    → eqb_ℤ p.quantity (pos 0) ≡ false
    → Listed (key_of p) (all_keys master follower)
unfolding all_keys
all_keys-Listed p master follower (inl h) z =
    add_keys-Listed (key_of p) follower _ (add_keys_covers p master [] h z)
all_keys-Listed p master follower (inr h) z = add_keys_covers p follower _ h z

pub tail_Listed :
    (k j : Key) (ks : List Key) → Listed k (j ∷ ks) → same_key k j ≡ false → Listed k ks
tail_Listed k j ks h e = ground arith
