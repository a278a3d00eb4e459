-- ===== src/Accounts/Shared.antt =====
-- Between two evictions all callers share one broker of an account.
use envoy_trade.Common.{
  ◌≡◌, ◌≢◌, ◌∙◌, refl, sym, ap, subst, arith, Bool, true, false, not, ◌⊎◌, inl, inr, Option, none,
  some, Option-cases, List, [], ◌∷◌, Result, ok, err, All, ◌==◌, if◌then◌else◌,
}
use envoy_trade.Common.Maps.{get, get-remove_other, get-put_self, get-put_other}
use envoy_trade.Domain.Types.{Uuid}
use envoy_trade.Accounts.{
  AccountPool, PoolEvent, checks, builds, evicts, evicts_all, hand, fast_check, keep_fresh,
  slow_path, evict, pool_step, pool_run,
}

-- The event does not evict the account.
abbrev pub spares : Uuid → PoolEvent → Bool
spares k (checks id) = true
spares k (builds id) = true
spares k (evicts id) = not (id == k)
spares k evicts_all = false

module _ {B : Type 0} where
  -- what the history has for the account
  unfoldable pub given : Uuid → List (Uuid × B) → List B
  given k [] = []
  given k ((j, b) ∷ h) = let rest = given k h in if j == k then b ∷ rest else rest

  given_self : (k : Uuid) (b : B) (h : List (Uuid × B)) → given k ((k, b) ∷ h) ≡ b ∷ given k h
  unfolding given
  given_self k b h = ground arith

  given_other :
      (k j : Uuid) (b : B) (h : List (Uuid × B)) → j ≢ k → given k ((j, b) ∷ h) ≡ given k h
  unfolding given
  given_other k j b h n = ground arith

  -- Nothing of the account is cached, built or handed out, or one broker is cached, it is the only one
  -- that was built, and each caller has got it.
  abbrev pub Shares : Uuid → Option B → List B → List B → Type 0
  Shares k cached built handed =
      ((cached ≡ none) × (built ≡ []) × (handed ≡ []))
      ⊎ ((b : B) × (cached ≡ some b) × (built ≡ b ∷ []) × All (λ c. c ≡ b) handed)

same_or_other : (k j : Uuid) → (k ≡ j) ⊎ (j ≢ k)
same_or_other k j = ground arith

some_same : {B : Type 0} (b c : B) → some c ≡ some b → c ≡ b
some_same b c e = ap (λ o. elim o [ none ↦ c | some x ↦ x ]) e

spared : (k j : Uuid) → not (j == k) ≡ true → k ≢ j
spared k j h e = ground arith

module _ {B S : Type 0} (k : Uuid) where
  abbrev pub IsShared : AccountPool B S → Type 0
  IsShared p = Shares k (get k p.brokers) (given k p.built) (given k p.handed)

  hand_own :
      (c : B) (p : AccountPool B S) → get k p.brokers ≡ some c → IsShared p → IsShared (hand k c p)
  unfolding hand
  hand_own c p e (inl h) = ground (arith, h.0, e)
  hand_own c p e (inr (b, h, built, all)) = inr (
    b,
    h,
    built,
    subst (All (λ d. d ≡ b)) (sym (given_self k c p.handed)) (some_same b c (sym e ∙ h), all),
  )

  hand_other : (j : Uuid) (c : B) (p : AccountPool B S) → j ≢ k → IsShared p → IsShared (hand j c p)
  unfolding hand
  hand_other j c p n h = rw (given_other k j c p.handed n) h

  hand-IsShared :
      (j : Uuid) (c : B) (p : AccountPool B S)
      → get j p.brokers ≡ some c
      → IsShared p
      → IsShared (hand j c p)
  hand-IsShared j c p e h = elim (same_or_other k j) [
    | inl s ↦
        subst (λ i. IsShared (hand i c p)) s
          (hand_own c p (subst (λ i. get i p.brokers ≡ some c) (sym s) e) h)
    | inr n ↦ hand_other j c p n h
  ]

  -- A miss is followed by a broker that the resolver builds.
  build_own :
      (b : B) (w : S) (p : AccountPool B S)
      → get k p.brokers ≡ none
      → IsShared p
      → IsShared (keep_fresh k (ok b, w) p).1
  unfolding keep_fresh hand
  build_own b w p e (inr (c, h, built, all)) = ground (arith, h, e)
  build_own b w p e (inl (h, built, handed)) = inr (
    b,
    get-put_self k b p.brokers,
    given_self k b p.built ∙ ap (λ l. b ∷ l) built,
    subst (All (λ d. d ≡ b)) (sym (given_self k b p.handed ∙ ap (λ l. b ∷ l) handed)) (refl, tt),
  )

  build_other :
      (j : Uuid) (b : B) (w : S) (p : AccountPool B S)
      → j ≢ k
      → IsShared p
      → IsShared (keep_fresh j (ok b, w) p).1
  unfolding keep_fresh hand
  build_other j b w p n h =
      rw
        (
          given_other k j b p.handed n,
          given_other k j b p.built n,
          get-put_other j k b p.brokers (λ e. n (sym e)),
        )
        h

  build-IsShared :
      (j : Uuid) (r : Result B × S) (p : AccountPool B S)
      → get j p.brokers ≡ none
      → IsShared p
      → IsShared (keep_fresh j r p).1
  unfolding keep_fresh
  build-IsShared j (err x, w) p e h = h
  build-IsShared j (ok b, w) p e h = elim (same_or_other k j) [
    | inl s ↦
        subst (λ i. IsShared (keep_fresh i (ok b, w) p).1) s
          (build_own b w p (subst (λ i. get i p.brokers ≡ none) (sym s) e) h)
    | inr n ↦ build_other j b w p n h
  ]

module _ {B S : Type 0} (resolver : Uuid → S → Result B × S) (k : Uuid) where
  check-IsShared : (j : Uuid) (p : AccountPool B S) → IsShared k p → IsShared k (fast_check j p).1
  unfolding fast_check
  check-IsShared j p h = elim (Option-cases (get j p.brokers)) [
    | inl e ↦ rw (e, fast_check) h
    | inr (c, e) ↦ rw (e, fast_check) (hand-IsShared k j c p e h)
  ]

  slow_path-IsShared :
      (j : Uuid) (p : AccountPool B S) → IsShared k p → IsShared k (slow_path resolver j p).1
  unfolding slow_path
  slow_path-IsShared j p h = elim (Option-cases (get j p.brokers)) [
    | inl e ↦ rw (e, slow_path) (build-IsShared k j (resolver j p.world) p e h)
    | inr (c, e) ↦ rw (e, slow_path) (hand-IsShared k j c p e h)
  ]

  step-IsShared :
      (e : PoolEvent) (p : AccountPool B S)
      → spares k e ≡ true
      → IsShared k p
      → IsShared k (pool_step resolver e p)
  unfolding pool_step evict
  step-IsShared (checks j) p s h = check-IsShared j p h
  step-IsShared (builds j) p s h = slow_path-IsShared j p h
  step-IsShared (evicts j) p s h = rw (get-remove_other j k p.brokers (spared k j s)) h
  step-IsShared evicts_all p s h = ground (arith, s)

  -- Over any interleaving of the two sections of ResolveBroker by any goroutines, and of evictions of
  -- other accounts, from a pool that has not resolved the account: nothing of the account is cached, built
  -- or handed out, or the resolver has built one broker for it, which is cached, and each caller has got
  -- it.
  pub pool_run-Shares :
      (es : List PoolEvent) (p : AccountPool B S)
      → All (λ e. spares k e ≡ true) es
      → IsShared k p
      → IsShared k (pool_run resolver es p)
  unfolding pool_run
  pool_run-Shares [] p s h = h
  pool_run-Shares (e ∷ es) p s h =
      pool_run-Shares es (pool_step resolver e p) s.1 (step-IsShared e p s.0 h)
