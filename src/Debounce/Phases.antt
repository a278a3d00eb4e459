-- ===== src/Debounce/Phases.antt =====
-- The goroutines of one account among all.
use envoy_trade.Common.{◌≡◌, refl, arith, false, List, [], ◌∷◌, ◌++◌, any, ◌==◌, if◌then◌else◌}
use envoy_trade.Domain.Types.{Uuid}
use envoy_trade.Debounce.Syncer.{Phase, same_phase, is_at, move, end}

-- the phases of an account's goroutines
unfoldable pub phases_of : Uuid → List (Uuid × Phase) → List Phase
phases_of k [] = []
phases_of k (r ∷ rs) = let rest = phases_of k rs in if r.0 == k then r.1 ∷ rest else rest

abbrev pub move_first : Phase → Phase → List Phase → List Phase
move_first p q [] = []
move_first p q (r ∷ rs) =
    let rest = move_first p q rs in if same_phase r p then q ∷ rs else r ∷ rest

abbrev pub end_first : Phase → List Phase → List Phase
end_first p [] = []
end_first p (r ∷ rs) = let rest = end_first p rs in if same_phase r p then rs else r ∷ rest

pub phases-move :
    (k : Uuid) (p q : Phase) (rs : List (Uuid × Phase))
    → phases_of k (move k p q rs) ≡ move_first p q (phases_of k rs)
unfolding phases_of move
phases-move k p q [] = refl
phases-move k p q (r ∷ rs) = ground (arith, phases-move k p q rs)

pub phases-end :
    (k : Uuid) (p : Phase) (rs : List (Uuid × Phase))
    → phases_of k (end k p rs) ≡ end_first p (phases_of k rs)
unfolding phases_of end
phases-end k p [] = refl
phases-end k p (r ∷ rs) = ground (arith, phases-end k p rs)

pub phases-move_other :
    (k j : Uuid) (p q : Phase) (rs : List (Uuid × Phase))
    → (j == k) ≡ false
    → phases_of k (move j p q rs) ≡ phases_of k rs
unfolding phases_of move
phases-move_other k j p q [] h = refl
phases-move_other k j p q (r ∷ rs) h = ground (arith, phases-move_other k j p q rs)

pub phases-end_other :
    (k j : Uuid) (p : Phase) (rs : List (Uuid × Phase))
    → (j == k) ≡ false
    → phases_of k (end j p rs) ≡ phases_of k rs
unfolding phases_of end
phases-end_other k j p [] h = refl
phases-end_other k j p (r ∷ rs) h = ground (arith, phases-end_other k j p rs)

pub phases-snoc :
    (k j : Uuid) (p : Phase) (rs : List (Uuid × Phase))
    → phases_of k (rs ++ (j, p) ∷ [])
      ≡ (if j == k then phases_of k rs ++ p ∷ [] else phases_of k rs)
unfolding phases_of
phases-snoc k j p [] = refl
phases-snoc k j p (r ∷ rs) = ground (arith, phases-snoc k j p rs)

pub any-phases :
    (k : Uuid) (p : Phase) (rs : List (Uuid × Phase))
    → any (is_at k p) rs ≡ any (λ q. same_phase q p) (phases_of k rs)
unfolding phases_of
any-phases k p [] = refl
any-phases k p (r ∷ rs) = ground (arith, any-phases k p rs)
