-- ===== src/Ticker/Places.antt =====
-- Counting the places of a ticker.
use envoy_trade.Common.{
  ℕ, ◌+◌, ◌≡◌, refl, arith, Bool, true, false, Option, none, some, List, [], ◌∷◌, ◌++◌, any, ◌==◌,
  if_cases, if◌then◌else◌,
}
use envoy_trade.Common.Maps.{get, remove}
use envoy_trade.Domain.Types.{Uuid}
use envoy_trade.Ticker.Manager.{drop_ticker, drop_one, tickers_of}

abbrev pub unit : Bool → ℕ
unit true = 1
unit false = 0

abbrev pub count : ℕ → List ℕ → ℕ
count i [] = 0
count i (x ∷ xs) = unit (x == i) + count i xs

pub count-append : (i : ℕ) (xs ys : List ℕ) → count i (xs ++ ys) ≡ count i xs + count i ys
count-append i [] ys = omega arith
count-append i (x ∷ xs) ys = omega (arith, count-append i xs ys)

unfoldable pub owner_of : ℕ → List (Uuid × ℕ) → Option Uuid
owner_of t [] = none
owner_of t ((id, s) ∷ m) = if s == t then some id else owner_of t m

pub count-drop_ticker :
    (i t : ℕ) (id : Uuid) (m : List (Uuid × ℕ))
    → owner_of t m ≡ some id
    → count i (tickers_of m) ≡ unit (t == i) + count i (tickers_of (drop_ticker t m))
unfolding owner_of
count-drop_ticker i t id [] h = cc
count-drop_ticker i t id ((j, s) ∷ m) h = ground (arith, count-drop_ticker i t id m)

pub count-drop_one :
    (i t : ℕ) (ts : List ℕ)
    → any (λ s. s == t) ts ≡ true
    → count i ts ≡ unit (t == i) + count i (drop_one t ts)
count-drop_one i t [] h = cc
count-drop_one i t (s ∷ ts) h = ground (arith, count-drop_one i t ts)

-- Each key stands once.
abbrev pub UniqueKeys : List (Uuid × ℕ) → Type 0
UniqueKeys [] = Unit
UniqueKeys ((id, t) ∷ m) = (get id m ≡ none) × UniqueKeys m

pub remove_absent : (id : Uuid) (m : List (Uuid × ℕ)) → get id m ≡ none → remove id m ≡ m
unfolding get remove
remove_absent id [] h = refl
remove_absent id ((j, t) ∷ m) h = ground (arith, remove_absent id m)

pub count-remove :
    (i : ℕ) (id : Uuid) (t : ℕ) (m : List (Uuid × ℕ))
    → UniqueKeys m
    → get id m ≡ some t
    → count i (tickers_of m) ≡ unit (t == i) + count i (tickers_of (remove id m))
unfolding get remove
count-remove i id t [] u h = cc
count-remove i id t ((j, s) ∷ m) u h =
    ground (arith, remove_absent j m u.0, count-remove i id t m u.1)

pub get-remove-none :
    (j id : Uuid) (m : List (Uuid × ℕ)) → get j m ≡ none → get j (remove id m) ≡ none
unfolding get remove
get-remove-none j id [] h = refl
get-remove-none j id ((k, t) ∷ m) h = ground (arith, get-remove-none j id m)

pub remove-UniqueKeys : (id : Uuid) (m : List (Uuid × ℕ)) → UniqueKeys m → UniqueKeys (remove id m)
unfolding get remove
remove-UniqueKeys id [] u = tt
remove-UniqueKeys id ((j, t) ∷ m) u =
    if_cases UniqueKeys (j == id) (remove id m) ((j, t) ∷ remove id m)
      (λ _. remove-UniqueKeys id m u.1)
      (λ _. (get-remove-none j id m u.0, remove-UniqueKeys id m u.1))
