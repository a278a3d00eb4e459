-- ===== src/Queue.antt =====
-- internal/queue/memchan/memchan.go: the bounded queue between the listeners and the consumers.
use envoy_trade.Common.{
  ℕ, zero, suc, ◌+◌, ◌≤◌, ◌<◌, ◌≡◌, refl, sym, ap, ◌∙◌, arith, Bool, true, false, Option, none,
  some, List, [], ◌∷◌, ◌++◌, length, length-append, ltb, lt→ltb, Result, ok, err, full,
}
use mathlib.Core.List.{append-nil, append_assoc}
use envoy_trade.Common.Channel.{Channel, make, try_send, receive}

abbrev pub answer : Bool → Result (Unit {0})
answer true = ok tt
answer false = err full

module _ {A : Type 0} where
  -- New
  unfoldable pub new : ℕ → Channel A
  new capacity = make capacity

  -- Publish
  unfoldable pub publish : A → Channel A → Result (Unit {0}) × Channel A
  publish ev q = let r = try_send ev q in (answer r.0, r.1)

  unfoldable pub queue_len : Channel A → ℕ
  queue_len q = length q.buffered

  unfoldable pub queue_cap : Channel A → ℕ
  queue_cap q = q.capacity

  module _ {S : Type 0} (fn : A → S → Result (Unit {0}) × S) where
    unfoldable pub deliver : Option (A × Channel A) → Channel A → S → Channel A × S
    deliver none q s = (q, s)
    deliver (some r) q s = (r.1, (fn r.0 s).1)

    -- One pass of Consume's loop: the error of `fn` is dropped, and an empty buffer waits.
    unfoldable pub consume_one : Channel A → S → Channel A × S
    consume_one q s = deliver (receive q) q s

    -- Consume, until it has waited or delivered n times.
    unfoldable pub consume : ℕ → Channel A → S → Channel A × S
    consume zero q s = (q, s)
    consume (suc n) q s = let r = consume_one q s in consume n r.0 r.1

    -- fn applied to each event, in order.
    unfoldable pub deliver_all : List A → S → S
    deliver_all [] s = s
    deliver_all (ev ∷ evs) s = deliver_all evs (fn ev s).1

module _ {A S : Type 0} (fn : A → S → Result (Unit {0}) × S) where
  -- Consume delivers what is buffered, each event once and in order, whatever the handler answers.
  consume-drains :
      (n capacity : ℕ) (evs : List A) (s : S)
      → length evs ≤ n
      → consume fn n (record { capacity = capacity; buffered = evs }) s
        ≡ (record { capacity = capacity; buffered = [] }, deliver_all fn evs s)
  unfolding consume consume_one deliver deliver_all receive
  consume-drains zero capacity [] s h = refl
  consume-drains zero capacity (ev ∷ evs) s h = absurd (omega (arith, h))
  consume-drains (suc n) capacity [] s h = consume-drains n capacity [] s (omega arith)
  consume-drains (suc n) capacity (ev ∷ evs) s h =
      consume-drains n capacity evs (fn ev s).1 (omega (arith, h))

-- Publishing in a row, while the answers say that each event was taken.
unfoldable pub publish_all : {A : Type 0} → List A → Channel A → Channel A
publish_all [] q = q
publish_all (ev ∷ evs) q = publish_all evs (publish ev q).1

publish_room :
    {A : Type 0} (ev : A) (q : Channel A)
    → length q.buffered < q.capacity
    → publish ev q ≡ (ok tt, record q { buffered = q.buffered ++ ev ∷ [] })
unfolding publish try_send
publish_room ev q h = rw (lt→ltb (length q.buffered) q.capacity h) refl

no_room : (n m : ℕ) → m ≤ n → ltb n m ≡ false
no_room n m h = ground arith

publish_full :
    {A : Type 0} (ev : A) (q : Channel A)
    → q.capacity ≤ length q.buffered
    → publish ev q ≡ (err full, q)
unfolding publish try_send
publish_full ev q h = rw (no_room (length q.buffered) q.capacity h) refl

publish_all_room :
    {A : Type 0} (evs : List A) (q : Channel A)
    → length q.buffered + length evs ≤ q.capacity
    → publish_all evs q ≡ record q { buffered = q.buffered ++ evs }
unfolding publish_all
publish_all_room [] q h = ap (λ b. record q { buffered = b }) (sym (append-nil q.buffered))
publish_all_room (ev ∷ evs) q h =
    let next = record q { buffered = q.buffered ++ ev ∷ [] } in
    ap (λ r. publish_all evs r.1) (publish_room ev q (omega (arith, h)))
    ∙ publish_all_room evs next (omega (arith, h, length-append q.buffered (ev ∷ [])))
    ∙ ap (λ b. record q { buffered = b }) (append_assoc q.buffered (ev ∷ []) evs)

-- A queue that has room for the events that are published in a row refuses none, and a consumer that
-- comes after delivers what was there and then those, each once and in order, whatever the handler
-- answers; a queue without room refuses an event with ErrFull and stays as it is.
pub published_delivered :
    {A S : Type 0} (fn : A → S → Result (Unit {0}) × S) (evs : List A) (q : Channel A) (s : S)
    (ev : A)
    → (length q.buffered + length evs ≤ q.capacity
        → consume fn (length q.buffered + length evs) (publish_all evs q) s
          ≡ (record q { buffered = [] }, deliver_all fn (q.buffered ++ evs) s))
      × (q.capacity ≤ length q.buffered → publish ev q ≡ (err full, q))
published_delivered fn evs q s ev = (
  λ h.
      ap (λ c. consume fn (length q.buffered + length evs) c s) (publish_all_room evs q h)
      ∙ consume-drains fn (length q.buffered + length evs) q.capacity (q.buffered ++ evs) s
          (omega (arith, length-append q.buffered evs)),
  publish_full ev q,
)
