-- ===== src/Worker/Moves.antt =====
-- pool.go: what one operation of the pool does to one follower's channel.
use envoy_trade.Common.{
  ℕ, ◌≡◌, ◌≢◌, refl, sym, ap, subst, ◌∙◌, arith, Bool, ◌⊎◌, inl, inr, Option, none, some, List, [],
  ◌∷◌, ◌++◌, length, length-append, ltb, ltb→lt, if_cases, ◌==◌, ==_iff, Option-cases, Bool-cases,
  if◌then◌else◌,
}
use mathlib.Core.List.{append-nil}
use envoy_trade.Common.Channel.{Channel, make, try_send, receive, Fits}
use envoy_trade.Common.Maps.{get, put, get-put_self, get-put_other, get-remove_other}
use envoy_trade.Domain.Types.{Uuid, Job}
use envoy_trade.Worker.Pool.{Workers, register, unregister, send_to, dispatch, take_from, take_job}

pub data PoolOp : Type 0 where
  registered : Uuid → ℕ → PoolOp
  unregistered : Uuid → PoolOp
  dispatched : Uuid → Job → PoolOp
  took : Uuid → PoolOp

abbrev taken_state : Option (Job × Workers) → Workers → Workers
taken_state none ws = ws
taken_state (some r) ws = r.1

abbrev taken_job : Option (Job × Workers) → List Job
taken_job none = []
taken_job (some r) = r.0 ∷ []

unfoldable pub after : PoolOp → Workers → Workers
after (registered f n) ws = register f n ws
after (unregistered f) ws = unregister f ws
after (dispatched f job) ws = (dispatch f job ws).1
after (took f) ws = taken_state (take_job f ws) ws

abbrev pub only : ℕ → ℕ → List Job → List Job
only f g js = if g == f then js else []

-- What one operation has a follower's channel accept, and what its worker receives.
unfoldable pub accepts : Uuid → PoolOp → Workers → List Job
accepts f (dispatched g job) ws = only f g (if (dispatch g job ws).0 then job ∷ [] else [])
accepts f (registered g n) ws = []
accepts f (unregistered g) ws = []
accepts f (took g) ws = []

unfoldable pub receives : Uuid → PoolOp → Workers → List Job
receives f (took g) ws = only f g (taken_job (take_job g ws))
receives f (dispatched g job) ws = []
receives f (registered g n) ws = []
receives f (unregistered g) ws = []

-- The follower's worker is neither replaced nor removed.
abbrev pub Spares : Uuid → List PoolOp → Type 0
Spares f [] = Unit
Spares f (registered g n ∷ ops) = (f ≢ g) × Spares f ops
Spares f (unregistered g ∷ ops) = (f ≢ g) × Spares f ops
Spares f (dispatched g job ∷ ops) = Spares f ops
Spares f (took g ∷ ops) = Spares f ops

-- What one operation does to a follower's channel.
pub record Moved (f : Uuid) (op : PoolOp) (c : Channel Job) (ws : Workers) : Type 0 where
  pub channel : Channel Job
  pub there : get f (after op ws) ≡ some channel
  pub fifo : receives f op ws ++ channel.buffered ≡ c.buffered ++ accepts f op ws
  pub capacity : channel.capacity ≡ c.capacity
  pub fits : Fits c → Fits channel

only_self : (f : ℕ) (js : List Job) → only f f js ≡ js
only_self f js = ground arith

only_other : (f g : ℕ) (js : List Job) → f ≢ g → only f g js ≡ []
only_other f g js h = ground arith

abbrev sent_list : Bool → Job → List Job
sent_list b job = if b then job ∷ [] else []

-- What a send to a follower's channel answers and leaves.
record Sent (f : Uuid) (job : Job) (c : Channel Job) (r : Bool × Workers) : Type 0 where
  pub channel : Channel Job
  pub there : get f r.1 ≡ some channel
  pub appended : channel.buffered ≡ c.buffered ++ sent_list r.0 job
  pub capacity : channel.capacity ≡ c.capacity
  pub fits : Fits c → Fits channel

send_to-Sent :
    (f : Uuid) (job : Job) (c : Channel Job) (ws : Workers)
    → Sent f job c (send_to f job (some c) ws)
unfolding send_to try_send
send_to-Sent f job c ws =
    if_cases (λ (r : Bool × Channel Job). Sent f job c (r.0, put f r.1 ws))
      (ltb (length c.buffered) c.capacity) _ _
      (λ room. record {
        channel = record c { buffered = c.buffered ++ job ∷ [] };
        there = get-put_self f _ ws;
        appended = refl;
        capacity = refl;
        fits = λ k. omega (
          arith,
          ltb→lt (length c.buffered) c.capacity room,
          length-append c.buffered (job ∷ []),
        );
      })
      (λ full. record {
        channel = c;
        there = get-put_self f _ ws;
        appended = sym (append-nil c.buffered);
        capacity = refl;
        fits = λ k. k;
      })

dispatched_self :
    (f : Uuid) (job : Job) (c : Channel Job) (ws : Workers)
    → get f ws ≡ some c
    → Moved f (dispatched f job) c ws
unfolding after accepts receives dispatch
dispatched_self f job c ws h =
    let s : Sent f job c (dispatch f job ws) =
      subst (λ d. Sent f job c (send_to f job d ws)) (sym h) (send_to-Sent f job c ws) in
    record {
      channel = s.channel;
      there = s.there;
      fifo =
          s.appended
          ∙ ap (λ js. c.buffered ++ js) (sym (only_self f (sent_list (dispatch f job ws).0 job)));
      capacity = s.capacity;
      fits = s.fits;
    }

send_to-other :
    (f g : Uuid) (job : Job) (d : Option (Channel Job)) (ws : Workers)
    → f ≢ g
    → get f (send_to g job d ws).1 ≡ get f ws
unfolding send_to
send_to-other f g job none ws n = refl
send_to-other f g job (some d) ws n = get-put_other g f _ ws n

dispatched_other :
    (f g : Uuid) (job : Job) (c : Channel Job) (ws : Workers)
    → f ≢ g
    → get f ws ≡ some c
    → Moved f (dispatched g job) c ws
unfolding after accepts receives dispatch
dispatched_other f g job c ws n h = record {
  channel = c;
  there = send_to-other f g job (get g ws) ws n ∙ h;
  fifo = rw (only_other f g (sent_list (dispatch g job ws).0 job) n) (sym (append-nil c.buffered));
  capacity = refl;
  fits = λ k. k;
}

take_from-other :
    (f g : Uuid) (d : Option (Channel Job)) (ws : Workers)
    → f ≢ g
    → get f (taken_state (take_from g d ws) ws) ≡ get f ws
unfolding take_from
take_from-other f g none ws n = refl
take_from-other f g (some d) ws n = elim (Option-cases (receive d)) [
  | inl e ↦ rw (e, take_from) refl
  | inr ((job, rest), e) ↦ rw (e, take_from) (get-put_other g f rest ws n)
]

took_other :
    (f g : Uuid) (c : Channel Job) (ws : Workers)
    → f ≢ g
    → get f ws ≡ some c
    → Moved f (took g) c ws
unfolding after accepts receives take_job
took_other f g c ws n h = record {
  channel = c;
  there = take_from-other f g (get g ws) ws n ∙ h;
  fifo = rw (only_other f g (taken_job (take_job g ws)) n) (sym (append-nil c.buffered));
  capacity = refl;
  fits = λ k. k;
}

took_none :
    (f : Uuid) (c : Channel Job) (ws : Workers)
    → get f ws ≡ some c
    → c.buffered ≡ []
    → take_job f ws ≡ none
    → Moved f (took f) c ws
unfolding after accepts receives
took_none f c ws h empty e = record {
  channel = c;
  there = ap (λ r. get f (taken_state r ws)) e ∙ h;
  fifo =
      ap (λ r. only f f (taken_job r) ++ c.buffered) e
      ∙ ap (λ js. js ++ c.buffered) (only_self f [])
      ∙ sym (append-nil c.buffered);
  capacity = refl;
  fits = λ k. k;
}

took_some :
    (f : Uuid) (n : ℕ) (job : Job) (jobs : List Job) (ws : Workers)
    → take_job f ws ≡ some (job, put f (record { capacity = n; buffered = jobs }) ws)
    → Moved f (took f) (record { capacity = n; buffered = job ∷ jobs }) ws
unfolding after accepts receives
took_some f n job jobs ws e = record {
  channel = record { capacity = n; buffered = jobs };
  there = ap (λ r. get f (taken_state r ws)) e ∙ get-put_self f _ ws;
  fifo =
      ap (λ r. only f f (taken_job r) ++ jobs) e
      ∙ ap (λ js. js ++ jobs) (only_self f (job ∷ []))
      ∙ sym (append-nil (job ∷ jobs));
  capacity = refl;
  fits = λ k. omega (arith, k);
}

took_self :
    (f : Uuid) (n : ℕ) (buffered : List Job) (ws : Workers)
    → get f ws ≡ some (record { capacity = n; buffered = buffered })
    → Moved f (took f) (record { capacity = n; buffered = buffered }) ws
unfolding take_job take_from receive
took_self f n [] ws h =
    took_none f (record { capacity = n; buffered = [] }) ws h refl (ap (λ d. take_from f d ws) h)
took_self f n (job ∷ jobs) ws h = took_some f n job jobs ws (ap (λ d. take_from f d ws) h)

same_or_not : (f g : ℕ) → (f ≡ g) ⊎ (f ≢ g)
same_or_not f g = elim (Bool-cases (f == g)) [
  | inl h ↦ inl ((==_iff f g).0 h)
  | inr h ↦ inr (λ e. ground (arith, ==_iff f g))
]

dispatched-Moved :
    (f g : Uuid) (job : Job) (c : Channel Job) (ws : Workers)
    → get f ws ≡ some c
    → Moved f (dispatched g job) c ws
dispatched-Moved f g job c ws h = elim (same_or_not f g) [
  | inl e ↦ subst (λ u. Moved f (dispatched u job) c ws) e (dispatched_self f job c ws h)
  | inr n ↦ dispatched_other f g job c ws n h
]

took-Moved :
    (f g : Uuid) (c : Channel Job) (ws : Workers) → get f ws ≡ some c → Moved f (took g) c ws
took-Moved f g c ws h = elim (same_or_not f g) [
  | inl e ↦ subst (λ u. Moved f (took u) c ws) e (took_self f c.capacity c.buffered ws h)
  | inr n ↦ took_other f g c ws n h
]

pub op-Moved :
    (f : Uuid) (op : PoolOp) (ops : List PoolOp) (c : Channel Job) (ws : Workers)
    → get f ws ≡ some c
    → Spares f (op ∷ ops)
    → Moved f op c ws
unfolding after accepts receives register unregister
op-Moved f (registered g n) ops c ws h s = record {
  channel = c;
  there = get-put_other g f (make n) ws s.0 ∙ h;
  fifo = sym (append-nil c.buffered);
  capacity = refl;
  fits = λ k. k;
}
op-Moved f (unregistered g) ops c ws h s = record {
  channel = c;
  there = get-remove_other g f ws s.0 ∙ h;
  fifo = sym (append-nil c.buffered);
  capacity = refl;
  fits = λ k. k;
}
op-Moved f (dispatched g job) ops c ws h s = dispatched-Moved f g job c ws h
op-Moved f (took g) ops c ws h s = took-Moved f g c ws h
