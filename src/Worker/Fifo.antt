-- ===== src/Worker/Fifo.antt =====
-- Every worker receives the jobs that Dispatch accepted for it, each once and in order, whatever the
-- other workers do.
use envoy_trade.Common.{◌≤◌, ◌≡◌, sym, ap, subst, ◌∙◌, some, List, [], ◌∷◌, ◌++◌, length}
use mathlib.Core.List.{append-nil, append_assoc}
use envoy_trade.Common.Channel.{Channel, Fits}
use envoy_trade.Common.Maps.{get}
use envoy_trade.Domain.Types.{Uuid, Job}
use envoy_trade.Worker.Pool.{Workers}
use envoy_trade.Worker.Moves.{
  PoolOp, registered, unregistered, dispatched, took, after, accepts, receives, Spares, op-Moved,
}

unfoldable pub after_all : List PoolOp → Workers → Workers
after_all [] ws = ws
after_all (op ∷ ops) ws = after_all ops (after op ws)

unfoldable pub accepted : Uuid → List PoolOp → Workers → List Job
accepted f [] ws = []
accepted f (op ∷ ops) ws = accepts f op ws ++ accepted f ops (after op ws)

unfoldable pub received : Uuid → List PoolOp → Workers → List Job
received f [] ws = []
received f (op ∷ ops) ws = receives f op ws ++ received f ops (after op ws)

Spares-rest : (f : Uuid) (op : PoolOp) (ops : List PoolOp) → Spares f (op ∷ ops) → Spares f ops
Spares-rest f (registered g n) ops s = s.1
Spares-rest f (unregistered g) ops s = s.1
Spares-rest f (dispatched g job) ops s = s
Spares-rest f (took g) ops s = s

joined :
    (r1 r2 d m c a1 a2 : List Job)
    → r2 ++ d ≡ m ++ a2
    → r1 ++ m ≡ c ++ a1
    → (r1 ++ r2) ++ d ≡ c ++ (a1 ++ a2)
joined r1 r2 d m c a1 a2 h k =
    append_assoc r1 r2 d
    ∙ ap (λ xs. r1 ++ xs) h
    ∙ sym (append_assoc r1 m a2)
    ∙ ap (λ xs. xs ++ a2) k
    ∙ append_assoc c a1 a2

-- For a follower whose worker stays, over any sequence of operations, of other followers' workers
-- among them: what its worker has received, and then what its channel holds, is what the channel held
-- and then what Dispatch accepted for it, in that order; and the channel stays within its capacity.
pub after_all-fifo :
    (f : Uuid) (ops : List PoolOp) (ws : Workers) (c : Channel Job)
    → get f ws ≡ some c
    → Spares f ops
    → Fits c
    → (d : Channel Job) × (get f (after_all ops ws) ≡ some d)
      × (received f ops ws ++ d.buffered ≡ c.buffered ++ accepted f ops ws)
      × (length d.buffered ≤ c.capacity)
unfolding after_all received accepted
after_all-fifo f [] ws c h s k = (c, h, sym (append-nil c.buffered), k)
after_all-fifo f (op ∷ ops) ws c h s k =
    let m = op-Moved f op ops c ws h s in
    let r =
      after_all-fifo f ops (after op ws) m.channel m.there (Spares-rest f op ops s) (m.fits k) in
    (
      r.0,
      r.1,
      joined (receives f op ws) (received f ops (after op ws)) r.0.buffered m.channel.buffered
          c.buffered (accepts f op ws) (accepted f ops (after op ws)) r.2 m.fifo,
      subst (λ n. length r.0.buffered ≤ n) m.capacity r.3,
    )
