-- ===== src/Worker/Pool.antt =====
-- pool.go: the map of the workers' channels. A worker that is cancelled is not in the map, and what
-- its channel still holds is lost with it.
use envoy_trade.Common.{ℕ, Bool, false, Option, none, some, List, length}
use envoy_trade.Common.Channel.{Channel, make, try_send, receive}
use envoy_trade.Common.Maps.{get, put, remove}
use envoy_trade.Domain.Types.{Uuid, Job}

abbrev pub Workers : Type 0
Workers = List (Uuid × Channel Job)

-- Register starts an empty channel, also for a follower that has one.
unfoldable pub register : Uuid → ℕ → Workers → Workers
register follower buffer_size ws = put follower (make buffer_size) ws

unfoldable pub unregister : Uuid → Workers → Workers
unregister follower ws = remove follower ws

unfoldable pub send_to : Uuid → Job → Option (Channel Job) → Workers → Bool × Workers
send_to follower job none ws = (false, ws)
send_to follower job (some c) ws = let r = try_send job c in (r.0, put follower r.1 ws)

-- Dispatch
unfoldable pub dispatch : Uuid → Job → Workers → Bool × Workers
dispatch follower job ws = send_to follower job (get follower ws) ws

unfoldable pub count : Workers → ℕ
count ws = length ws

unfoldable pub take_from : Uuid → Option (Channel Job) → Workers → Option (Job × Workers)
take_from follower none ws = none
take_from follower (some c) ws = elim (receive c) [
  | none ↦ none
  | some (job, rest) ↦ some (job, put follower rest ws)
]

-- The receive in run, of the follower's worker.
unfoldable pub take_job : Uuid → Workers → Option (Job × Workers)
take_job follower ws = take_from follower (get follower ws) ws
