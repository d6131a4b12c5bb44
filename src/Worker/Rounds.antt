-- ===== src/Worker/Rounds.antt =====
-- The whole of comm_worker_run: the two calls in front of its rounds, and so many of its rounds.
use comm_system.Prelude.{ℕ, zero, suc, Bool, true, false}
use comm_system.Kernel.{Kernel}
use comm_system.Transfer.{Run, returned, fault, running, and_then}
use comm_system.Worker.{
  WorkerData, Epoll, WorkerState, Outcome, next_event, poll_again, aborted, TakeEnd, polls,
  next_round, poll, take_connection,
}

-- epoll_create1 and calloc, which may fail.
pub record Starting (W : Type 0) : Type 0 where
  pub epoll_create1 : W → Bool × W
  pub calloc_events : W → Bool × W

module _ (k : Kernel) (data_ : WorkerData (k.World)) (epoll : Epoll (k.World))
    (starting : Starting (k.World)) where
  open k use {World}
  open starting use {epoll_create1, calloc_events}

  abbrev at_world : WorkerState World → World → WorkerState World
  at_world s w = record s { world = w }

  -- Behind the taking of a connection: the wait and the events, or the next round at once.
  unfoldable pub behind_take :
      (waits fuel : ℕ) → TakeEnd → WorkerState World → Run Outcome (WorkerState World)
  unfolding poll
  behind_take waits fuel next_round s = returned next_event s
  behind_take waits fuel polls s = elim (poll k data_ epoll waits fuel s.world) [
    | returned outcome w ↦ returned outcome (at_world s w)
    | fault ↦ fault
    | running ↦ running
  ]

  unfoldable pub worker_round :
      (waits fuel : ℕ) → WorkerState World → Run Outcome (WorkerState World)
  unfolding take_connection behind_take
  worker_round waits fuel s =
      and_then (take_connection k data_ epoll fuel s) (behind_take waits fuel)

  unfoldable pub behind_worker_round :
      (WorkerState World → Run Outcome (WorkerState World))
      → Outcome
      → WorkerState World
      → Run Outcome (WorkerState World)
  behind_worker_round again next_event s = again s
  behind_worker_round again poll_again s = again s
  behind_worker_round again aborted s = returned aborted s

  -- `while(1) { … }`
  unfoldable pub worker_rounds :
      (rounds waits fuel : ℕ) → WorkerState World → Run Outcome (WorkerState World)
  unfolding worker_round behind_worker_round
  worker_rounds zero waits fuel s = returned next_event s
  worker_rounds (suc rounds) waits fuel s =
      and_then (worker_round waits fuel s) (behind_worker_round (worker_rounds rounds waits fuel))

  -- `if(…) { … goto end; }`
  unfoldable pub behind_start :
      (WorkerState World → Run Outcome (WorkerState World))
      → WorkerState World
      → Bool × World
      → Run Outcome (WorkerState World)
  behind_start next s (true, w) = next (at_world s w)
  behind_start next s (false, w) = returned next_event (at_world s w)

  unfoldable pub comm_worker_run :
      (rounds waits fuel : ℕ) → WorkerState World → Run Outcome (WorkerState World)
  unfolding behind_start worker_rounds
  comm_worker_run rounds waits fuel s =
      behind_start
        (λ s₁. behind_start (worker_rounds rounds waits fuel) s₁ (calloc_events s₁.world)) s
        (epoll_create1 s.world)
