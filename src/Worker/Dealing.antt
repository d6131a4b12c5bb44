-- ===== src/Worker/Dealing.antt =====
-- The workers of a server together: who takes which connection.
use mathlib.Core.Path.{subst}
use comm_system.Prelude.{
  ℕ, ◌+◌, ◌%◌, ◌<◌, ◌≡◌, ◌≢◌, refl, sym, ap, ◌∙◌, inl, inr, true, false, List, [], ◌∷◌, ◌++◌,
  append_assoc, append-nil, length, drop, drop-nil, ◌==◌, Bool-cases, ==→eq, arith,
}
use comm_system.Kernel.{Kernel}
use comm_system.Transfer.{Run, returned, fault, running, and_then}
use comm_system.Queue.Segments.{Cell}
use comm_system.Queue.Fifo.{Holds}
use comm_system.Turn.{comm_get_worker_index, takers, ring}
use comm_system.Turn.Robin.{takers_nil, takers_own, takers_other, takers-ring}
use comm_system.Worker.{WorkerData, Epoll, WorkerState, TakeEnd, polls, next_round, take_connection}
use comm_system.Worker.Taking.{Takes, take_connection_lem}

-- The connections of the queue, each with the worker that takes it.
abbrev pub deal_out : List Cell → (workers : List ℕ) → List (ℕ × ℕ)
deal_out [] workers = []
deal_out ((a, fd) ∷ xs) [] = []
deal_out ((a, fd) ∷ xs) (i ∷ workers) = (i, fd) ∷ deal_out xs workers

deal_out-nil : (xs : List Cell) → deal_out xs [] ≡ []
deal_out-nil [] = refl
deal_out-nil ((a, fd) ∷ xs) = refl

module _ (k : Kernel) (data_ : WorkerData (k.World)) (n : ℕ) (epoll_of : ℕ → Epoll (k.World)) where
  open k use {World}

  -- The worker `i` of `n`.
  abbrev pub worker_data : ℕ → WorkerData World
  worker_data i = record data_ { place = record { worker_index = i; num_workers = n } }

  -- Workers take a connection, or none, in the order of the schedule. `num_fds` counts for all. A
  -- worker passes both locks, of the turn and of the queue, in one step, while in the source others
  -- may overtake it between them.
  unfoldable pub deal :
      ℕ → (schedule : List ℕ) → WorkerState World → Run TakeEnd (WorkerState World)
  unfolding take_connection
  deal fuel [] s = returned polls s
  deal fuel (i ∷ schedule) s =
      and_then (take_connection k (worker_data i) (epoll_of i) fuel s)
        (λ end s'. deal fuel schedule s')

  module _ (added : World → List (ℕ × ℕ)) where
    -- `added` are the connections in the epoll sets, each with its worker, in the order in which
    -- they were added, and nothing is refused.
    pub record IsAdding : Type 0 where
      pub adds :
          (i fd : ℕ) (w : World)
          → (w' : World) × ((epoll_of i).epoll_add fd w ≡ (true, w'))
            × (added w' ≡ added w ++ (i, fd) ∷ [])

    -- The workers have got the first connections, one each, and the rest is in the queue.
    abbrev pub Deals :
        (workers : List ℕ) → List Cell → List (ℕ × ℕ) → Run TakeEnd (WorkerState World) → Type 0
    Deals workers xs before (returned end s') =
        (added s'.world ≡ before ++ deal_out xs workers)
        × Holds (drop (length workers) xs) s'.shared
    Deals workers xs before fault = ⊥
    Deals workers xs before running = ⊥

    Deals-cons :
        (workers : List ℕ) (i a fd : ℕ) (xs : List Cell) (before : List (ℕ × ℕ))
        (r : Run TakeEnd (WorkerState World))
        → Deals workers xs (before ++ (i, fd) ∷ []) r
        → Deals (i ∷ workers) ((a, fd) ∷ xs) before r
    Deals-cons workers i a fd xs before (returned end s') (e, held) =
        (e ∙ append_assoc before ((i, fd) ∷ []) (deal_out xs workers), held)
    Deals-cons workers i a fd xs before fault h = h
    Deals-cons workers i a fd xs before running h = h

    Deals-nil :
        (workers : List ℕ) (i : ℕ) (before : List (ℕ × ℕ)) (r : Run TakeEnd (WorkerState World))
        → Deals workers [] before r
        → Deals (i ∷ workers) [] before r
    Deals-nil workers i before (returned end s') (e, held) =
        (e, subst (λ l. Holds l s'.shared) (drop-nil (length workers)) held)
    Deals-nil workers i before fault h = h
    Deals-nil workers i before running h = h

    module _ (law : IsAdding) where
      -- A worker with its turn, and the ones behind it.
      step-Deals :
          (again : WorkerState World → Run TakeEnd (WorkerState World)) (workers : List ℕ)
          (i next num_fds bound : ℕ) (xs : List Cell) (w : World)
          (r : Run TakeEnd (WorkerState World))
          → ((ys : List Cell) (s' : WorkerState World)
              → length ys < bound
              → Holds ys s'.shared
              → s'.cur_worker_index ≡ next
              → Deals workers ys (added s'.world) (again s'))
          → length xs < bound
          → Takes k (worker_data i) (epoll_of i) next xs num_fds w r
          → Deals (i ∷ workers) xs (added w) (and_then r (λ end s'. again s'))
      step-Deals again workers i next num_fds bound [] w (returned polls s') go few
            (held, turn, count, same) =
          subst (λ v. Deals (i ∷ workers) [] (added v) (again s')) same
            (Deals-nil workers i (added s'.world) (again s') (go [] s' few held turn))
      step-Deals again workers i next num_fds bound ((a, fd) ∷ xs) w (returned polls s') go few
            (held, turn, count, add) =
          let (w', accepted, now) = law.adds i fd w in
          let same : w' ≡ s'.world = ap (λ r. r.1) (sym accepted ∙ add) in
          Deals-cons workers i a fd xs (added w) (again s') (
            subst (λ l. Deals workers xs l (again s')) (ap added (sym same) ∙ now)
              (go xs s' (omega (arith, few)) held turn))
      step-Deals again workers i next num_fds bound ((a, fd) ∷ xs) w (returned next_round s') go few
            (held, turn, count, add) =
          let (w', accepted, now) = law.adds i fd w in
          let clash : true ≡ false = ap (λ r. r.0) (sym accepted ∙ add) in absurd cc
      step-Deals again workers i next num_fds bound [] w (returned next_round s') go few h =
          absurd h
      step-Deals again workers i next num_fds bound [] w fault go few h = absurd h
      step-Deals again workers i next num_fds bound [] w running go few h = absurd h
      step-Deals again workers i next num_fds bound ((a, fd) ∷ xs) w fault go few h = absurd h
      step-Deals again workers i next num_fds bound ((a, fd) ∷ xs) w running go few h = absurd h

      -- A worker without its turn changes nothing.
      take_connection-other :
          (fuel i : ℕ) (s : WorkerState World)
          → i ≢ s.cur_worker_index
          → take_connection k (worker_data i) (epoll_of i) fuel s ≡ returned polls s
      unfolding take_connection comm_get_worker_index
      take_connection-other fuel i s ne =
          let first : (s.cur_worker_index == i) ≡ false = ground arith in
          let second : (i == s.cur_worker_index) ≡ false = ground arith in rw (first, second) refl

      deal-Deals :
          (fuel : ℕ) (schedule : List ℕ) (xs : List Cell) (s : WorkerState World)
          → Holds xs s.shared
          → length xs < fuel
          → Deals (takers n s.cur_worker_index schedule) xs (added s.world) (deal fuel schedule s)
      unfolding deal
      deal-Deals fuel [] xs s h few =
          rw (takers_nil n s.cur_worker_index, Deals)
            (
              sym (append-nil (added s.world))
                  ∙ ap (λ l. added s.world ++ l) (sym (deal_out-nil xs)),
              h,
            )
      deal-Deals fuel (i ∷ schedule) xs s h few = elim (Bool-cases (i == s.cur_worker_index)) [
        | inl mine ↦
            let same : i ≡ s.cur_worker_index = ==→eq i s.cur_worker_index mine in
            let next = (s.cur_worker_index + 1) % n in
            rw (takers_own n s.cur_worker_index i schedule same) (
              subst
                (λ c.
                  Deals (c ∷ takers n next schedule) xs (added s.world)
                    (deal fuel (i ∷ schedule) s))
                same
                (step-Deals (deal fuel schedule) (takers n next schedule) i next s.num_fds fuel xs
                  s.world _
                  (λ ys s' few' h' turn.
                    subst
                      (λ c. Deals (takers n c schedule) ys (added s'.world) (deal fuel schedule s'))
                      turn (deal-Deals fuel schedule ys s' h' few'))
                  few (take_connection_lem k (worker_data i) (epoll_of i) fuel xs s same h few)))
        | inr other ↦
            let ne : i ≢ s.cur_worker_index = ground arith in
            rw (takers_other n s.cur_worker_index i schedule ne, take_connection-other fuel i s ne)
              (deal-Deals fuel schedule xs s h few)
      ]

      -- The workers of a server deal the connections out in turn. For any order in which the `n`
      -- workers pass the head of their rounds, one at a time, the turn and the queue together, with
      -- more fuel than connections in the queue and epoll sets that refuse none, the connections of
      -- the queue go, from the oldest on, to the workers of the ring from the current index on,
      -- each worker one per round of the ring, as many as there are turns; the rest stays in the
      -- queue, in its order.
      pub deal-ring :
          (fuel : ℕ) (schedule : List ℕ) (xs : List Cell) (s : WorkerState World)
          → Holds xs s.shared
          → length xs < fuel
          → Deals
              (ring n s.cur_worker_index (length (takers n s.cur_worker_index schedule)))
              xs
              (added s.world)
              (deal fuel schedule s)
      deal-ring fuel schedule xs s h few =
          subst (λ l. Deals l xs (added s.world) (deal fuel schedule s))
            (takers-ring n s.cur_worker_index schedule) (deal-Deals fuel schedule xs s h few)
