-- ===== src/Examples/Dealing.antt =====
-- Two workers that share the queue.
use comm_system.Prelude.{ℕ, ◌≡◌, refl, true, none, List, [], ◌∷◌, ◌++◌, length, arith, negsuc}
use comm_system.System.{other, write_failed, read_failed}
use comm_system.Kernel.{Kernel}
use comm_system.Message.{comm_tcp}
use comm_system.Transfer.{Run, returned}
use comm_system.Turn.{takers, ring}
use comm_system.Worker.{WorkerData, Epoll, WorkerState, TakeEnd, Outcome}
use comm_system.Worker.Rounds.{Starting, comm_worker_run}
use comm_system.Worker.Dealing.{deal, IsAdding, Deals, deal-ring}
use comm_system.Examples.Server.{shared, cells, shared-Holds}

-- A kernel whose world is the list of the connections in the epoll sets, each with its worker.
abbrev sets_only : Kernel
sets_only = record {
  World = List (ℕ × ℕ);
  write = λ fd bytes w. (write_failed (other 9), w);
  send = λ fd bytes w. (write_failed (other 9), w);
  read = λ fd n w. (read_failed (other 9), w);
  recv = λ fd n w. (read_failed (other 9), w);
  malloc = λ n w. (none, w);
  close = λ fd w. w;
  socket = λ domain w. (none, w);
  connect = λ fd address w. (negsuc 0, w);
  malloc_client = λ w. (none, w);
  free_client = λ client w. w;
}

abbrev set_of : ℕ → Epoll (List (ℕ × ℕ))
set_of i = record { epoll_add = λ fd w. (true, w ++ (i, fd) ∷ []); epoll_wait = λ w. (none, w) }

abbrev silent : WorkerData (List (ℕ × ℕ))
silent = record {
  place = record { worker_index = 0; num_workers = 2 };
  ipc_type = comm_tcp;
  client_func = none;
  error_func = none;
}

abbrev added : List (ℕ × ℕ) → List (ℕ × ℕ)
added w = w

set_of-IsAdding : IsAdding sets_only silent 2 set_of added
set_of-IsAdding = record { adds = λ i fd w. (w ++ (i, fd) ∷ [], refl, refl) }

abbrev at_start : WorkerState (List (ℕ × ℕ))
at_start = record { shared = shared; cur_worker_index = 1; num_fds = 0; world = [] }

deal-ring_example :
    Deals sets_only silent 2 set_of added
      (ring 2 1 (length (takers 2 1 (0 ∷ 1 ∷ 1 ∷ 0 ∷ 1 ∷ []))))
      cells
      []
      (deal sets_only silent 2 set_of 4 (0 ∷ 1 ∷ 1 ∷ 0 ∷ 1 ∷ []) at_start)
deal-ring_example =
    deal-ring sets_only silent 2 set_of added set_of-IsAdding 4 (0 ∷ 1 ∷ 1 ∷ 0 ∷ 1 ∷ []) cells
      at_start shared-Holds (omega arith)

-- The worker 0 has no turn at first, and the worker 1 none right after its first.
abbrev sets_behind : Run TakeEnd (WorkerState (List (ℕ × ℕ))) → List (ℕ × ℕ)
sets_behind (returned end s) = s.world
sets_behind r = []

by_turns :
    sets_behind (deal sets_only silent 2 set_of 4 (0 ∷ 1 ∷ 1 ∷ 0 ∷ 1 ∷ []) at_start)
    ≡ (1, 4) ∷ (0, 5) ∷ (1, 6) ∷ []
unfolding deal
by_turns = refl

-- A worker that is alone takes a connection in each round; its waits fail.
abbrev alone : WorkerData (List (ℕ × ℕ))
alone = record silent { place = record { worker_index = 0; num_workers = 1 } }

abbrev both_there : Starting (List (ℕ × ℕ))
both_there = record { epoll_create1 = λ w. (true, w); calloc_events = λ w. (true, w) }

abbrev world_behind : Run Outcome (WorkerState (List (ℕ × ℕ))) → List (ℕ × ℕ)
world_behind (returned outcome s) = s.world
world_behind r = []

alone_rounds :
    world_behind (
      comm_worker_run sets_only alone
        (set_of 0)
        both_there
        5
        1
        4
        (record at_start { cur_worker_index = 0 }))
    ≡ (0, 4) ∷ (0, 5) ∷ (0, 6) ∷ []
unfolding comm_worker_run
alone_rounds = refl
