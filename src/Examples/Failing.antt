-- ===== src/Examples/Failing.antt =====
-- Two sockets with an error, with a readable one behind them, and notes of what is done.
use comm_system.Prelude.{◌≡◌, refl, true, false, none, some, List, [], ◌∷◌, ◌++◌, negsuc}
use comm_system.System.{other, write_failed, read_failed}
use comm_system.System.Laws.{HasMemory}
use comm_system.Kernel.{Kernel}
use comm_system.Transfer.{Run, returned, read_loop}
use comm_system.Message.{comm_tcp}
use comm_system.Turn.{worker}
use comm_system.Replay.{zeros}
use comm_system.Worker.{EpollEvent, WorkerData, Outcome, Epoll, is_failed, behind_wait, poll}
use comm_system.Worker.Failing.{Note, closed, told, IsNoting, trace, poll-trace}

-- A kernel whose world is what was noted, and whose reads all fail.
abbrev noting : Kernel
noting = record {
  World = List Note;
  write = λ fd bytes w. (write_failed (other 9), w);
  send = λ fd bytes w. (write_failed (other 9), w);
  read = λ fd n w. (read_failed (other 9), w);
  recv = λ fd n w. (read_failed (other 9), w);
  malloc = λ n w. (some (zeros n), w);
  close = λ fd w. w ++ closed fd ∷ [];
  socket = λ domain w. (none, w);
  connect = λ fd address w. (negsuc 0, w);
  malloc_client = λ w. (none, w);
  free_client = λ client w. w;
}

noting-HasMemory : HasMemory (noting.malloc)
noting-HasMemory = record { never_null = λ n w. tt }

abbrev told_server : WorkerData (List Note)
told_server = record {
  place = worker 3 1;
  ipc_type = comm_tcp;
  client_func = none;
  error_func = some (λ message w. returned tt (w ++ told message.comm_server.socket_fd ∷ []));
}

told_server-IsNoting : IsNoting noting told_server (λ w. w)
told_server-IsNoting = record {
  closes = λ fd w. refl;
  malloc_quiet = λ n w. refl;
  reports = λ message w. (w ++ told message.comm_server.socket_fd ∷ [], refl, refl);
}

abbrev hung_up : List EpollEvent
hung_up =
    record { fd = 4; epollerr = false; epollhup = true; epollin = true }
    ∷ record { fd = 7; epollerr = false; epollhup = false; epollin = false }
    ∷ []

abbrev readable : List EpollEvent
readable = record { fd = 5; epollerr = false; epollhup = false; epollin = true } ∷ []

abbrev hung_up_set : Epoll (List Note)
hung_up_set = record {
  epoll_add = λ fd w. (true, w);
  epoll_wait = λ w. (some (hung_up ++ readable), w);
}

poll-trace_example :
    (w : List Note) × (w ≡ [] ++ trace hung_up)
    × (poll noting told_server hung_up_set 2 60 []
        ≡ behind_wait noting told_server hung_up_set
            (poll noting told_server hung_up_set 1 60)
            60
            (some readable, w))
unfolding is_failed
poll-trace_example =
    poll-trace noting told_server (λ w. w) noting-HasMemory told_server-IsNoting 60 hung_up_set 1
      hung_up readable [] [] refl (refl, (refl, tt))

-- The reads of the socket 5 fail, so that each wait finds the batch anew.
abbrev notes_of : Run Outcome (List Note) → List Note
notes_of (returned outcome w) = w
notes_of r = []

both_told :
    notes_of (
      behind_wait noting told_server hung_up_set
        (λ w. returned Outcome.poll_again w)
        60
        (some (hung_up ++ readable), []))
    ≡ closed 4 ∷ told 4 ∷ closed 7 ∷ told 7 ∷ []
unfolding behind_wait read_loop
both_told = refl
