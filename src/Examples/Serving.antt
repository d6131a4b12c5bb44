-- ===== src/Examples/Serving.antt =====
-- A thread that listens, and two connections that come during a wait.
use comm_system.Prelude.{
  ℕ, Option, List, ◌≡◌, refl, true, false, none, some, [], ◌∷◌, codes, arith, pos,
}
use comm_system.Transfer.{Run, returned}
use comm_system.Queue.{Shared}
use comm_system.Listen.{Binding, AddrInfo, comm_tcp_serv_info}
use comm_system.Worker.{EpollEvent, is_failed}
use comm_system.Serve.{Watching, ServeEnd, goes_on, serve_rounds, comm_serv_thread}
use comm_system.Serve.Waking.{Wakes}
use comm_system.Serve.Draining.{Queues, arrivals, serve_rounds-Queues}
use comm_system.Examples.Server.{shared, cells, shared-Holds}
use comm_system.Examples.Acceptor.{Office, office, backlog, office-IsListening}

abbrev readable : EpollEvent
readable = record { fd = 5; epollerr = false; epollhup = false; epollin = true }

-- Two connections come when fewer than two wait.
abbrev wait_for_two : List ℕ → Office → Option (List EpollEvent) × Office
wait_for_two [] w = (some (readable ∷ []), record w { waiting = 7 ∷ 8 ∷ [] })
wait_for_two (a ∷ []) w = (some (readable ∷ []), record w { waiting = a ∷ 7 ∷ 8 ∷ [] })
wait_for_two (a ∷ b ∷ more) w = (some [], w)

abbrev two_come : Watching Office
two_come = record {
  listen = λ sfd w. (true, w);
  epoll_create1 = λ w. (some 6, w);
  calloc_events = λ w. (true, w);
  epoll_add = λ efd sfd w. (true, w);
  epoll_wait = λ efd events w. wait_for_two w.waiting w;
  close = λ fd w. w;
}

abbrev address : AddrInfo
address = record { ai_family = 2; ai_socktype = 1; ai_protocol = 0; ai_addr = [] }

abbrev one_address : Binding Office
one_address = record {
  getaddrinfo = λ port w. (some (address ∷ []), w);
  socket = λ rp w. (some 5, w);
  set_reuseaddr = λ fd w. w;
  bind = λ fd rp w. (true, w);
  freeaddrinfo = λ w. w;
  close = λ fd w. w;
  socket_unix = λ w. (none, w);
  unlink = λ name w. w;
  bind_unix = λ fd name w. (true, w);
}

abbrev nobody : Office
nobody = record { waiting = []; descriptors = 3; next_block = 50 }

wait_for_two-Wakes :
    (waiting : List ℕ) (w : Office)
    → waiting ≡ w.waiting
    → Wakes office backlog 5 4 w (wait_for_two waiting w)
unfolding is_failed
wait_for_two-Wakes [] w e = rw (← e) (((refl, refl), tt), refl, omega arith)
wait_for_two-Wakes (a ∷ []) w e = rw (← e) (((refl, refl), tt), refl, omega arith)
wait_for_two-Wakes (a ∷ b ∷ more) w e = refl

serve_rounds-Queues_example :
    Queues office one_address two_come backlog office-IsListening 4 5 cells
      (arrivals office one_address two_come backlog office-IsListening 4 5
        (some 6)
        true
        2
        shared
        nobody)
      (serve_rounds office one_address two_come 2 4
        (record { sfd = some 5; efd = some 6; events = true })
        shared
        nobody)
serve_rounds-Queues_example =
    serve_rounds-Queues office one_address two_come backlog office-IsListening 4 5 (some 6) true 2
      cells shared nobody (λ w rests. wait_for_two-Wakes w.waiting w refl) shared-Holds refl

-- Three blocks were used up, and a connection waits.
abbrev office_of : Run ServeEnd (Shared × Office) → Office
office_of (returned goes_on (s, w)) = w
office_of r = record { waiting = []; descriptors = 0; next_block = 0 }

whole_thread :
    office_of (
      comm_serv_thread office one_address two_come 2 4
        (comm_tcp_serv_info (codes "80") (pos 0))
        shared
        nobody)
    ≡ record { waiting = 8 ∷ []; descriptors = 0; next_block = 80 }
unfolding comm_serv_thread
whole_thread = refl
