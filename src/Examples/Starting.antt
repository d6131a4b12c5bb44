-- ===== src/Examples/Starting.antt =====
-- A server that opens its socket and starts its threads.
use comm_system.Prelude.{
  ℕ, suc, ◌≡◌, refl, Bool, true, false, Option, none, some, List, [], ◌∷◌, ◌++◌, ap, length, ltb,
  codes, arith, ℤ, pos,
}
use comm_system.Transfer.{returned}
use comm_system.Listen.{
  AddrInfo, Binding, comm_unix_serv_info, comm_tcp_serv_info, bound, comm_create_and_bind,
}
use comm_system.Listen.Descriptors.{IsTracked, Keeps, comm_create_and_bind-Keeps}
use comm_system.Start.{CommServInfo, Thread, Threading, comm_server_init}
use comm_system.Start.Threads.{Creates, IsThreading, Initialises, comm_server_init-Initialises}

-- The open descriptors.
record Sockets : Type 0 where
  open_fds : List ℕ

abbrev remove_first : List ℕ → List ℕ
remove_first [] = []
remove_first (fd ∷ fds) = fds

abbrev address : ℕ → AddrInfo
address n = record { ai_family = n; ai_socktype = 1; ai_protocol = 0; ai_addr = n ∷ [] }

abbrev push_fd : Sockets → Option ℕ × Sockets
push_fd w = let fd : ℕ = suc (length w.open_fds) in (some fd, record { open_fds = fd ∷ w.open_fds })

-- Only the addresses of a family above 5 can be bound.
abbrev host : Binding Sockets
host = record {
  getaddrinfo = λ port w. (some (address 4 ∷ address 10 ∷ []), w);
  socket = λ rp w. push_fd w;
  set_reuseaddr = λ fd w. w;
  bind = λ fd rp w. (ltb 5 rp.ai_family, w);
  freeaddrinfo = λ w. w;
  close = λ fd w. record { open_fds = remove_first w.open_fds };
  socket_unix = λ w. push_fd w;
  unlink = λ name w. w;
  bind_unix = λ fd name w. (true, w);
}

abbrev open_fds : Sockets → List ℕ
open_fds w = w.open_fds

host-IsTracked : IsTracked host open_fds
host-IsTracked = record {
  socket_opens = λ rp w. refl;
  socket_unix_opens = λ w. refl;
  closes = λ fd fds w e. ap remove_first e;
  getaddrinfo_quiet = λ port w. refl;
  reuseaddr_quiet = λ fd w. refl;
  bind_quiet = λ fd rp w. refl;
  freeaddrinfo_quiet = λ w. refl;
  unlink_quiet = λ name w. refl;
  bind_unix_quiet = λ fd name w. refl;
}

abbrev two_open : Sockets
two_open = record { open_fds = 1 ∷ 0 ∷ [] }

-- The first address is given up, and its socket closed.
second_address :
    comm_create_and_bind host (comm_tcp_serv_info (codes "80") (pos 0)) two_open
    ≡ returned (bound (some 3)) (record { open_fds = 3 ∷ 1 ∷ 0 ∷ [] })
unfolding comm_create_and_bind
second_address = refl

comm_create_and_bind-Keeps_example :
    Keeps host open_fds
      (1 ∷ 0 ∷ [])
      (comm_create_and_bind host (comm_unix_serv_info (pos 0) (codes "/tmp/s")) two_open)
comm_create_and_bind-Keeps_example =
    comm_create_and_bind-Keeps host open_fds (comm_unix_serv_info (pos 0) (codes "/tmp/s")) two_open
      host-IsTracked (omega arith)

-- The threads so far; pthread_create fails when there are four.
record Host : Type 0 where
  threads : List (Thread (Unit {0}))

abbrev create_if : Bool → Thread (Unit {0}) → Host → ℤ × Host
create_if true thread w = (pos 0, record { threads = w.threads ++ thread ∷ [] })
create_if false thread w = (pos 11, w)

abbrev small_host : Threading (Unit {0}) Host
small_host = record {
  pthread_attr_init = λ w. (true, w);
  pthread_attr_setscope = λ w. (true, w);
  pthread_attr_setdetachstate = λ w. (true, w);
  malloc_server_info = λ w. (true, w);
  malloc_queue = λ w. (some 64, w);
  malloc_worker_info = λ w. (true, w);
  pthread_create = λ thread w. create_if (ltb (length w.threads) 4) thread w;
}

abbrev threads : Host → List (Thread (Unit {0}))
threads w = w.threads

abbrev server_of_two : CommServInfo (Unit {0})
server_of_two = record {
  address = comm_tcp_serv_info (codes "80") (pos 0);
  num_workers = pos 2;
  client_func = none;
  error_func = none;
}

create_if-Creates :
    (b : Bool) (thread : Thread (Unit {0})) (w : Host)
    → Creates small_host server_of_two threads thread w (create_if b thread w)
create_if-Creates true thread w = refl
create_if-Creates false thread w = refl

small_host-IsThreading : IsThreading small_host server_of_two threads
small_host-IsThreading = record {
  creates = λ thread w. create_if-Creates (ltb (length w.threads) 4) thread w;
  init_quiet = λ w. refl;
  scope_quiet = λ w. refl;
  detach_quiet = λ w. refl;
  server_info_quiet = λ w. refl;
  queue_there = λ w. (64, w, refl, refl);
  worker_info_there = λ w. (w, refl, refl);
}

abbrev no_threads : Host
no_threads = record { threads = [] }

comm_server_init-Initialises_example :
    Initialises small_host server_of_two threads []
      (comm_server_init small_host server_of_two no_threads)
comm_server_init-Initialises_example =
    comm_server_init-Initialises small_host server_of_two threads no_threads small_host-IsThreading
