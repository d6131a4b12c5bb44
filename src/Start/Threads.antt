-- ===== src/Start/Threads.antt =====
-- Which threads a server has after its start.
use comm_system.Prelude.{
  ℕ, zero, suc, ◌+◌, ◌≤◌, ◌≡◌, refl, sym, ap, ◌∙◌, Bool, true, false, some, List, [], ◌∷◌, ◌++◌,
  append_assoc, append-nil, arith, ℤ, pos, negsuc, pos_part,
}
use comm_system.Transfer.{Run, returned, fault, running}
use comm_system.Queue.{Ptr}
use comm_system.Message.{CommType, comm_unix, comm_tcp}
use comm_system.Listen.{ServAddress, comm_unix_serv_info, comm_tcp_serv_info}
use comm_system.Worker.{WorkerData}
use comm_system.Start.{
  CommServInfo, ipc_type_of, Thread, comm_worker_run, comm_serv_thread, Threading, worker_info_of,
  unless_failed, start_worker, start_workers, start_server, start_threads, with_queue, or_minus_one,
  comm_server_init,
}

module _ {V W : Type 0} (threading : Threading V W) (comm : CommServInfo V)
    (started : W → List (Thread V)) where
  open threading use {
    pthread_attr_init, pthread_attr_setscope, pthread_attr_setdetachstate, malloc_server_info,
    malloc_queue, malloc_worker_info, pthread_create,
  }

  -- An answer of pthread_create: the thread was started if the number is 0.
  abbrev pub Creates : Thread V → W → ℤ × W → Type 0
  Creates thread w (pos zero, w') = started w' ≡ started w ++ thread ∷ []
  Creates thread w (_, w') = started w' ≡ started w

  -- The small blocks are there, and no other call starts a thread.
  pub record IsThreading : Type 0 where
    pub creates : (thread : Thread V) (w : W) → Creates thread w (pthread_create thread w)
    pub init_quiet : (w : W) → started (pthread_attr_init w).1 ≡ started w
    pub scope_quiet : (w : W) → started (pthread_attr_setscope w).1 ≡ started w
    pub detach_quiet : (w : W) → started (pthread_attr_setdetachstate w).1 ≡ started w
    pub server_info_quiet : (w : W) → started (malloc_server_info w).1 ≡ started w
    pub queue_there :
        (w : W)
        → (queue : Ptr) × (w' : W) × (malloc_queue w ≡ (some queue, w')) × (started w' ≡ started w)
    pub worker_info_there :
        (w : W) → (w' : W) × (malloc_worker_info w ≡ (true, w')) × (started w' ≡ started w)

  -- The transport of the address.
  abbrev pub transport : ServAddress → CommType
  transport (comm_unix_serv_info sap_number dom_sock_name) = comm_unix
  transport (comm_tcp_serv_info port sap_number) = comm_tcp

  -- The worker with the index `i` of `n`, with the callbacks and the transport of the server.
  abbrev pub worker_at : (n i : ℕ) → WorkerData V
  worker_at n i = record {
    place = record { worker_index = i; num_workers = n };
    ipc_type = transport comm.address;
    client_func = comm.client_func;
    error_func = comm.error_func;
  }

  ipc_type_of-transport : (address : ServAddress) → ipc_type_of address ≡ transport address
  ipc_type_of-transport (comm_unix_serv_info sap_number dom_sock_name) = refl
  ipc_type_of-transport (comm_tcp_serv_info port sap_number) = refl

  worker_info_of-at : (n i : ℕ) → worker_info_of threading comm n i ≡ worker_at n i
  unfolding worker_info_of
  worker_info_of-at n i =
      ap (λ kind. record (worker_at n i) { ipc_type = kind }) (ipc_type_of-transport comm.address)

  -- The threads of `k` workers from the index `i` on, of the `n` that the server has.
  abbrev pub worker_threads : Ptr → (n k i : ℕ) → List (Thread V)
  worker_threads queue n zero i = []
  worker_threads queue n (suc k) i =
      comm_worker_run (worker_at n i) queue ∷ worker_threads queue n k (i + 1)

  -- 0 and all workers and the acceptor were started, or an error and only the first few workers.
  abbrev pub Starts : Ptr → (n left i : ℕ) → (before : List (Thread V)) → Run ℤ W → Type 0
  Starts queue n left i before (returned (pos zero) w) =
      started w ≡ before ++ (worker_threads queue n left i ++ comm_serv_thread comm queue ∷ [])
  Starts queue n left i before (returned (pos (suc rc)) w) =
      (k : ℕ) × (k ≤ left) × (started w ≡ before ++ worker_threads queue n k i)
  Starts queue n left i before (returned (negsuc rc) w) =
      (k : ℕ) × (k ≤ left) × (started w ≡ before ++ worker_threads queue n k i)
  Starts queue n left i before fault = ⊥
  Starts queue n left i before running = ⊥

  -- A worker more in front.
  Starts-suc :
      (queue : Ptr) (n left i : ℕ) (before : List (Thread V)) (r : Run ℤ W)
      → Starts queue n left (i + 1) (before ++ comm_worker_run (worker_at n i) queue ∷ []) r
      → Starts queue n (suc left) i before r
  Starts-suc queue n left i before (returned (pos zero) w) h = h ∙ append_assoc before _ _
  Starts-suc queue n left i before (returned (pos (suc rc)) w) (k, le, h) =
      (suc k, omega arith, h ∙ append_assoc before _ _)
  Starts-suc queue n left i before (returned (negsuc rc) w) (k, le, h) =
      (suc k, omega arith, h ∙ append_assoc before _ _)
  Starts-suc queue n left i before fault h = h
  Starts-suc queue n left i before running h = h

  module _ (law : IsThreading) (queue : Ptr) (n : ℕ) where
    start_server-Starts :
        (i : ℕ) (before : List (Thread V)) (w : W) (r : ℤ × W)
        → started w ≡ before
        → Creates (comm_serv_thread comm queue) w r
        → Starts queue n zero i before (returned r.0 r.1)
    start_server-Starts i before w (pos zero, w') e c =
        c ∙ ap (λ l. l ++ comm_serv_thread comm queue ∷ []) e
    start_server-Starts i before w (pos (suc rc), w') e c =
        (zero, omega arith, c ∙ e ∙ sym (append-nil before))
    start_server-Starts i before w (negsuc rc, w') e c =
        (zero, omega arith, c ∙ e ∙ sym (append-nil before))

    abbrev thread_of : ℕ → Thread V
    thread_of i = comm_worker_run (worker_at n i) queue

    -- Behind the pthread_create of a worker.
    unless_failed-Starts :
        (next : W → Run ℤ W) (left i : ℕ) (before : List (Thread V))
        → ((w : W)
            → started w ≡ before ++ thread_of i ∷ []
            → Starts queue n left (i + 1) (before ++ thread_of i ∷ []) (next w))
        → (w : W) (r : ℤ × W) → started w ≡ before
        → Creates (thread_of i) w r
        → Starts queue n (suc left) i before (unless_failed threading comm next r)
    unfolding unless_failed
    unless_failed-Starts next left i before go w (pos zero, w') e c =
        Starts-suc queue n left i before (next w') (go w' (c ∙ ap (λ l. l ++ thread_of i ∷ []) e))
    unless_failed-Starts next left i before go w (pos (suc rc), w') e c =
        (zero, omega arith, c ∙ e ∙ sym (append-nil before))
    unless_failed-Starts next left i before go w (negsuc rc, w') e c =
        (zero, omega arith, c ∙ e ∙ sym (append-nil before))

    start_workers-Starts :
        (left i : ℕ) (before : List (Thread V)) (w : W)
        → started w ≡ before
        → Starts queue n left i before
            (start_workers threading comm (start_server threading comm queue) queue n left i w)
    unfolding start_workers start_worker start_server
    start_workers-Starts zero i before w e =
        start_server-Starts i before w (pthread_create (comm_serv_thread comm queue) w) e
          (law.creates (comm_serv_thread comm queue) w)
    start_workers-Starts (suc left) i before w e =
        let (w', there, quiet) = law.worker_info_there w in
        rw (there, worker_info_of-at n i)
          (unless_failed-Starts
            (start_workers threading comm (start_server threading comm queue) queue n left (i + 1))
            left i before (start_workers-Starts left (i + 1) (before ++ thread_of i ∷ [])) w'
            (pthread_create (thread_of i) w') (quiet ∙ e) (law.creates (thread_of i) w'))

  -- One queue serves all threads that were started.
  abbrev pub Initialises : (before : List (Thread V)) → Run ℤ W → Type 0
  Initialises before r =
      (queue : Ptr) × Starts queue (pos_part comm.num_workers) (pos_part comm.num_workers) zero
        before r

  module _ (law : IsThreading) (before : List (Thread V)) where
    start_threads-Starts :
        (count : ℤ) (queue : Ptr) (w : W)
        → started w ≡ before
        → Starts queue
            (pos_part count)
            (pos_part count)
            zero
            before
            (start_threads threading comm count queue w)
    unfolding start_threads start_server
    start_threads-Starts (pos n) queue w e = start_workers-Starts law queue n n zero before w e
    start_threads-Starts (negsuc n) queue w e =
        start_server-Starts law queue zero zero before w
          (pthread_create (comm_serv_thread comm queue) w) e
          (law.creates (comm_serv_thread comm queue) w)

    or_minus_one-Initialises :
        (next : W → Run ℤ W)
        → ((w : W) → started w ≡ before → Initialises before (next w))
        → (r : Bool × W) → started r.1 ≡ before
        → Initialises before (or_minus_one threading comm next r)
    unfolding or_minus_one
    or_minus_one-Initialises next go (true, w) e = go w e
    or_minus_one-Initialises next go (false, w) e =
        (zero, (zero, omega arith, e ∙ sym (append-nil before)))

    with_queue-Initialises :
        (w : W)
        → started w ≡ before
        → Initialises before (with_queue threading comm (malloc_queue w))
    unfolding with_queue
    with_queue-Initialises w e =
        let (queue, w', there, quiet) = law.queue_there w in
        rw there (queue, start_threads-Starts comm.num_workers queue w' (quiet ∙ e))

  -- If the blocks of the queue and of the workers are there and only pthread_create starts threads,
  -- each when it returns 0, then comm_server_init with the result 0 has started exactly the workers
  -- with the indices from 0 below num_workers, in order, each with its index, the number of
  -- workers, the transport of the address and the two callbacks of the server, and behind them the
  -- acceptor, all with one queue; with any other result it has started the first few workers only,
  -- perhaps none, and no acceptor. It never goes wrong.
  pub comm_server_init-Initialises :
      (w : W) → IsThreading → Initialises (started w) (comm_server_init threading comm w)
  unfolding comm_server_init
  comm_server_init-Initialises w law =
      or_minus_one-Initialises law (started w) _
        (λ w₁ e₁.
          or_minus_one-Initialises law (started w) _
            (λ w₂ e₂.
              or_minus_one-Initialises law (started w) _
                (λ w₃ e₃.
                  or_minus_one-Initialises law (started w) _
                    (λ w₄ e₄. with_queue-Initialises law (started w) w₄ e₄) (malloc_server_info w₃)
                    (law.server_info_quiet w₃ ∙ e₃))
                (pthread_attr_setdetachstate w₂) (law.detach_quiet w₂ ∙ e₂))
            (pthread_attr_setscope w₁) (law.scope_quiet w₁ ∙ e₁))
        (pthread_attr_init w) (law.init_quiet w)
