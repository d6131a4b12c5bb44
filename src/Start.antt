-- ===== src/Start.antt =====
-- comm_server_init of comm_server.c: the start of a server's threads.
pub mod Threads
use comm_system.Prelude.{ℕ, zero, suc, ◌+◌, Bool, true, false, Option, none, some, ℤ, pos, negsuc}
use comm_system.Transfer.{Run, returned, fault}
use comm_system.Message.{CommType, CommMsg}
use comm_system.Queue.{Ptr}
use comm_system.Turn.{CommWorkerInfo}
use comm_system.Worker.{CommErrMsg, WorkerData}
use comm_system.Listen.{ServAddress, comm_unix_serv_info, comm_tcp_serv_info}

-- comm_serv_info_t. The selected member of the union says the `ipc_type`. `V` is what the callbacks
-- work on.
pub record CommServInfo (V : Type 0) : Type 0 where
  pub address : ServAddress
  pub num_workers : ℤ
  pub client_func : Option (CommMsg → V → Run (Unit {0}) V)
  pub error_func : Option (CommErrMsg → V → Run (Unit {0}) V)

abbrev pub ipc_type_of : ServAddress → CommType
ipc_type_of (comm_unix_serv_info sap_number dom_sock_name) = CommType.comm_unix
ipc_type_of (comm_tcp_serv_info port sap_number) = CommType.comm_tcp

-- What a thread is started with: its function and the structure that it is given.
pub data Thread (V : Type 0) : Type 0 where
  comm_worker_run : (worker_info : WorkerData V) (comm_queue : Ptr) → Thread V
  comm_serv_thread : (server_info : CommServInfo V) (comm_queue : Ptr) → Thread V

-- The calls of the C library: the three on the attributes, the blocks, and pthread_create, which
-- returns 0 or an error number.
pub record Threading (V W : Type 0) : Type 0 where
  pub pthread_attr_init : W → Bool × W
  pub pthread_attr_setscope : W → Bool × W
  pub pthread_attr_setdetachstate : W → Bool × W
  pub malloc_server_info : W → Bool × W
  pub malloc_queue : W → Option Ptr × W
  pub malloc_worker_info : W → Bool × W
  pub pthread_create : Thread V → W → ℤ × W

module _ {V W : Type 0} (threading : Threading V W) (comm : CommServInfo V) where
  open threading use {
    pthread_attr_init, pthread_attr_setscope, pthread_attr_setdetachstate, malloc_server_info,
    malloc_queue, malloc_worker_info, pthread_create,
  }

  -- The structure for the worker `i` of `n`.
  unfoldable pub worker_info_of : (n i : ℕ) → WorkerData V
  worker_info_of n i = record {
    place = record { worker_index = i; num_workers = n };
    ipc_type = ipc_type_of comm.address;
    client_func = comm.client_func;
    error_func = comm.error_func;
  }

  -- `if(rc) { … goto end; }`, with the code behind it.
  unfoldable pub unless_failed : (W → Run ℤ W) → ℤ × W → Run ℤ W
  unless_failed next (pos zero, w) = next w
  unless_failed next (pos (suc rc), w) = returned (pos (suc rc)) w
  unless_failed next (negsuc rc, w) = returned (negsuc rc) w

  -- One round of the loop over the workers. A NULL block is written through by `memset`.
  unfoldable pub start_worker : (W → Run ℤ W) → Ptr → (n i : ℕ) → Bool × W → Run ℤ W
  unfolding worker_info_of unless_failed
  start_worker next queue n i (true, w) =
      unless_failed next (pthread_create (comm_worker_run (worker_info_of n i) queue) w)
  start_worker next queue n i (false, w) = fault

  -- `for(i = 0; i < comm->num_workers; i++) { … }`, with `left` rounds from `i` on.
  unfoldable pub start_workers : (W → Run ℤ W) → Ptr → (n left i : ℕ) → W → Run ℤ W
  unfolding start_worker
  start_workers next queue n zero i w = next w
  start_workers next queue n (suc left) i w =
      start_worker (start_workers next queue n left (i + 1)) queue n i (malloc_worker_info w)

  -- The last pthread_create.
  unfoldable pub start_server : Ptr → W → Run ℤ W
  start_server queue w = let r = pthread_create (comm_serv_thread comm queue) w in returned r.0 r.1

  unfoldable pub start_threads : ℤ → Ptr → W → Run ℤ W
  unfolding start_workers start_server
  start_threads (pos n) queue w = start_workers (start_server queue) queue n n 0 w
  start_threads (negsuc n) queue w = start_server queue w

  -- comm_init_queueroot writes to the block that it allocates without a test.
  unfoldable pub with_queue : Option Ptr × W → Run ℤ W
  unfolding start_threads
  with_queue (none, w) = fault
  with_queue (some queue, w) = start_threads comm.num_workers queue w

  -- `if(… != 0) { rc = -1; goto end; }`, or the same for NULL.
  unfoldable pub or_minus_one : (W → Run ℤ W) → Bool × W → Run ℤ W
  or_minus_one next (true, w) = next w
  or_minus_one next (false, w) = returned (negsuc 0) w

  unfoldable pub comm_server_init : W → Run ℤ W
  unfolding or_minus_one with_queue
  comm_server_init w =
      or_minus_one
        (λ w₁.
          or_minus_one
            (λ w₂.
              or_minus_one
                (λ w₃. or_minus_one (λ w₄. with_queue (malloc_queue w₄)) (malloc_server_info w₃))
                (pthread_attr_setdetachstate w₂))
            (pthread_attr_setscope w₁))
        (pthread_attr_init w)
