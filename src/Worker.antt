-- ===== src/Worker.antt =====
-- The body of a worker thread, comm_worker_run of comm_server.c: it takes a connection off the queue
-- when it has its turn, adds it to its epoll set, waits for events, and handles them. On an event it
-- reads one message and hands it to the callback of the server.
pub mod Reading
pub mod Handles
pub mod Events
pub mod Taking
pub mod Requests
pub mod Failing
pub mod Dealing
pub mod Rounds
use comm_system.Prelude.{
  ℕ, zero, suc, ◌+◌, Bool, true, false, ◌||◌, not, Option, none, some, List, [], ◌∷◌, ◌==◌, ℤ, pos,
  negsuc, to_ssize, if◌then◌else◌,
}
use comm_system.Kernel.{Kernel}
use comm_system.Transfer.{
  Run, returned, fault, running, and_then, start, ReadEnd, complete, peer_closed, broken, read_loop,
}
use comm_system.Message.{
  CommType, comm_tcp, comm_unix, CommMsgHeader, header_size, encode, decode, CommClient, CommServer,
  CommMsg, null_handler, unix_servresp_send, unix_servresp_send_header, unix_servresp_send_data,
  tcp_servresp_send, tcp_servresp_send_header, tcp_servresp_send_data,
}
use comm_system.Queue.{null, Shared, comm_queue_get}
use comm_system.Turn.{CommWorkerInfo, comm_get_worker_index, has_turn}

-- `epollerr`, `epollhup` and `epollin` are the bits of `events` that the worker tests.
pub record EpollEvent : Type 0 where
  pub fd : ℕ
  pub epollerr : Bool
  pub epollhup : Bool
  pub epollin : Bool

-- What the blocks hold after `memset(…, 0, …)`.
abbrev pub zero_header : CommMsgHeader
zero_header = record { msg_type = 0; padding = 0; msg_len = 0; msg_write_len = 0 }

abbrev pub zero_server : CommServer
zero_server = record {
  socket_fd = 0;
  worker_index = 0;
  ipc_type = comm_tcp;
  comm_servresp_send = null_handler;
  comm_servresp_send_header = null_handler;
  comm_servresp_send_data = null_handler;
}

abbrev pub zero_client : CommClient
zero_client = record {
  socket_fd = 0;
  ipc_type = comm_tcp;
  comm_client_send = null_handler;
  comm_client_send_header = null_handler;
  comm_client_send_data = null_handler;
  comm_client_wait = null_handler;
  comm_client_finish = null_handler;
}

abbrev pub zero_msg : CommMsg
zero_msg = record {
  msg_header = zero_header;
  comm_server = zero_server;
  comm_client = zero_client;
  payload = none;
}

-- comm_err_msg_t
pub record CommErrMsg : Type 0 where
  pub comm_server : CommServer
  pub comm_client : CommClient

-- sizeof(comm_msg_t) and sizeof(comm_err_msg_t)
abbrev pub msg_size : ℕ
msg_size = 120

abbrev pub err_msg_size : ℕ
err_msg_size = 88

-- The members of comm_worker_info_t that do not change: `place` has the index and the number of
-- workers. The callbacks are code of the library's user, NULL is `none`.
pub record WorkerData (W : Type 0) : Type 0 where
  pub place : CommWorkerInfo
  pub ipc_type : CommType
  pub client_func : Option (CommMsg → W → Run (Unit {0}) W)
  pub error_func : Option (CommErrMsg → W → Run (Unit {0}) W)

-- The `comm_server` of a message that came over `fd`. Its `ipc_type` is not assigned.
unfoldable pub server_of : CommType → (worker_index fd : ℕ) → CommServer
server_of comm_unix i fd = record zero_server {
  socket_fd = fd;
  worker_index = i;
  comm_servresp_send = unix_servresp_send;
  comm_servresp_send_header = unix_servresp_send_header;
  comm_servresp_send_data = unix_servresp_send_data;
}
server_of comm_tcp i fd = record zero_server {
  socket_fd = fd;
  worker_index = i;
  comm_servresp_send = tcp_servresp_send;
  comm_servresp_send_header = tcp_servresp_send_header;
  comm_servresp_send_data = tcp_servresp_send_data;
}

-- How the handling of an event ends: on to the next one of the batch, `goto poll_again`, or
-- `assert(0)`.
pub data Outcome : Type 0 where
  next_event poll_again aborted : Outcome

-- epoll_ctl(efd, EPOLL_CTL_ADD, fd, …), which may fail, and epoll_wait, with `none` for -1.
pub record Epoll (W : Type 0) : Type 0 where
  pub epoll_add : ℕ → W → Bool × W
  pub epoll_wait : W → Option (List EpollEvent) × W

-- What the rounds of a worker change.
pub record WorkerState (W : Type 0) : Type 0 where
  pub shared : Shared
  pub cur_worker_index : ℕ
  pub num_fds : ℕ
  pub world : W

-- How the taking of a connection ends: with the wait for events, or with `continue`.
pub data TakeEnd : Type 0 where
  polls next_round : TakeEnd

-- The test of the bits of an event.
unfoldable pub is_failed : EpollEvent → Bool
is_failed event = event.epollerr || (event.epollhup || not event.epollin)

-- The message that the error callback gets.
unfoldable pub error_of : (fd : ℕ) → CommErrMsg
error_of fd = record {
  comm_server = record zero_server { socket_fd = fd };
  comm_client = zero_client;
}

module _ (k : Kernel) (data_ : WorkerData (k.World)) where
  open k use {World, read, malloc, close}

  -- `if(worker_data->client_func) { … }`
  unfoldable pub call_back : CommMsg → World → Run Outcome World
  call_back msg w = elim (data_.client_func) [
    | none ↦ returned next_event w
    | some client_func ↦ and_then (client_func msg w) λ done w'. returned next_event w'
  ]

  -- What follows the data loop, which has left `memory` at `comm_msg->data`.
  unfoldable pub behind_data : CommMsg → ReadEnd × List ℕ → World → Run Outcome World
  unfolding call_back
  behind_data msg (complete count, memory) w = call_back (record msg { payload = some memory }) w
  behind_data msg (peer_closed, memory) w = returned poll_again w
  behind_data msg (broken, memory) w = returned poll_again w

  unfoldable pub read_data :
      ℕ → (fd : ℕ) → CommMsg → (tot_len : ℕ) → Option (List ℕ) × World → Run Outcome World
  unfolding behind_data
  read_data fuel fd msg tot_len (none, w) = returned aborted w
  read_data fuel fd msg tot_len (some block, w) =
      and_then (read_loop fuel (read fd) block tot_len (start tot_len 0) w) (behind_data msg)

  -- `if(tot_len > 0) { … }` and the callback.
  unfoldable pub read_body : ℕ → (fd : ℕ) → CommMsg → (tot_len : ℤ) → World → Run Outcome World
  unfolding read_data call_back
  read_body fuel fd msg (pos zero) w = call_back msg w
  read_body fuel fd msg (pos (suc n)) w = read_data fuel fd msg (suc n) (malloc (suc n) w)
  read_body fuel fd msg (negsuc n) w = call_back msg w

  -- What follows the header loop, which has left `memory` at `&comm_msg->msg_header`.
  unfoldable pub behind_header : ℕ → (fd : ℕ) → ReadEnd × List ℕ → World → Run Outcome World
  unfolding read_body decode server_of
  behind_header fuel fd (complete count, memory) w =
      let header = decode memory in
      read_body fuel fd
        (record zero_msg {
          msg_header = header;
          comm_server = server_of data_.ipc_type (data_.place).worker_index fd;
        })
        (to_ssize header.msg_len) w
  behind_header fuel fd (peer_closed, memory) w = returned poll_again w
  behind_header fuel fd (broken, memory) w = returned poll_again w

  -- `else if(events[i].events & EPOLLIN) { … }`, with the block for the message.
  unfoldable pub read_message : ℕ → (fd : ℕ) → Option (List ℕ) × World → Run Outcome World
  unfolding behind_header encode
  read_message fuel fd (none, w) = returned aborted w
  read_message fuel fd (some block, w) =
      and_then (read_loop fuel (read fd) (encode zero_header) header_size (start header_size 0) w)
        (behind_header fuel fd)

  -- `if(worker_data->error_func) { … }`, with the block for the message when it is there.
  unfoldable pub call_error :
      (CommErrMsg → World → Run (Unit {0}) World)
      → (fd : ℕ) → Option (List ℕ) × World
      → Run Outcome World
  unfolding error_of
  call_error error_func fd (none, w) = returned next_event w
  call_error error_func fd (some block, w) =
      and_then (error_func (error_of fd) w) λ done w'. returned next_event w'

  unfoldable pub report_error : (fd : ℕ) → World → Run Outcome World
  unfolding call_error
  report_error fd w = elim (data_.error_func) [
    | none ↦ returned next_event w
    | some error_func ↦ call_error error_func fd (malloc err_msg_size w)
  ]

  -- One round of the loop over the events.
  unfoldable pub handle_event : ℕ → EpollEvent → World → Run Outcome World
  unfolding is_failed report_error read_message
  handle_event fuel event w = elim (is_failed event) [
    | true ↦ report_error event.fd (close event.fd w)
    | false ↦ read_message fuel event.fd (malloc msg_size w)
  ]

  -- `again` handles the rest of the batch.
  unfoldable pub behind_event : (World → Run Outcome World) → Outcome → World → Run Outcome World
  behind_event again next_event w = again w
  behind_event again poll_again w = returned poll_again w
  behind_event again aborted w = returned aborted w

  -- `for(i = 0; i < n; i++) { … }`
  unfoldable pub handle_events : ℕ → List EpollEvent → World → Run Outcome World
  unfolding handle_event behind_event
  handle_events fuel [] w = returned next_event w
  handle_events fuel (event ∷ events) w =
      and_then (handle_event fuel event w) (behind_event (handle_events fuel events))

  module _ (epoll : Epoll World) where
    open epoll use {epoll_add, epoll_wait}

    -- Behind epoll_wait. `again` is the way back to `poll_again`.
    unfoldable pub behind_wait :
        (World → Run Outcome World) → ℕ → Option (List EpollEvent) × World → Run Outcome World
    unfolding handle_events
    behind_wait again fuel (none, w) = returned next_event w
    behind_wait again fuel (some events, w) = and_then (handle_events fuel events w) λ outcome w'.
        elim outcome [
          | next_event ↦ returned next_event w'
          | poll_again ↦ again w'
          | aborted ↦ returned aborted w'
        ]

    -- From `poll_again` on, to the end of the round of `while(1)`, with so many waits at most.
    unfoldable pub poll : (waits fuel : ℕ) → World → Run Outcome World
    unfolding behind_wait
    poll zero fuel w = running
    poll (suc waits) fuel w = behind_wait (poll waits fuel) fuel (epoll_wait w)

    -- Behind epoll_ctl.
    unfoldable pub behind_add : WorkerState World → Bool × World → Run TakeEnd (WorkerState World)
    behind_add s (true, w) = returned polls (record s { num_fds = s.num_fds + 1; world = w })
    behind_add s (false, w) = returned next_round (record s { world = w })

    -- `if(queue_entry) { … }`
    unfoldable pub add_entry : WorkerState World → Run ℕ Shared → Run TakeEnd (WorkerState World)
    unfolding behind_add
    add_entry s fault = fault
    add_entry s running = running
    add_entry s (returned queue_entry shared) = elim (queue_entry == null) [
      | true ↦ returned polls (record s { shared = shared })
      | false ↦ elim (shared.heap queue_entry) [
        | none ↦ fault
        | some entry ↦ behind_add (record s { shared = shared }) (epoll_add entry.socket_fd s.world)
      ]
    ]

    -- The head of the round, before `poll_again`.
    unfoldable pub take_connection : ℕ → WorkerState World → Run TakeEnd (WorkerState World)
    unfolding add_entry comm_get_worker_index comm_queue_get
    take_connection fuel s =
        let s' : WorkerState World = record s {
          cur_worker_index = (comm_get_worker_index data_.place s.cur_worker_index).1;
        } in
        if has_turn data_.place s.cur_worker_index
        then add_entry s' (comm_queue_get fuel s.shared)
        else returned polls s'
