-- ===== src/Examples/Events.antt =====
-- A worker on the replayed connection, whose callback answers each message with itself.
use comm_system.Prelude.{
  ◌≡◌, ◌⊎◌, refl, inl, none, some, true, false, List, [], ◌∷◌, pos, ltb, arith,
}
use comm_system.Transfer.{Run, returned, and_then, write_all, read_loop}
use comm_system.Message.{comm_unix, CommMsg, encode, decode}
use comm_system.Framing.{send_message, receive}
use comm_system.Framing.Sending.{Sends}
use comm_system.Client.{comm_client_send, comm_servresp_send}
use comm_system.TcpClient.{comm_tcp_client_send}
use comm_system.Response.{comm_unix_servresp_send}
use comm_system.Turn.{worker}
use comm_system.Worker.{
  EpollEvent, zero_msg, WorkerData, server_of, poll_again, next_event, is_failed, Epoll,
  WorkerState, read_message, handle_event, handle_events, take_connection,
}
use comm_system.Worker.Reading.{dispatch, read_message-receive}
use comm_system.Worker.Events.{
  CallsBack, GivesUp, Serves, comm_servresp_send-server_of, handle_event_lem, handle_events-closed,
  handle_event-frame,
}
use comm_system.Worker.Requests.{handle_event-comm_client_send}
use comm_system.Worker.Taking.{Takes, take_connection_lem}
use comm_system.Replay.{interrupt, Wire, zeros, replay}
use comm_system.Replay.Lawful.{
  sent, coming, turns_left, replay-IsOutStream, replay-IsInStream, replay-IsHealthy,
}
use comm_system.Examples.Calls.{tcp_client, hello, slow, slow_sent, full, exact, hello-IsWhole}
use comm_system.Examples.Server.{shared, cells, shared-Holds}

abbrev echo : CommMsg → Wire → Run (Unit {0}) Wire
echo msg w = and_then (comm_servresp_send replay 60 msg.comm_server msg w) λ z w'. returned tt w'

abbrev echo_server : WorkerData Wire
echo_server = record {
  place = worker 3 1;
  ipc_type = comm_unix;
  client_func = some echo;
  error_func = none;
}

abbrev readable : EpollEvent
readable = record { fd = 4; epollerr = false; epollhup = false; epollin = true }

abbrev ended : Wire
ended = record { sent = []; coming = []; script = interrupt ∷ [] }

-- The kernel takes the descriptors below 6 into the set.
abbrev set : Epoll Wire
set = record { epoll_add = λ fd w. (ltb fd 6, w); epoll_wait = λ w. (some (readable ∷ []), w) }

abbrev at_work : WorkerState Wire
at_work = record { shared = shared; cur_worker_index = 1; num_fds = 8; world = full }

-- The frame that came in went out again.
echo_runs :
    handle_event replay echo_server 60 readable exact
    ≡ returned next_event (record { sent = exact.coming; coming = []; script = [] })
unfolding handle_event server_of comm_servresp_send comm_unix_servresp_send send_message write_all
    encode decode read_loop
echo_runs = refl

read_message-receive_example :
    read_message replay echo_server 60 4 (some (zeros 120), full)
    ≡ and_then
        (receive 60 (replay.read 4) replay.malloc 4 zero_msg full)
        (dispatch replay echo_server 4)
read_message-receive_example =
    read_message-receive replay echo_server ((replay-IsHealthy 4).memory) 60 4 (zeros 120) full

comm_servresp_send-server_of_example :
    Sends sent (sent slow) hello (comm_servresp_send replay 40 (server_of comm_unix 1 4) hello slow)
comm_servresp_send-server_of_example =
    comm_servresp_send-server_of replay sent turns_left 40 comm_unix 1 4 hello slow
      (replay-IsOutStream 4) (omega arith) (omega arith)

handle_event_lem_example :
    CallsBack replay echo_server coming 4 full (handle_event replay echo_server 60 readable full)
    ⊎ GivesUp replay echo_server coming full (handle_event replay echo_server 60 readable full)
unfolding is_failed encode decode
handle_event_lem_example =
    handle_event_lem replay echo_server coming ((replay-IsHealthy 4).memory) 60 turns_left readable
      full (replay-IsInStream 4) refl (omega arith)

handle_events-closed_example :
    (w' : Wire) × (w'.coming ≡ [])
    × (handle_event replay echo_server 60 readable ended ≡ returned poll_again w')
    × ((events : List EpollEvent)
        → handle_events replay echo_server 60 (readable ∷ events) ended ≡ returned poll_again w')
unfolding is_failed
handle_events-closed_example =
    handle_events-closed replay echo_server coming ((replay-IsHealthy 4).memory) 60 turns_left
      readable ended (replay-IsInStream 4) refl refl (omega arith)

handle_event-frame_example :
    Serves replay echo_server coming 4 hello
      (7 ∷ [])
      (handle_event replay echo_server 60 readable full)
unfolding is_failed
handle_event-frame_example =
    handle_event-frame replay echo_server coming turns_left 60 readable hello (7 ∷ []) full
      (replay-IsInStream 4) (replay-IsHealthy 4) refl hello-IsWhole refl (omega arith)

slow_request_runs :
    comm_client_send replay 40 tcp_client hello slow ≡ returned (pos 29, hello) slow_sent
unfolding comm_client_send comm_tcp_client_send send_message write_all encode
slow_request_runs = refl

handle_event-comm_client_send_example :
    Serves replay echo_server coming 4 hello [] (handle_event replay echo_server 60 readable exact)
unfolding is_failed
handle_event-comm_client_send_example =
    handle_event-comm_client_send replay replay echo_server sent coming turns_left turns_left 40 60
      29 tcp_client readable hello hello slow slow_sent exact (replay-IsOutStream 4)
      (replay-IsInStream 4) (replay-IsHealthy 4) (inl refl) refl hello-IsWhole (omega arith)
      (omega arith) slow_request_runs refl

take_connection_lem_example :
    Takes replay echo_server set 2 cells 8 full (take_connection replay echo_server set 4 at_work)
take_connection_lem_example =
    take_connection_lem replay echo_server set 4 cells at_work refl shared-Holds (omega arith)
