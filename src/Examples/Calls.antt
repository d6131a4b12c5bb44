-- ===== src/Examples/Calls.antt =====
-- Sends, waits, and the life of a client, over the replayed connection.
use comm_system.Prelude.{◌≡◌, refl, inl, inr, none, some, [], ◌∷◌, ◌++◌, pos, arith}
use comm_system.Transfer.{returned, fault, write_all}
use comm_system.Response.{comm_tcp_servresp_send}
use comm_system.UnixClient.{comm_unix_client_init}
use comm_system.Message.{
  comm_tcp, comm_unix, CommMsgHeader, encode, decode, CommClient, CommServer, CommMsg,
  tcp_client_send, tcp_client_wait, unix_client_send, unix_client_wait, tcp_servresp_send,
  null_handler, unix_client_finish,
}
use comm_system.Framing.{send_message}
use comm_system.Framing.Sending.{frame, Sends}
use comm_system.Framing.Receiving.{Receives}
use comm_system.Framing.Delivery.{IsWhole, Delivered}
use comm_system.Client.{
  CommClientInfo, comm_unix_client_info, comm_client_init, comm_client_finish, comm_client_send,
  comm_client_send_header, comm_client_wait, comm_servresp_send,
}
use comm_system.Client.Calls.{
  SendsKept, comm_client_send_lem, comm_servresp_send_lem, comm_client_wait_lem,
  comm_client_wait-frame, comm_client_wait-comm_servresp_send,
}
use comm_system.Client.Lifecycle.{
  Initialises, comm_client_init-Initialises, comm_client_send_header-unix, comm_client_finish-init,
}
use comm_system.Replay.{chunk, interrupt, not_yet, Wire, raw_client, replay}
use comm_system.Replay.Lawful.{
  sent, coming, turns_left, replay-IsOutStream, replay-IsInStream, replay-IsHealthy,
}

abbrev pub header : CommMsgHeader
header = record { msg_type = 9; padding = 0; msg_len = 5; msg_write_len = 0 }

abbrev pub tcp_client : CommClient
tcp_client = record raw_client {
  socket_fd = 4;
  comm_client_send = tcp_client_send;
  comm_client_wait = tcp_client_wait;
}

abbrev pub unix_client : CommClient
unix_client = record raw_client {
  socket_fd = 4;
  ipc_type = comm_unix;
  comm_client_send = unix_client_send;
  comm_client_wait = unix_client_wait;
  comm_client_finish = unix_client_finish;
}

abbrev tcp_server : CommServer
tcp_server = record {
  socket_fd = 6;
  worker_index = 1;
  ipc_type = comm_tcp;
  comm_servresp_send = tcp_servresp_send;
  comm_servresp_send_header = null_handler;
  comm_servresp_send_data = null_handler;
}

-- Five bytes of data.
abbrev pub hello : CommMsg
hello = record {
  msg_header = header;
  comm_server = tcp_server;
  comm_client = tcp_client;
  payload = some (104 ∷ 101 ∷ 108 ∷ 108 ∷ 111 ∷ []);
}

abbrev pub blank : CommMsg
blank = record hello {
  msg_header = record { msg_type = 0; padding = 0; msg_len = 0; msg_write_len = 0 };
  payload = none;
}

-- The header goes out in two pieces around an interrupt.
abbrev pub slow : Wire
slow = record {
  sent = 1 ∷ [];
  coming = [];
  script = chunk 9 ∷ interrupt ∷ not_yet ∷ chunk 20 ∷ chunk 2 ∷ [];
}

abbrev pub full : Wire
full = record {
  sent = [];
  coming = frame hello ++ 7 ∷ [];
  script = chunk 2 ∷ interrupt ∷ chunk 30 ∷ [];
}

abbrev pub exact : Wire
exact = record full { coming = frame hello }

pub hello-IsWhole : IsWhole hello
hello-IsWhole = record { header = omega arith; sendable = omega arith; agreed = refl }

comm_client_send_lem_example :
    SendsKept sent (sent slow) hello (comm_client_send replay 40 unix_client hello slow)
comm_client_send_lem_example =
    comm_client_send_lem replay sent turns_left 40 unix_client hello slow (replay-IsOutStream 4)
      (inr refl) (omega arith) (omega arith)

comm_servresp_send_lem_example :
    Sends sent (sent slow) hello (comm_servresp_send replay 40 tcp_server hello slow)
comm_servresp_send_lem_example =
    comm_servresp_send_lem replay sent turns_left 40 tcp_server hello slow (replay-IsOutStream 6)
      (inl refl) (omega arith) (omega arith)

-- The run that the two examples speak of: 29 bytes, behind the byte that was there.
abbrev pub slow_sent : Wire
slow_sent = record { sent = 1 ∷ frame hello; coming = []; script = [] }

slow_send_runs : comm_servresp_send replay 40 tcp_server hello slow ≡ returned (pos 29) slow_sent
unfolding comm_servresp_send comm_tcp_servresp_send send_message write_all encode
slow_send_runs = refl

comm_client_wait_lem_example :
    Receives coming (coming full) blank (comm_client_wait replay 40 tcp_client blank full)
unfolding encode decode
comm_client_wait_lem_example =
    comm_client_wait_lem replay coming turns_left 40 tcp_client blank full (replay-IsInStream 4)
      (inl refl) (omega arith)

comm_client_wait-frame_example :
    Delivered coming hello blank (7 ∷ []) (comm_client_wait replay 40 unix_client blank full)
comm_client_wait-frame_example =
    comm_client_wait-frame replay coming turns_left 40 unix_client hello blank (7 ∷ []) full
      (replay-IsInStream 4) (replay-IsHealthy 4) (inr refl) hello-IsWhole refl (omega arith)

comm_client_wait-comm_servresp_send_example :
    Delivered coming hello blank [] (comm_client_wait replay 40 tcp_client blank exact)
comm_client_wait-comm_servresp_send_example =
    comm_client_wait-comm_servresp_send replay replay sent coming turns_left turns_left 40 40 29
      tcp_server tcp_client hello blank slow slow_sent exact (replay-IsOutStream 6)
      (replay-IsInStream 4) (replay-IsHealthy 4) (inl refl) (inl refl) hello-IsWhole (omega arith)
      (omega arith) slow_send_runs refl

abbrev unix_name : CommClientInfo
unix_name = comm_unix_client_info (47 ∷ 115 ∷ [])

-- A client as comm_client_init leaves it in the block `raw_client`.
abbrev made_client : CommClient
made_client = unix_client

init_runs : comm_client_init replay unix_name slow ≡ returned (some made_client) slow
unfolding comm_client_init comm_unix_client_init
init_runs = refl

comm_client_init-Initialises_example :
    Initialises raw_client unix_name (comm_client_init replay unix_name slow)
comm_client_init-Initialises_example =
    comm_client_init-Initialises replay unix_name raw_client slow slow refl

comm_client_send_header-unix_example :
    comm_client_send_header replay 40 made_client hello slow ≡ fault
comm_client_send_header-unix_example =
    comm_client_send_header-unix replay 40 (47 ∷ 115 ∷ []) 2 raw_client made_client hello slow slow
      slow slow refl refl init_runs

comm_client_finish-init_example :
    comm_client_finish replay (some made_client) slow ≡ returned tt (record slow { script = [] })
comm_client_finish-init_example =
    comm_client_finish-init replay unix_name raw_client made_client slow slow slow slow refl
      init_runs
