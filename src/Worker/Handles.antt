-- ===== src/Worker/Handles.antt =====
-- The handle of a connection, which the callback answers through.
use comm_system.Prelude.{ℕ, ◌≡◌, refl}
use comm_system.Message.{
  CommType, comm_tcp, comm_unix, CommServer, Handler, tcp_servresp_send, unix_servresp_send,
  tcp_servresp_send_header, unix_servresp_send_header, tcp_servresp_send_data,
  unix_servresp_send_data,
}
use comm_system.Worker.{server_of}

-- The response functions of each transport.
abbrev servresp_send_of : CommType → Handler
servresp_send_of comm_tcp = tcp_servresp_send
servresp_send_of comm_unix = unix_servresp_send

abbrev servresp_send_header_of : CommType → Handler
servresp_send_header_of comm_tcp = tcp_servresp_send_header
servresp_send_header_of comm_unix = unix_servresp_send_header

abbrev servresp_send_data_of : CommType → Handler
servresp_send_data_of comm_tcp = tcp_servresp_send_data
servresp_send_data_of comm_unix = unix_servresp_send_data

-- The handle of a connection: its descriptor, the worker, and the functions of the transport.
abbrev pub handle_of : CommType → (worker_index fd : ℕ) → CommServer
handle_of ipc_type i fd = record {
  socket_fd = fd;
  worker_index = i;
  ipc_type = comm_tcp;
  comm_servresp_send = servresp_send_of ipc_type;
  comm_servresp_send_header = servresp_send_header_of ipc_type;
  comm_servresp_send_data = servresp_send_data_of ipc_type;
}

pub server_of-handle_of :
    (ipc_type : CommType) (i fd : ℕ) → server_of ipc_type i fd ≡ handle_of ipc_type i fd
unfolding server_of
server_of-handle_of comm_tcp i fd = refl
server_of-handle_of comm_unix i fd = refl
