-- ===== src/TcpClient.antt =====
-- comm_tcp_client.c: the client of a TCP server.
use comm_system.Prelude.{ℕ, ◌%◌, ◌^◌, Option, none, some, List, ℤ, pos, negsuc}
use comm_system.System.{inet, af_inet}
use comm_system.Kernel.{Kernel}
use comm_system.Transfer.{Run, comm_status_generic}
use comm_system.Message.{
  comm_tcp, tcp_client_send, tcp_client_send_header, tcp_client_send_data, tcp_client_wait,
  tcp_client_finish, CommClient, CommMsg,
}
use comm_system.Framing.{send_header, send_data, send_message, receive}

module _ (k : Kernel) where
  open k use {World, write, read, malloc, close, socket, connect}

  -- Behind `connect`, on the socket `s`.
  unfoldable pub connected : CommClient → (s : ℕ) → ℤ × World → ℤ × CommClient × World
  connected comm_client s (negsuc n, w) = (comm_status_generic, comm_client, close s w)
  connected comm_client s (pos n, w) = (
    pos 0,
    record {
      socket_fd = s;
      ipc_type = comm_tcp;
      comm_client_send = tcp_client_send;
      comm_client_send_header = tcp_client_send_header;
      comm_client_send_data = tcp_client_send_data;
      comm_client_wait = tcp_client_wait;
      comm_client_finish = tcp_client_finish;
    },
    w,
  )

  -- Behind `socket`.
  unfoldable pub opened :
      CommClient
      → (server_ip : List ℕ) (server_port : ℕ) → Option ℕ × World
      → ℤ × CommClient × World
  unfolding connected
  opened comm_client server_ip server_port (none, w) = (comm_status_generic, comm_client, w)
  opened comm_client server_ip server_port (some s, w) =
      connected comm_client s (connect s (inet server_ip (server_port % 2 ^ 16)) w)

  unfoldable pub comm_tcp_client_init :
      CommClient → (server_ip : List ℕ) (server_port : ℕ) → World → ℤ × CommClient × World
  unfolding opened
  comm_tcp_client_init comm_client server_ip server_port w =
      opened comm_client server_ip server_port (socket af_inet w)

  unfoldable pub comm_tcp_client_finish : CommClient → World → World
  comm_tcp_client_finish comm w = close comm.socket_fd w

  unfoldable pub comm_tcp_client_send : ℕ → CommClient → CommMsg → World → Run ℤ World
  comm_tcp_client_send fuel comm_client msg w =
      send_message fuel (write comm_client.socket_fd) msg w

  unfoldable pub comm_tcp_client_send_header : ℕ → CommClient → CommMsg → World → Run ℤ World
  comm_tcp_client_send_header fuel comm_client msg w =
      send_header fuel (write comm_client.socket_fd) msg w

  unfoldable pub comm_tcp_client_send_data : ℕ → CommClient → CommMsg → World → Run ℤ World
  comm_tcp_client_send_data fuel comm_client msg w =
      send_data fuel (write comm_client.socket_fd) msg 0 w

  unfoldable pub comm_tcp_client_wait : ℕ → CommClient → CommMsg → World → Run (ℤ × CommMsg) World
  comm_tcp_client_wait fuel comm_client msg w =
      receive fuel (read comm_client.socket_fd) malloc comm_client.socket_fd msg w
