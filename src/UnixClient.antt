-- ===== src/UnixClient.antt =====
-- comm_unix_client.c: the client of a server on a Unix-domain socket.
use comm_system.Prelude.{ℕ, true, false, Option, none, some, List, length, ltb, ℤ, pos, negsuc}
use comm_system.System.{unix_path, af_unix}
use comm_system.Kernel.{Kernel}
use comm_system.Transfer.{Run, returned, fault, comm_status_generic}
use comm_system.Message.{
  comm_unix, unix_client_send, unix_client_wait, unix_client_finish, CommClient, CommMsg,
}
use comm_system.Framing.{send_message, receive}

-- sizeof(remote.sun_path)
abbrev pub sun_path_size : ℕ
sun_path_size = 108

module _ (k : Kernel) where
  open k use {World, send, recv, malloc, close, socket, connect}

  -- Behind `connect`, on the socket `s`. Two function pointers are left as they were.
  unfoldable pub connected : CommClient → (s : ℕ) → ℤ × World → Run (ℤ × CommClient) World
  connected comm_client s (negsuc n, w) = returned (comm_status_generic, comm_client) (close s w)
  connected comm_client s (pos n, w) =
      returned
        (
          pos 0,
          record comm_client {
            socket_fd = s;
            ipc_type = comm_unix;
            comm_client_send = unix_client_send;
            comm_client_wait = unix_client_wait;
            comm_client_finish = unix_client_finish;
          },
        )
        w

  -- Behind `socket`: `strcpy` of the name and its NUL into `sun_path`, then `connect`.
  unfoldable pub opened :
      CommClient → (dom_sock_name : List ℕ) → Option ℕ × World → Run (ℤ × CommClient) World
  unfolding connected
  opened comm_client dom_sock_name (none, w) = returned (comm_status_generic, comm_client) w
  opened comm_client dom_sock_name (some s, w) = elim (ltb (length dom_sock_name) sun_path_size) [
    | true ↦ connected comm_client s (connect s (unix_path dom_sock_name) w)
    | false ↦ fault
  ]

  unfoldable pub comm_unix_client_init :
      CommClient → (dom_sock_name : List ℕ) → World → Run (ℤ × CommClient) World
  unfolding opened
  comm_unix_client_init comm_client dom_sock_name w =
      opened comm_client dom_sock_name (socket af_unix w)

  unfoldable pub comm_unix_client_finish : CommClient → World → World
  comm_unix_client_finish comm w = close comm.socket_fd w

  unfoldable pub comm_unix_client_send : ℕ → CommClient → CommMsg → World → Run ℤ World
  comm_unix_client_send fuel comm_client msg w =
      send_message fuel (send comm_client.socket_fd) msg w

  unfoldable pub comm_unix_client_wait : ℕ → CommClient → CommMsg → World → Run (ℤ × CommMsg) World
  comm_unix_client_wait fuel comm_client msg w =
      receive fuel (recv comm_client.socket_fd) malloc comm_client.socket_fd msg w
