-- ===== src/Response.antt =====
-- The response functions of comm_server.c, which the callback of a server calls through the
-- `comm_server` of the message that it was given.
use comm_system.Prelude.{ℕ, ℤ}
use comm_system.Kernel.{Kernel}
use comm_system.Transfer.{Run}
use comm_system.Message.{CommServer, CommMsg}
use comm_system.Framing.{send_header, send_data, send_message}

module _ (k : Kernel) where
  open k use {World, write}

  unfoldable pub comm_unix_servresp_send : ℕ → CommServer → CommMsg → World → Run ℤ World
  comm_unix_servresp_send fuel comm_server msg w =
      send_message fuel (write comm_server.socket_fd) msg w

  unfoldable pub comm_unix_servresp_send_header : ℕ → CommServer → CommMsg → World → Run ℤ World
  comm_unix_servresp_send_header fuel comm_server msg w =
      send_header fuel (write comm_server.socket_fd) msg w

  unfoldable pub comm_unix_servresp_send_data : ℕ → CommServer → CommMsg → World → Run ℤ World
  comm_unix_servresp_send_data fuel comm_server msg w =
      send_data fuel (write comm_server.socket_fd) msg 0 w

  unfoldable pub comm_tcp_servresp_send : ℕ → CommServer → CommMsg → World → Run ℤ World
  comm_tcp_servresp_send fuel comm_server msg w =
      send_message fuel (write comm_server.socket_fd) msg w

  unfoldable pub comm_tcp_servresp_send_header : ℕ → CommServer → CommMsg → World → Run ℤ World
  comm_tcp_servresp_send_header fuel comm_server msg w =
      send_header fuel (write comm_server.socket_fd) msg w

  unfoldable pub comm_tcp_servresp_send_data : ℕ → CommServer → CommMsg → World → Run ℤ World
  comm_tcp_servresp_send_data fuel comm_server msg w =
      send_data fuel (write comm_server.socket_fd) msg 0 w
