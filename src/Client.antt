-- ===== src/Client.antt =====
-- comm_client.c: the library's interface, which calls through the function pointers of a client or
-- of a server handle.
pub mod Calls
pub mod Lifecycle
use comm_system.Prelude.{ℕ, Option, none, some, List, ℤ, pos, negsuc}
use comm_system.Kernel.{Kernel}
use comm_system.Transfer.{Run, returned, fault, and_then}
use comm_system.Message.{
  CommMsg, CommClient, CommServer, Handler, tcp_client_send, tcp_client_send_header,
  tcp_client_send_data, tcp_client_wait, tcp_client_finish, unix_client_send, unix_client_wait,
  unix_client_finish, unix_servresp_send, unix_servresp_send_header, unix_servresp_send_data,
  tcp_servresp_send, tcp_servresp_send_header, tcp_servresp_send_data,
}
use comm_system.TcpClient.{
  comm_tcp_client_init, comm_tcp_client_finish, comm_tcp_client_send, comm_tcp_client_send_header,
  comm_tcp_client_send_data, comm_tcp_client_wait,
}
use comm_system.UnixClient.{
  comm_unix_client_init, comm_unix_client_finish, comm_unix_client_send, comm_unix_client_wait,
}
use comm_system.Response.{
  comm_unix_servresp_send, comm_unix_servresp_send_header, comm_unix_servresp_send_data,
  comm_tcp_servresp_send, comm_tcp_servresp_send_header, comm_tcp_servresp_send_data,
}

-- comm_client_info_t, with the member of the union that its `ipc_type` selects.
pub data CommClientInfo : Type 0 where
  comm_unix_client_info : (dom_sock_name : List ℕ) → CommClientInfo
  comm_tcp_client_info : (server_ip : List ℕ) (server_port : ℕ) → CommClientInfo

-- A send leaves the message as it is.
abbrev pub with_msg : {W : Type 0} → CommMsg → Run ℤ W → Run (ℤ × CommMsg) W
with_msg msg r = and_then r λ z w. returned (z, msg) w

module _ (k : Kernel) where
  open k use {World, malloc_client, free_client}

  -- A call of a function pointer with a client and a message. A pointer that holds no function of
  -- the two client files, or one of another type, is undefined behaviour.
  unfoldable pub call_client : ℕ → Handler → CommClient → CommMsg → World → Run (ℤ × CommMsg) World
  call_client fuel tcp_client_send c msg w = with_msg msg (comm_tcp_client_send k fuel c msg w)
  call_client fuel tcp_client_send_header c msg w =
      with_msg msg (comm_tcp_client_send_header k fuel c msg w)
  call_client fuel tcp_client_send_data c msg w =
      with_msg msg (comm_tcp_client_send_data k fuel c msg w)
  call_client fuel tcp_client_wait c msg w = comm_tcp_client_wait k fuel c msg w
  call_client fuel unix_client_send c msg w = with_msg msg (comm_unix_client_send k fuel c msg w)
  call_client fuel unix_client_wait c msg w = comm_unix_client_wait k fuel c msg w
  call_client fuel _ c msg w = fault

  -- The same for a server handle.
  unfoldable pub call_server : ℕ → Handler → CommServer → CommMsg → World → Run ℤ World
  call_server fuel unix_servresp_send s msg w = comm_unix_servresp_send k fuel s msg w
  call_server fuel unix_servresp_send_header s msg w = comm_unix_servresp_send_header k fuel s msg w
  call_server fuel unix_servresp_send_data s msg w = comm_unix_servresp_send_data k fuel s msg w
  call_server fuel tcp_servresp_send s msg w = comm_tcp_servresp_send k fuel s msg w
  call_server fuel tcp_servresp_send_header s msg w = comm_tcp_servresp_send_header k fuel s msg w
  call_server fuel tcp_servresp_send_data s msg w = comm_tcp_servresp_send_data k fuel s msg w
  call_server fuel _ s msg w = fault

  unfoldable pub call_finish : Handler → CommClient → World → Run (Unit {0}) World
  call_finish tcp_client_finish c w = returned tt (comm_tcp_client_finish k c w)
  call_finish unix_client_finish c w = returned tt (comm_unix_client_finish k c w)
  call_finish _ c w = fault

  -- `if(rc) { free(comm_client); comm_client = NULL; }`
  unfoldable pub checked : ℤ → CommClient → World → Run (Option CommClient) World
  checked (pos ℕ.zero) c w = returned (some c) w
  checked _ c w = returned none (free_client c w)

  -- Behind `malloc`.
  unfoldable pub init_block :
      CommClientInfo → Option CommClient × World → Run (Option CommClient) World
  unfolding checked
  init_block info (none, w) = returned none w
  init_block (comm_unix_client_info dom_sock_name) (some c, w) =
      and_then (comm_unix_client_init k c dom_sock_name w) λ (rc, c') w'. checked rc c' w'
  init_block (comm_tcp_client_info server_ip server_port) (some c, w) =
      let (rc, c', w') = comm_tcp_client_init k c server_ip server_port w in checked rc c' w'

  unfoldable pub comm_client_init : CommClientInfo → World → Run (Option CommClient) World
  unfolding init_block
  comm_client_init info w = init_block info (malloc_client w)

  unfoldable pub comm_client_finish : Option CommClient → World → Run (Unit {0}) World
  unfolding call_finish
  comm_client_finish none w = returned tt w
  comm_client_finish (some c) w =
      and_then (call_finish c.comm_client_finish c w) λ _ w'. returned tt (free_client c w')

  unfoldable pub comm_client_send : ℕ → CommClient → CommMsg → World → Run (ℤ × CommMsg) World
  unfolding call_client
  comm_client_send fuel c msg w = call_client fuel c.comm_client_send c msg w

  unfoldable pub comm_client_send_header :
      ℕ → CommClient → CommMsg → World → Run (ℤ × CommMsg) World
  unfolding call_client
  comm_client_send_header fuel c msg w = call_client fuel c.comm_client_send_header c msg w

  unfoldable pub comm_client_send_data : ℕ → CommClient → CommMsg → World → Run (ℤ × CommMsg) World
  unfolding call_client
  comm_client_send_data fuel c msg w = call_client fuel c.comm_client_send_data c msg w

  unfoldable pub comm_client_wait : ℕ → CommClient → CommMsg → World → Run (ℤ × CommMsg) World
  unfolding call_client
  comm_client_wait fuel c msg w = call_client fuel c.comm_client_wait c msg w

  unfoldable pub comm_servresp_send : ℕ → CommServer → CommMsg → World → Run ℤ World
  unfolding call_server
  comm_servresp_send fuel s msg w = call_server fuel s.comm_servresp_send s msg w

  unfoldable pub comm_servresp_send_header : ℕ → CommServer → CommMsg → World → Run ℤ World
  unfolding call_server
  comm_servresp_send_header fuel s msg w = call_server fuel s.comm_servresp_send_header s msg w

  unfoldable pub comm_servresp_send_data : ℕ → CommServer → CommMsg → World → Run ℤ World
  unfolding call_server
  comm_servresp_send_data fuel s msg w = call_server fuel s.comm_servresp_send_data s msg w
