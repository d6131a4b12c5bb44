-- ===== src/Client/Lifecycle.antt =====
-- comm_client_init and comm_client_finish, and what a Unix client lacks.
use comm_system.Prelude.{
  ℕ, zero, suc, ◌≤◌, ◌≡◌, refl, ap, ◌∙◌, inl, inr, Option, none, some, List, length, ltb, ltb→le,
  Bool-cases, ℤ, pos, negsuc,
}
use comm_system.Kernel.{Kernel}
use comm_system.Transfer.{Run, returned, fault, running, and_then}
use comm_system.Message.{
  comm_tcp, comm_unix, CommClient, CommMsg, tcp_client_send, tcp_client_send_header,
  tcp_client_send_data, tcp_client_wait, tcp_client_finish, unix_client_send, unix_client_wait,
  unix_client_finish, stray,
}
use comm_system.TcpClient
use comm_system.TcpClient.{comm_tcp_client_init, comm_tcp_client_finish}
use comm_system.UnixClient
use comm_system.UnixClient.{sun_path_size, comm_unix_client_init, comm_unix_client_finish}
use comm_system.Client.{
  CommClientInfo, comm_unix_client_info, comm_tcp_client_info, call_client, checked, init_block,
  call_finish, comm_client_init, comm_client_finish, comm_client_send_header,
}

-- What a client of each transport is made of. The pointers that a Unix client does not set are those
-- of the block `c₀` that it was built in.
abbrev pub IsReady : CommClient → CommClientInfo → CommClient → Type 0
IsReady c₀ (comm_tcp_client_info server_ip server_port) c =
    (c.ipc_type ≡ comm_tcp)
    × (c.comm_client_send ≡ tcp_client_send)
    × (c.comm_client_send_header ≡ tcp_client_send_header)
    × (c.comm_client_send_data ≡ tcp_client_send_data)
    × (c.comm_client_wait ≡ tcp_client_wait)
    × (c.comm_client_finish ≡ tcp_client_finish)
IsReady c₀ (comm_unix_client_info dom_sock_name) c =
    (c.ipc_type ≡ comm_unix)
    × (c.comm_client_send ≡ unix_client_send)
    × (c.comm_client_send_header ≡ c₀.comm_client_send_header)
    × (c.comm_client_send_data ≡ c₀.comm_client_send_data)
    × (c.comm_client_wait ≡ unix_client_wait)
    × (c.comm_client_finish ≡ unix_client_finish)

-- A name that does not fit into `sun_path` with its NUL.
abbrev pub IsTooLong : CommClientInfo → Type 0
IsTooLong (comm_tcp_client_info server_ip server_port) = ⊥
IsTooLong (comm_unix_client_info dom_sock_name) = sun_path_size ≤ length dom_sock_name

module _ {W : Type 0} where
  -- The call comes back with NULL or a ready client; it overruns `sun_path` for a long name alone.
  abbrev pub Initialises : CommClient → CommClientInfo → Run (Option CommClient) W → Type 0
  Initialises c₀ info (returned none w) = Unit
  Initialises c₀ info (returned (some c) w) = IsReady c₀ info c
  Initialises c₀ info fault = IsTooLong info
  Initialises c₀ info running = ⊥

module _ (k : Kernel) where
  open k use {World, malloc_client, socket, connect, close, free_client}

  checked-Initialises :
      (c₀ : CommClient) (info : CommClientInfo) (rc : ℤ) (c : CommClient) (w : World)
      → (rc ≡ pos 0 → IsReady c₀ info c)
      → Initialises c₀ info (checked k rc c w)
  unfolding checked
  checked-Initialises c₀ info (pos zero) c w h = h refl
  checked-Initialises c₀ info (pos (suc n)) c w h = tt
  checked-Initialises c₀ info (negsuc n) c w h = tt

  tcp_connected-Initialises :
      (c₀ : CommClient) (server_ip : List ℕ) (server_port s : ℕ) (r : ℤ × World)
      → let (rc, c, w) = TcpClient.connected k c₀ s r in
        Initialises c₀ (comm_tcp_client_info server_ip server_port) (checked k rc c w)
  unfolding TcpClient.connected checked
  tcp_connected-Initialises c₀ server_ip server_port s (pos n, w) =
      (refl, refl, refl, refl, refl, refl)
  tcp_connected-Initialises c₀ server_ip server_port s (negsuc n, w) = tt

  tcp_opened-Initialises :
      (c₀ : CommClient) (server_ip : List ℕ) (server_port : ℕ) (r : Option ℕ × World)
      → let (rc, c, w) = TcpClient.opened k c₀ server_ip server_port r in
        Initialises c₀ (comm_tcp_client_info server_ip server_port) (checked k rc c w)
  unfolding TcpClient.opened checked
  tcp_opened-Initialises c₀ server_ip server_port (none, w) = tt
  tcp_opened-Initialises c₀ server_ip server_port (some s, w) =
      tcp_connected-Initialises c₀ server_ip server_port s _

  unix_connected-Initialises :
      (c₀ : CommClient) (dom_sock_name : List ℕ) (s : ℕ) (r : ℤ × World)
      → Initialises c₀
          (comm_unix_client_info dom_sock_name)
          (and_then (UnixClient.connected k c₀ s r) λ (rc, c') w'. checked k rc c' w')
  unfolding UnixClient.connected checked
  unix_connected-Initialises c₀ dom_sock_name s (pos n, w) = (refl, refl, refl, refl, refl, refl)
  unix_connected-Initialises c₀ dom_sock_name s (negsuc n, w) = tt

  unix_opened-Initialises :
      (c₀ : CommClient) (dom_sock_name : List ℕ) (r : Option ℕ × World)
      → Initialises c₀
          (comm_unix_client_info dom_sock_name)
          (and_then (UnixClient.opened k c₀ dom_sock_name r) λ (rc, c') w'. checked k rc c' w')
  unfolding UnixClient.opened checked
  unix_opened-Initialises c₀ dom_sock_name (none, w) = tt
  unix_opened-Initialises c₀ dom_sock_name (some s, w) =
      elim (Bool-cases (ltb (length dom_sock_name) sun_path_size)) [
        | inl short ↦ rw (short, Initialises) (unix_connected-Initialises c₀ dom_sock_name s _)
        | inr long ↦ rw (long, Initialises) (ltb→le _ _ long)
      ]

  init_block-Initialises :
      (info : CommClientInfo) (c₀ : CommClient) (w : World)
      → Initialises c₀ info (init_block k info (some c₀, w))
  unfolding init_block comm_tcp_client_init comm_unix_client_init
  init_block-Initialises (comm_unix_client_info dom_sock_name) c₀ w =
      unix_opened-Initialises c₀ dom_sock_name _
  init_block-Initialises (comm_tcp_client_info server_ip server_port) c₀ w =
      tcp_opened-Initialises c₀ server_ip server_port _

  -- With a block from malloc, comm_client_init returns NULL or a client of the transport that was
  -- asked for, with the functions of that transport for send, wait and finish; a TCP client has
  -- those for header and data too, while a Unix client keeps in these two pointers what the block
  -- held. It overruns `sun_path` for no name of fewer than 108 bytes, and for no TCP client.
  pub comm_client_init-Initialises :
      (info : CommClientInfo) (c₀ : CommClient) (w w₀ : World)
      → malloc_client w ≡ (some c₀, w₀)
      → Initialises c₀ info (comm_client_init k info w)
  unfolding comm_client_init
  comm_client_init-Initialises info c₀ w w₀ e =
      rw (ap (init_block k info) e) (init_block-Initialises info c₀ w₀)

  IsReady-header :
      (fuel : ℕ) (dom_sock_name : List ℕ) (a : ℕ) (c₀ c : CommClient) (msg : CommMsg) (w : World)
      → c₀.comm_client_send_header ≡ stray a
      → IsReady c₀ (comm_unix_client_info dom_sock_name) c
      → comm_client_send_header k fuel c msg w ≡ fault
  unfolding comm_client_send_header
  IsReady-header fuel dom_sock_name a c₀ c msg w bad ready =
      ap (λ h. call_client k fuel h c msg w) (ready.2 ∙ bad)

  -- The clients that comm_client_init returns.
  pub IsReady-of_init :
      (info : CommClientInfo) (c₀ c : CommClient) (w w₀ w' : World)
      → malloc_client w ≡ (some c₀, w₀)
      → comm_client_init k info w ≡ returned (some c) w'
      → IsReady c₀ info c
  IsReady-of_init info c₀ c w w₀ w' e r = rw r at (comm_client_init-Initialises info c₀ w w₀ e)

  -- comm_client_send_header on a client that comm_client_init made for a Unix-domain socket calls a
  -- pointer that was never set: if the block from malloc held no function there, the call is a
  -- fault.
  pub comm_client_send_header-unix :
      (fuel : ℕ) (dom_sock_name : List ℕ) (a : ℕ) (c₀ c : CommClient) (msg : CommMsg)
      (w w₀ w₁ w₂ : World)
      → malloc_client w ≡ (some c₀, w₀)
      → c₀.comm_client_send_header ≡ stray a
      → comm_client_init k (comm_unix_client_info dom_sock_name) w ≡ returned (some c) w₁
      → comm_client_send_header k fuel c msg w₂ ≡ fault
  comm_client_send_header-unix fuel dom_sock_name a c₀ c msg w w₀ w₁ w₂ e bad r =
      IsReady-header fuel dom_sock_name a c₀ c msg w₂ bad
        (IsReady-of_init (comm_unix_client_info dom_sock_name) c₀ c w w₀ w₁ e r)

  finish-IsReady :
      (info : CommClientInfo) (c₀ c : CommClient) (w : World)
      → IsReady c₀ info c
      → comm_client_finish k (some c) w ≡ returned tt (free_client c (close c.socket_fd w))
  unfolding comm_client_finish comm_tcp_client_finish comm_unix_client_finish
  finish-IsReady (comm_unix_client_info dom_sock_name) c₀ c w ready =
      ap (λ h. and_then (call_finish k h c w) λ _ w'. returned tt (free_client c w')) ready.5
  finish-IsReady (comm_tcp_client_info server_ip server_port) c₀ c w ready =
      ap (λ h. and_then (call_finish k h c w) λ _ w'. returned tt (free_client c w')) ready.5

  -- comm_client_finish on any client that comm_client_init returned closes the client's socket,
  -- then frees the client, and does nothing else.
  pub comm_client_finish-init :
      (info : CommClientInfo) (c₀ c : CommClient) (w w₀ w₁ w₂ : World)
      → malloc_client w ≡ (some c₀, w₀)
      → comm_client_init k info w ≡ returned (some c) w₁
      → comm_client_finish k (some c) w₂ ≡ returned tt (free_client c (close c.socket_fd w₂))
  comm_client_finish-init info c₀ c w w₀ w₁ w₂ e r =
      finish-IsReady info c₀ c w₂ (IsReady-of_init info c₀ c w w₀ w₁ e r)
