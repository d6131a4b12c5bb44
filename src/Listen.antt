-- ===== src/Listen.antt =====
-- comm_create_and_bind of comm_server.c: the listening socket of a server. A descriptor of -1 is
-- `none`.
pub mod Descriptors
use comm_system.Prelude.{
  ℕ, Bool, true, false, Option, none, some, List, [], ◌∷◌, length, leb, ℤ, if◌then◌else◌,
}
use comm_system.Transfer.{Run, returned, fault}

-- One address of the list that getaddrinfo returns.
pub record AddrInfo : Type 0 where
  pub ai_family : ℕ
  pub ai_socktype : ℕ
  pub ai_protocol : ℕ
  pub ai_addr : List ℕ

-- The calls of the C library. `getaddrinfo` gives `none` when it does not return 0, the others that
-- may fail `none` or `false`.
pub record Binding (W : Type 0) : Type 0 where
  pub getaddrinfo : (port : List ℕ) → W → Option (List AddrInfo) × W
  pub socket : AddrInfo → W → Option ℕ × W
  pub set_reuseaddr : ℕ → W → W
  pub bind : ℕ → AddrInfo → W → Bool × W
  pub freeaddrinfo : W → W
  pub close : ℕ → W → W
  pub socket_unix : W → Option ℕ × W
  pub unlink : List ℕ → W → W
  pub bind_unix : ℕ → (sun_path : List ℕ) → W → Bool × W

-- The member of `comm_serv_info_type` that `ipc_type` selects.
pub data ServAddress : Type 0 where
  comm_unix_serv_info : (sap_number : ℤ) (dom_sock_name : List ℕ) → ServAddress
  comm_tcp_serv_info : (port : List ℕ) (sap_number : ℤ) → ServAddress

-- The function returns `sfd`, or the process ends in `exit(0)`.
pub data Bound : Type 0 where
  bound : (sfd : Option ℕ) → Bound
  exited : Bound

-- sizeof(addr.sun_path)
abbrev pub sun_path_size : ℕ
sun_path_size = 108

module _ {W : Type 0} (binding : Binding W) where
  open binding use {
    getaddrinfo, socket, set_reuseaddr, bind, freeaddrinfo, close, socket_unix, unlink, bind_unix,
  }

  -- Behind `bind`. `next` is the rest of the loop.
  unfoldable pub behind_bind : (W → Option ℕ × W) → (sfd : ℕ) → Bool × W → Option ℕ × W
  behind_bind next sfd (true, w) = (some sfd, w)
  behind_bind next sfd (false, w) = next (close sfd w)

  -- Behind `socket`.
  unfoldable pub behind_socket : (W → Option ℕ × W) → AddrInfo → Option ℕ × W → Option ℕ × W
  unfolding behind_bind
  behind_socket next rp (none, w) = next w
  behind_socket next rp (some sfd, w) = behind_bind next sfd (bind sfd rp (set_reuseaddr sfd w))

  -- `for(rp = result; rp != NULL; rp = rp->ai_next) { … }`; at its end `rp == NULL` is `none`.
  unfoldable pub try_addresses : List AddrInfo → W → Option ℕ × W
  unfolding behind_socket
  try_addresses [] w = (none, w)
  try_addresses (rp ∷ result) w = behind_socket (try_addresses result) rp (socket rp w)

  -- Behind the loop.
  unfoldable pub behind_addresses : Option ℕ × W → Run Bound W
  behind_addresses (none, w) = returned exited w
  behind_addresses (some sfd, w) = returned (bound (some sfd)) (freeaddrinfo w)

  unfoldable pub bind_tcp : Option (List AddrInfo) × W → Run Bound W
  unfolding try_addresses behind_addresses
  bind_tcp (none, w) = returned (bound none) w
  bind_tcp (some result, w) = behind_addresses (try_addresses result w)

  -- Behind `bind` of a Unix-domain address.
  unfoldable pub behind_bind_unix : (sfd : ℕ) → Bool × W → Run Bound W
  behind_bind_unix sfd (true, w) = returned (bound (some sfd)) w
  behind_bind_unix sfd (false, w) = returned (bound none) (close sfd w)

  -- `strncpy` copies all of the name: a longer one than `sun_path` overruns it.
  unfoldable pub bind_unix_name : List ℕ → Option ℕ × W → Run Bound W
  unfolding behind_bind_unix
  bind_unix_name name (none, w) = returned (bound none) w
  bind_unix_name name (some sfd, w) =
      if leb (length name) sun_path_size
      then behind_bind_unix sfd (bind_unix sfd name (unlink name w))
      else fault

  unfoldable pub comm_create_and_bind : ServAddress → W → Run Bound W
  unfolding bind_tcp bind_unix_name
  comm_create_and_bind (comm_tcp_serv_info port sap_number) w = bind_tcp (getaddrinfo port w)
  comm_create_and_bind (comm_unix_serv_info sap_number dom_sock_name) w =
      bind_unix_name dom_sock_name (socket_unix w)
