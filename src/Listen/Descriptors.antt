-- ===== src/Listen/Descriptors.antt =====
-- A server that does not get its listening socket keeps no descriptor open.
use comm_system.Prelude.{
  ℕ, ◌≤◌, ◌≡◌, ap, ◌∙◌, Bool, true, false, Option, none, some, List, [], ◌∷◌, length, le→leb,
}
use comm_system.Transfer.{Run, returned, fault, running}
use comm_system.Listen.{
  AddrInfo, Binding, ServAddress, comm_unix_serv_info, comm_tcp_serv_info, Bound, bound, exited,
  sun_path_size, behind_bind, behind_socket, try_addresses, behind_addresses, bind_tcp,
  behind_bind_unix, bind_unix_name, comm_create_and_bind,
}

module _ {W : Type 0} (binding : Binding W) (opened : W → List ℕ) where
  open binding use {
    getaddrinfo, socket, set_reuseaddr, bind, freeaddrinfo, close, socket_unix, unlink, bind_unix,
  }

  -- An answer of `socket`: a new descriptor on top of the open ones, or nothing.
  abbrev pub Opens : W → Option ℕ × W → Type 0
  Opens w (none, w') = opened w' ≡ opened w
  Opens w (some fd, w') = opened w' ≡ fd ∷ opened w

  -- `opened` are the open descriptors, the newest first; only `socket` and `close` change them.
  pub record IsTracked : Type 0 where
    pub socket_opens : (rp : AddrInfo) (w : W) → Opens w (socket rp w)
    pub socket_unix_opens : (w : W) → Opens w (socket_unix w)
    pub closes : (fd : ℕ) (fds : List ℕ) (w : W) → opened w ≡ fd ∷ fds → opened (close fd w) ≡ fds
    pub getaddrinfo_quiet : (port : List ℕ) (w : W) → opened (getaddrinfo port w).1 ≡ opened w
    pub reuseaddr_quiet : (fd : ℕ) (w : W) → opened (set_reuseaddr fd w) ≡ opened w
    pub bind_quiet : (fd : ℕ) (rp : AddrInfo) (w : W) → opened (bind fd rp w).1 ≡ opened w
    pub freeaddrinfo_quiet : (w : W) → opened (freeaddrinfo w) ≡ opened w
    pub unlink_quiet : (name : List ℕ) (w : W) → opened (unlink name w) ≡ opened w
    pub bind_unix_quiet :
        (fd : ℕ) (name : List ℕ) (w : W) → opened (bind_unix fd name w).1 ≡ opened w

  -- Behind the call the descriptor that is returned is open and new, and no other one.
  abbrev pub Keeps : (before : List ℕ) → Run Bound W → Type 0
  Keeps before (returned (bound none) w) = opened w ≡ before
  Keeps before (returned (bound (some sfd)) w) = opened w ≡ sfd ∷ before
  Keeps before (returned exited w) = opened w ≡ before
  Keeps before fault = ⊥
  Keeps before running = ⊥

  -- The same for the loop over the addresses.
  abbrev Tries : (before : List ℕ) → Option ℕ × W → Type 0
  Tries before (none, w) = opened w ≡ before
  Tries before (some sfd, w) = opened w ≡ sfd ∷ before

  module _ (law : IsTracked) (before : List ℕ) where
    behind_bind-Tries :
        (next : W → Option ℕ × W)
        → ((w : W) → opened w ≡ before → Tries before (next w))
        → (sfd : ℕ) (r : Bool × W) → opened r.1 ≡ sfd ∷ before
        → Tries before (behind_bind binding next sfd r)
    unfolding behind_bind
    behind_bind-Tries next go sfd (true, w) e = e
    behind_bind-Tries next go sfd (false, w) e = go (close sfd w) (law.closes sfd before w e)

    behind_socket-Tries :
        (next : W → Option ℕ × W)
        → ((w : W) → opened w ≡ before → Tries before (next w))
        → (rp : AddrInfo) (w : W) (r : Option ℕ × W) → opened w ≡ before
        → Opens w r
        → Tries before (behind_socket binding next rp r)
    unfolding behind_socket
    behind_socket-Tries next go rp w (none, w') e o = go w' (o ∙ e)
    behind_socket-Tries next go rp w (some sfd, w') e o =
        behind_bind-Tries next go sfd (bind sfd rp (set_reuseaddr sfd w'))
          (law.bind_quiet sfd rp _ ∙ law.reuseaddr_quiet sfd w' ∙ o ∙ ap (λ l. sfd ∷ l) e)

    try_addresses-Tries :
        (result : List AddrInfo) (w : W)
        → opened w ≡ before
        → Tries before (try_addresses binding result w)
    unfolding try_addresses
    try_addresses-Tries [] w e = e
    try_addresses-Tries (rp ∷ result) w e =
        behind_socket-Tries (try_addresses binding result) (try_addresses-Tries result) rp w
          (socket rp w) e (law.socket_opens rp w)

    behind_addresses-Keeps :
        (r : Option ℕ × W) → Tries before r → Keeps before (behind_addresses binding r)
    unfolding behind_addresses
    behind_addresses-Keeps (none, w) e = e
    behind_addresses-Keeps (some sfd, w) e = law.freeaddrinfo_quiet w ∙ e

    bind_tcp-Keeps :
        (r : Option (List AddrInfo) × W) → opened r.1 ≡ before → Keeps before (bind_tcp binding r)
    unfolding bind_tcp
    bind_tcp-Keeps (none, w) e = e
    bind_tcp-Keeps (some result, w) e =
        behind_addresses-Keeps (try_addresses binding result w) (try_addresses-Tries result w e)

    behind_bind_unix-Keeps :
        (sfd : ℕ) (r : Bool × W)
        → opened r.1 ≡ sfd ∷ before
        → Keeps before (behind_bind_unix binding sfd r)
    unfolding behind_bind_unix
    behind_bind_unix-Keeps sfd (true, w) e = e
    behind_bind_unix-Keeps sfd (false, w) e = law.closes sfd before w e

    bind_unix_name-Keeps :
        (name : List ℕ) (r : Option ℕ × W)
        → length name ≤ sun_path_size
        → Tries before r
        → Keeps before (bind_unix_name binding name r)
    unfolding bind_unix_name
    bind_unix_name-Keeps name (none, w) short e = e
    bind_unix_name-Keeps name (some sfd, w) short e =
        rw (le→leb (length name) sun_path_size short, Keeps)
          (behind_bind_unix-Keeps sfd (bind_unix sfd name (unlink name w))
            (law.bind_unix_quiet sfd name _ ∙ law.unlink_quiet name w ∙ e))

  Opens-Tries : (w : W) (r : Option ℕ × W) → Opens w r → Tries (opened w) r
  Opens-Tries w (none, w') e = e
  Opens-Tries w (some fd, w') e = e

  -- A name of a Unix-domain socket that fits in its address.
  abbrev pub IsShort : ServAddress → Type 0
  IsShort (comm_unix_serv_info sap_number dom_sock_name) = length dom_sock_name ≤ sun_path_size
  IsShort (comm_tcp_serv_info port sap_number) = Unit

  -- If the kernel opens and closes descriptors only by `socket` and `close`, and the name of a Unix
  -- socket fits its address, comm_create_and_bind leaves no descriptor behind: when it returns a
  -- socket, that one is open, newly, and no other; when it returns -1 or exits, the open
  -- descriptors are those from before. It never goes wrong.
  pub comm_create_and_bind-Keeps :
      (address : ServAddress) (w : W)
      → IsTracked
      → IsShort address
      → Keeps (opened w) (comm_create_and_bind binding address w)
  unfolding comm_create_and_bind
  comm_create_and_bind-Keeps (comm_tcp_serv_info port sap_number) w law short =
      bind_tcp-Keeps law (opened w) (getaddrinfo port w) (law.getaddrinfo_quiet port w)
  comm_create_and_bind-Keeps (comm_unix_serv_info sap_number dom_sock_name) w law short =
      bind_unix_name-Keeps law (opened w) dom_sock_name (socket_unix w) short
        (Opens-Tries w (socket_unix w) (law.socket_unix_opens w))
