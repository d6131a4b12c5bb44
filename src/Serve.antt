-- ===== src/Serve.antt =====
-- The acceptor's thread, comm_serv_thread of comm_server.c: it opens the listening socket, watches it
-- with an edge-triggered epoll set, and takes the connections in. A descriptor of -1 is `none`.
pub mod Waking
pub mod Draining
use comm_system.Prelude.{
  ℕ, zero, suc, Bool, true, false, Option, none, some, List, [], ◌∷◌, ◌==◌, if◌then◌else◌,
}
use comm_system.Transfer.{Run, returned, fault, running, and_then}
use comm_system.Queue.{Shared}
use comm_system.Listen.{Binding, ServAddress, Bound, bound, exited, comm_create_and_bind}
use comm_system.Accept.{Sockets, comm_make_socket_non_blocking, accept_all}
use comm_system.Worker.{EpollEvent, is_failed}

-- The further calls of the thread. `events` says whether the block for the events is there.
pub record Watching (W : Type 0) : Type 0 where
  pub listen : (sfd : ℕ) → W → Bool × W
  pub epoll_create1 : W → Option ℕ × W
  pub calloc_events : W → Bool × W
  pub epoll_add : (efd sfd : Option ℕ) → W → Bool × W
  pub epoll_wait : (efd : Option ℕ) (events : Bool) → W → Option (List EpollEvent) × W
  pub close : ℕ → W → W

-- `sfd`, `efd`, and whether `events` is not NULL.
pub record Watch : Type 0 where
  pub sfd : Option ℕ
  pub efd : Option ℕ
  pub events : Bool

-- How a part of the loop ends: with the next one, in `assert(0)`, or in the exit of the process.
pub data ServeEnd : Type 0 where
  goes_on aborted exits : ServeEnd

abbrev pub is_socket : Option ℕ → ℕ → Bool
is_socket none fd = false
is_socket (some sfd) fd = sfd == fd

module _ {W : Type 0} (sockets : Sockets W) (binding : Binding W) (watching : Watching W) where
  open watching use {listen, epoll_create1, calloc_events, epoll_add, epoll_wait, close}

  -- The two calls on the socket, whose failure is only logged. On -1 both fail and do nothing.
  unfoldable pub make_listen : (sfd : Option ℕ) → W → W
  unfolding comm_make_socket_non_blocking
  make_listen none w = w
  make_listen (some sfd) w = (listen sfd (comm_make_socket_non_blocking sockets sfd w).1).1

  -- From epoll_create1 to epoll_ctl; every failure is only logged.
  unfoldable pub make_watch : (sfd : Option ℕ) → W → Watch × W
  make_watch sfd w =
      let efd = epoll_create1 w in
      let events = calloc_events efd.1 in
      let added = epoll_add efd.0 sfd events.1 in
      (record { sfd = sfd; efd = efd.0; events = events.0 }, added.1)

  -- One round of the loop over the events.
  unfoldable pub serve_event :
      ℕ → (sfd : Option ℕ) → EpollEvent → Shared → W → Run ServeEnd (Shared × W)
  unfolding is_failed accept_all
  serve_event fuel sfd event s w =
      if is_failed event
      then returned goes_on (s, close event.fd w)
      else if is_socket sfd event.fd
      then and_then (accept_all sockets fuel s w) (λ done r. returned goes_on r)
      else returned aborted (s, w)

  unfoldable pub behind_served :
      (Shared → W → Run ServeEnd (Shared × W)) → ServeEnd → Shared × W → Run ServeEnd (Shared × W)
  behind_served again goes_on r = again r.0 r.1
  behind_served again aborted r = returned aborted r
  behind_served again exits r = returned exits r

  -- `for(i = 0; i < n; i++) { … }`
  unfoldable pub serve_events :
      ℕ → (sfd : Option ℕ) → List EpollEvent → Shared → W → Run ServeEnd (Shared × W)
  unfolding serve_event behind_served
  serve_events fuel sfd [] s w = returned goes_on (s, w)
  serve_events fuel sfd (event ∷ events) s w =
      and_then (serve_event fuel sfd event s w) (behind_served (serve_events fuel sfd events))

  -- Behind epoll_wait; at -1 the loop over the events has no round.
  unfoldable pub behind_serve_wait :
      ℕ → (sfd : Option ℕ) → Shared → Option (List EpollEvent) × W → Run ServeEnd (Shared × W)
  unfolding serve_events
  behind_serve_wait fuel sfd s (none, w) = returned goes_on (s, w)
  behind_serve_wait fuel sfd s (some events, w) = serve_events fuel sfd events s w

  -- So many rounds of `while(1) { … }`.
  unfoldable pub serve_rounds : (rounds fuel : ℕ) → Watch → Shared → W → Run ServeEnd (Shared × W)
  unfolding behind_serve_wait behind_served
  serve_rounds zero fuel watch s w = returned goes_on (s, w)
  serve_rounds (suc rounds) fuel watch s w =
      and_then (behind_serve_wait fuel watch.sfd s (epoll_wait watch.efd watch.events w))
        (behind_served (serve_rounds rounds fuel watch))

  -- Behind comm_create_and_bind, whose -1 is only logged.
  unfoldable pub behind_bound : (rounds fuel : ℕ) → Shared → Bound → W → Run ServeEnd (Shared × W)
  unfolding make_listen make_watch serve_rounds
  behind_bound rounds fuel s exited w = returned exits (s, w)
  behind_bound rounds fuel s (bound sfd) w =
      let watch = make_watch sfd (make_listen sfd w) in serve_rounds rounds fuel watch.0 s watch.1

  unfoldable pub behind_create :
      (rounds fuel : ℕ) → Shared → Run Bound W → Run ServeEnd (Shared × W)
  unfolding behind_bound
  behind_create rounds fuel s (returned b w) = behind_bound rounds fuel s b w
  behind_create rounds fuel s fault = fault
  behind_create rounds fuel s running = running

  unfoldable pub comm_serv_thread :
      (rounds fuel : ℕ) → ServAddress → Shared → W → Run ServeEnd (Shared × W)
  unfolding comm_create_and_bind behind_create
  comm_serv_thread rounds fuel address s w =
      behind_create rounds fuel s (comm_create_and_bind binding address w)
