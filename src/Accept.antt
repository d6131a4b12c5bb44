-- ===== src/Accept.antt =====
-- The acceptor of comm_server.c: the inner loop of comm_serv_thread, which takes every connection
-- that is waiting and queues it, and comm_make_socket_non_blocking.
pub mod Backlog
use comm_system.Prelude.{
  ℕ, zero, suc, Option, none, some, List, ℤ, pos, negsuc, if◌then◌else◌, ◌==◌,
}
use comm_system.System.{Errno, eagain, eintr, other}
use comm_system.Transfer.{Run, returned, fault, running, and_then, comm_status_generic}
use comm_system.Queue.{Ptr, CommQueueEntry, Heap, Shared, update, comm_queue_insert}

-- What `accept` returns: a descriptor, or -1 with `errno`; EWOULDBLOCK is EAGAIN.
pub data AcceptResult : Type 0 where
  accepted : (infd : ℕ) → AcceptResult
  accept_failed : Errno → AcceptResult

-- The calls that the acceptor makes. `with_nonblock` sets O_NONBLOCK in the flags. The block of an
-- entry comes with what it holds in its `next`.
pub record Sockets (W : Type 0) : Type 0 where
  pub accept : W → AcceptResult × W
  pub fcntl_getfl : ℕ → W → ℤ × W
  pub fcntl_setfl : ℕ → ℤ → W → ℤ × W
  pub with_nonblock : ℤ → ℤ
  pub setsockopt_nodelay : ℕ → W → W
  pub malloc_entry : Heap → W → Option (Ptr × Ptr) × W

module _ {W : Type 0} (sockets : Sockets W) where
  open sockets use {
    accept, fcntl_getfl, fcntl_setfl, with_nonblock, setsockopt_nodelay, malloc_entry,
  }

  -- -1 if the second fcntl failed, else 0.
  unfoldable pub behind_setfl : ℤ × W → ℤ × W
  behind_setfl (pos n, w) = (pos 0, w)
  behind_setfl (negsuc n, w) = (if n == 0 then comm_status_generic else pos 0, w)

  unfoldable pub behind_getfl : (sfd : ℕ) → ℤ × W → ℤ × W
  unfolding behind_setfl
  behind_getfl sfd (pos flags, w) = behind_setfl (fcntl_setfl sfd (with_nonblock (pos flags)) w)
  behind_getfl sfd (negsuc n, w) =
      if n == 0
      then (comm_status_generic, w)
      else behind_setfl (fcntl_setfl sfd (with_nonblock (negsuc n)) w)

  unfoldable pub comm_make_socket_non_blocking : (sfd : ℕ) → W → ℤ × W
  unfolding behind_getfl
  comm_make_socket_non_blocking sfd w = behind_getfl sfd (fcntl_getfl sfd w)

  -- Behind `malloc`: NULL is written through.
  unfoldable pub queue_connection :
      (infd : ℕ) → Shared → Option (Ptr × Ptr) × W → Run (Unit {0}) (Shared × W)
  unfolding comm_queue_insert
  queue_connection infd s (none, w) = fault
  queue_connection infd s (some (p, junk), w) =
      elim (comm_queue_insert p
        (record s { heap = update s.heap p (record { socket_fd = infd; next = junk }) })) [
          | returned done s' ↦ returned tt (s', w)
          | fault ↦ fault
          | running ↦ running
        ]

  -- A connection was accepted.
  unfoldable pub take_in : (infd : ℕ) → Shared → W → Run (Unit {0}) (Shared × W)
  unfolding queue_connection comm_make_socket_non_blocking
  take_in infd s w =
      queue_connection infd s
        (malloc_entry s.heap (setsockopt_nodelay infd (comm_make_socket_non_blocking infd w).1))

  -- Both branches of the failure break; the one with another error than EAGAIN logs before.
  unfoldable pub behind_accept :
      (Shared → W → Run (Unit {0}) (Shared × W))
      → Shared
      → AcceptResult × W
      → Run (Unit {0}) (Shared × W)
  unfolding take_in
  behind_accept again s (accept_failed eagain, w) = returned tt (s, w)
  behind_accept again s (accept_failed e, w) = returned tt (s, w)
  behind_accept again s (accepted infd, w) = and_then (take_in infd s w) λ done s'. again s'.0 s'.1

  -- `while(1) { … accept … }`
  unfoldable pub accept_all : ℕ → Shared → W → Run (Unit {0}) (Shared × W)
  unfolding behind_accept
  accept_all zero s w = running
  accept_all (suc fuel) s w = behind_accept (accept_all fuel) s (accept w)
