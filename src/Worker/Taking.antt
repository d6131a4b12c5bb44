-- ===== src/Worker/Taking.antt =====
-- What a worker with its turn does to the queue and to its epoll set.
use comm_system.Prelude.{
  ℕ, ◌+◌, ◌%◌, ◌<◌, ◌≡◌, refl, sym, ap, ◌∙◌, Bool, true, false, some, List, [], ◌∷◌, length, ◌==◌,
  arith, eq→==,
}
use comm_system.Kernel.{Kernel}
use comm_system.Transfer.{Run, returned, fault, running}
use comm_system.Queue.{null, Shared, comm_queue_get}
use comm_system.Queue.Segments.{Cell, entry}
use comm_system.Queue.Fifo.{Holds}
use comm_system.Queue.Get.{Gets, comm_queue_get-Gets}
use comm_system.Turn.{comm_get_worker_index}
use comm_system.Worker.{
  WorkerData, Epoll, WorkerState, TakeEnd, polls, next_round, behind_add, add_entry,
  take_connection,
}

module _ (k : Kernel) (data_ : WorkerData (k.World)) (epoll : Epoll (k.World)) where
  open k use {World}
  open epoll use {epoll_add}

  -- From an empty queue nothing is taken. The oldest connection is either in the epoll set and
  -- counted, or the kernel refused it; it is off the queue either way. `next` has the turn then.
  abbrev pub Takes :
      (next : ℕ) → List Cell → (num_fds : ℕ) → World → Run TakeEnd (WorkerState World) → Type 0
  Takes next [] num_fds w (returned polls s') =
      Holds [] s'.shared × (s'.cur_worker_index ≡ next) × (s'.num_fds ≡ num_fds) × (s'.world ≡ w)
  Takes next ((a, fd) ∷ xs) num_fds w (returned polls s') =
      Holds xs s'.shared
      × (s'.cur_worker_index ≡ next)
      × (s'.num_fds ≡ num_fds + 1)
      × (epoll_add fd w ≡ (true, s'.world))
  Takes next ((a, fd) ∷ xs) num_fds w (returned next_round s') =
      Holds xs s'.shared
      × (s'.cur_worker_index ≡ next)
      × (s'.num_fds ≡ num_fds)
      × (epoll_add fd w ≡ (false, s'.world))
  Takes next xs num_fds w _ = ⊥

  behind_add-Takes :
      (a fd : ℕ) (xs : List Cell) (s : WorkerState World) (r : Bool × World)
      → Holds xs s.shared
      → epoll_add fd s.world ≡ r
      → Takes s.cur_worker_index ((a, fd) ∷ xs) s.num_fds s.world (behind_add k data_ epoll s r)
  unfolding behind_add
  behind_add-Takes a fd xs s (true, w) h e = (h, refl, refl, e)
  behind_add-Takes a fd xs s (false, w) h e = (h, refl, refl, e)

  add_entry-Takes :
      (xs : List Cell) (s : WorkerState World) (r : Run ℕ Shared)
      → Gets xs r
      → Takes s.cur_worker_index xs s.num_fds s.world (add_entry k data_ epoll s r)
  unfolding add_entry
  add_entry-Takes [] s (returned p shared) (e, h) =
      rw (eq→== p null e, add_entry) (h, refl, refl, refl)
  add_entry-Takes ((a, fd) ∷ xs) s (returned p shared) (e, real, (link, holds), h) =
      let ne : (p == null) ≡ false = ground arith in
      let found : shared.heap p ≡ some (entry fd link) = ap shared.heap e ∙ holds in
      rw (ne, add_entry)
        (rw (found, add_entry) (behind_add-Takes a fd xs (record s { shared = shared }) _ h refl))
  add_entry-Takes [] s fault h = h
  add_entry-Takes [] s running h = h
  add_entry-Takes ((a, fd) ∷ xs) s fault h = absurd h
  add_entry-Takes ((a, fd) ∷ xs) s running h = absurd h

  -- A worker whose turn it is, with more fuel than entries in the queue, passes the turn on to the
  -- next worker and takes the oldest connection, if there is one, off the queue: it is added to the
  -- epoll set and counted, and the worker goes on to wait for events; or the kernel refuses it, it
  -- is not counted, and the worker starts a new round. From an empty queue nothing is taken.
  pub take_connection_lem :
      (fuel : ℕ) (xs : List Cell) (s : WorkerState World)
      → (data_.place).worker_index ≡ s.cur_worker_index
      → Holds xs s.shared
      → length xs < fuel
      → Takes
          ((s.cur_worker_index + 1) % (data_.place).num_workers)
          xs
          s.num_fds
          s.world
          (take_connection k data_ epoll fuel s)
  unfolding take_connection comm_get_worker_index
  take_connection_lem fuel xs s mine h few =
      rw
        (
          eq→== (data_.place).worker_index s.cur_worker_index mine,
          eq→== s.cur_worker_index (data_.place).worker_index (sym mine),
          take_connection,
        )
        (add_entry-Takes xs
          (record s { cur_worker_index = (s.cur_worker_index + 1) % (data_.place).num_workers })
          (comm_queue_get fuel s.shared) (comm_queue_get-Gets fuel xs s.shared h few))
