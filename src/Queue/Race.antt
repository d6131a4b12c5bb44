-- ===== src/Queue/Race.antt =====
-- The queue of comm_work_queue.c under interleaving: the acceptor's thread inserts while a worker,
-- which holds the lock, gets. A step is one access to what the threads share; a load of `queue_in`
-- and the exchange that succeeds on what it loaded are one step for a worker, who does nothing in
-- between, and two for the acceptor, who links its entry in between.
use comm_system.Prelude.{ℕ, ◌≡◌, ◌≢◌, none, some, List, [], ◌∷◌}
use comm_system.Queue.{Ptr, null, CommQueueEntry, Shared, update}
use comm_system.Queue.Segments.{Cell, entry}

-- Where the acceptor is: between insertions, at the head of the loop with an entry, or before the
-- exchange with the value of `in_queue`.
pub data Inserter : Type 0 where
  idle : Inserter
  holding : (p : Ptr) → Inserter
  linked : (p in_queue : Ptr) → Inserter

-- Whether a worker is in the loop that turns the entries from `head` on over.
pub data Getter : Type 0 where
  outside : Getter
  turning : (head : Ptr) → Getter

pub record Race : Type 0 where
  pub shared : Shared
  pub inserter : Inserter
  pub getter : Getter

-- `queue_in` and `queue_out` set.
abbrev pub set_in : Ptr → Shared → Shared
set_in p s = record s { root = record (s.root) { queue_in = p } }

abbrev pub set_out : Ptr → Shared → Shared
set_out p s = record s { root = record (s.root) { queue_out = p } }

-- `p->next = q` for the entry `e` at `p`.
abbrev pub link : Ptr → CommQueueEntry → Ptr → Shared → Shared
link p e q s = record s { heap = update s.heap p (record e { next = q }) }

abbrev pub race : Shared → Inserter → Getter → Race
race s i g = record { shared = s; inserter = i; getter = g }

-- What a step is for those who use the queue.
pub data Event : Type 0 where
  silent : Event
  inserts takes : Cell → Event

-- Behind `if(!root->queue_out) { … }`.
abbrev pub IsPopping : Getter → Type 0
IsPopping outside = Unit
IsPopping (turning head) = head ≡ null

pub data Step : Race → Event → Race → Type 0 where
  -- `malloc` gives a block that is not in use, and the acceptor fills it in.
  make_entry :
      (s : Shared) (g : Getter) (p fd : ℕ)
      → p ≢ null
      → s.heap p ≡ none
      → Step
          (race s idle g)
          silent
          (race (record s { heap = update s.heap p (entry fd null) }) (holding p) g)
  load :
      (s : Shared) (g : Getter) (p : Ptr) (e : CommQueueEntry)
      → s.heap p ≡ some e
      → Step
          (race s (holding p) g)
          silent
          (race (link p e (s.root.queue_in) s) (linked p (s.root.queue_in)) g)
  exchange :
      (s : Shared) (g : Getter) (p in_queue : Ptr) (e : CommQueueEntry)
      → s.root.queue_in ≡ in_queue
      → s.heap p ≡ some e
      → Step (race s (linked p in_queue) g) (inserts (p, e.socket_fd)) (race (set_in p s) idle g)
  retry :
      (s : Shared) (g : Getter) (p in_queue : Ptr)
      → s.root.queue_in ≢ in_queue
      → Step (race s (linked p in_queue) g) silent (race s (holding p) g)
  seize :
      (s : Shared) (i : Inserter)
      → s.root.queue_out ≡ null
      → Step (race s i outside) silent (race (set_in null s) i (turning (s.root.queue_in)))
  move :
      (s : Shared) (i : Inserter) (head : Ptr) (e : CommQueueEntry)
      → head ≢ null
      → s.heap head ≡ some e
      → Step
          (race s i (turning head))
          silent
          (race (set_out head (link head e (s.root.queue_out) s)) i (turning e.next))
  find_empty :
      (s : Shared) (i : Inserter)
      → s.root.queue_out ≡ null
      → Step (race s i (turning null)) silent (race s i outside)
  pop :
      (s : Shared) (i : Inserter) (g : Getter) (e : CommQueueEntry)
      → IsPopping g
      → s.root.queue_out ≢ null
      → s.heap s.root.queue_out ≡ some e
      → Step
          (race s i g)
          (takes (s.root.queue_out, e.socket_fd))
          (race (set_out e.next s) i outside)

pub data Steps : Race → List Event → Race → Type 0 where
  stop : (s : Race) → Steps s [] s
  one_more :
      {s s' s'' : Race} {e : Event} {events : List Event}
      → Step s e s'
      → Steps s' events s''
      → Steps s (e ∷ events) s''

-- The entries that went in, and those that came out, in order.
unfoldable pub inserted : List Event → List Cell
inserted [] = []
inserted (silent ∷ events) = inserted events
inserted (inserts c ∷ events) = c ∷ inserted events
inserted (takes c ∷ events) = inserted events

unfoldable pub taken : List Event → List Cell
taken [] = []
taken (silent ∷ events) = taken events
taken (inserts c ∷ events) = taken events
taken (takes c ∷ events) = c ∷ taken events
