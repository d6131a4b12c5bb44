-- ===== src/Queue.antt =====
-- comm_work_queue.c: the queue of accepted connections. The acceptor thread pushes entries on
-- `queue_in` by compare-and-swap; a worker pops them off `queue_out` under the lock, and turns
-- `queue_in` over onto `queue_out` when that is empty. Pointers are numbers, NULL is 0, and the heap
-- says what each entry holds.
pub mod Segments
pub mod Fifo
pub mod Get
pub mod Race
pub mod Chains
pub mod Linear
use comm_system.Prelude.{
  ℕ, zero, suc, ◌+◌, Bool, true, false, Option, none, some, List, [], ◌∷◌, ◌==◌, if◌then◌else◌,
}
use comm_system.Transfer.{Run, returned, fault, running}

abbrev pub Ptr : Type 0
Ptr = ℕ

abbrev pub null : Ptr
null = 0

pub record CommQueueEntry : Type 0 where
  pub socket_fd : ℕ
  pub next : Ptr

abbrev pub Heap : Type 0
Heap = Ptr → Option CommQueueEntry

-- The lock and the condition variable hold no data.
pub record CommQueue : Type 0 where
  pub queue_in : Ptr
  pub queue_out : Ptr

-- What the threads share: the entries, and the queue `root`.
pub record Shared : Type 0 where
  pub heap : Heap
  pub root : CommQueue

abbrev pub update : Heap → Ptr → CommQueueEntry → Heap
update heap p entry q = if p == q then some entry else heap q

-- `p->next = q`; without an entry at `p` the access is a fault.
unfoldable pub set_next : Ptr → Ptr → Heap → Option Heap
set_next p q heap = elim (heap p) [
  | none ↦ none
  | some entry ↦ some (update heap p (record entry { next = q }))
]

-- comm_init_queueroot
abbrev pub comm_init_queueroot : CommQueue
comm_init_queueroot = record { queue_in = null; queue_out = null }

-- comm_queue_insert, where no other thread moves `queue_in` between the load and the exchange.
unfoldable pub comm_queue_insert : Ptr → Shared → Run (Unit {0}) Shared
unfolding set_next
comm_queue_insert entry s = elim (set_next entry s.root.queue_in s.heap) [
  | none ↦ fault
  | some heap ↦ returned tt (record { heap = heap; root = record (s.root) { queue_in = entry } })
]

-- `while(head) { … }`: the entries from `head` on go over to `queue_out` one by one.
unfoldable pub turn_over : ℕ → (head : Ptr) → Shared → Run (Unit {0}) Shared
unfolding set_next
turn_over zero head s = running
turn_over (suc fuel) head s = elim (head == null) [
  | true ↦ returned tt s
  | false ↦ elim (s.heap head) [
    | none ↦ fault
    | some entry ↦ elim (set_next head s.root.queue_out s.heap) [
      | none ↦ fault
      | some heap ↦
          turn_over fuel entry.next
            (record { heap = heap; root = record (s.root) { queue_out = head } })
    ]
  ]
]

-- The exchange takes all of `queue_in`, and the loop turns it over.
unfoldable pub refill : ℕ → Shared → Run (Unit {0}) Shared
unfolding turn_over
refill fuel s = elim (s.root.queue_out == null) [
  | true ↦ turn_over fuel s.root.queue_in (record s { root = record (s.root) { queue_in = null } })
  | false ↦ returned tt s
]

-- `if(root->queue_out) { … } return head;`
unfoldable pub pop : Shared → Run Ptr Shared
pop s = elim (s.root.queue_out == null) [
  | true ↦ returned null s
  | false ↦ elim (s.heap s.root.queue_out) [
    | none ↦ fault
    | some entry ↦
        returned s.root.queue_out (record s { root = record (s.root) { queue_out = entry.next } })
  ]
]

unfoldable pub comm_queue_get : ℕ → Shared → Run Ptr Shared
unfolding refill pop
comm_queue_get fuel s = elim (refill fuel s) [
  | returned _ s' ↦ pop s'
  | fault ↦ fault
  | running ↦ running
]
