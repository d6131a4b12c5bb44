-- ===== src/Examples/Acceptor.antt =====
-- An acceptor with connections that wait.
use comm_system.Prelude.{
  ℕ, zero, suc, ◌+◌, ◌≡◌, refl, sym, Option, none, some, List, [], ◌∷◌, arith, pos,
}
use comm_system.Transfer.{Run, returned}
use comm_system.Queue.{Ptr, Shared, Heap, CommQueueEntry}
use comm_system.System.{eagain, other}
use comm_system.Accept.{AcceptResult, accepted, accept_failed, Sockets, accept_all}
use comm_system.Accept.Backlog.{Accepts, Allocates, IsListening, Empties, accept_all-Empties}
use comm_system.Examples.Server.{shared, cells, shared-Holds}

-- The connections that wait, the descriptors that the process may still open, and the next block.
pub record Office : Type 0 where
  pub waiting : List ℕ
  pub descriptors : ℕ
  pub next_block : ℕ

-- The error 24 is EMFILE.
abbrev accept_first : List ℕ → ℕ → Office → AcceptResult × Office
accept_first [] descriptors w = (accept_failed eagain, record w { waiting = [] })
accept_first (infd ∷ rest) zero w = (accept_failed (other 24), w)
accept_first (infd ∷ rest) (suc n) w = (accepted infd, record w { waiting = rest; descriptors = n })

abbrev block_if_free : Option CommQueueEntry → Office → Option (Ptr × Ptr) × Office
block_if_free none w = (some (suc w.next_block, 99), record w { next_block = w.next_block + 10 })
block_if_free (some e) w = (none, w)

abbrev pub office : Sockets Office
office = record {
  accept = λ w. accept_first w.waiting w.descriptors w;
  fcntl_getfl = λ fd w. (pos 2, w);
  fcntl_setfl = λ fd flags w. (pos 0, w);
  with_nonblock = λ flags. pos 2050;
  setsockopt_nodelay = λ fd w. w;
  malloc_entry = λ heap w. block_if_free (heap (suc w.next_block)) w;
}

abbrev pub backlog : Office → List ℕ
backlog w = w.waiting

accept_first-Accepts :
    (waiting : List ℕ) (descriptors : ℕ) (w : Office)
    → waiting ≡ w.waiting
    → Accepts office backlog w (accept_first waiting descriptors w)
accept_first-Accepts [] descriptors w e = (sym e, refl)
accept_first-Accepts (infd ∷ rest) zero w e = refl
accept_first-Accepts (infd ∷ rest) (suc n) w e = sym e

block_if_free-Allocates :
    (heap : Heap) (w : Office) (r : Option CommQueueEntry)
    → heap (suc w.next_block) ≡ r
    → Allocates office backlog heap w (block_if_free r w)
block_if_free-Allocates heap w none e = (omega arith, e, refl)
block_if_free-Allocates heap w (some entry) e = tt

pub office-IsListening : IsListening office backlog
office-IsListening = record {
  accepts = λ w. accept_first-Accepts w.waiting w.descriptors w refl;
  getfl_quiet = λ fd w. refl;
  setfl_quiet = λ fd flags w. refl;
  setsockopt_quiet = λ fd w. refl;
  allocates = λ heap w. block_if_free-Allocates heap w _ refl;
}

abbrev two_wait : Office
two_wait = record { waiting = 8 ∷ 9 ∷ []; descriptors = 1; next_block = 50 }

accept_all-Empties_example :
    Empties office backlog office-IsListening cells
      (8 ∷ 9 ∷ [])
      (accept_all office 4 shared two_wait)
accept_all-Empties_example =
    accept_all-Empties office backlog office-IsListening 4 cells shared two_wait shared-Holds
      (omega arith)

-- The second connection is left waiting.
abbrev left_waiting : Run (Unit {0}) (Shared × Office) → List ℕ
left_waiting (returned done (s, w)) = w.waiting
left_waiting r = []

one_left : left_waiting (accept_all office 4 shared two_wait) ≡ 9 ∷ []
unfolding accept_all
one_left = refl
