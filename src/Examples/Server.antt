-- ===== src/Examples/Server.antt =====
-- The queue and the turns of the workers.
use comm_system.Prelude.{
  ℕ, zero, suc, ◌≡◌, refl, inl, inr, none, some, List, [], ◌∷◌, ◌++◌, length, if◌then◌else◌, ◌==◌,
  arith,
}
use comm_system.Transfer.{returned}
use comm_system.Queue.{null, Heap, Shared, comm_queue_insert, comm_queue_get}
use comm_system.Queue.Segments.{Cell, entry}
use comm_system.Queue.Fifo.{Holds, comm_queue_insert-Holds}
use comm_system.Queue.Get.{Gets, comm_queue_get-Gets}
use comm_system.Turn.{comm_get_worker_index, takers, ring, Polls, IsRound, Rounds, one_more}
use comm_system.Turn.Robin.{takers-ring, Rounds-Polls}

-- Entries at 10, 20 and 30, for the connections 4, 5 and 6: 10 was turned over, 20 and 30 came later.
abbrev entries : Heap
entries p =
    if p == 10
    then some (entry 4 null)
    else if p == 20
    then some (entry 5 null)
    else if p == 30
    then some (entry 6 20)
    else if p == 40
    then some (entry 7 99)
    else none

abbrev pub shared : Shared
shared = record { heap = entries; root = record { queue_in = 30; queue_out = 10 } }

abbrev pub cells : List Cell
cells = (10, 4) ∷ (20, 5) ∷ (30, 6) ∷ []

pub shared-Holds : Holds cells shared
shared-Holds = (
  (30, 6) ∷ (20, 5) ∷ [],
  (10, 4) ∷ [],
  record {
    in_chain = (20, refl, omega arith, refl, refl, (null, refl, omega arith, refl, refl, refl));
    out_chain = (null, refl, omega arith, refl, refl, refl);
    apart = λ a h. ground arith;
  },
  refl,
)

comm_queue_insert-Holds_example :
    (s : Shared) × (comm_queue_insert 40 shared ≡ returned tt s) × Holds (cells ++ (40, 7) ∷ []) s
comm_queue_insert-Holds_example =
    comm_queue_insert-Holds 40 7 cells shared shared-Holds
      (record { real = omega arith; link = 99; holds = refl; new = refl })

comm_queue_get-Gets_example : Gets cells (comm_queue_get 4 shared)
comm_queue_get-Gets_example = comm_queue_get-Gets 4 cells shared shared-Holds (omega arith)

-- Three workers, of which the last calls most.
abbrev round : List ℕ
round = 2 ∷ 2 ∷ 0 ∷ 1 ∷ []

abbrev schedule : List ℕ
schedule = round ++ (round ++ (round ++ []))

round-IsRound : IsRound 3 round
round-IsRound zero h = inr (inr (inl refl))
round-IsRound (suc zero) h = inr (inr (inr (inl refl)))
round-IsRound (suc (suc zero)) h = inl refl
round-IsRound (suc (suc (suc i))) h = absurd (omega arith)

schedule-Rounds : Rounds 3 3 schedule
schedule-Rounds =
    one_more round round-IsRound
      (one_more round round-IsRound (one_more round round-IsRound Rounds.none))

takers_runs : takers 3 1 schedule ≡ 1 ∷ 2 ∷ 0 ∷ 1 ∷ 2 ∷ 0 ∷ 1 ∷ []
unfolding takers comm_get_worker_index
takers_runs = refl

takers-ring_example : takers 3 1 schedule ≡ ring 3 1 (length (takers 3 1 schedule))
takers-ring_example = takers-ring 3 1 schedule

Rounds-Polls_example : Polls 0 (takers 3 1 schedule)
Rounds-Polls_example = Rounds-Polls 3 1 0 schedule-Rounds (omega arith) (omega arith)
