-- ===== src/Turn.antt =====
-- comm_get_worker_index of comm_server.c: the workers take turns at the queue, by the global
-- `cur_worker_index`, which each call reads and moves under `global_cur_worker_lock`. A call is
-- therefore one step; a schedule is the order in which the workers of one server make their calls.
pub mod Robin
use comm_system.Prelude.{
  ℕ, zero, suc, ◌+◌, ◌%◌, ◌<◌, ◌≡◌, ◌⊎◌, Bool, List, [], ◌∷◌, ◌++◌, ◌==◌, if◌then◌else◌,
}

-- The members of comm_worker_info_t that the turns are about.
pub record CommWorkerInfo : Type 0 where
  pub worker_index : ℕ
  pub num_workers : ℕ

-- The index that is returned, and `cur_worker_index` afterwards.
unfoldable pub comm_get_worker_index : CommWorkerInfo → (cur_worker_index : ℕ) → ℕ × ℕ
comm_get_worker_index worker_data cur =
    (cur, if worker_data.worker_index == cur then (cur + 1) % worker_data.num_workers else cur)

abbrev pub worker : ℕ → ℕ → CommWorkerInfo
worker n i = record { worker_index = i; num_workers = n }

-- `if(worker_index == worker_data->worker_index)`: whether the call gives the worker its turn.
abbrev pub has_turn : CommWorkerInfo → ℕ → Bool
has_turn worker_data cur = (comm_get_worker_index worker_data cur).0 == worker_data.worker_index

-- The workers that get a turn, in order, while those of a schedule make their calls.
unfoldable pub takers : (n cur : ℕ) → List ℕ → List ℕ
takers n cur [] = []
takers n cur (i ∷ schedule) =
    let rest = takers n (comm_get_worker_index (worker n i) cur).1 schedule in
    if has_turn (worker n i) cur then i ∷ rest else rest

-- The `k` workers from `cur` on, round the ring of `n`.
unfoldable pub ring : (n cur k : ℕ) → List ℕ
ring n cur zero = []
ring n cur (suc k) = cur ∷ ring n ((cur + 1) % n) k

-- Every worker of the ring makes a call.
abbrev pub Polls : ℕ → List ℕ → Type 0
Polls i [] = ⊥
Polls i (j ∷ schedule) = (i ≡ j) ⊎ Polls i schedule

abbrev pub IsRound : ℕ → List ℕ → Type 0
IsRound n schedule = (i : ℕ) → i < n → Polls i schedule

-- Schedules in which everybody has called `k` times over.
pub data Rounds (n : ℕ) : ℕ → List ℕ → Type 0 where
  none : {schedule : List ℕ} → Rounds n zero schedule
  one_more :
      {k : ℕ} (first : List ℕ) {rest : List ℕ}
      → IsRound n first
      → Rounds n k rest
      → Rounds n (suc k) (first ++ rest)
