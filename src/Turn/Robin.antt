-- ===== src/Turn/Robin.antt =====
-- The turns go round, and everybody gets one.
use comm_system.Prelude.{
  ℕ, zero, suc, ◌+◌, ◌-◌, ◌%◌, ◌≤◌, ◌<◌, ◌≡◌, ◌≢◌, refl, sym, ap, ◌∙◌, ◌⊎◌, inl, inr, List, [], ◌∷◌,
  ◌++◌, length, ◌==◌, leb, Bool-cases, arith, ==→eq,
}
use native.Mathlib.Nat.{add-zero, mod-eq_of_lt, mod-add-mod, add-mod_right}
use comm_system.Turn.{
  CommWorkerInfo, comm_get_worker_index, takers, ring, Polls, Rounds, none, one_more,
}

-- If the global index is below the number of workers before a call of comm_get_worker_index, then
-- the index that is returned and the global index afterwards are below it too.
comm_get_worker_index-lt :
    (worker_data : CommWorkerInfo) (cur : ℕ)
    → cur < worker_data.num_workers
    → ((comm_get_worker_index worker_data cur).0 < worker_data.num_workers)
      × ((comm_get_worker_index worker_data cur).1 < worker_data.num_workers)
unfolding comm_get_worker_index
comm_get_worker_index-lt d cur lt = (lt, ground (arith, next_lt))
  where
    next_lt : (cur + 1) % d.num_workers < d.num_workers
    next_lt = omega arith

pub takers_nil : (n cur : ℕ) → takers n cur [] ≡ []
unfolding takers
takers_nil n cur = refl

pub takers_own :
    (n cur i : ℕ) (schedule : List ℕ)
    → i ≡ cur
    → takers n cur (i ∷ schedule) ≡ cur ∷ takers n ((cur + 1) % n) schedule
unfolding takers comm_get_worker_index
takers_own n cur i schedule e = ground arith

pub takers_other :
    (n cur i : ℕ) (schedule : List ℕ)
    → i ≢ cur
    → takers n cur (i ∷ schedule) ≡ takers n cur schedule
unfolding takers comm_get_worker_index
takers_other n cur i schedule ne = ground arith

-- For any schedule of calls of the workers of one server, the workers that get a turn are, in
-- order, those of the ring from the current index on: nobody is passed over and nobody comes twice
-- in one round.
pub takers-ring :
    (n cur : ℕ) (schedule : List ℕ)
    → takers n cur schedule ≡ ring n cur (length (takers n cur schedule))
unfolding ring
takers-ring n cur [] = rw (takers_nil n cur) refl
takers-ring n cur (i ∷ schedule) = elim (Bool-cases (i == cur)) [
  | inl mine ↦
      rw (takers_own n cur i schedule (==→eq _ _ mine))
        (ap (λ l. cur ∷ l) (takers-ring n ((cur + 1) % n) schedule))
  | inr other ↦
      let ne : i ≢ cur = ground arith in
      rw (takers_other n cur i schedule ne) (takers-ring n cur schedule)
]

-- More calls before the last ones make no fewer turns.
takers-append-le :
    (n k : ℕ) (rest : List ℕ)
    → ((c : ℕ) → c < n → k ≤ length (takers n c rest))
    → (first : List ℕ) (cur : ℕ) → cur < n
    → k ≤ length (takers n cur (first ++ rest))
takers-append-le n k rest many [] cur lt = many cur lt
takers-append-le n k rest many (i ∷ first) cur lt = elim (Bool-cases (i == cur)) [
  | inl mine ↦
      rw (takers_own n cur i (first ++ rest) (==→eq _ _ mine))
        (omega (arith, takers-append-le n k rest many first ((cur + 1) % n) (omega arith)))
  | inr other ↦
      let ne : i ≢ cur = ground arith in
      rw (takers_other n cur i (first ++ rest) ne) (takers-append-le n k rest many first cur lt)
]

-- A round in which the worker that has the turn calls makes one turn more.
takers-round :
    (n k : ℕ) (rest : List ℕ)
    → ((c : ℕ) → c < n → k ≤ length (takers n c rest))
    → (first : List ℕ) (cur : ℕ) → cur < n
    → Polls cur first
    → suc k ≤ length (takers n cur (first ++ rest))
takers-round n k rest many [] cur lt p = absurd p
takers-round n k rest many (i ∷ first) cur lt p = elim (Bool-cases (i == cur)) [
  | inl mine ↦
      rw (takers_own n cur i (first ++ rest) (==→eq _ _ mine))
        (omega (arith, takers-append-le n k rest many first ((cur + 1) % n) (omega arith)))
  | inr other ↦
      let ne : i ≢ cur = ground arith in
      rw (takers_other n cur i (first ++ rest) ne)
        (takers-round n k rest many first cur lt (later p ne))
]
  where
    later : (cur ≡ i) ⊎ Polls cur first → i ≢ cur → Polls cur first
    later (inl e) ne = absurd (ne (sym e))
    later (inr q) ne = q

takers-Rounds :
    {n k : ℕ} {schedule : List ℕ}
    → Rounds n k schedule
    → (cur : ℕ) → cur < n
    → k ≤ length (takers n cur schedule)
takers-Rounds none cur lt = omega arith
takers-Rounds (one_more {k} first {rest} all more) cur lt =
    takers-round _ k rest (takers-Rounds more) first cur lt (all cur lt)

ring-Polls : (n cur k t : ℕ) → cur < n → t < k → Polls ((cur + t) % n) (ring n cur k)
unfolding ring
ring-Polls n cur zero t lt h = absurd (omega arith)
ring-Polls n cur (suc k) zero lt h = inl (ap (λ m. m % n) (add-zero cur) ∙ mod-eq_of_lt lt)
ring-Polls n cur (suc k) (suc t) lt h =
    inr (rw shift at (ring-Polls n ((cur + 1) % n) k t (omega arith) (omega arith)))
  where
    shift : ((cur + 1) % n + t) % n ≡ (cur + suc t) % n
    shift = mod-add-mod (cur + 1) n t ∙ ap (λ m. m % n) (omega arith)

-- Some step of the ring leads from `cur` to `j`.
ring_step : (n cur j : ℕ) → cur < n → j < n → (t : ℕ) × (t < n) × ((cur + t) % n ≡ j)
ring_step n cur j lc lj = elim (Bool-cases (leb cur j)) [
  | inl up ↦
      let le : cur ≤ j = ground arith in
      let sum : cur + (j - cur) ≡ j = omega arith in
      (j - cur, omega arith, ap (λ m. m % n) sum ∙ mod-eq_of_lt lj)
  | inr down ↦
      let lt : j < cur = ground arith in
      let sum : cur + (j + n - cur) ≡ j + n = omega arith in
      (j + n - cur, omega arith, ap (λ m. m % n) sum ∙ add-mod_right j n ∙ mod-eq_of_lt lj)
]

-- No worker starves: in a schedule in which each of the `n` workers of the only server has made
-- calls in each of `n` successive stretches, in whatever order and how often, every worker has had
-- a turn at the queue, wherever the index stood at the start below `n`.
pub Rounds-Polls :
    (n cur j : ℕ) {schedule : List ℕ}
    → Rounds n n schedule
    → cur < n
    → j < n
    → Polls j (takers n cur schedule)
Rounds-Polls n cur j {schedule} rounds lc lj =
    let (t, lt, e) = ring_step n cur j lc lj in
    let many = takers-Rounds rounds cur lc in
    rw (takers-ring n cur schedule)
      (rw e at (ring-Polls n cur (length (takers n cur schedule)) t lc (omega arith)))
