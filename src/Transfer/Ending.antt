-- ===== src/Transfer/Ending.antt =====
-- With a peer that takes data in the end, the write loop is done after so many rounds.
use comm_system.Prelude.{
  ℕ, zero, suc, ◌+◌, ◌-◌, ◌≤◌, ◌<◌, inl, inr, List, [], ◌∷◌, length, take, drop, length-take,
  length-drop, ltb, ltb→lt, tests, Bool-cases, arith, ℤ, pos, negsuc,
}
use comm_system.System.{eagain, eintr, other, WriteResult, wrote, write_failed}
use comm_system.System.Laws.{Accepts, IsWriter, Hurries, IsPatient}
use comm_system.Transfer.{
  Run, returned, fault, running, Locals, step_pointer, after_write, write_loop,
}
use comm_system.Transfer.Write.{IsRound, write_bytes_of_le}

-- The run is done; if it did not fail, at most `bound` patience is left.
abbrev pub Ends : {W : Type 0} → (W → ℕ) → ℕ → Run ℤ W → Type 0
Ends patience bound (returned (pos n) w) = patience w ≤ bound
Ends patience bound (returned (negsuc n) w) = Unit
Ends patience bound fault = Unit
Ends patience bound running = ⊥

Hurries-of_pos :
    {W : Type 0} {call : List ℕ → W → WriteResult × W} {patience : W → ℕ}
    → IsPatient call patience
    → (bytes : List ℕ) (w : W) → 0 < length bytes
    → Hurries patience w (call bytes w)
Hurries-of_pos law [] w h = absurd (omega arith)
Hurries-of_pos law (b ∷ bytes) w h = law.hurries b bytes w

module _ {W : Type 0} (outgoing : W → List ℕ) (patience : W → ℕ) (memory : List ℕ)
    (tot_len ret bound : ℕ) where
  after_write-Ends :
      (fuel : ℕ) (again : Locals → W → Run ℤ W)
      → ((s : Locals) (w : W)
          → IsRound tot_len ret s
          → patience w + (tot_len - s.count) < fuel
          → patience w + (tot_len - s.count) ≤ bound
          → Ends patience bound (again s w))
      → (s : Locals) (w : W) (r : WriteResult × W) → IsRound tot_len ret s
      → patience w + (tot_len - s.count) < suc fuel
      → patience w + (tot_len - s.count) ≤ bound
      → s.count < tot_len
      → Accepts outgoing (take s.len (drop s.count memory)) w r
      → Hurries patience w r
      → Ends patience bound (after_write again tot_len (step_pointer s) r)
  unfolding after_write
  after_write-Ends fuel again go s w (wrote zero, w') v few low lt a h =
      go _ w' (omega arith) (omega arith) (omega arith)
  after_write-Ends fuel again go s w (wrote (suc n), w') v few low lt a h =
      let short = length-take s.len (drop s.count memory) in
      go _ w' (omega arith) (omega arith) (omega arith)
  after_write-Ends fuel again go s w (write_failed eagain, w') v few low lt a h =
      go _ w' (omega arith) (omega arith) (omega arith)
  after_write-Ends fuel again go s w (write_failed eintr, w') v few low lt a h =
      go _ w' (omega arith) (omega arith) (omega arith)
  after_write-Ends fuel again go s w (write_failed (other e), w') v few low lt a h = tt

  pub write_loop-Ends :
      (fuel : ℕ) (call : List ℕ → W → WriteResult × W) (s : Locals) (w : W)
      → IsWriter call outgoing
      → IsPatient call patience
      → IsRound tot_len ret s
      → tot_len ≤ length memory
      → patience w + (tot_len - s.count) < fuel
      → patience w + (tot_len - s.count) ≤ bound
      → Ends patience bound (write_loop fuel call memory tot_len s w)
  unfolding write_loop
  write_loop-Ends zero call s w law calm v fits few low = absurd (omega arith)
  write_loop-Ends (suc fuel) call s w law calm v fits few low =
      elim (Bool-cases (ltb s.count tot_len)) [
        | inl more ↦
            let short = length-take s.len (drop s.count memory) in
            let left = length-drop s.count memory in
            rw (more, Ends)
              (rw
                (write_bytes_of_le (write_loop fuel call memory tot_len) call memory tot_len ret s w
                  v fits)
                (after_write-Ends fuel (write_loop fuel call memory tot_len)
                  (λ s' w' v' few' low'. write_loop-Ends fuel call s' w' law calm v' fits few' low')
                  s w _ v few low (ltb→lt _ _ more) (law.accepts _ w)
                  (Hurries-of_pos calm _ w (omega (tests, v.rest)))))
        | inr done ↦ rw (done, Ends) (omega arith)
      ]
