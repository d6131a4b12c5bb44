-- ===== src/Transfer/Total.antt =====
-- The whole effect of a write loop, its end included.
use comm_system.Prelude.{
  ℕ, zero, suc, ◌+◌, ◌≤◌, ◌<◌, ◌≡◌, sym, ◌∙◌, inl, inr, Option, none, some, List, append-nil,
  length, ltb, Bool-cases, arith, ℤ, pos, negsuc,
}
use comm_system.System.{eagain, eintr, other, WriteResult, wrote, write_failed}
use comm_system.System.Laws.{IsWriter, IsPatient, Survives, IsConnected}
use comm_system.Transfer.{
  Run, returned, fault, running, Locals, start, step_pointer, after_write, write_bytes, write_loop,
  write_all,
}
use comm_system.Transfer.Write.{start-IsRound, Wrote, write_loop-Wrote}
use comm_system.Transfer.Ending.{Ends, write_loop-Ends}

-- The loop does not return -1.
abbrev pub Succeeds : {W : Type 0} → Run ℤ W → Type 0
Succeeds (returned (negsuc n) w) = ⊥
Succeeds _ = Unit

module _ {W : Type 0} (memory : List ℕ) (tot_len : ℕ) where
  after_write-Succeeds :
      (again : Locals → W → Run ℤ W)
      → ((s : Locals) (w : W) → Succeeds (again s w))
      → (s : Locals) (r : WriteResult × W) → Survives r
      → Succeeds (after_write again tot_len s r)
  unfolding after_write
  after_write-Succeeds again go s (wrote zero, w') h = go _ w'
  after_write-Succeeds again go s (wrote (suc n), w') h = go _ w'
  after_write-Succeeds again go s (write_failed eagain, w') h = go _ w'
  after_write-Succeeds again go s (write_failed eintr, w') h = go _ w'
  after_write-Succeeds again go s (write_failed (other e), w') h = absurd h

  write_bytes-Succeeds :
      (again : Locals → W → Run ℤ W)
      → ((s : Locals) (w : W) → Succeeds (again s w))
      → (call : List ℕ → W → WriteResult × W) (s : Locals) (o : Option (List ℕ)) (w : W)
      → IsConnected call
      → Succeeds (write_bytes again call tot_len s o w)
  unfolding write_bytes
  write_bytes-Succeeds again go call s none w up = tt
  write_bytes-Succeeds again go call s (some bytes) w up =
      after_write-Succeeds again go s (call bytes w) (up.survives bytes w)

  pub write_loop-Succeeds :
      (fuel : ℕ) (call : List ℕ → W → WriteResult × W) (s : Locals) (w : W)
      → IsConnected call
      → Succeeds (write_loop fuel call memory tot_len s w)
  unfolding write_loop
  write_loop-Succeeds zero call s w up = tt
  write_loop-Succeeds (suc fuel) call s w up = elim (Bool-cases (ltb s.count tot_len)) [
    | inl more ↦
        rw (more, Succeeds)
          (write_bytes-Succeeds (write_loop fuel call memory tot_len)
            (λ s' w'. write_loop-Succeeds fuel call s' w' up) call (step_pointer s) _ w up)
    | inr done ↦ rw (done, Succeeds) tt
  ]

module _ {W : Type 0} (outgoing : W → List ℕ) (before memory : List ℕ) (tot_len ret : ℕ) where
  -- The same with an end: the total specification of a write loop.
  abbrev pub Transfers : Run ℤ W → Type 0
  Transfers running = ⊥
  Transfers r = Wrote outgoing before memory tot_len ret r

  Transfers-Wrote :
      (patience : W → ℕ) (bound : ℕ) (r : Run ℤ W)
      → Wrote outgoing before memory tot_len ret r
      → Ends patience bound r
      → Transfers r
  Transfers-Wrote patience bound (returned (pos n) w) h e = h
  Transfers-Wrote patience bound (returned (negsuc n) w) h e = h
  Transfers-Wrote patience bound fault h e = h
  Transfers-Wrote patience bound running h e = absurd e

  pub write_all-Transfers :
      (patience : W → ℕ) (fuel : ℕ) (call : List ℕ → W → WriteResult × W) (w : W)
      → IsWriter call outgoing
      → IsPatient call patience
      → outgoing w ≡ before
      → tot_len ≤ length memory
      → patience w + tot_len < fuel
      → Transfers (write_all fuel call memory (pos tot_len) ret w)
        × Ends patience (patience w + tot_len) (write_all fuel call memory (pos tot_len) ret w)
  unfolding write_all
  write_all-Transfers patience fuel call w law calm o fits few =
      let v = start-IsRound tot_len ret in
      let bound = patience w + tot_len in
      let ends =
        write_loop-Ends outgoing patience memory tot_len ret bound fuel call (start tot_len ret) w
          law calm v fits (omega arith) (omega arith) in
      (
        Transfers-Wrote patience bound _
            (write_loop-Wrote outgoing before memory tot_len ret fuel call (start tot_len ret) w law
              v (o ∙ sym (append-nil before)) fits)
            ends,
        ends,
      )

pub write_all-Succeeds :
    {W : Type 0} (fuel : ℕ) (call : List ℕ → W → WriteResult × W) (memory : List ℕ)
    (tot_len ret : ℕ) (w : W)
    → IsConnected call
    → Succeeds (write_all fuel call memory (pos tot_len) ret w)
unfolding write_all
write_all-Succeeds fuel call memory tot_len ret w up =
    write_loop-Succeeds memory tot_len fuel call (start tot_len ret) w up
