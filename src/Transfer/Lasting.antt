-- ===== src/Transfer/Lasting.antt =====
-- On a stream that neither fails nor ends early, the read loop stops short at its end alone; and no
-- read loop adds patience.
use comm_system.Prelude.{
  ℕ, zero, suc, ◌+◌, ◌-◌, ◌≤◌, ◌<◌, ◌≡◌, refl, sym, ◌∙◌, inl, inr, List, [], ◌∷◌, length, ltb,
  ltb→lt, leb, Bool-cases, arith,
}
use comm_system.System.{eagain, eintr, other, ReadResult, got, read_failed}
use comm_system.System.Laws.{Delivers, IsReader, Hastens, IsPunctual, Flows, IsFlowing}
use comm_system.Transfer.{
  Run, returned, fault, running, Locals, step_pointer, ReadEnd, complete, peer_closed, broken,
  after_read, read_loop,
}

Flows-of_pos :
    {W : Type 0} {call : ℕ → W → ReadResult × W} {incoming : W → List ℕ}
    → IsFlowing call incoming
    → (n : ℕ) (w : W) → 0 < n
    → Flows incoming w (call n w)
Flows-of_pos law zero w h = absurd (omega arith)
Flows-of_pos law (suc n) w h = law.flows n w

module _ {W : Type 0} (incoming : W → List ℕ) (tot_len : ℕ) where
  -- The loop does not end on an error, and ends early at the end of the stream alone.
  abbrev pub Lasts : Run (ReadEnd × List ℕ) W → Type 0
  Lasts (returned (complete n, m) w) = Unit
  Lasts (returned (peer_closed, m) w) = incoming w ≡ []
  Lasts (returned (broken, m) w) = ⊥
  Lasts fault = Unit
  Lasts running = Unit

  after_read-Lasts :
      (again : List ℕ → Locals → W → Run (ReadEnd × List ℕ) W)
      → ((m : List ℕ) (s : Locals) (w : W) → s.len ≡ tot_len - s.count → Lasts (again m s w))
      → (m : List ℕ) (s : Locals) (w : W) (r : ReadResult × W) → s.len ≡ tot_len - s.count
      → Delivers incoming s.len w r
      → Flows incoming w r
      → Lasts (after_read again m tot_len s r)
  unfolding after_read
  after_read-Lasts again go m s w (got [], w') e d h = sym d.1 ∙ h
  after_read-Lasts again go m s w (got (b ∷ bytes), w') e d h = go _ _ w' refl
  after_read-Lasts again go m s w (read_failed eagain, w') e d h = go m _ w' e
  after_read-Lasts again go m s w (read_failed eintr, w') e d h = go m _ w' e
  after_read-Lasts again go m s w (read_failed (other n), w') e d h = absurd h

  pub read_loop-Lasts :
      (fuel : ℕ) (call : ℕ → W → ReadResult × W) (m : List ℕ) (s : Locals) (w : W)
      → IsReader call incoming
      → IsFlowing call incoming
      → s.len ≡ tot_len - s.count
      → Lasts (read_loop fuel call m tot_len s w)
  unfolding read_loop
  read_loop-Lasts zero call m s w law open_ e = tt
  read_loop-Lasts (suc fuel) call m s w law open_ e = elim (Bool-cases (ltb s.count tot_len)) [
    | inl more ↦ elim (Bool-cases (leb (s.pointer + s.moved + s.len) (length m))) [
      | inl room ↦
          let lt = ltb→lt _ _ more in
          rw (more, Lasts)
            (rw (room, Lasts)
              (after_read-Lasts (λ m'. read_loop fuel call m' tot_len)
                (λ m' s' w' e'. read_loop-Lasts fuel call m' s' w' law open_ e') m (step_pointer s)
                w _ e (law.delivers _ w) (Flows-of_pos open_ s.len w (omega arith))))
      | inr past ↦ rw (more, Lasts) (rw (past, Lasts) tt)
    ]
    | inr done ↦ rw (done, Lasts) tt
  ]

-- At most `bound` patience is left.
abbrev pub Calms : {W : Type 0} {A : Type 0} → (W → ℕ) → ℕ → Run A W → Type 0
Calms patience bound (returned a w) = patience w ≤ bound
Calms patience bound fault = Unit
Calms patience bound running = Unit

module _ {W : Type 0} (patience : W → ℕ) (bound tot_len : ℕ) where
  after_read-Calms :
      (again : List ℕ → Locals → W → Run (ReadEnd × List ℕ) W)
      → ((m : List ℕ) (s : Locals) (w : W)
          → patience w ≤ bound
          → Calms patience bound (again m s w))
      → (m : List ℕ) (s : Locals) (w : W) (r : ReadResult × W) → patience w ≤ bound
      → Hastens patience w r
      → Calms patience bound (after_read again m tot_len s r)
  unfolding after_read
  after_read-Calms again go m s w (got [], w') b h = omega arith
  after_read-Calms again go m s w (got (x ∷ bytes), w') b h = go _ _ w' (omega arith)
  after_read-Calms again go m s w (read_failed eagain, w') b h = go m _ w' (omega arith)
  after_read-Calms again go m s w (read_failed eintr, w') b h = go m _ w' (omega arith)
  after_read-Calms again go m s w (read_failed (other n), w') b h = omega arith

  pub read_loop-Calms :
      (fuel : ℕ) (call : ℕ → W → ReadResult × W) (m : List ℕ) (s : Locals) (w : W)
      → IsPunctual call patience
      → patience w ≤ bound
      → Calms patience bound (read_loop fuel call m tot_len s w)
  unfolding read_loop
  read_loop-Calms zero call m s w calm b = tt
  read_loop-Calms (suc fuel) call m s w calm b = elim (Bool-cases (ltb s.count tot_len)) [
    | inl more ↦ elim (Bool-cases (leb (s.pointer + s.moved + s.len) (length m))) [
      | inl room ↦
          rw (more, Calms)
            (rw (room, Calms)
              (after_read-Calms (λ m'. read_loop fuel call m' tot_len)
                (λ m' s' w' b'. read_loop-Calms fuel call m' s' w' calm b') m (step_pointer s) w _ b
                (calm.hastens _ w)))
      | inr past ↦ rw (more, Calms) (rw (past, Calms) tt)
    ]
    | inr done ↦ rw (done, Calms) b
  ]
