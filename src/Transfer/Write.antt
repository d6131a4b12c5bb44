-- ===== src/Transfer/Write.antt =====
-- What the write loop puts on the stream.
use comm_system.Prelude.{
  ℕ, zero, suc, ◌+◌, ◌-◌, ◌≤◌, ◌<◌, ◌≡◌, refl, ap, ◌∙◌, inl, inr, some, List, ◌++◌, append_assoc,
  append-nil, length, take, drop, length-take, take-add, take-take, ltb, ltb→lt, tests, Bool-cases,
  arith, ℤ, pos, negsuc,
}
use comm_system.System.{eagain, eintr, other, WriteResult, wrote, write_failed}
use comm_system.System.Laws.{Accepts, IsWriter}
use comm_system.Transfer.{
  Run, returned, fault, running, slice, Locals, start, step_pointer, after_write, write_bytes,
  write_loop,
}

-- The locals of a loop over `tot_len` bytes, between two rounds, where it has returned `ret` before.
pub record IsRound (tot_len ret : ℕ) (s : Locals) : Type 0 where
  pub at_count : s.pointer + s.moved ≡ s.count
  pub rest : s.len ≡ tot_len - s.count
  pub within : s.count ≤ tot_len
  pub counted : s.ret ≡ ret + s.count

pub start-IsRound : (tot_len ret : ℕ) → IsRound tot_len ret (start tot_len ret)
start-IsRound tot_len ret = omega arith

-- A slice that lies inside its object.
pub slice_of_le :
    (memory : List ℕ) (p len : ℕ)
    → p + len ≤ length memory
    → slice memory p len ≡ some (take len (drop p memory))
slice_of_le memory p len h = ground arith

-- A round whose buffer lies inside the object makes its call on the bytes that are left.
pub write_bytes_of_le :
    {W : Type 0} (again : Locals → W → Run ℤ W) (call : List ℕ → W → WriteResult × W)
    (memory : List ℕ) (tot_len ret : ℕ) (s : Locals) (w : W)
    → IsRound tot_len ret s
    → tot_len ≤ length memory
    → write_bytes again call tot_len (step_pointer s) (slice memory (s.pointer + s.moved) s.len) w
      ≡ after_write again tot_len (step_pointer s) (call (take s.len (drop s.count memory)) w)
unfolding write_bytes
write_bytes_of_le again call memory tot_len ret s w v fits =
    ap (λ o. write_bytes again call tot_len (step_pointer s) o w)
      (slice_of_le memory (s.pointer + s.moved) s.len (omega arith))
    ∙ ap (λ c. after_write again tot_len (step_pointer s) (call (take s.len (drop c memory)) w))
        v.at_count

module _ {W : Type 0} (outgoing : W → List ℕ) (before memory : List ℕ) (tot_len ret : ℕ) where
  -- All `tot_len` bytes went out and are counted; or an error came after fewer.
  abbrev pub Wrote : Run ℤ W → Type 0
  Wrote (returned (pos n) w) = (n ≡ ret + tot_len) × (outgoing w ≡ before ++ take tot_len memory)
  Wrote (returned (negsuc e) w) =
      (m : ℕ) × (e ≡ 0) × (m < tot_len) × (outgoing w ≡ before ++ take m memory)
  Wrote fault = ⊥
  Wrote running = Unit

  -- The first `count` bytes are out.
  abbrev pub Out : Locals → W → Type 0
  Out s w = outgoing w ≡ before ++ take s.count memory

  Out-wrote :
      (c n k : ℕ) {w w' : W}
      → n ≤ k
      → outgoing w ≡ before ++ take c memory
      → outgoing w' ≡ outgoing w ++ take n (take k (drop c memory))
      → outgoing w' ≡ before ++ take (c + n) memory
  Out-wrote c n k h o e =
      e ∙ rw (o, take-take n k (drop c memory) h, append_assoc, ← take-add c n memory)

  after_write-Wrote :
      (again : Locals → W → Run ℤ W)
      → ((s : Locals) (w : W) → IsRound tot_len ret s → Out s w → Wrote (again s w))
      → (s : Locals) (w : W) (r : WriteResult × W) → IsRound tot_len ret s
      → Out s w
      → s.count < tot_len
      → tot_len ≤ length memory
      → Accepts outgoing (take s.len (drop s.count memory)) w r
      → Wrote (after_write again tot_len (step_pointer s) r)
  unfolding after_write
  after_write-Wrote again go s w (wrote zero, w') v o lt fits a =
      go _ w' (omega arith) (a.1 ∙ rw (append-nil, o))
  after_write-Wrote again go s w (wrote (suc n), w') v o lt fits a =
      let short = length-take s.len (drop s.count memory) in
      let far : suc n ≤ s.len = omega arith in
      go _ w' (omega arith) (Out-wrote s.count (suc n) s.len far o a.1)
  after_write-Wrote again go s w (write_failed eagain, w') v o lt fits a =
      go _ w' (omega arith) (a ∙ o)
  after_write-Wrote again go s w (write_failed eintr, w') v o lt fits a =
      go _ w' (omega arith) (a ∙ o)
  after_write-Wrote again go s w (write_failed (other e), w') v o lt fits a =
      (s.count, refl, lt, a ∙ o)

  pub write_loop-Wrote :
      (fuel : ℕ) (call : List ℕ → W → WriteResult × W) (s : Locals) (w : W)
      → IsWriter call outgoing
      → IsRound tot_len ret s
      → Out s w
      → tot_len ≤ length memory
      → Wrote (write_loop fuel call memory tot_len s w)
  unfolding write_loop write_bytes
  write_loop-Wrote zero call s w law v o fits = tt
  write_loop-Wrote (suc fuel) call s w law v o fits = elim (Bool-cases (ltb s.count tot_len)) [
    | inl more ↦
        rw (more, Wrote)
          (rw
            (write_bytes_of_le (write_loop fuel call memory tot_len) call memory tot_len ret s w v
              fits)
            (after_write-Wrote (write_loop fuel call memory tot_len)
              (λ s' w' v' o'. write_loop-Wrote fuel call s' w' law v' o' fits) s w _ v o
              (ltb→lt _ _ more) fits (law.accepts _ w)))
    | inr done ↦
        let all : s.count ≡ tot_len = omega (tests, v.within) in
        rw (done, Wrote) (omega (arith, v.counted), rw (← all) o)
  ]
