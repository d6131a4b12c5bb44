-- ===== src/Transfer/Read.antt =====
-- What the read loop takes off the stream and stores, and that it ends.
use comm_system.Prelude.{
  ℕ, zero, suc, ◌+◌, ◌-◌, ◌≤◌, ◌<◌, ◌≡◌, refl, sym, ap, ◌∙◌, inl, inr, true, List, [], ◌∷◌, ◌++◌,
  append_assoc, length, length-append, length-drop, drop, take-append, drop-append, drop-add, ltb,
  ltb→lt, leb, le→leb, tests, Bool-cases, arith,
}
use comm_system.System.{eagain, eintr, other, ReadResult, got, read_failed}
use comm_system.System.Laws.{Delivers, IsReader, Hastens, IsPunctual}
use comm_system.Transfer.{
  Run, returned, fault, running, Locals, start, step_pointer, progress, ReadEnd, complete, store,
  after_read, read_loop,
}
use comm_system.Transfer.Write.{IsRound, start-IsRound}

-- What a store leaves where the bytes before it are `front`.
store-append :
    (front memory new : List ℕ) (c : ℕ)
    → length front ≡ c
    → store (front ++ drop c memory) c new ≡ (front ++ new) ++ drop (c + length new) memory
store-append front memory new c e = rw (
  ← e,
  take-append front (drop (length front) memory),
  drop-add (length front) (length new) (front ++ drop (length front) memory),
  drop-append front (drop (length front) memory),
  ← drop-add (length front) (length new) memory,
  append_assoc,
)

module _ {W : Type 0} (incoming : W → List ℕ) (before memory : List ℕ) (tot_len ret : ℕ) where
  -- `front` is off the stream and stands at the start of the object; the rest is as it was.
  pub record HasRead (front m : List ℕ) (w : W) : Type 0 where
    pub taken : before ≡ front ++ incoming w
    pub stored : m ≡ front ++ drop (length front) memory

  -- All bytes came and are counted; or the loop stopped short, at the end of the stream or on an
  -- error, with what came stored.
  abbrev pub Reads : Run (ReadEnd × List ℕ) W → Type 0
  Reads (returned (complete n, m) w) =
      (front : List ℕ) × (n ≡ ret + tot_len) × (length front ≡ tot_len) × HasRead front m w
  Reads (returned (_, m) w) = (front : List ℕ) × (length front < tot_len) × HasRead front m w
  Reads fault = ⊥
  Reads running = ⊥

  HasRead-stay :
      {front m : List ℕ} {w w' : W}
      → incoming w' ≡ incoming w
      → HasRead front m w
      → HasRead front m w'
  HasRead-stay {front} same held = record {
    taken = held.taken ∙ ap (λ l. front ++ l) (sym same);
    stored = held.stored;
  }

  -- Between two rounds.
  record Inv (s : Locals) (front m : List ℕ) (w : W) : Type 0 where
    round : IsRound tot_len ret s
    so_far : length front ≡ s.count
    held : HasRead front m w

  after_read-Reads :
      (patience : W → ℕ) (fuel : ℕ) (again : List ℕ → Locals → W → Run (ReadEnd × List ℕ) W)
      → ((front m : List ℕ) (s : Locals) (w : W)
          → Inv s front m w
          → patience w + (tot_len - s.count) < fuel
          → Reads (again m s w))
      → (front m : List ℕ) (s : Locals) (w : W) (r : ReadResult × W) → Inv s front m w
      → patience w + (tot_len - s.count) < suc fuel
      → s.count < tot_len
      → Delivers incoming s.len w r
      → Hastens patience w r
      → Reads (after_read again m tot_len (step_pointer s) r)
  unfolding after_read
  after_read-Reads patience fuel again go front m s w (got [], w') v few lt d h = (
    front,
    omega (arith, v.so_far),
    record { taken = v.held.taken ∙ ap (λ l. front ++ l) d.1; stored = v.held.stored },
  )
  after_read-Reads patience fuel again go front m s w (got (b ∷ bytes), w') v few lt d h =
      let new = b ∷ bytes in
      let len = length-append front new in
      let n = v.so_far in
      let round : IsRound tot_len ret (progress tot_len (step_pointer s) (length new)) =
        omega (arith, v.round) in
      go (front ++ new) _ _ w'
        (record {
          round = round;
          so_far = omega (arith, n, len);
          held = record {
            taken =
                v.held.taken
                ∙ ap (λ l. front ++ l) d.1
                ∙ sym (append_assoc front new (incoming w'));
            stored =
                ap (λ l. store l (s.pointer + s.moved) new) v.held.stored
                ∙ ap (λ c. store (front ++ drop (length front) memory) c new)
                    (v.round.at_count ∙ sym n)
                ∙ store-append front memory new (length front) refl
                ∙ ap (λ c. (front ++ new) ++ drop c memory) (sym len);
          };
        })
        (omega (arith, few, h, lt))
  after_read-Reads patience fuel again go front m s w (read_failed eagain, w') v few lt d h =
      go front m _ w'
        (record { round = omega (arith, v.round); so_far = v.so_far; held = HasRead-stay d v.held })
        (omega arith)
  after_read-Reads patience fuel again go front m s w (read_failed eintr, w') v few lt d h =
      go front m _ w'
        (record { round = omega (arith, v.round); so_far = v.so_far; held = HasRead-stay d v.held })
        (omega arith)
  after_read-Reads patience fuel again go front m s w (read_failed (other e), w') v few lt d h =
      (front, omega (arith, v.so_far), HasRead-stay d v.held)

  read_loop-Reads :
      (patience : W → ℕ) (fuel : ℕ) (call : ℕ → W → ReadResult × W) (front m : List ℕ) (s : Locals)
      (w : W)
      → IsReader call incoming
      → IsPunctual call patience
      → Inv s front m w
      → tot_len ≤ length memory
      → patience w + (tot_len - s.count) < fuel
      → Reads (read_loop fuel call m tot_len s w)
  unfolding read_loop
  read_loop-Reads patience zero call front m s w law calm v fits few = absurd (omega arith)
  read_loop-Reads patience (suc fuel) call front m s w law calm v fits few =
      elim (Bool-cases (ltb s.count tot_len)) [
        | inl more ↦
            let size = ap length v.held.stored in
            let parts = length-append front (drop (length front) memory) in
            let left = length-drop (length front) memory in
            let room : leb (s.pointer + s.moved + s.len) (length m) ≡ true =
              le→leb _ _ (omega (tests, v.round, v.so_far, size, parts, left)) in
            rw (more, Reads)
              (rw (room, Reads)
                (after_read-Reads patience fuel (λ m'. read_loop fuel call m' tot_len)
                  (λ front' m' s' w' v' few'.
                    read_loop-Reads patience fuel call front' m' s' w' law calm v' fits few')
                  front m s w _ v few (ltb→lt _ _ more) (law.delivers _ w) (calm.hastens _ w)))
        | inr done ↦
            rw (done, Reads)
              (front, omega (tests, v.round), omega (tests, v.round, v.so_far), v.held)
      ]

  -- A read loop over an object of at least `tot_len` bytes.
  pub read_all-Reads :
      (patience : W → ℕ) (fuel : ℕ) (call : ℕ → W → ReadResult × W) (w : W)
      → IsReader call incoming
      → IsPunctual call patience
      → before ≡ incoming w
      → tot_len ≤ length memory
      → patience w + tot_len < fuel
      → Reads (read_loop fuel call memory tot_len (start tot_len ret) w)
  read_all-Reads patience fuel call w law calm e fits few =
      read_loop-Reads patience fuel call [] memory (start tot_len ret) w law calm
        (record {
          round = start-IsRound tot_len ret;
          so_far = refl;
          held = record { taken = e; stored = refl };
        })
        fits (omega arith)
