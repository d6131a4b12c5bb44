-- ===== src/Accept/Backlog.antt =====
-- Every waiting connection is queued, in the order of arrival.
use mathlib.Core.List.{reverse_aux}
use mathlib.Core.Path.{subst}
use comm_system.Prelude.{
  ℕ, zero, suc, ◌<◌, ◌≡◌, ◌≢◌, ◌⊎◌, refl, sym, ap, ◌∙◌, inl, inr, false, Option, none, some, List,
  [], ◌∷◌, ◌++◌, append_assoc, append-nil, length, ◌==◌, Bool-cases, arith, ℤ, pos, negsuc,
}
use comm_system.System.{Errno, eagain, eintr, other}
use comm_system.Transfer.{Run, returned, fault, running, and_then}
use comm_system.Queue.{Ptr, null, CommQueueEntry, Heap, Shared, update}
use comm_system.Queue.Segments.{Cell, entry, has, Seg-update}
use comm_system.Queue.Fifo.{Holds, comm_queue_insert-Holds}
use comm_system.Queue.Chains.{has-unused}
use comm_system.Accept.{
  AcceptResult, accepted, accept_failed, Sockets, behind_setfl, behind_getfl,
  comm_make_socket_non_blocking, queue_connection, take_in, behind_accept, accept_all,
}

has-append :
    (a : Ptr) (xs ys : List Cell) → has a xs ≡ false → has a ys ≡ false → has a (xs ++ ys) ≡ false
has-append a [] ys h k = k
has-append a ((b, fd) ∷ xs) ys h k = let rest = has-append a xs ys (ground arith) k in ground arith

has-reverse_aux-false :
    (a : Ptr) (xs ys : List Cell)
    → has a xs ≡ false
    → has a ys ≡ false
    → has a (reverse_aux xs ys) ≡ false
has-reverse_aux-false a [] ys h k = k
has-reverse_aux-false a ((b, fd) ∷ xs) ys h k =
    has-reverse_aux-false a xs ((b, fd) ∷ ys) (ground arith) (ground arith)

-- The connections of the entries.
abbrev pub fds : List Cell → List ℕ
fds [] = []
fds ((a, fd) ∷ xs) = fd ∷ fds xs

module _ {W : Type 0} (sockets : Sockets W) (backlog : W → List ℕ) where
  open sockets use {accept, fcntl_getfl, fcntl_setfl, setsockopt_nodelay, malloc_entry}

  -- `accept` takes the first waiting connection; with EAGAIN there is none, and with any other error
  -- those that wait go on waiting.
  abbrev pub Accepts : W → AcceptResult × W → Type 0
  Accepts w (accepted infd, w') = backlog w ≡ infd ∷ backlog w'
  Accepts w (accept_failed eagain, w') = (backlog w ≡ []) × (backlog w' ≡ [])
  Accepts w (accept_failed e, w') = backlog w' ≡ backlog w

  -- No connection waits, or accept has failed with another error than EAGAIN, and those that waited
  -- then are those that wait.
  abbrev pub Rests : W → Type 0
  Rests w =
      (backlog w ≡ [])
      ⊎ ((v : W) × (e : Errno) × (v' : W) × (e ≢ eagain)
          × (accept v ≡ (accept_failed e, v'))
          × (backlog w ≡ backlog v'))

  -- `malloc` gives NULL, or a block that is not in use and not NULL.
  abbrev pub Allocates : Heap → W → Option (Ptr × Ptr) × W → Type 0
  Allocates heap w (none, w') = Unit
  Allocates heap w (some (p, junk), w') = (p ≢ null) × (heap p ≡ none) × (backlog w' ≡ backlog w)

  -- The connections that wait and can be accepted are those of `backlog`, and the other calls leave
  -- them alone.
  pub record IsListening : Type 0 where
    pub accepts : (w : W) → Accepts w (accept w)
    pub getfl_quiet : (fd : ℕ) (w : W) → backlog (fcntl_getfl fd w).1 ≡ backlog w
    pub setfl_quiet : (fd : ℕ) (flags : ℤ) (w : W) → backlog (fcntl_setfl fd flags w).1 ≡ backlog w
    pub setsockopt_quiet : (fd : ℕ) (w : W) → backlog (setsockopt_nodelay fd w) ≡ backlog w
    pub allocates : (heap : Heap) (w : W) → Allocates heap w (malloc_entry heap w)

  -- Some call of `malloc` gives NULL.
  abbrev pub Exhausted : Type 0
  Exhausted = (heap : Heap) × (w : W) × (w' : W) × (malloc_entry heap w ≡ (none, w'))

  behind_setfl-backlog : (r : ℤ × W) → backlog (behind_setfl sockets r).1 ≡ backlog r.1
  unfolding behind_setfl
  behind_setfl-backlog (pos n, w) = refl
  behind_setfl-backlog (negsuc n, w) = refl

  module _ (law : IsListening) where
    behind_getfl-backlog :
        (fd : ℕ) (r : ℤ × W) → backlog (behind_getfl sockets fd r).1 ≡ backlog r.1
    unfolding behind_getfl
    behind_getfl-backlog fd (pos flags, w) = behind_setfl-backlog _ ∙ law.setfl_quiet fd _ w
    behind_getfl-backlog fd (negsuc n, w) = elim (Bool-cases (n == 0)) [
      | inl failed ↦ rw failed refl
      | inr flags ↦ rw flags (behind_setfl-backlog _ ∙ law.setfl_quiet fd _ w)
    ]

    non_blocking-backlog :
        (fd : ℕ) (w : W) → backlog (comm_make_socket_non_blocking sockets fd w).1 ≡ backlog w
    unfolding comm_make_socket_non_blocking
    non_blocking-backlog fd w = behind_getfl-backlog fd (fcntl_getfl fd w) ∙ law.getfl_quiet fd w

    -- A new block is in no stack, and filling it in leaves the queue as it was.
    Holds-unused :
        (xs : List Cell) (s : Shared) (p : Ptr) (e : CommQueueEntry)
        → Holds xs s
        → s.heap p ≡ none
        → (has p xs ≡ false) × Holds xs (record s { heap = update s.heap p e })
    Holds-unused xs s p e (ins, outs, q, order) unused =
        let not_in = has-unused s.heap p _ ins unused q.in_chain in
        let not_out = has-unused s.heap p _ outs unused q.out_chain in
        (
          ap (has p) order
              ∙ has-append p outs (reverse_aux ins []) not_out
                  (has-reverse_aux-false p ins [] not_in refl),
          (
            ins,
            outs,
            record {
              in_chain = Seg-update s.heap p e _ ins not_in q.in_chain;
              out_chain = Seg-update s.heap p e _ outs not_out q.out_chain;
              apart = q.apart;
            },
            order,
          ),
        )

    abbrev TakesIn : List Cell → ℕ → W → Run (Unit {0}) (Shared × W) → Type 0
    TakesIn xs infd w (returned done (s', w')) =
        (p : Ptr) × Holds (xs ++ (p, infd) ∷ []) s' × (backlog w' ≡ backlog w)
    TakesIn xs infd w fault = Exhausted
    TakesIn xs infd w running = ⊥

    queue_connection-TakesIn :
        (xs : List Cell) (infd : ℕ) (s : Shared) (w : W) (r : Option (Ptr × Ptr) × W)
        → Holds xs s
        → Allocates s.heap w r
        → malloc_entry s.heap w ≡ r
        → TakesIn xs infd w (queue_connection sockets infd s r)
    unfolding queue_connection
    queue_connection-TakesIn xs infd s w (none, w') h a e = (s.heap, w, w', e)
    queue_connection-TakesIn xs infd s w (some (p, junk), w') h (real, unused, quiet) e =
        let (new, h') = Holds-unused xs s p (entry infd junk) h unused in
        let (s', run, held) =
          comm_queue_insert-Holds p infd xs _ h'
            (record { real = real; link = junk; holds = ground arith; new = new }) in
        rw (run, TakesIn) (p, held, quiet)

    TakesIn-backlog :
        (xs : List Cell) (infd : ℕ) (w w' : W) (r : Run (Unit {0}) (Shared × W))
        → backlog w ≡ backlog w'
        → TakesIn xs infd w r
        → TakesIn xs infd w' r
    TakesIn-backlog xs infd w w' (returned done (s', v)) e (p, held, quiet) = (p, held, quiet ∙ e)
    TakesIn-backlog xs infd w w' fault e h = h
    TakesIn-backlog xs infd w w' running e h = h

    take_in-TakesIn :
        (xs : List Cell) (infd : ℕ) (s : Shared) (w : W)
        → Holds xs s
        → TakesIn xs infd w (take_in sockets infd s w)
    unfolding take_in
    take_in-TakesIn xs infd s w h =
        let w' : W = setsockopt_nodelay infd (comm_make_socket_non_blocking sockets infd w).1 in
        TakesIn-backlog xs infd w' w _ (law.setsockopt_quiet infd _ ∙ non_blocking-backlog infd w)
          (queue_connection-TakesIn xs infd s w' _ h (law.allocates s.heap w') refl)

    -- The first of those that waited are in the queue, behind what was there, and the others wait
    -- because accept failed; a fault comes of NULL alone.
    abbrev pub Empties : List Cell → List ℕ → Run (Unit {0}) (Shared × W) → Type 0
    Empties xs waiting (returned done (s', w')) =
        (ys : List Cell) × (waiting ≡ fds ys ++ backlog w') × Holds (xs ++ ys) s' × Rests w'
    Empties xs waiting fault = Exhausted
    Empties xs waiting running = ⊥

    Empties-cons :
        (xs : List Cell) (p infd : ℕ) (waiting : List ℕ) (r : Run (Unit {0}) (Shared × W))
        → Empties (xs ++ (p, infd) ∷ []) waiting r
        → Empties xs (infd ∷ waiting) r
    Empties-cons xs p infd waiting (returned done (s', w')) (ys, e, held, rests) = (
      (p, infd) ∷ ys,
      ap (λ l. infd ∷ l) e,
      subst (λ l. Holds l s') (append_assoc xs ((p, infd) ∷ []) ys) held,
      rests,
    )
    Empties-cons xs p infd waiting fault h = h
    Empties-cons xs p infd waiting running h = h

    -- The loop breaks, and nothing is queued.
    Empties-nil :
        (xs : List Cell) (waiting : List ℕ) (s : Shared) (w' : W)
        → Holds xs s
        → backlog w' ≡ waiting
        → Rests w'
        → Empties xs waiting (returned tt (s, w'))
    Empties-nil xs waiting s w' h e rests =
        ([], sym e, subst (λ l. Holds l s) (sym (append-nil xs)) h, rests)

    -- The rest of the loop behind a connection.
    again-Empties :
        (again : Shared → W → Run (Unit {0}) (Shared × W)) (fuel : ℕ)
        → ((xs : List Cell) (s : Shared) (w : W)
            → Holds xs s
            → length (backlog w) < fuel
            → Empties xs (backlog w) (again s w))
        → (xs : List Cell) (infd : ℕ) (w : W) (r : Run (Unit {0}) (Shared × W))
        → length (backlog w) < fuel
        → TakesIn xs infd w r
        → Empties xs (infd ∷ backlog w) (and_then r λ done s'. again s'.0 s'.1)
    again-Empties again fuel go xs infd w (returned done (s', w')) few (p, held, quiet) =
        Empties-cons xs p infd (backlog w) (again s' w') (
          subst (λ l. Empties (xs ++ (p, infd) ∷ []) l (again s' w')) quiet
            (go (xs ++ (p, infd) ∷ []) s' w' held (omega (arith, few, ap length quiet))))
    again-Empties again fuel go xs infd w fault few h = h
    again-Empties again fuel go xs infd w running few h = h

    behind_accept-Empties :
        (again : Shared → W → Run (Unit {0}) (Shared × W)) (fuel : ℕ)
        → ((xs : List Cell) (s : Shared) (w : W)
            → Holds xs s
            → length (backlog w) < fuel
            → Empties xs (backlog w) (again s w))
        → (xs : List Cell) (s : Shared) (w : W) (r : AcceptResult × W) → Holds xs s
        → length (backlog w) < suc fuel
        → Accepts w r
        → accept w ≡ r
        → Empties xs (backlog w) (behind_accept sockets again s r)
    unfolding behind_accept
    behind_accept-Empties again fuel go xs s w (accept_failed eagain, w') h few (here, there) e =
        Empties-nil xs (backlog w) s w' h (there ∙ sym here) (inl there)
    behind_accept-Empties again fuel go xs s w (accept_failed eintr, w') h few same e =
        Empties-nil xs (backlog w) s w' h same (inr (w, eintr, w', (λ clash. absurd cc), e, refl))
    behind_accept-Empties again fuel go xs s w (accept_failed (other n), w') h few same e =
        Empties-nil xs (backlog w) s w' h same (inr (w, other n, w', (λ clash. absurd cc), e, refl))
    behind_accept-Empties again fuel go xs s w (accepted infd, w') h few front e =
        subst (λ l. Empties xs l (behind_accept sockets again s (accepted infd, w'))) (sym front)
          (again-Empties again fuel go xs infd w' _ (omega (arith, few, ap length front))
            (take_in-TakesIn xs infd s w' h))

    -- On a listening socket on which accept takes the first waiting connection, fails with EAGAIN
    -- only when none waits, and takes none when it fails with another error, and whose other calls
    -- leave the waiting connections alone, with more fuel than connections, the acceptor's loop
    -- always comes to an end. The first of the waiting connections stand in the queue, in the order
    -- of arrival, behind the entries `xs` that were there, and those behind them go on waiting; and
    -- if any goes on waiting, a call of accept has failed with another error than EAGAIN. Or a call
    -- of malloc gives NULL, which is written through. Failures of fcntl do not matter.
    pub accept_all-Empties :
        (fuel : ℕ) (xs : List Cell) (s : Shared) (w : W)
        → Holds xs s
        → length (backlog w) < fuel
        → Empties xs (backlog w) (accept_all sockets fuel s w)
    unfolding accept_all
    accept_all-Empties zero xs s w h few = absurd (omega arith)
    accept_all-Empties (suc fuel) xs s w h few =
        behind_accept-Empties (accept_all sockets fuel) fuel (accept_all-Empties fuel) xs s w
          (accept w) h few (law.accepts w) refl
