-- ===== src/Serve/Draining.antt =====
-- No connection is left waiting, although the epoll set reports each only once.
use mathlib.Core.Path.{subst}
use comm_system.Prelude.{
  ℕ, zero, suc, ◌<◌, ◌≡◌, refl, sym, ap, ◌∙◌, Bool, Option, none, some, List, [], ◌∷◌, ◌++◌,
  append-nil, append_assoc, length, length-append, ◌≤◌, inl, eq→==, arith,
}
use comm_system.Transfer.{Run, returned, fault, running, and_then}
use comm_system.Queue.{Shared}
use comm_system.Queue.Segments.{Cell}
use comm_system.Queue.Fifo.{Holds}
use comm_system.Listen.{Binding}
use comm_system.Accept.{Sockets, accept_all}
use comm_system.Accept.Backlog.{IsListening, Rests, Exhausted, Empties, fds, accept_all-Empties}
use comm_system.Serve.Waking.{
  fds-append, IsReadable, AllReadable, come, Wakes, Wakes-come, Rests-backlog,
}
use comm_system.Worker.{EpollEvent}
use comm_system.Serve.{
  Watching, Watch, ServeEnd, goes_on, aborted, exits, serve_event, behind_served, serve_events,
  behind_serve_wait, serve_rounds,
}

-- What comes later, if a part of the loop goes on.
abbrev later_of : {W : Type 0} → (Shared → W → List ℕ) → Run ServeEnd (Shared × W) → List ℕ
later_of later (returned goes_on (s, w)) = later s w
later_of later (returned aborted r) = []
later_of later (returned exits r) = []
later_of later fault = []
later_of later running = []

module _ {W : Type 0} (sockets : Sockets W) (binding : Binding W) (watching : Watching W)
    (backlog : W → List ℕ) where
  open watching use {epoll_wait}

  module _ (law : IsListening sockets backlog) (fuel sfd : ℕ) where
    -- An end of a round: the first of those that waited are queued, and the others wait because
    -- accept failed; or there is no memory left.
    abbrev pub Queues : List Cell → List ℕ → Run ServeEnd (Shared × W) → Type 0
    Queues xs waiting (returned goes_on (s', w')) =
        (ys : List Cell) × (waiting ≡ fds ys ++ backlog w')
        × Holds (xs ++ ys) s'
        × Rests sockets backlog w'
    Queues xs waiting (returned _ r) = ⊥
    Queues xs waiting fault = Exhausted sockets backlog
    Queues xs waiting running = ⊥

    -- Nothing is done.
    Queues-nil :
        (xs : List Cell) (s : Shared) (w : W)
        → Holds xs s
        → Rests sockets backlog w
        → Queues xs (backlog w) (returned goes_on (s, w))
    Queues-nil xs s w h rests = ([], refl, subst (λ l. Holds l s) (sym (append-nil xs)) h, rests)

    and_then-Queues :
        (xs : List Cell) (waiting : List ℕ) (r : Run (Unit {0}) (Shared × W))
        → Empties sockets backlog law xs waiting r
        → Queues xs waiting (and_then r (λ done r'. returned goes_on r'))
    and_then-Queues xs waiting (returned done (s', w')) h = h
    and_then-Queues xs waiting fault h = h
    and_then-Queues xs waiting running h = h

    serve_event-Queues :
        (event : EpollEvent) (xs : List Cell) (s : Shared) (w : W)
        → IsReadable sockets backlog sfd event
        → Holds xs s
        → length (backlog w) < fuel
        → Queues xs (backlog w) (serve_event sockets binding watching fuel (some sfd) event s w)
    unfolding serve_event
    serve_event-Queues event xs s w (own, good) h few =
        rw (good, eq→== sfd event.fd (sym own), Queues)
          (and_then-Queues xs (backlog w) (accept_all sockets fuel s w)
            (accept_all-Empties sockets backlog law fuel xs s w h few))

    -- What is queued later stands behind.
    Queues-more :
        (xs ys : List Cell) (waiting left later : List ℕ) (r : Run ServeEnd (Shared × W))
        → waiting ≡ fds ys ++ left
        → Queues (xs ++ ys) (left ++ later) r
        → Queues xs (waiting ++ later) r
    Queues-more xs ys waiting left later (returned goes_on (s', w')) e (zs, e', held, rests) = (
      ys ++ zs,
      ap (λ l. l ++ later) e
          ∙ append_assoc (fds ys) left later
          ∙ ap (λ l. fds ys ++ l) e'
          ∙ sym (append_assoc (fds ys) (fds zs) (backlog w'))
          ∙ ap (λ l. l ++ backlog w') (sym (fds-append ys zs)),
      subst (λ l. Holds l s') (append_assoc xs ys zs) held,
      rests,
    )
    Queues-more xs ys waiting left later (returned aborted r) e h = absurd h
    Queues-more xs ys waiting left later (returned exits r) e h = absurd h
    Queues-more xs ys waiting left later fault e h = h
    Queues-more xs ys waiting left later running e h = absurd h

    behind_served-Queues :
        (again : Shared → W → Run ServeEnd (Shared × W)) (later : Shared → W → List ℕ)
        (xs : List Cell) (waiting : List ℕ)
        → ((ys : List Cell) (s : Shared) (w : W)
            → Holds ys s
            → Rests sockets backlog w
            → length (backlog w) ≤ length waiting
            → Queues ys (backlog w ++ later s w) (again s w))
        → (r : Run ServeEnd (Shared × W)) → Queues xs waiting r
        → Queues xs
            (waiting ++ later_of later r)
            (and_then r (behind_served sockets binding watching again))
    unfolding behind_served
    behind_served-Queues again later xs waiting go (returned goes_on (s', w'))
          (ys, e, held, rests) =
        Queues-more xs ys waiting (backlog w') (later s' w') (again s' w') e (
          go (xs ++ ys) s' w' held rests
            (omega (arith, ap length e, length-append (fds ys) (backlog w'))))
    behind_served-Queues again later xs waiting go (returned aborted r) h = absurd h
    behind_served-Queues again later xs waiting go (returned exits r) h = absurd h
    behind_served-Queues again later xs waiting go fault h = h
    behind_served-Queues again later xs waiting go running h = absurd h

    nothing_later : (r : Run ServeEnd (Shared × W)) → later_of (λ s w. []) r ≡ []
    nothing_later (returned goes_on r) = refl
    nothing_later (returned aborted r) = refl
    nothing_later (returned exits r) = refl
    nothing_later fault = refl
    nothing_later running = refl

    -- An event, and the rest of the batch, where nothing comes any more.
    serve_events-cons :
        (event : EpollEvent) (again : Shared → W → Run ServeEnd (Shared × W)) (xs : List Cell)
        (s : Shared) (w : W)
        → IsReadable sockets backlog sfd event
        → Holds xs s
        → length (backlog w) < fuel
        → ((ys : List Cell) (s : Shared) (w : W)
            → Holds ys s
            → Rests sockets backlog w
            → length (backlog w) < fuel
            → Queues ys (backlog w) (again s w))
        → Queues xs (backlog w) (
            and_then
              (serve_event sockets binding watching fuel (some sfd) event s w)
              (behind_served sockets binding watching again))
    serve_events-cons event again xs s w good h few go =
        let r = serve_event sockets binding watching fuel (some sfd) event s w in
        subst (λ l. Queues xs l (and_then r (behind_served sockets binding watching again)))
          (ap (λ l. backlog w ++ l) (nothing_later r) ∙ append-nil (backlog w))
          (behind_served-Queues again (λ s w. []) xs (backlog w)
            (λ ys s' w' h' rests less.
              subst (λ l. Queues ys l (again s' w')) (sym (append-nil (backlog w')))
                (go ys s' w' h' rests (omega (arith, few, less))))
            r (serve_event-Queues event xs s w good h few))

    serve_events-Rests :
        (events : List EpollEvent) (xs : List Cell) (s : Shared) (w : W)
        → AllReadable sockets backlog sfd events
        → Holds xs s
        → Rests sockets backlog w
        → length (backlog w) < fuel
        → Queues xs (backlog w) (serve_events sockets binding watching fuel (some sfd) events s w)
    unfolding serve_events
    serve_events-Rests [] xs s w ready h rests few = Queues-nil xs s w h rests
    serve_events-Rests (event ∷ events) xs s w (good, ready) h rests few =
        serve_events-cons event (serve_events sockets binding watching fuel (some sfd) events) xs s
          w good h few
          (λ ys s' w' h' rests' few'. serve_events-Rests events ys s' w' ready h' rests' few')

    behind_serve_wait-Queues :
        (xs : List Cell) (s : Shared) (w : W) (r : Option (List EpollEvent) × W)
        → Holds xs s
        → Rests sockets backlog w
        → Wakes sockets backlog sfd fuel w r
        → Queues xs (backlog r.1) (behind_serve_wait sockets binding watching fuel (some sfd) s r)
    unfolding behind_serve_wait serve_events
    behind_serve_wait-Queues xs s w (none, w') h rests e =
        Queues-nil xs s w' h (Rests-backlog sockets backlog w w' e rests)
    behind_serve_wait-Queues xs s w (some [], w') h rests e =
        Queues-nil xs s w' h (Rests-backlog sockets backlog w w' e rests)
    behind_serve_wait-Queues xs s w (some (event ∷ events), w') h rests ((good, ready), e, few) =
        serve_events-cons event (serve_events sockets binding watching fuel (some sfd) events) xs s
          w' good h few
          (λ ys s' v h' rests' few'. serve_events-Rests events ys s' v ready h' rests' few')

    module _ (efd : Option ℕ) (events : Bool) where
      abbrev watch : Watch
      watch = record { sfd = some sfd; efd = efd; events = events }

      -- The connections that come during the waits of so many rounds.
      abbrev pub arrivals : ℕ → Shared → W → List ℕ
      arrivals zero s w = []
      arrivals (suc rounds) s w =
          let r = epoll_wait efd events w in
          come sockets backlog w r.1
          ++ later_of (arrivals rounds)
              (behind_serve_wait sockets binding watching fuel (some sfd) s r)

      serve_rounds-Rests :
          (rounds : ℕ) (xs : List Cell) (s : Shared) (w : W)
          → ((w : W)
              → Rests sockets backlog w
              → Wakes sockets backlog sfd fuel w (epoll_wait efd events w))
          → Holds xs s
          → Rests sockets backlog w
          → Queues xs
              (backlog w ++ arrivals rounds s w)
              (serve_rounds sockets binding watching rounds fuel watch s w)
      unfolding serve_rounds
      serve_rounds-Rests zero xs s w wakes h rests =
          subst (λ l. Queues xs l (returned goes_on (s, w))) (sym (append-nil (backlog w)))
            (Queues-nil xs s w h rests)
      serve_rounds-Rests (suc rounds) xs s w wakes h rests =
          let r = epoll_wait efd events w in
          let served = behind_serve_wait sockets binding watching fuel (some sfd) s r in
          let again = serve_rounds sockets binding watching rounds fuel watch in
          let later = later_of (arrivals rounds) served in
          subst (λ l. Queues xs l (and_then served (behind_served sockets binding watching again)))
            (ap (λ l. l ++ later) (sym (Wakes-come sockets backlog sfd fuel w r (wakes w rests)))
              ∙ append_assoc (backlog w) (come sockets backlog w r.1) later)
            (behind_served-Queues again (arrivals rounds) xs (backlog r.1)
              (λ ys s' w' h' rests' less. serve_rounds-Rests rounds ys s' w' wakes h' rests') served
              (behind_serve_wait-Queues xs s w r h rests (wakes w rests)))

      -- The acceptor leaves a connection waiting only after accept has failed with another error
      -- than EAGAIN, although its epoll set is edge-triggered. On a listening socket on which
      -- accept takes the first waiting connection, fails with EAGAIN only when none waits, and
      -- takes none when it fails with another error, and whose other calls leave the waiting
      -- connections alone, if each wait either fails or finds no event, and then no connection has
      -- come, or finds events that are all of readable input on the listening socket, and fewer
      -- connections than the fuel of the accept loop, then after any number of rounds that start
      -- with none waiting, of the connections that have come the first stand in the queue, in the
      -- order of arrival, behind the entries `xs` that were there, and those behind them wait: none
      -- of them, unless accept has failed with another error. Or a call of malloc gives NULL, which
      -- is written through. The assertion never fails.
      pub serve_rounds-Queues :
          (rounds : ℕ) (xs : List Cell) (s : Shared) (w : W)
          → ((w : W)
              → Rests sockets backlog w
              → Wakes sockets backlog sfd fuel w (epoll_wait efd events w))
          → Holds xs s
          → backlog w ≡ []
          → Queues xs
              (arrivals rounds s w)
              (serve_rounds sockets binding watching rounds fuel watch s w)
      serve_rounds-Queues rounds xs s w wakes h empty =
          subst (λ l. Queues xs l (serve_rounds sockets binding watching rounds fuel watch s w))
            (ap (λ l. l ++ arrivals rounds s w) empty)
            (serve_rounds-Rests rounds xs s w wakes h (inl empty))
