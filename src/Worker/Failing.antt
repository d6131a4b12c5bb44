-- ===== src/Worker/Failing.antt =====
-- Sockets with an error are closed and reported, and do not disturb the others.
use comm_system.Prelude.{
  ℕ, suc, ◌≡◌, refl, ◌∙◌, ap, sym, true, Option, none, some, List, [], ◌∷◌, ◌++◌, append_assoc,
  append-nil,
}
use comm_system.System.Laws.{IsBlock, HasMemory}
use comm_system.Kernel.{Kernel}
use comm_system.Transfer.{Run, returned, and_then}
use comm_system.Worker.{
  EpollEvent, CommErrMsg, err_msg_size, WorkerData, Outcome, next_event, Epoll, error_of,
  call_error, report_error, is_failed, handle_event, behind_event, handle_events, behind_wait, poll,
}

abbrev pub AllFailed : List EpollEvent → Type 0
AllFailed [] = Unit
AllFailed (event ∷ events) = (is_failed event ≡ true) × AllFailed events

-- What is noted of a descriptor: a call of close, or the descriptor in the message that the error
-- callback gets.
pub data Note : Type 0 where
  closed told : (fd : ℕ) → Note

-- Each socket is closed, and then reported.
abbrev pub trace : List EpollEvent → List Note
trace [] = []
trace (event ∷ events) = closed event.fd ∷ told event.fd ∷ trace events

module _ (k : Kernel) (data_ : WorkerData (k.World)) (log : k.World → List Note) where
  open k use {World, malloc, close}

  -- The error callback always returns, and is told of the descriptor in its message.
  abbrev pub Reports : Option (CommErrMsg → World → Run (Unit {0}) World) → Type 0
  Reports none = ⊥
  Reports (some error_func) =
      (message : CommErrMsg) (w : World)
      → (w' : World) × (error_func message w ≡ returned tt w')
        × (log w' ≡ log w ++ told message.comm_server.socket_fd ∷ [])

  -- `log` has the calls of close and of the error callback, in order.
  pub record IsNoting : Type 0 where
    pub closes : (fd : ℕ) (w : World) → log (close fd w) ≡ log w ++ closed fd ∷ []
    pub malloc_quiet : (n : ℕ) (w : World) → log (malloc n w).1 ≡ log w
    pub reports : Reports data_.error_func

  module _ (memory : HasMemory malloc) (law : IsNoting) (fuel : ℕ) where
    -- On to the next event, with `notes` behind those of `w`.
    abbrev pub GoesOn : World → List Note → Run Outcome World → Type 0
    GoesOn w notes r = (w' : World) × (r ≡ returned next_event w') × (log w' ≡ log w ++ notes)

    call_error-GoesOn :
        (error_func : CommErrMsg → World → Run (Unit {0}) World) (fd : ℕ)
        (r : Option (List ℕ) × World)
        → Reports (some error_func)
        → IsBlock r
        → GoesOn r.1 (told fd ∷ []) (call_error k data_ error_func fd r)
    unfolding call_error error_of
    call_error-GoesOn error_func fd (none, w) h b = absurd b
    call_error-GoesOn error_func fd (some block, w) h b =
        let (w', e, noted) = h (error_of fd) w in (w', rw e refl, noted)

    report_error-GoesOn :
        (error_func : Option (CommErrMsg → World → Run (Unit {0}) World)) (fd : ℕ) (w : World)
        → data_.error_func ≡ error_func
        → Reports error_func
        → GoesOn w (told fd ∷ []) (report_error k data_ fd w)
    unfolding report_error
    report_error-GoesOn none fd w e h = absurd h
    report_error-GoesOn (some error_func) fd w e h =
        let (w', run, noted) =
          call_error-GoesOn error_func fd (malloc err_msg_size w) h
            (memory.never_null err_msg_size w) in
        (
          w',
          rw (e, report_error) run,
          noted ∙ ap (λ l. l ++ told fd ∷ []) (law.malloc_quiet err_msg_size w),
        )

    handle_event-GoesOn :
        (event : EpollEvent) (w : World)
        → is_failed event ≡ true
        → GoesOn w (closed event.fd ∷ told event.fd ∷ []) (handle_event k data_ fuel event w)
    unfolding handle_event
    handle_event-GoesOn event w bad =
        let (w', run, noted) =
          report_error-GoesOn data_.error_func event.fd (close event.fd w) refl law.reports in
        (
          w',
          rw (bad, handle_event) run,
          noted
              ∙ ap (λ l. l ++ told event.fd ∷ []) (law.closes event.fd w)
              ∙ append_assoc (log w) (closed event.fd ∷ []) (told event.fd ∷ []),
        )

    -- The events behind the failed ones are handled as without them.
    handle_events-trace :
        (failed events : List EpollEvent) (w : World)
        → AllFailed failed
        → (w' : World) × (log w' ≡ log w ++ trace failed)
          × (handle_events k data_ fuel (failed ++ events) w ≡ handle_events k data_ fuel events w')
    unfolding handle_events behind_event
    handle_events-trace [] events w all = (w, sym (append-nil (log w)), refl)
    handle_events-trace (event ∷ failed) events w (bad, all) =
        let (w₁, run, noted) = handle_event-GoesOn event w bad in
        let (w', traced, same) = handle_events-trace failed events w₁ all in
        (
          w',
          traced
              ∙ ap (λ l. l ++ trace failed) noted
              ∙ append_assoc (log w) (closed event.fd ∷ told event.fd ∷ []) (trace failed),
          ap
                (λ r.
                  and_then r (behind_event k data_ (handle_events k data_ fuel (failed ++ events))))
                run
              ∙ same,
        )

    -- If epoll_wait returns a batch whose first events all have an error, a hang-up or no input,
    -- with memory available and an error callback that always returns, then for each of these, in
    -- the order of the batch, the worker closes the socket of the event and then tells the error
    -- callback of that descriptor, and closes and reports nothing else; after that the rest of the
    -- batch is handled as if epoll_wait had returned it alone. The law behind it: close and the
    -- callback are noted, in order, and malloc notes nothing.
    pub poll-trace :
        (epoll : Epoll World) (waits : ℕ) (failed events : List EpollEvent) (w w' : World)
        → epoll.epoll_wait w ≡ (some (failed ++ events), w')
        → AllFailed failed
        → (w'' : World) × (log w'' ≡ log w' ++ trace failed)
          × (poll k data_ epoll (suc waits) fuel w
              ≡ behind_wait k data_ epoll (poll k data_ epoll waits fuel) fuel (some events, w''))
    unfolding poll behind_wait
    poll-trace epoll waits failed events w w' ready all =
        let (w'', traced, same) = handle_events-trace failed events w' all in
        (w'', traced, rw ready (rw same refl))
