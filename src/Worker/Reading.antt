-- ===== src/Worker/Reading.antt =====
-- A worker reads a message just as a waiting client does.
use comm_system.Prelude.{
  ℕ, zero, suc, ◌+◌, ◌≡◌, refl, sym, ap, ◌∙◌, inl, inr, Option, none, some, List, [], ◌∷◌, length,
  ltb, leb, Bool-cases, ℤ, pos, negsuc, to_ssize,
}
use comm_system.System.{eagain, eintr, other, ReadResult, got, read_failed}
use comm_system.System.Laws.{IsBlock, HasMemory}
use comm_system.Kernel.{Kernel}
use comm_system.Transfer.{
  Run, returned, fault, running, and_then, Locals, start, step_pointer, progress, ReadEnd, complete,
  peer_closed, broken, after_read, read_loop,
}
use comm_system.Message.{header_size, encode, decode, CommMsg}
use comm_system.Framing.{status_of, receive_data, receive_body, receive_rest, receive}
use comm_system.Worker.{
  zero_msg, zero_header, WorkerData, server_of, Outcome, poll_again, call_back, behind_data,
  read_data, read_body, behind_header, read_message,
}

abbrev with_ret : Locals → ℕ → Locals
with_ret s n = record s { ret = n }

and_then_assoc :
    {W A B C : Type 0} (r : Run A W) (f : A → W → Run B W) (g : B → W → Run C W)
    → and_then (and_then r f) g ≡ and_then r (λ a w. and_then (f a w) g)
and_then_assoc (returned a w) f g = refl
and_then_assoc fault f g = refl
and_then_assoc running f g = refl

and_then_congr :
    {W A B : Type 0} (r : Run A W) (f g : A → W → Run B W)
    → ((a : A) (w : W) → f a w ≡ g a w)
    → and_then r f ≡ and_then r g
and_then_congr (returned a w) f g e = e a w
and_then_congr fault f g e = refl
and_then_congr running f g e = refl

module _ {W A : Type 0} (f : ReadEnd × List ℕ → W → Run A W)
    (blind : (a b : ℕ) (m : List ℕ) (w : W) → f (complete a, m) w ≡ f (complete b, m) w) where
  after_read-blind :
      (again : List ℕ → Locals → W → Run (ReadEnd × List ℕ) W)
      → ((a b : ℕ) (m : List ℕ) (s : Locals) (w : W)
          → and_then (again m (with_ret s a) w) f ≡ and_then (again m (with_ret s b) w) f)
      → (a b tot_len : ℕ) (m : List ℕ) (s : Locals) (r : ReadResult × W)
      → and_then (after_read again m tot_len (with_ret s a) r) f
        ≡ and_then (after_read again m tot_len (with_ret s b) r) f
  unfolding after_read
  after_read-blind again go a b tot_len m s (got [], w) = refl
  after_read-blind again go a b tot_len m s (got (x ∷ bytes), w) =
      go _ _ _ (progress tot_len s (length (x ∷ bytes))) w
  after_read-blind again go a b tot_len m s (read_failed eagain, w) =
      go _ _ m (record s { moved = 0 }) w
  after_read-blind again go a b tot_len m s (read_failed eintr, w) =
      go _ _ m (record s { moved = 0 }) w
  after_read-blind again go a b tot_len m s (read_failed (other e), w) = refl

  -- What does not look at the count of a read loop is not told where the count started.
  read_loop-blind :
      (fuel : ℕ) (call : ℕ → W → ReadResult × W) (tot_len a b : ℕ) (m : List ℕ) (s : Locals) (w : W)
      → and_then (read_loop fuel call m tot_len (with_ret s a) w) f
        ≡ and_then (read_loop fuel call m tot_len (with_ret s b) w) f
  unfolding read_loop
  read_loop-blind zero call tot_len a b m s w = refl
  read_loop-blind (suc fuel) call tot_len a b m s w = elim (Bool-cases (ltb s.count tot_len)) [
    | inl more ↦ elim (Bool-cases (leb (s.pointer + s.moved + s.len) (length m))) [
      | inl room ↦
          rw (more, and_then)
            (rw (room, and_then)
              (after_read-blind (λ m'. read_loop fuel call m' tot_len)
                (λ a' b' m' s' w'. read_loop-blind fuel call tot_len a' b' m' s' w') a b tot_len m
                (step_pointer s) (call s.len w)))
      | inr past ↦ rw (more, and_then) (rw (past, and_then) refl)
    ]
    | inr done ↦ rw (done, and_then) (blind a b m w)
  ]

module _ (k : Kernel) (data_ : WorkerData (k.World)) where
  open k use {World, read, malloc}

  -- The message for the callback, out of what was received over `fd`.
  abbrev pub for_callback : (fd : ℕ) → CommMsg → CommMsg
  for_callback fd m = record zero_msg {
    msg_header = m.msg_header;
    comm_server = server_of data_.ipc_type (data_.place).worker_index fd;
    payload = m.payload;
  }

  -- A wait that returned a count goes on to the callback, any other one to `poll_again`.
  abbrev pub dispatch : (fd : ℕ) → ℤ × CommMsg → World → Run Outcome World
  dispatch fd (pos n, m) w = call_back k data_ (for_callback fd m) w
  dispatch fd (negsuc n, m) w = returned poll_again w

  behind_data-status :
      (fd : ℕ) (m : CommMsg) (end : ReadEnd × List ℕ) (w : World)
      → behind_data k data_ (for_callback fd (record m { payload = none })) end w
        ≡ dispatch fd (status_of end.0, record m { payload = some end.1 }) w
  unfolding behind_data
  behind_data-status fd m (complete n, memory) w = refl
  behind_data-status fd m (peer_closed, memory) w = refl
  behind_data-status fd m (broken, memory) w = refl

  behind_data-blind :
      (msg : CommMsg) (a b : ℕ) (m : List ℕ) (w : World)
      → behind_data k data_ msg (complete a, m) w ≡ behind_data k data_ msg (complete b, m) w
  unfolding behind_data
  behind_data-blind msg a b m w = refl

  read_data-receive_data :
      (fuel fd tot_len ret : ℕ) (m : CommMsg) (r : Option (List ℕ) × World)
      → IsBlock r
      → read_data k data_ fuel fd (for_callback fd (record m { payload = none })) tot_len r
        ≡ and_then (receive_data fuel (read fd) m tot_len ret r) (dispatch fd)
  unfolding read_data receive_data
  read_data-receive_data fuel fd tot_len ret m (none, w) h = absurd h
  read_data-receive_data fuel fd tot_len ret m (some block, w) h =
      read_loop-blind (behind_data k data_ (for_callback fd (record m { payload = none })))
        (behind_data-blind (for_callback fd (record m { payload = none }))) fuel (read fd) tot_len 0
        ret block (start tot_len 0) w
      ∙ and_then_congr (read_loop fuel (read fd) block tot_len (start tot_len ret) w) _ _
          (λ end w'. behind_data-status fd m end w')
      ∙ sym (and_then_assoc (read_loop fuel (read fd) block tot_len (start tot_len ret) w) _ _)

  module _ (memory : HasMemory malloc) where
    read_body-receive_body :
        (fuel fd ret : ℕ) (m : CommMsg) (tot_len : ℤ) (w : World)
        → m.payload ≡ none
        → read_body k data_ fuel fd (for_callback fd m) tot_len w
          ≡ and_then (receive_body fuel (read fd) malloc m tot_len ret w) (dispatch fd)
    unfolding read_body receive_body
    read_body-receive_body fuel fd ret m (pos zero) w e = refl
    read_body-receive_body fuel fd ret m (pos (suc n)) w e =
        ap
          (λ p.
            read_data k data_ fuel fd (for_callback fd (record m { payload = p })) (suc n)
              (malloc (suc n) w))
          e
        ∙ read_data-receive_data fuel fd (suc n) ret m _ (memory.never_null (suc n) w)
    read_body-receive_body fuel fd ret m (negsuc n) w e = refl

    behind_header-receive_rest :
        (fuel fd : ℕ) (end : ReadEnd × List ℕ) (w : World)
        → behind_header k data_ fuel fd end w
          ≡ and_then (receive_rest fuel (read fd) malloc fd zero_msg end w) (dispatch fd)
    unfolding behind_header receive_rest
    behind_header-receive_rest fuel fd (complete n, m) w =
        read_body-receive_body fuel fd n _ (to_ssize (decode m).msg_len) w refl
    behind_header-receive_rest fuel fd (peer_closed, m) w = refl
    behind_header-receive_rest fuel fd (broken, m) w = refl

    -- With memory available, the reading of a message by a worker and all that follows is the wait
    -- of a client on the same connection, through `read` and into a cleared message, followed by
    -- the callback on a count and by `poll_again` on -1 or -2. This holds for every world,
    -- behaviour of `read` and fuel.
    pub read_message-receive :
        (fuel fd : ℕ) (block : List ℕ) (w : World)
        → read_message k data_ fuel fd (some block, w)
          ≡ and_then (receive fuel (read fd) malloc fd zero_msg w) (dispatch fd)
    unfolding read_message receive
    read_message-receive fuel fd block w =
        and_then_congr
          (read_loop fuel (read fd) (encode zero_header) header_size (start header_size 0) w) _ _
          (λ end w'. behind_header-receive_rest fuel fd end w')
        ∙ sym (
            and_then_assoc
              (read_loop fuel (read fd) (encode zero_header) header_size (start header_size 0) w) _
              _)
