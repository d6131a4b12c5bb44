-- ===== src/Worker/Events.antt =====
-- What a worker does on an event: one message goes to the callback, or the batch is given up.
use comm_system.Prelude.{
  ℕ, ◌+◌, ◌<◌, ◌≡◌, refl, sym, ap, ◌∙◌, ◌⊎◌, inl, inr, false, Option, none, some, List, [], ◌∷◌,
  ◌++◌, length, length-append, take, arith, ℤ, pos, negsuc,
}
use comm_system.System.Laws.{Allocates, IsBlock, HasMemory}
use comm_system.Kernel.{Kernel}
use comm_system.Kernel.Streams.{IsInStream, IsOutStream, IsHealthy}
use comm_system.Transfer.{Run, returned, fault, running, and_then}
use comm_system.Message.{CommType, comm_tcp, comm_unix, header_size, decode, CommMsg, bytes_of}
use comm_system.Framing.Sending.{IsSendable, frame, frame_size, Sends}
use comm_system.Framing.Receiving.{body_size, payload_of, Receives, IsReceived, receive-Receives}
use comm_system.Framing.Delivery.{IsWhole, Delivered, receive-frame}
use comm_system.Framing.{receive}
use comm_system.Client.{comm_servresp_send}
use comm_system.Client.Calls.{comm_servresp_send_lem}
use comm_system.Worker.{
  EpollEvent, zero_msg, msg_size, WorkerData, server_of, Outcome, poll_again, call_back,
  read_message, is_failed, handle_event, behind_event, handle_events,
}
use comm_system.Worker.Handles.{handle_of, server_of-handle_of}
use comm_system.Worker.Reading.{for_callback, dispatch, read_message-receive}

module _ (k : Kernel) where
  open k use {World}

  -- A response through the handle that a worker fills in for a connection, of a message whose data
  -- is as long as its header says, goes to that connection, whatever the transport of the server,
  -- with a peer that takes data in the end and enough fuel: either the size of the frame is
  -- returned and exactly the frame was added to the stream of `fd`, or -1 is returned and a proper
  -- prefix of the frame was added.
  pub comm_servresp_send-server_of :
      (outgoing : World → List ℕ) (patience : World → ℕ) (fuel : ℕ) (ipc_type : CommType) (i fd : ℕ)
      (msg : CommMsg) (w : World)
      → IsOutStream k fd outgoing patience
      → IsSendable msg
      → patience w + frame_size msg < fuel
      → Sends outgoing (outgoing w) msg (comm_servresp_send k fuel (server_of ipc_type i fd) msg w)
  unfolding server_of
  comm_servresp_send-server_of outgoing patience fuel comm_tcp i fd msg w law v few =
      comm_servresp_send_lem k outgoing patience fuel (server_of comm_tcp i fd) msg w law (inl refl)
        v few
  comm_servresp_send-server_of outgoing patience fuel comm_unix i fd msg w law v few =
      comm_servresp_send_lem k outgoing patience fuel (server_of comm_unix i fd) msg w law
        (inr refl) v few

module _ (k : Kernel) (data_ : WorkerData (k.World)) (incoming : k.World → List ℕ) where
  open k use {World, read, malloc}

  -- One whole message was taken off the stream and went to the callback.
  abbrev pub CallsBack : ℕ → World → Run Outcome World → Type 0
  CallsBack fd w r =
      (w' : World) × (n : ℕ) × (m : CommMsg) × (header : List ℕ) × (body : List ℕ) × IsReceived
        incoming (incoming w) zero_msg n m w' header body
      × (r ≡ call_back k data_ (for_callback k data_ fd m) w')

  -- Less than a message was taken off, and the batch is given up.
  abbrev pub GivesUp : World → Run Outcome World → Type 0
  GivesUp w r =
      (w' : World) × (front : List ℕ) × (incoming w ≡ front ++ incoming w')
      × (length front < header_size + body_size (decode (take header_size front)))
      × (r ≡ returned poll_again w')

  dispatch-Receives :
      (fd : ℕ) (w : World) (r : Run (ℤ × CommMsg) World)
      → Receives incoming (incoming w) zero_msg r
      → CallsBack fd w (and_then r (dispatch k data_ fd))
        ⊎ GivesUp w (and_then r (dispatch k data_ fd))
  dispatch-Receives fd w (returned (pos n, m) w') (header, body, h) =
      inl (w', n, m, header, body, h, refl)
  dispatch-Receives fd w (returned (negsuc e, m) w') (front, lt, taken, short) =
      inr (w', front, taken, short, refl)
  dispatch-Receives fd w fault h = absurd h
  dispatch-Receives fd w running h = absurd h

  module _ (memory : HasMemory malloc) (fuel : ℕ) where
    read_message-Receives :
        (patience : World → ℕ) (fd : ℕ) (w : World) (r : Option (List ℕ) × World)
        → IsInStream k fd incoming patience
        → Allocates incoming patience msg_size w r
        → IsBlock r
        → patience w + header_size + body_size (decode (take header_size (incoming w))) < fuel
        → CallsBack fd w (read_message k data_ fuel fd r)
          ⊎ GivesUp w (read_message k data_ fuel fd r)
    read_message-Receives patience fd w (none, w₁) law a h few = absurd h
    read_message-Receives patience fd w (some block, w₁) law (same, calm, size) h few =
        rw (read_message-receive k data_ memory fuel fd block w₁) (
          dispatch-Receives fd w (receive fuel (read fd) malloc fd zero_msg w₁) (
            receive-Receives incoming (incoming w) zero_msg patience fuel (read fd) malloc fd w₁
              law.read_law law.read_punctual law.malloc_law (sym same) (omega arith)))

    handle_event_of_readable :
        (event : EpollEvent) (w : World)
        → is_failed event ≡ false
        → handle_event k data_ fuel event w ≡ read_message k data_ fuel event.fd (malloc msg_size w)
    unfolding handle_event
    handle_event_of_readable event w e = rw (e, handle_event) refl

    -- On a readable event of a socket, whatever its stream holds, with memory available, reads that
    -- are not interrupted for ever and fuel that is enough for the announced length, the worker
    -- either takes one whole message off the stream and goes on with the callback on it, or takes
    -- less than a message off and gives up the batch; it does not stay in its loops.
    pub handle_event_lem :
        (patience : World → ℕ) (event : EpollEvent) (w : World)
        → IsInStream k event.fd incoming patience
        → is_failed event ≡ false
        → patience w + header_size + body_size (decode (take header_size (incoming w))) < fuel
        → CallsBack event.fd w (handle_event k data_ fuel event w)
          ⊎ GivesUp w (handle_event k data_ fuel event w)
    handle_event_lem patience event w law e few = rw (handle_event_of_readable event w e) (
        read_message-Receives patience event.fd w (malloc msg_size w) law
          (law.malloc_law.allocates msg_size w) (memory.never_null msg_size w) few)

    GivesUp-nil :
        (w : World) (r : Run Outcome World)
        → incoming w ≡ []
        → GivesUp w r
        → (w' : World) × (incoming w' ≡ []) × (r ≡ returned poll_again w')
    GivesUp-nil w r e (w', [], taken, short, same) = (w', sym taken ∙ e, same)
    GivesUp-nil w r e (w', x ∷ front, taken, short, same) =
        let clash : x ∷ (front ++ incoming w') ≡ [] = sym taken ∙ e in absurd cc

    -- There is no message on a stream that is at its end.
    CallsBack-nil :
        (fd : ℕ) (w : World) (r : Run Outcome World) → incoming w ≡ [] → CallsBack fd w r → ⊥
    CallsBack-nil fd w r e (w', n, m, header, body, h, same) = omega (
      arith,
      h.header_length,
      ap length h.taken,
      ap length e,
      length-append header (body ++ incoming w'),
    )

    -- On a readable event of a socket whose stream is at its end, with memory available, reads that
    -- are not interrupted for ever and enough fuel, the worker goes back to wait for events, in a
    -- world that is the same whatever events stand behind it in the batch: it is the one that the
    -- handling of this event alone leaves, and none of the others is handled.
    pub handle_events-closed :
        (patience : World → ℕ) (event : EpollEvent) (w : World)
        → IsInStream k event.fd incoming patience
        → is_failed event ≡ false
        → incoming w ≡ []
        → patience w + header_size < fuel
        → (w' : World) × (incoming w' ≡ [])
          × (handle_event k data_ fuel event w ≡ returned poll_again w')
          × ((events : List EpollEvent)
              → handle_events k data_ fuel (event ∷ events) w ≡ returned poll_again w')
    unfolding handle_events behind_event decode
    handle_events-closed patience event w law e closed few =
        let none_left : body_size (decode (take header_size (incoming w))) ≡ 0 =
          ap (λ s. body_size (decode (take header_size s))) closed in
        elim (handle_event_lem patience event w law e (omega arith)) [
          | inl h ↦ absurd (CallsBack-nil event.fd w _ closed h)
          | inr h ↦
              let (w', at_end, same) = GivesUp-nil w _ closed h in
              (
                w',
                at_end,
                same,
                λ events.
                    ap (λ r. and_then r (behind_event k data_ (handle_events k data_ fuel events)))
                      same,
              )
        ]

  -- The message that the callback gets for `sent`.
  abbrev pub message_of : ℕ → CommMsg → CommMsg
  message_of fd sent = record zero_msg {
    msg_header = sent.msg_header;
    comm_server = handle_of data_.ipc_type (data_.place).worker_index fd;
    payload = payload_of none (take (sent.msg_header.msg_len) (bytes_of sent.payload));
  }

  -- The callback gets `sent`, and `rest` is left on the stream.
  abbrev pub Serves : ℕ → CommMsg → List ℕ → Run Outcome World → Type 0
  Serves fd sent rest r =
      (w' : World) × (incoming w' ≡ rest) × (r ≡ call_back k data_ (message_of fd sent) w')

  dispatch-Delivered :
      (fd : ℕ) (sent : CommMsg) (rest : List ℕ) (r : Run (ℤ × CommMsg) World)
      → Delivered incoming sent zero_msg rest r
      → Serves fd sent rest (and_then r (dispatch k data_ fd))
  dispatch-Delivered fd sent rest (returned (pos n, m) w') (count, header, payload, left) =
      let handle = server_of-handle_of data_.ipc_type (data_.place).worker_index fd in
      (w', left, cc)
  dispatch-Delivered fd sent rest (returned (negsuc n, m) w') h = absurd h
  dispatch-Delivered fd sent rest fault h = absurd h
  dispatch-Delivered fd sent rest running h = absurd h

  read_message-frame :
      (patience : World → ℕ) (fuel fd : ℕ) (sent : CommMsg) (rest : List ℕ) (w : World)
      (r : Option (List ℕ) × World)
      → IsInStream k fd incoming patience
      → IsHealthy k fd incoming
      → IsWhole sent
      → incoming w ≡ frame sent ++ rest
      → Allocates incoming patience msg_size w r
      → IsBlock r
      → patience w + frame_size sent < fuel
      → Serves fd sent rest (read_message k data_ fuel fd r)
  read_message-frame patience fuel fd sent rest w (none, w₁) law up whole e a h few = absurd h
  read_message-frame patience fuel fd sent rest w (some block, w₁) law up whole e (same, calm, size)
        h few =
      rw (read_message-receive k data_ up.memory fuel fd block w₁) (
        dispatch-Delivered fd sent rest (receive fuel (read fd) malloc fd zero_msg w₁) (
          receive-frame incoming sent zero_msg rest whole patience fuel (read fd) malloc fd w₁
            law.read_law law.read_punctual law.malloc_law up.read_flowing up.memory (same ∙ e)
            (omega arith)))

  -- On a readable event of a socket whose stream starts with the frame of a whole message, stays up
  -- and does not interrupt for ever, with memory available and enough fuel, the worker calls the
  -- callback, if there is one, with the header, the data and the handle of the connection, however
  -- the reads cut the stream, and leaves on the stream what followed the frame.
  pub handle_event-frame :
      (patience : World → ℕ) (fuel : ℕ) (event : EpollEvent) (sent : CommMsg) (rest : List ℕ)
      (w : World)
      → IsInStream k event.fd incoming patience
      → IsHealthy k event.fd incoming
      → is_failed event ≡ false
      → IsWhole sent
      → incoming w ≡ frame sent ++ rest
      → patience w + frame_size sent < fuel
      → Serves event.fd sent rest (handle_event k data_ fuel event w)
  handle_event-frame patience fuel event sent rest w law up e whole front few =
      rw (handle_event_of_readable up.memory fuel event w e) (
        read_message-frame patience fuel event.fd sent rest w (malloc msg_size w) law up whole front
          (law.malloc_law.allocates msg_size w) (up.memory.never_null msg_size w) few)
