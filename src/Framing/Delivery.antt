-- ===== src/Framing/Delivery.antt =====
-- A frame that is on the stream in full is received as the message that was sent.
use comm_system.Prelude.{
  ℕ, zero, suc, ◌+◌, ◌<◌, ◌≡◌, sym, ap, ◌∙◌, Option, none, some, List, [], ◌++◌, append_assoc,
  append-nil, append-cancel, length, length-append, length-take, take, drop, take-append-drop,
  arith, ℤ, pos, negsuc, pos_part,
}
use comm_system.System.{ReadResult}
use comm_system.System.Laws.{IsReader, IsPunctual, IsFlowing, IsBlock, IsAllocator, HasMemory}
use comm_system.Transfer.{
  Run, returned, fault, running, and_then, start, ReadEnd, complete, peer_closed, broken,
}
use comm_system.Transfer.Lasting.{Lasts, read_loop-Lasts}
use comm_system.Message.{header_size, encode, decode, IsHeader, CommMsg, bytes_of, data_len}
use comm_system.Message.Wire.{length-encode, decode-encode}
use comm_system.Framing.{status_of, receive_data, receive_body, receive_rest, receive}
use comm_system.Framing.Sending.{IsSendable, frame, frame_size, to_ssize_of_lt}
use comm_system.Framing.Receiving.{body_size, payload_of, Receives, IsReceived, receive-Receives}

module _ {W : Type 0} (incoming : W → List ℕ) where
  -- The wait does not return -1, and returns -2 at the end of the stream alone.
  abbrev WaitLasts : Run (ℤ × CommMsg) W → Type 0
  WaitLasts (returned (pos n, m) w) = Unit
  WaitLasts (returned (negsuc zero, m) w) = ⊥
  WaitLasts (returned (negsuc (suc n), m) w) = incoming w ≡ []
  WaitLasts fault = Unit
  WaitLasts running = Unit

  module _ (call : ℕ → W → ReadResult × W) (malloc : ℕ → W → Option (List ℕ) × W)
      (law : IsReader call incoming) (open_ : IsFlowing call incoming)
      (room : HasMemory malloc) where
    read_end-WaitLasts :
        (msg : CommMsg) (tot_len : ℕ) (r : Run (ReadEnd × List ℕ) W)
        → Lasts incoming tot_len r
        → WaitLasts (
            and_then r
              λ (end, memory) w'. returned (status_of end, record msg { payload = some memory }) w')
    read_end-WaitLasts msg tot_len (returned (complete n, m) w) h = tt
    read_end-WaitLasts msg tot_len (returned (peer_closed, m) w) h = h
    read_end-WaitLasts msg tot_len (returned (broken, m) w) h = h
    read_end-WaitLasts msg tot_len fault h = tt
    read_end-WaitLasts msg tot_len running h = tt

    receive_data-WaitLasts :
        (fuel : ℕ) (msg : CommMsg) (tot_len ret : ℕ) (r : Option (List ℕ) × W)
        → IsBlock r
        → WaitLasts (receive_data fuel call msg tot_len ret r)
    unfolding receive_data
    receive_data-WaitLasts fuel msg tot_len ret (none, w) h = absurd h
    receive_data-WaitLasts fuel msg tot_len ret (some block, w) h =
        read_end-WaitLasts msg tot_len _ (
          read_loop-Lasts incoming tot_len fuel call block (start tot_len ret) w law open_
            (omega arith))

    receive_body-WaitLasts :
        (fuel : ℕ) (msg : CommMsg) (tot_len : ℤ) (ret : ℕ) (w : W)
        → WaitLasts (receive_body fuel call malloc msg tot_len ret w)
    unfolding receive_body
    receive_body-WaitLasts fuel msg (pos zero) ret w = tt
    receive_body-WaitLasts fuel msg (pos (suc n)) ret w =
        receive_data-WaitLasts fuel msg (suc n) ret _ (room.never_null (suc n) w)
    receive_body-WaitLasts fuel msg (negsuc n) ret w = tt

    receive_rest-WaitLasts :
        (fuel socket_fd : ℕ) (msg : CommMsg) (r : Run (ReadEnd × List ℕ) W)
        → Lasts incoming header_size r
        → WaitLasts (and_then r (receive_rest fuel call malloc socket_fd msg))
    unfolding receive_rest
    receive_rest-WaitLasts fuel socket_fd msg (returned (complete n, m) w) h =
        receive_body-WaitLasts fuel _ _ n w
    receive_rest-WaitLasts fuel socket_fd msg (returned (peer_closed, m) w) h = h
    receive_rest-WaitLasts fuel socket_fd msg (returned (broken, m) w) h = absurd h
    receive_rest-WaitLasts fuel socket_fd msg fault h = tt
    receive_rest-WaitLasts fuel socket_fd msg running h = tt

    receive-WaitLasts :
        (fuel socket_fd : ℕ) (msg : CommMsg) (w : W)
        → WaitLasts (receive fuel call malloc socket_fd msg w)
    unfolding receive
    receive-WaitLasts fuel socket_fd msg w = receive_rest-WaitLasts fuel socket_fd msg _ (
        read_loop-Lasts incoming header_size fuel call (encode msg.msg_header) (start header_size 0)
          w law open_ (omega arith))

-- A message whose receiver reads as many data bytes as its sender wrote.
pub record IsWhole (msg : CommMsg) : Type 0 where
  pub header : IsHeader msg.msg_header
  pub sendable : IsSendable msg
  pub agreed : data_len msg.msg_header ≡ msg.msg_header.msg_len

module _ {W : Type 0} (incoming : W → List ℕ) (sent old : CommMsg) (rest : List ℕ) where
  -- `sent` has arrived in the message object `old`, and `rest` is left on the stream.
  abbrev pub Delivered : Run (ℤ × CommMsg) W → Type 0
  Delivered (returned (pos n, m) w) =
      (n ≡ frame_size sent)
      × (m.msg_header ≡ sent.msg_header)
      × (m.payload
          ≡ payload_of old.payload (take (sent.msg_header.msg_len) (bytes_of sent.payload)))
      × (incoming w ≡ rest)
  Delivered _ = ⊥

  module _ (whole : IsWhole sent) where
    abbrev body_bytes : List ℕ
    body_bytes = take (data_len sent.msg_header) (bytes_of sent.payload)

    length-body_bytes : length body_bytes ≡ sent.msg_header.msg_len
    length-body_bytes = omega (
      arith,
      length-take (data_len sent.msg_header) (bytes_of sent.payload),
      whole.sendable.held,
      whole.agreed,
    )

    body_size-sent : body_size sent.msg_header ≡ sent.msg_header.msg_len
    body_size-sent =
        ap pos_part (
          to_ssize_of_lt sent.msg_header.msg_len
            (omega (arith, whole.sendable.short, whole.agreed)))

    -- The first 24 bytes of the stream are the header that was sent.
    header_of_stream :
        (header after : List ℕ)
        → length header ≡ header_size
        → frame sent ++ rest ≡ header ++ after
        → (decode header ≡ sent.msg_header) × (after ≡ body_bytes ++ rest)
    header_of_stream header after l e =
        let (same, left) =
          append-cancel header after (encode sent.msg_header) (body_bytes ++ rest)
            (l ∙ sym (length-encode sent.msg_header))
            (sym e ∙ append_assoc (encode sent.msg_header) body_bytes rest) in
        (ap decode same ∙ decode-encode sent.msg_header whole.header, left)

    Delivered-IsReceived :
        (n : ℕ) (m : CommMsg) (w : W) (header body : List ℕ)
        → IsReceived incoming (frame sent ++ rest) old n m w header body
        → Delivered (returned (pos n, m) w)
    Delivered-IsReceived n m w header body h =
        let (head, left) = header_of_stream header (body ++ incoming w) h.header_length h.taken in
        let size : length body ≡ sent.msg_header.msg_len =
          h.body_length ∙ ap body_size head ∙ body_size-sent in
        let (same, after) =
          append-cancel body (incoming w) body_bytes rest (size ∙ sym length-body_bytes) left in
        (
          omega (arith, h.counted, size, whole.agreed),
          h.header_is ∙ head,
          h.payload_is
              ∙ ap (payload_of old.payload)
                  (same ∙ ap (λ k. take k (bytes_of sent.payload)) whole.agreed),
          after,
        )

    -- A stream that holds the frame does not end within the message.
    no_early_end :
        (front : List ℕ)
        → frame sent ++ rest ≡ front
        → length front < header_size + body_size (decode (take header_size front))
        → ⊥
    no_early_end front e lt =
        let long = ap length e in
        let parts = length-append (frame sent) rest in
        let frame_parts = length-append (encode sent.msg_header) body_bytes in
        let header_len = length-encode sent.msg_header in
        let cut = length-take header_size front in
        let (head, left) =
          header_of_stream (take header_size front) (drop header_size front)
            (omega (arith, long, parts, frame_parts, header_len, cut))
            (e ∙ sym (take-append-drop header_size front)) in
        let size = ap body_size head ∙ body_size-sent in
        omega (arith, lt, long, parts, frame_parts, header_len, size, length-body_bytes)

    Delivered-Receives :
        (r : Run (ℤ × CommMsg) W)
        → Receives incoming (frame sent ++ rest) old r
        → WaitLasts incoming r
        → Delivered r
    Delivered-Receives (returned (pos n, m) w) (header, body, h) l =
        Delivered-IsReceived n m w header body h
    Delivered-Receives (returned (negsuc zero, m) w) h l = absurd l
    Delivered-Receives (returned (negsuc (suc n), m) w) (front, two, taken, lt) l =
        absurd (no_early_end front (taken ∙ ap (λ t. front ++ t) l ∙ append-nil front) lt)
    Delivered-Receives fault h l = absurd h
    Delivered-Receives running h l = absurd h

    -- A wait on a stream that holds the frame of a message gets the message, and leaves what follows.
    pub receive-frame :
        (patience : W → ℕ) (fuel : ℕ) (call : ℕ → W → ReadResult × W)
        (malloc : ℕ → W → Option (List ℕ) × W) (socket_fd : ℕ) (w : W)
        → IsReader call incoming
        → IsPunctual call patience
        → IsAllocator malloc incoming patience
        → IsFlowing call incoming
        → HasMemory malloc
        → incoming w ≡ frame sent ++ rest
        → patience w + frame_size sent < fuel
        → Delivered (receive fuel call malloc socket_fd old w)
    receive-frame patience fuel call malloc socket_fd w law calm alloc open_ room e few =
        Delivered-Receives _
          (receive-Receives incoming (frame sent ++ rest) old patience fuel call malloc socket_fd w
            law calm alloc (sym e) (omega (arith, few, size, whole.agreed)))
          (receive-WaitLasts incoming call malloc law open_ room fuel socket_fd old w)
      where
        size : body_size (decode (take header_size (frame sent ++ rest))) ≡ sent.msg_header.msg_len
        size =
            ap body_size (
              (header_of_stream (take header_size (frame sent ++ rest))
                (drop header_size (frame sent ++ rest))
                (omega (
                  arith,
                  length-take header_size (frame sent ++ rest),
                  length-append (frame sent) rest,
                  length-append (encode sent.msg_header) body_bytes,
                  length-encode sent.msg_header,
                ))
                (sym (take-append-drop header_size (frame sent ++ rest)))).0)
            ∙ body_size-sent
