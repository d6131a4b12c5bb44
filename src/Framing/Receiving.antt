-- ===== src/Framing/Receiving.antt =====
-- What a wait function takes off the stream, and the message that it makes of it.
use comm_system.Prelude.{
  ℕ, zero, suc, ◌+◌, ◌<◌, ◌≡◌, refl, sym, ap, ◌∙◌, Option, none, some, List, [], ◌∷◌, ◌++◌,
  append_assoc, append-nil, length, length-append, take, take-append, drop-of_le, arith, ℤ, pos,
  negsuc, to_ssize, pos_part,
}
use comm_system.System.{ReadResult}
use comm_system.System.Laws.{IsReader, IsPunctual, Allocates, IsAllocator}
use comm_system.Transfer.{
  Run, returned, fault, running, and_then, start, ReadEnd, complete, peer_closed, broken,
}
use comm_system.Transfer.Read.{HasRead, Reads, read_all-Reads}
use comm_system.Transfer.Lasting.{Calms, read_loop-Calms}
use comm_system.Message.{CommMsgHeader, header_size, encode, decode, CommMsg}
use comm_system.Message.Wire.{length-encode}
use comm_system.Framing.{status_of, receive_data, receive_body, receive_rest, receive}

-- The number of data bytes that a receiver reads behind a header: `msg_len` as a `ssize_t`, and none
-- if that is negative.
abbrev pub body_size : CommMsgHeader → ℕ
body_size h = pos_part (to_ssize h.msg_len)

-- What `data` holds behind a message with the data `body`: without any it is left as it was.
abbrev pub payload_of : Option (List ℕ) → List ℕ → Option (List ℕ)
payload_of old [] = old
payload_of old (b ∷ body) = some (b ∷ body)

module _ {W : Type 0} (incoming : W → List ℕ) (before : List ℕ) (old : CommMsg) where
  -- A message came off the stream: `header` and `body` are its bytes.
  pub record IsReceived (n : ℕ) (m : CommMsg) (w : W) (header body : List ℕ) : Type 0 where
    pub header_length : length header ≡ header_size
    pub body_length : length body ≡ body_size (decode header)
    pub taken : before ≡ header ++ (body ++ incoming w)
    pub counted : n ≡ header_size + length body
    pub header_is : m.msg_header ≡ decode header
    pub payload_is : m.payload ≡ payload_of old.payload body

  -- The outcome of a wait over a stream with the bytes `before`: one whole message is taken off and
  -- counted, or -1 or -2 is returned and less than a message is taken off.
  abbrev pub Receives : Run (ℤ × CommMsg) W → Type 0
  Receives (returned (pos n, m) w) =
      (header : List ℕ) × (body : List ℕ) × IsReceived n m w header body
  Receives (returned (negsuc e, m) w) =
      (front : List ℕ) × (e < 2)
      × (before ≡ front ++ incoming w)
      × (length front < header_size + body_size (decode (take header_size front)))
  Receives fault = ⊥
  Receives running = ⊥

  module _ (header : List ℕ) (full : length header ≡ header_size) where
    -- The header and a part of the data: less than a message.
    short_of_message :
        (part : List ℕ) (w : W)
        → before ≡ header ++ (part ++ incoming w)
        → length part < body_size (decode header)
        → (front : List ℕ) × (before ≡ front ++ incoming w)
          × (length front < header_size + body_size (decode (take header_size front)))
    short_of_message part w o lt = (
      header ++ part,
      o ∙ sym (append_assoc header part (incoming w)),
      rw (take_header part) (omega (arith, length-append header part)),
    )
      where
        take_header : (xs : List ℕ) → take header_size (header ++ xs) ≡ header
        take_header xs = ap (λ c. take c (header ++ xs)) (sym full) ∙ take-append header xs

    -- What the end of the data loop makes of the message.
    read_end-Receives :
        (msg : CommMsg) (block : List ℕ) (body_len : ℕ) (w : W)
        → suc body_len ≡ body_size (decode header)
        → before ≡ header ++ incoming w
        → msg.msg_header ≡ decode header
        → length block ≡ suc body_len
        → (r : Run (ReadEnd × List ℕ) W)
        → Reads incoming (incoming w) block (suc body_len) header_size r
        → Receives (
            and_then r
              λ (end, memory) w'. returned (status_of end, record msg { payload = some memory }) w')
    read_end-Receives msg block body_len w e o k size (returned (complete n, m) w')
          (body, c, l, held) =
        (
          header,
          body,
          record {
            header_length = full;
            body_length = l ∙ e;
            taken = o ∙ ap (λ t. header ++ t) held.taken;
            counted = omega (arith, c, l);
            header_is = k;
            payload_is =
                ap (λ t. some t)
                  (held.stored
                    ∙ ap (λ t. body ++ t) (drop-of_le (length body) block (omega (arith, l, size)))
                    ∙ append-nil body)
                ∙ sym (payload_of_suc body l);
          },
        )
      where
        payload_of_suc :
            (xs : List ℕ) → length xs ≡ suc body_len → payload_of old.payload xs ≡ some xs
        payload_of_suc [] h = absurd (omega arith)
        payload_of_suc (x ∷ xs) h = refl
    read_end-Receives msg block body_len w e o k size (returned (peer_closed, m) w')
          (part, lt, held) =
        let (front, t, s) =
          short_of_message part w' (o ∙ ap (λ t. header ++ t) held.taken) (omega (arith, lt, e)) in
        (front, omega arith, t, s)
    read_end-Receives msg block body_len w e o k size (returned (broken, m) w') (part, lt, held) =
        let (front, t, s) =
          short_of_message part w' (o ∙ ap (λ t. header ++ t) held.taken) (omega (arith, lt, e)) in
        (front, omega arith, t, s)
    read_end-Receives msg block body_len w e o k size fault h = h
    read_end-Receives msg block body_len w e o k size running h = h

    -- The data loop, once the header is off the stream.
    receive_data-Receives :
        (msg : CommMsg) (body_len : ℕ) (patience : W → ℕ) (fuel : ℕ) (call : ℕ → W → ReadResult × W)
        (w : W) (r : Option (List ℕ) × W)
        → IsReader call incoming
        → IsPunctual call patience
        → suc body_len ≡ body_size (decode header)
        → before ≡ header ++ incoming w
        → msg.msg_header ≡ decode header
        → patience w + suc body_len < fuel
        → Allocates incoming patience (suc body_len) w r
        → Receives (receive_data fuel call msg (suc body_len) header_size r)
    unfolding receive_data
    receive_data-Receives msg body_len patience fuel call w (none, w') law calm e o k few a =
        let o' = o ∙ ap (λ t. header ++ t) (sym a.0) in
        let (front, t, s) = short_of_message [] w' o' (omega (arith, e)) in
        (front, omega arith, t, s)
    receive_data-Receives msg body_len patience fuel call w (some block, w') law calm e o k few a =
        read_end-Receives msg block body_len w' e (o ∙ ap (λ t. header ++ t) (sym a.0)) k a.2 _ (
          read_all-Reads incoming (incoming w') block (suc body_len) header_size patience fuel call
            w' law calm refl (omega (arith, a.2)) (omega (arith, a.1, few)))

    receive_body-Receives :
        (msg : CommMsg) (tot_len : ℤ) (patience : W → ℕ) (fuel : ℕ) (call : ℕ → W → ReadResult × W)
        (malloc : ℕ → W → Option (List ℕ) × W) (w : W)
        → IsReader call incoming
        → IsPunctual call patience
        → IsAllocator malloc incoming patience
        → pos_part tot_len ≡ body_size (decode header)
        → before ≡ header ++ incoming w
        → msg.msg_header ≡ decode header
        → msg.payload ≡ old.payload
        → patience w + pos_part tot_len < fuel
        → Receives (receive_body fuel call malloc msg tot_len header_size w)
    unfolding receive_body
    receive_body-Receives msg (pos zero) patience fuel call malloc w law calm room e o k p few = (
      header,
      [],
      record {
        header_length = full;
        body_length = e;
        taken = o;
        counted = omega arith;
        header_is = k;
        payload_is = p;
      },
    )
    receive_body-Receives msg (pos (suc n)) patience fuel call malloc w law calm room e o k p few =
        receive_data-Receives msg n patience fuel call w _ law calm e o k few
          (room.allocates (suc n) w)
    receive_body-Receives msg (negsuc n) patience fuel call malloc w law calm room e o k p few = (
      header,
      [],
      record {
        header_length = full;
        body_length = e;
        taken = o;
        counted = omega arith;
        header_is = k;
        payload_is = p;
      },
    )

  -- The header loop's object holds what came off the stream, when the loop is complete.
  header_of_memory :
      (front m : List ℕ) (w : W)
      → length front ≡ header_size
      → HasRead incoming before (encode old.msg_header) header_size 0 front m w
      → m ≡ front
  header_of_memory front m w l held =
      held.stored
      ∙ ap (λ t. front ++ t)
          (drop-of_le (length front) (encode old.msg_header)
            (omega (arith, l, length-encode old.msg_header)))
      ∙ append-nil front

  receive_rest-Receives :
      (patience : W → ℕ) (bound fuel : ℕ) (call : ℕ → W → ReadResult × W)
      (malloc : ℕ → W → Option (List ℕ) × W) (socket_fd : ℕ)
      → IsReader call incoming
      → IsPunctual call patience
      → IsAllocator malloc incoming patience
      → bound + body_size (decode (take header_size before)) < fuel
      → (r : Run (ReadEnd × List ℕ) W)
      → Reads incoming before (encode old.msg_header) header_size 0 r
      → Calms patience bound r
      → Receives (and_then r (receive_rest fuel call malloc socket_fd old))
  unfolding receive_rest
  receive_rest-Receives patience bound fuel call malloc socket_fd law calm room few
        (returned (complete n, m) w) (front, c, l, held) b =
      let same = header_of_memory front m w l held in
      let cut : take header_size before ≡ front =
        ap (take header_size) held.taken
        ∙ ap (λ k. take k (front ++ incoming w)) (sym l)
        ∙ take-append front (incoming w) in
      let few' : bound + body_size (decode front) < fuel = rw cut at few in
      rw (c, same)
        (receive_body-Receives front l _ (to_ssize (decode front).msg_len) patience fuel call malloc
          w law calm room refl held.taken refl refl (omega (arith, few', b)))
  receive_rest-Receives patience bound fuel call malloc socket_fd law calm room few
        (returned (peer_closed, m) w) (front, lt, held) b =
      (front, omega arith, held.taken, omega (arith, lt))
  receive_rest-Receives patience bound fuel call malloc socket_fd law calm room few
        (returned (broken, m) w) (front, lt, held) b =
      (front, omega arith, held.taken, omega (arith, lt))
  receive_rest-Receives patience bound fuel call malloc socket_fd law calm room few fault h b = h
  receive_rest-Receives patience bound fuel call malloc socket_fd law calm room few running h b = h

  -- A wait takes one whole message off the stream, or less than one and returns -1 or -2.
  pub receive-Receives :
      (patience : W → ℕ) (fuel : ℕ) (call : ℕ → W → ReadResult × W)
      (malloc : ℕ → W → Option (List ℕ) × W) (socket_fd : ℕ) (w : W)
      → IsReader call incoming
      → IsPunctual call patience
      → IsAllocator malloc incoming patience
      → before ≡ incoming w
      → patience w + header_size + body_size (decode (take header_size before)) < fuel
      → Receives (receive fuel call malloc socket_fd old w)
  unfolding receive
  receive-Receives patience fuel call malloc socket_fd w law calm room e few =
      receive_rest-Receives patience (patience w) fuel call malloc socket_fd law calm room
        (omega arith) _
        (read_all-Reads incoming before (encode old.msg_header) header_size 0 patience fuel call w
          law calm e (omega (arith, length-encode old.msg_header)) (omega arith))
        (read_loop-Calms patience (patience w) header_size fuel call (encode old.msg_header)
          (start header_size 0) w calm (omega arith))
