-- ===== src/Framing/Sending.antt =====
-- What a send function puts on the stream: the frame of its message, or a part of it.
use comm_system.Prelude.{
  ℕ, ◌+◌, ◌^◌, ◌≤◌, ◌<◌, ◌≡◌, sym, ap, ◌∙◌, List, ◌++◌, append_assoc, length, take, take-take,
  take-of_le, take-append_add, take-append_of_le, lt→ltb, arith, ℤ, pos, negsuc, to_ssize,
}
use comm_system.System.{WriteResult}
use comm_system.System.Laws.{IsWriter, IsPatient}
use comm_system.Transfer.{Run, returned, fault, running, and_then}
use comm_system.Transfer.Ending.{Ends}
use comm_system.Transfer.Total.{Transfers, write_all-Transfers}
use comm_system.Message.{header_size, encode, CommMsg, bytes_of, data_len}
use comm_system.Message.Wire.{length-encode}
use comm_system.Framing.{on_success, send_data, send_message}

-- The length that the sender uses is a length of the data, and no negative `ssize_t`.
pub record IsSendable (msg : CommMsg) : Type 0 where
  pub short : data_len msg.msg_header < 2 ^ 63
  pub held : data_len msg.msg_header ≤ length (bytes_of msg.payload)

-- A message on the wire: its header, and as many bytes of its data as the header says.
abbrev pub frame : CommMsg → List ℕ
frame msg = encode msg.msg_header ++ take (data_len msg.msg_header) (bytes_of msg.payload)

abbrev pub frame_size : CommMsg → ℕ
frame_size msg = header_size + data_len msg.msg_header

-- The outcome of a send over a stream that had accepted the bytes `before`: the whole frame went
-- out and its size is returned, or -1 is returned and less than the frame went out.
abbrev pub Sends : {W : Type 0} → (W → List ℕ) → List ℕ → CommMsg → Run ℤ W → Type 0
Sends outgoing before msg (returned (pos n) w) =
    (n ≡ frame_size msg) × (outgoing w ≡ before ++ frame msg)
Sends outgoing before msg (returned (negsuc e) w) =
    (m : ℕ) × (e ≡ 0) × (m < frame_size msg) × (outgoing w ≡ before ++ take m (frame msg))
Sends outgoing before msg fault = ⊥
Sends outgoing before msg running = ⊥

pub to_ssize_of_lt : (n : ℕ) → n < 2 ^ 63 → to_ssize n ≡ pos n
to_ssize_of_lt n h = ground (arith, lt→ltb n (2 ^ 63))

module _ {W : Type 0} (outgoing : W → List ℕ) (before : List ℕ) (msg : CommMsg) where
  abbrev header : List ℕ
  header = encode msg.msg_header

  abbrev body : List ℕ
  body = bytes_of msg.payload

  abbrev size : ℕ
  size = data_len msg.msg_header

  -- The data loop behind a header that is out.
  Sends-data :
      (r : Run ℤ W)
      → Transfers outgoing (before ++ header) body size header_size r
      → Sends outgoing before msg r
  Sends-data (returned (pos n) w) h = (h.0, h.1 ∙ append_assoc before header (take size body))
  Sends-data (returned (negsuc e) w) (m, e', lt, o) = (
    header_size + m,
    e',
    omega (arith, lt),
    o
        ∙ append_assoc before header (take m body)
        ∙ ap (λ l. before ++ (header ++ l)) (sym (take-take m size body (omega arith)))
        ∙ ap (λ l. before ++ l) (sym (take-append_add m header (take size body)))
        ∙ ap (λ c. before ++ take (c + m) (frame msg)) (length-encode msg.msg_header),
  )
  Sends-data fault h = h
  Sends-data running h = h

  Sends-header :
      (e : ℕ) (w : W)
      → Transfers outgoing before header header_size 0 (returned (negsuc e) w)
      → Sends outgoing before msg (returned (negsuc e) w)
  Sends-header e w (m, e', lt, o) = (
    m,
    e',
    omega (arith, lt),
    o
        ∙ ap (λ l. before ++ l)
            (sym (
              take-append_of_le m header (take size body)
                (omega (arith, lt, length-encode msg.msg_header)))),
  )

  -- The loop over the data, where it starts with the header out and counted.
  send_data-Sends :
      (patience : W → ℕ) (fuel : ℕ) (call : List ℕ → W → WriteResult × W) (w : W)
      → IsWriter call outgoing
      → IsPatient call patience
      → IsSendable msg
      → outgoing w ≡ before ++ header
      → patience w + size < fuel
      → Sends outgoing before msg (send_data fuel call msg header_size w)
  unfolding send_data
  send_data-Sends patience fuel call w law calm v o few = rw (to_ssize_of_lt size v.short) (
      Sends-data _ (
        (write_all-Transfers outgoing (before ++ header) body size header_size patience fuel call w
          law calm o v.held few).0))

  send_rest-Sends :
      (patience : W → ℕ) (fuel : ℕ) (call : List ℕ → W → WriteResult × W) (bound : ℕ)
      → IsWriter call outgoing
      → IsPatient call patience
      → IsSendable msg
      → bound + size < fuel
      → (r : Run ℤ W) → Transfers outgoing before header header_size 0 r
      → Ends patience bound r
      → Sends outgoing before msg (and_then r (on_success (send_data fuel call msg)))
  unfolding on_success
  send_rest-Sends patience fuel call bound law calm v few (returned (pos n) w) h e = rw (h.0) (
      send_data-Sends patience fuel call w law calm v
        (h.1
          ∙ ap (λ l. before ++ l)
              (take-of_le header_size header (omega (arith, length-encode msg.msg_header))))
        (omega (arith, e, few)))
  send_rest-Sends patience fuel call bound law calm v few (returned (negsuc n) w) h e =
      Sends-header n w h
  send_rest-Sends patience fuel call bound law calm v few fault h e = h
  send_rest-Sends patience fuel call bound law calm v few running h e = h

  -- A send over a stream that takes data in the end puts the frame of its message on the stream.
  pub send_message-Sends :
      (patience : W → ℕ) (fuel : ℕ) (call : List ℕ → W → WriteResult × W) (w : W)
      → IsWriter call outgoing
      → IsPatient call patience
      → IsSendable msg
      → outgoing w ≡ before
      → patience w + frame_size msg < fuel
      → Sends outgoing before msg (send_message fuel call msg w)
  unfolding send_message
  send_message-Sends patience fuel call w law calm v o few =
      let (sent, ends) =
        write_all-Transfers outgoing before header header_size 0 patience fuel call w law calm o
          (omega (arith, length-encode msg.msg_header)) (omega arith) in
      send_rest-Sends patience fuel call (patience w + header_size) law calm v (omega arith) _ sent
        ends
