-- ===== src/Client/Calls.antt =====
-- What the calls of the library's interface do to the streams, through any transport.
use comm_system.Prelude.{
  ℕ, ◌+◌, ◌<◌, ◌≡◌, refl, sym, ap, ◌∙◌, ◌⊎◌, inl, inr, List, [], ◌++◌, take, ℤ, pos, append-cancel,
  append-nil,
}
use comm_system.Kernel.{Kernel}
use comm_system.Kernel.Streams.{IsOutStream, IsInStream, IsHealthy}
use comm_system.Transfer.{Run, returned, fault, running}
use comm_system.Message.{
  header_size, decode, CommMsg, CommClient, CommServer, tcp_client_send, tcp_client_wait,
  unix_client_send, unix_client_wait, unix_servresp_send, tcp_servresp_send,
}
use comm_system.Framing.Sending.{IsSendable, frame, frame_size, Sends, send_message-Sends}
use comm_system.Framing.Receiving.{body_size, Receives, receive-Receives}
use comm_system.Framing.Delivery.{IsWhole, Delivered, receive-frame}
use comm_system.TcpClient.{comm_tcp_client_send, comm_tcp_client_wait}
use comm_system.UnixClient.{comm_unix_client_send, comm_unix_client_wait}
use comm_system.Response.{comm_unix_servresp_send, comm_tcp_servresp_send}
use comm_system.Client.{
  with_msg, call_client, call_server, comm_client_send, comm_client_wait, comm_servresp_send,
}

-- A send through a client also gives the message back as it was.
abbrev pub SendsKept : {W : Type 0} → (W → List ℕ) → List ℕ → CommMsg → Run (ℤ × CommMsg) W → Type 0
SendsKept outgoing before msg (returned (z, m) w) =
    (m ≡ msg) × Sends outgoing before msg (returned z w)
SendsKept outgoing before msg fault = ⊥
SendsKept outgoing before msg running = ⊥

SendsKept-with_msg :
    {W : Type 0} (outgoing : W → List ℕ) (before : List ℕ) (msg : CommMsg) (r : Run ℤ W)
    → Sends outgoing before msg r
    → SendsKept outgoing before msg (with_msg msg r)
SendsKept-with_msg outgoing before msg (returned z w) h = (refl, h)
SendsKept-with_msg outgoing before msg fault h = h
SendsKept-with_msg outgoing before msg running h = h

module _ (k : Kernel) where
  open k use {World}

  -- A send through a TCP or a Unix client, of a message whose data is as long as its header says,
  -- with a peer that takes data in the end and enough fuel, always comes to an end: either it
  -- returns the size of the frame and exactly the header and the data were added to the stream, or
  -- it returns -1 and a proper prefix of the frame was added. The message stays as it was.
  pub comm_client_send_lem :
      (outgoing : World → List ℕ) (patience : World → ℕ) (fuel : ℕ) (c : CommClient) (msg : CommMsg)
      (w : World)
      → IsOutStream k c.socket_fd outgoing patience
      → (c.comm_client_send ≡ tcp_client_send) ⊎ (c.comm_client_send ≡ unix_client_send)
      → IsSendable msg
      → patience w + frame_size msg < fuel
      → SendsKept outgoing (outgoing w) msg (comm_client_send k fuel c msg w)
  unfolding comm_client_send comm_tcp_client_send comm_unix_client_send
  comm_client_send_lem outgoing patience fuel c msg w law (inl tcp) v few =
      rw (ap (λ h. call_client k fuel h c msg w) tcp) (
        SendsKept-with_msg outgoing (outgoing w) msg _ (
          send_message-Sends outgoing (outgoing w) msg patience fuel _ w law.write_law
            law.write_patient v refl few))
  comm_client_send_lem outgoing patience fuel c msg w law (inr unix) v few =
      rw (ap (λ h. call_client k fuel h c msg w) unix) (
        SendsKept-with_msg outgoing (outgoing w) msg _ (
          send_message-Sends outgoing (outgoing w) msg patience fuel _ w law.send_law
            law.send_patient v refl few))

  -- A response through a TCP or a Unix server handle, of a message whose data is as long as its
  -- header says, with a peer that takes data in the end and enough fuel, always comes to an end:
  -- either it returns the size of the frame and exactly the frame was added to the stream, or it
  -- returns -1 and a proper prefix of the frame was added.
  pub comm_servresp_send_lem :
      (outgoing : World → List ℕ) (patience : World → ℕ) (fuel : ℕ) (s : CommServer) (msg : CommMsg)
      (w : World)
      → IsOutStream k s.socket_fd outgoing patience
      → (s.comm_servresp_send ≡ tcp_servresp_send) ⊎ (s.comm_servresp_send ≡ unix_servresp_send)
      → IsSendable msg
      → patience w + frame_size msg < fuel
      → Sends outgoing (outgoing w) msg (comm_servresp_send k fuel s msg w)
  unfolding comm_servresp_send comm_tcp_servresp_send comm_unix_servresp_send
  comm_servresp_send_lem outgoing patience fuel s msg w law (inl tcp) v few =
      rw (ap (λ h. call_server k fuel h s msg w) tcp) (
        send_message-Sends outgoing (outgoing w) msg patience fuel _ w law.write_law
          law.write_patient v refl few)
  comm_servresp_send_lem outgoing patience fuel s msg w law (inr unix) v few =
      rw (ap (λ h. call_server k fuel h s msg w) unix) (
        send_message-Sends outgoing (outgoing w) msg patience fuel _ w law.write_law
          law.write_patient v refl few)

  -- A wait through a TCP or a Unix client, on any stream and with any allocator, where reads are
  -- not interrupted for ever and the fuel is enough for the announced length, always comes to an
  -- end: either it returns the count of bytes of one whole message, which is taken off the stream
  -- and stored, with the data pointer left alone if there are none, or it returns -1 or -2 and less
  -- than one message is taken off.
  pub comm_client_wait_lem :
      (incoming : World → List ℕ) (patience : World → ℕ) (fuel : ℕ) (c : CommClient) (old : CommMsg)
      (w : World)
      → IsInStream k c.socket_fd incoming patience
      → (c.comm_client_wait ≡ tcp_client_wait) ⊎ (c.comm_client_wait ≡ unix_client_wait)
      → patience w + header_size + body_size (decode (take header_size (incoming w))) < fuel
      → Receives incoming (incoming w) old (comm_client_wait k fuel c old w)
  unfolding comm_client_wait comm_tcp_client_wait comm_unix_client_wait
  comm_client_wait_lem incoming patience fuel c old w law (inl tcp) few =
      rw (ap (λ h. call_client k fuel h c old w) tcp) (
        receive-Receives incoming (incoming w) old patience fuel _ _ c.socket_fd w law.read_law
          law.read_punctual law.malloc_law refl few)
  comm_client_wait_lem incoming patience fuel c old w law (inr unix) few =
      rw (ap (λ h. call_client k fuel h c old w) unix) (
        receive-Receives incoming (incoming w) old patience fuel _ _ c.socket_fd w law.recv_law
          law.recv_punctual law.malloc_law refl few)

  -- A wait through a TCP or a Unix client, on a stream that starts with the frame of a whole
  -- message, stays up and does not interrupt for ever, with memory available and enough fuel,
  -- returns the size of that frame with the message's header and data, however the reads cut the
  -- stream, and leaves on the stream exactly what followed the frame.
  pub comm_client_wait-frame :
      (incoming : World → List ℕ) (patience : World → ℕ) (fuel : ℕ) (c : CommClient)
      (sent old : CommMsg) (rest : List ℕ) (w : World)
      → IsInStream k c.socket_fd incoming patience
      → IsHealthy k c.socket_fd incoming
      → (c.comm_client_wait ≡ tcp_client_wait) ⊎ (c.comm_client_wait ≡ unix_client_wait)
      → IsWhole sent
      → incoming w ≡ frame sent ++ rest
      → patience w + frame_size sent < fuel
      → Delivered incoming sent old rest (comm_client_wait k fuel c old w)
  unfolding comm_client_wait comm_tcp_client_wait comm_unix_client_wait
  comm_client_wait-frame incoming patience fuel c sent old rest w law up (inl tcp) whole e few =
      rw (ap (λ h. call_client k fuel h c old w) tcp) (
        receive-frame incoming sent old rest whole patience fuel _ _ c.socket_fd w law.read_law
          law.read_punctual law.malloc_law up.read_flowing up.memory e few)
  comm_client_wait-frame incoming patience fuel c sent old rest w law up (inr unix) whole e few =
      rw (ap (λ h. call_client k fuel h c old w) unix) (
        receive-frame incoming sent old rest whole patience fuel _ _ c.socket_fd w law.recv_law
          law.recv_punctual law.malloc_law up.recv_flowing up.memory e few)

-- What a send that returned a count has put on the stream.
Sends-pos :
    {W : Type 0} (outgoing : W → List ℕ) (before : List ℕ) (msg : CommMsg) (r : Run ℤ W) (n : ℕ)
    (w : W)
    → r ≡ returned (pos n) w
    → Sends outgoing before msg r
    → outgoing w ≡ before ++ frame msg
Sends-pos outgoing before msg r n w e h = (rw e at h).1

-- The server's host and the client's, each with its kernel.
module _ (k₁ k₂ : Kernel) where
  open k₁ use {World as World₁}
  open k₂ use {World as World₂}

  -- A response that the server sent is the message that the client's wait gets, for any pair of
  -- transports. If comm_servresp_send, over a stream that takes data in the end, returned a count
  -- for a message whose header fits its types, whose data the header describes and whose receiver
  -- reads as much as was written, and the client's stream holds just what the server wrote, stays
  -- up and does not interrupt for ever, with memory available and enough fuel on both sides, then
  -- comm_client_wait returns the size of the frame, and the message object has the header and the
  -- data that were sent; nothing is left on the stream.
  pub comm_client_wait-comm_servresp_send :
      (outgoing : World₁ → List ℕ) (incoming : World₂ → List ℕ) (patience₁ : World₁ → ℕ)
      (patience₂ : World₂ → ℕ) (fuel₁ fuel₂ n : ℕ) (s : CommServer) (c : CommClient)
      (sent old : CommMsg) (w₁ w₁' : World₁) (w₂ : World₂)
      → IsOutStream k₁ s.socket_fd outgoing patience₁
      → IsInStream k₂ c.socket_fd incoming patience₂
      → IsHealthy k₂ c.socket_fd incoming
      → (s.comm_servresp_send ≡ tcp_servresp_send) ⊎ (s.comm_servresp_send ≡ unix_servresp_send)
      → (c.comm_client_wait ≡ tcp_client_wait) ⊎ (c.comm_client_wait ≡ unix_client_wait)
      → IsWhole sent
      → patience₁ w₁ + frame_size sent < fuel₁
      → patience₂ w₂ + frame_size sent < fuel₂
      → comm_servresp_send k₁ fuel₁ s sent w₁ ≡ returned (pos n) w₁'
      → outgoing w₁' ≡ outgoing w₁ ++ incoming w₂
      → Delivered incoming sent old [] (comm_client_wait k₂ fuel₂ c old w₂)
  comm_client_wait-comm_servresp_send outgoing incoming patience₁ patience₂ fuel₁ fuel₂ n s c sent
        old w₁ w₁' w₂ out in_ up hs hc whole few₁ few₂ e carried =
      comm_client_wait-frame k₂ incoming patience₂ fuel₂ c sent old [] w₂ in_ up hc whole
        ((append-cancel (outgoing w₁) (incoming w₂) (outgoing w₁) (frame sent) refl (
            sym carried
            ∙ Sends-pos outgoing (outgoing w₁) sent _ n w₁' e (
                comm_servresp_send_lem k₁ outgoing patience₁ fuel₁ s sent w₁ out hs whole.sendable
                  few₁))).1
          ∙ sym (append-nil (frame sent)))
        few₂
