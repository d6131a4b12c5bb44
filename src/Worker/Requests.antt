-- ===== src/Worker/Requests.antt =====
-- A client's request reaches the callback of the server.
use comm_system.Prelude.{
  ℕ, ◌+◌, ◌<◌, ◌≡◌, refl, sym, ◌∙◌, ◌⊎◌, false, List, [], ◌++◌, append-nil, append-cancel, pos, ℤ,
}
use comm_system.Kernel.{Kernel}
use comm_system.Kernel.Streams.{IsOutStream, IsInStream, IsHealthy}
use comm_system.Transfer.{Run, returned}
use comm_system.Message.{CommClient, CommMsg, tcp_client_send, unix_client_send}
use comm_system.Framing.Sending.{frame, frame_size}
use comm_system.Framing.Delivery.{IsWhole}
use comm_system.Client.{comm_client_send}
use comm_system.Client.Calls.{SendsKept, comm_client_send_lem}
use comm_system.Worker.{EpollEvent, WorkerData, is_failed, handle_event}
use comm_system.Worker.Events.{Serves, handle_event-frame}

-- What a send that returned a count has put on the stream.
SendsKept-pos :
    {W : Type 0} (outgoing : W → List ℕ) (before : List ℕ) (msg m : CommMsg)
    (r : Run (ℤ × CommMsg) W) (n : ℕ) (w : W)
    → r ≡ returned (pos n, m) w
    → SendsKept outgoing before msg r
    → outgoing w ≡ before ++ frame msg
SendsKept-pos outgoing before msg m r n w e h = (rw e at h).1.1

-- The client's host and the server's, each with its kernel.
module _ (k₁ k₂ : Kernel) where
  open k₁ use {World as World₁}
  open k₂ use {World as World₂}

  -- A request that a client sent is the message that the server's callback gets. If
  -- comm_client_send through a TCP or a Unix client, over a stream that takes data in the end,
  -- returned a count for a message whose header fits its types, whose data the header describes and
  -- whose receiver reads as much as was written, and the stream of the server's socket holds just
  -- what the client wrote, stays up and does not interrupt for ever, with memory available and
  -- enough fuel on both sides, then handling a readable event of that socket is the call of the
  -- callback with the header and the data that were sent, and with the response functions and the
  -- descriptor of that connection; nothing is left on the stream.
  pub handle_event-comm_client_send :
      (data_ : WorkerData World₂) (outgoing : World₁ → List ℕ) (incoming : World₂ → List ℕ)
      (patience₁ : World₁ → ℕ) (patience₂ : World₂ → ℕ) (fuel₁ fuel₂ n : ℕ) (c : CommClient)
      (event : EpollEvent) (sent m : CommMsg) (w₁ w₁' : World₁) (w₂ : World₂)
      → IsOutStream k₁ c.socket_fd outgoing patience₁
      → IsInStream k₂ event.fd incoming patience₂
      → IsHealthy k₂ event.fd incoming
      → (c.comm_client_send ≡ tcp_client_send) ⊎ (c.comm_client_send ≡ unix_client_send)
      → is_failed event ≡ false
      → IsWhole sent
      → patience₁ w₁ + frame_size sent < fuel₁
      → patience₂ w₂ + frame_size sent < fuel₂
      → comm_client_send k₁ fuel₁ c sent w₁ ≡ returned (pos n, m) w₁'
      → outgoing w₁' ≡ outgoing w₁ ++ incoming w₂
      → Serves k₂ data_ incoming event.fd sent [] (handle_event k₂ data_ fuel₂ event w₂)
  handle_event-comm_client_send data_ outgoing incoming patience₁ patience₂ fuel₁ fuel₂ n c event
        sent m w₁ w₁' w₂ out in_ up hc e whole few₁ few₂ ran carried =
      handle_event-frame k₂ data_ incoming patience₂ fuel₂ event sent [] w₂ in_ up e whole
        ((append-cancel (outgoing w₁) (incoming w₂) (outgoing w₁) (frame sent) refl (
            sym carried
            ∙ SendsKept-pos outgoing (outgoing w₁) sent m _ n w₁' ran (
                comm_client_send_lem k₁ outgoing patience₁ fuel₁ c sent w₁ out hc whole.sendable
                  few₁))).1
          ∙ sym (append-nil (frame sent)))
        few₂
