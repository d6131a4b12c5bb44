-- ===== src/Framing.antt =====
-- What the send functions and the wait functions have in common. The C code repeats it for each
-- transport: `send_message`, `send_header` and `send_data` are the bodies of the functions of those
-- names in comm_server.c, comm_tcp_client.c and comm_unix_client.c, over the call that writes, where
-- the source writes the loops of `send_message` out once more; the Unix client has only that one; and
-- `receive` is the body of the wait functions, over the call that reads.
pub mod Sending
pub mod Receiving
pub mod Delivery
use comm_system.Prelude.{
  ℕ, ◌+◌, Option, none, some, List, ltb_ℤ, to_ssize, ℤ, pos, negsuc, Bool, true, false,
}
use comm_system.System.{WriteResult, ReadResult}
use comm_system.Transfer.{
  Run, returned, fault, running, and_then, comm_status_generic, comm_status_peer_close, start,
  write_all, ReadEnd, complete, peer_closed, broken, read_loop,
}
use comm_system.Message.{
  CommMsgHeader, header_size, encode, decode, CommClient, CommMsg, bytes_of, data_len,
}

-- The value that a wait function returns for the end of a loop.
abbrev pub status_of : ReadEnd → ℤ
status_of (complete ret) = pos ret
status_of peer_closed = comm_status_peer_close
status_of broken = comm_status_generic

module _ {W : Type 0} where
  -- `goto end` behind a loop that failed.
  unfoldable pub on_success : (ℕ → W → Run ℤ W) → ℤ → W → Run ℤ W
  on_success next (pos n) w = next n w
  on_success next (negsuc n) w = returned (negsuc n) w

  unfoldable pub send_header : ℕ → (List ℕ → W → WriteResult × W) → CommMsg → W → Run ℤ W
  send_header fuel call msg w = write_all fuel call (encode msg.msg_header) (pos header_size) 0 w

  unfoldable pub send_data : ℕ → (List ℕ → W → WriteResult × W) → CommMsg → (ret : ℕ) → W → Run ℤ W
  send_data fuel call msg ret w =
      write_all fuel call (bytes_of msg.payload) (to_ssize (data_len msg.msg_header)) ret w

  unfoldable pub send_message : ℕ → (List ℕ → W → WriteResult × W) → CommMsg → W → Run ℤ W
  unfolding on_success send_header send_data
  send_message fuel call msg w =
      and_then (send_header fuel call msg w) (on_success (send_data fuel call msg))

  -- The data loop, with the block that `malloc` returned in `data`.
  unfoldable pub receive_data :
      ℕ
      → (ℕ → W → ReadResult × W)
      → CommMsg
      → (tot_len ret : ℕ) → Option (List ℕ) × W
      → Run (ℤ × CommMsg) W
  receive_data fuel call msg tot_len ret (none, w) =
      returned (comm_status_generic, record msg { payload = none }) w
  receive_data fuel call msg tot_len ret (some block, w) =
      and_then (read_loop fuel call block tot_len (start tot_len ret) w)
        λ (end, memory) w'. returned (status_of end, record msg { payload = some memory }) w'

  -- `if(tot_len > 0) { … }`
  unfoldable pub receive_body :
      ℕ
      → (ℕ → W → ReadResult × W)
      → (ℕ → W → Option (List ℕ) × W)
      → CommMsg
      → (tot_len : ℤ) (ret : ℕ) → W
      → Run (ℤ × CommMsg) W
  unfolding receive_data
  receive_body fuel call malloc msg (pos ℕ.zero) ret w = returned (pos ret, msg) w
  receive_body fuel call malloc msg (pos (ℕ.suc n)) ret w =
      receive_data fuel call msg (ℕ.suc n) ret (malloc (ℕ.suc n) w)
  receive_body fuel call malloc msg (negsuc n) ret w = returned (pos ret, msg) w

  -- What follows the header loop, which has left `memory` at `&comm_msg->msg_header`.
  unfoldable pub receive_rest :
      ℕ
      → (ℕ → W → ReadResult × W)
      → (ℕ → W → Option (List ℕ) × W)
      → (socket_fd : ℕ) → CommMsg
      → ReadEnd × List ℕ
      → W
      → Run (ℤ × CommMsg) W
  unfolding receive_body decode
  receive_rest fuel call malloc socket_fd msg (complete ret, memory) w =
      let header = decode memory in
      receive_body fuel call malloc
        (record msg {
          msg_header = header;
          comm_client = record (msg.comm_client) { socket_fd = socket_fd };
        })
        (to_ssize header.msg_len) ret w
  receive_rest fuel call malloc socket_fd msg (peer_closed, memory) w =
      returned (comm_status_peer_close, record msg { msg_header = decode memory }) w
  receive_rest fuel call malloc socket_fd msg (broken, memory) w =
      returned (comm_status_generic, record msg { msg_header = decode memory }) w

  unfoldable pub receive :
      ℕ
      → (ℕ → W → ReadResult × W)
      → (ℕ → W → Option (List ℕ) × W)
      → (socket_fd : ℕ) → CommMsg
      → W
      → Run (ℤ × CommMsg) W
  unfolding receive_rest encode read_loop
  receive fuel call malloc socket_fd msg w =
      and_then (read_loop fuel call (encode msg.msg_header) header_size (start header_size 0) w)
        (receive_rest fuel call malloc socket_fd msg)
