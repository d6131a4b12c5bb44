-- ===== src/Replay.antt =====
-- A kernel for the tests: one connection, which answers each call as its script says. It is the
-- value that shows that the laws of System/Laws.antt can be met.
pub mod Lawful
use comm_system.Prelude.{
  ℕ, zero, suc, ◌+◌, Option, none, some, List, [], ◌∷◌, ◌++◌, length, take, drop, ltb,
  if◌then◌else◌, ℤ, pos,
}
use comm_system.System.{
  eagain, eintr, WriteResult, wrote, write_failed, ReadResult, got, read_failed,
}
use comm_system.Message.{comm_tcp, stray, CommClient}
use comm_system.Kernel.{Kernel}

-- `chunk n` lets a call move `n + 1` bytes at most; after the script there is no limit.
pub data Turn : Type 0 where
  chunk : ℕ → Turn
  interrupt : Turn
  not_yet : Turn

pub record Wire : Type 0 where
  pub sent : List ℕ
  pub coming : List ℕ
  pub script : List Turn

abbrev pub accept : ℕ → List ℕ → Wire → List Turn → WriteResult × Wire
accept n bytes w rest =
    let k = if ltb n (length bytes) then n else length bytes in
    (wrote k, record w { sent = w.sent ++ take k bytes; script = rest })

abbrev pub write_turn : List Turn → List ℕ → Wire → WriteResult × Wire
write_turn [] bytes w = accept (length bytes) bytes w []
write_turn (chunk n ∷ rest) bytes w = accept (suc n) bytes w rest
write_turn (interrupt ∷ rest) bytes w = (write_failed eintr, record w { script = rest })
write_turn (not_yet ∷ rest) bytes w = (write_failed eagain, record w { script = rest })

abbrev pub supply : ℕ → Wire → List Turn → ReadResult × Wire
supply n w rest = (got (take n w.coming), record w { coming = drop n w.coming; script = rest })

abbrev pub read_turn : List Turn → ℕ → Wire → ReadResult × Wire
read_turn [] n w = supply n w []
read_turn (chunk m ∷ rest) n w = supply (if ltb (suc m) n then suc m else n) w rest
read_turn (interrupt ∷ rest) n w = (read_failed eintr, record w { script = rest })
read_turn (not_yet ∷ rest) n w = (read_failed eagain, record w { script = rest })

abbrev pub zeros : ℕ → List ℕ
zeros zero = []
zeros (suc n) = 0 ∷ zeros n

-- What `malloc` leaves in the block of a client.
abbrev pub raw_client : CommClient
raw_client = record {
  socket_fd = 77;
  ipc_type = comm_tcp;
  comm_client_send = stray 1;
  comm_client_send_header = stray 2;
  comm_client_send_data = stray 3;
  comm_client_wait = stray 4;
  comm_client_finish = stray 5;
}

abbrev pub replay : Kernel
replay = record {
  World = Wire;
  write = λ fd bytes w. write_turn w.script bytes w;
  send = λ fd bytes w. write_turn w.script bytes w;
  read = λ fd n w. read_turn w.script n w;
  recv = λ fd n w. read_turn w.script n w;
  malloc = λ n w. (some (zeros n), w);
  close = λ fd w. record w { script = [] };
  socket = λ domain w. (some 4, w);
  connect = λ fd address w. (pos 0, w);
  malloc_client = λ w. (some raw_client, w);
  free_client = λ c w. w;
}
