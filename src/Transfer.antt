-- ===== src/Transfer.antt =====
-- The loops that move a buffer through a socket: `while (count < tot_len)` around `write` or `send`
-- in every send function of comm_server.c, comm_tcp_client.c and comm_unix_client.c, and around
-- `read` or `recv` in comm_worker_run and the two wait functions. Each loop keeps the local
-- variables of the source and runs on fuel; `running` says that it is not done when the fuel ends.
pub mod Write
pub mod Ending
pub mod Total
pub mod Lasting
pub mod Read
use comm_system.Prelude.{
  ℕ, zero, suc, ◌+◌, ◌-◌, Bool, true, false, Option, none, some, List, [], ◌∷◌, ◌++◌, length, take,
  drop, ltb, leb, if◌then◌else◌, ℤ, pos, negsuc,
}
use comm_system.System.{
  Errno, eagain, eintr, other, WriteResult, wrote, write_failed, ReadResult, got, read_failed,
}

-- The state of a run: `fault` is an access outside an object, which C leaves undefined.
pub data Run {ℓ} (A : Type ℓ) (W : Type 0) : Type ℓ where
  returned : A → W → Run A W
  fault : Run A W
  running : Run A W

abbrev pub and_then {ℓ κ} :
    {A : Type ℓ} {B : Type κ} {W : Type 0} → Run A W → (A → W → Run B W) → Run B W
and_then (returned a w) f = f a w
and_then fault f = fault
and_then running f = running

-- COMM_STATUS_GENERIC and COMM_STATUS_PEER_CLOSE
abbrev pub comm_status_generic : ℤ
comm_status_generic = negsuc 0

abbrev pub comm_status_peer_close : ℤ
comm_status_peer_close = negsuc 1

-- `len` bytes from offset `p` of an object, if it has them.
abbrev pub slice : List ℕ → ℕ → ℕ → Option (List ℕ)
slice memory p len = if leb (p + len) (length memory) then some (take len (drop p memory)) else none

-- The locals of a loop: `pointer` is `p_msg_header` or `data`, as an offset into its object, `moved`
-- is `write_count` or `read_count`, `len` is `write_len` or `read_len`.
pub record Locals : Type 0 where
  pub pointer : ℕ
  pub moved : ℕ
  pub len : ℕ
  pub count : ℕ
  pub ret : ℕ

abbrev pub start : (tot_len ret : ℕ) → Locals
start tot_len ret = record { pointer = 0; moved = 0; len = tot_len; count = 0; ret = ret }

-- `pointer = pointer + moved`, the first line of the loop's body.
abbrev pub step_pointer : Locals → Locals
step_pointer s = record s { pointer = s.pointer + s.moved }

-- After `n` bytes: `count = count + n; len = tot_len - count; ret = ret + n`. The sums have no bound
-- here; the source's `ret` is a ssize_t, and the header and an object of C have less than 2 ^ 63 bytes.
abbrev pub progress : ℕ → Locals → ℕ → Locals
progress tot_len s n = record s {
  moved = n;
  len = tot_len - (s.count + n);
  count = s.count + n;
  ret = s.ret + n;
}

module _ {W : Type 0} where
  -- The body behind the call. `again` is the rest of the loop.
  unfoldable pub after_write : (Locals → W → Run ℤ W) → ℕ → Locals → WriteResult × W → Run ℤ W
  after_write again tot_len s (wrote zero, w) = again (record s { moved = 0 }) w
  after_write again tot_len s (wrote (suc n), w) = again (progress tot_len s (suc n)) w
  after_write again tot_len s (write_failed eagain, w) = again (record s { moved = 0 }) w
  after_write again tot_len s (write_failed eintr, w) = again (record s { moved = 0 }) w
  after_write again tot_len s (write_failed (other e), w) = returned comm_status_generic w

  -- The round of the loop that makes the call, if its buffer lies inside the object.
  unfoldable pub write_bytes :
      (Locals → W → Run ℤ W)
      → (List ℕ → W → WriteResult × W)
      → ℕ
      → Locals
      → Option (List ℕ)
      → W
      → Run ℤ W
  unfolding after_write
  write_bytes again call tot_len s none w = fault
  write_bytes again call tot_len s (some bytes) w = after_write again tot_len s (call bytes w)

  unfoldable pub write_loop : ℕ → (List ℕ → W → WriteResult × W) → List ℕ → ℕ → Locals → W → Run ℤ W
  unfolding write_bytes
  write_loop zero call memory tot_len s w = running
  write_loop (suc fuel) call memory tot_len s w = elim (ltb s.count tot_len) [
    | false ↦ returned (pos s.ret) w
    | true ↦
        write_bytes (write_loop fuel call memory tot_len) call tot_len (step_pointer s)
          (slice memory (s.pointer + s.moved) s.len) w
  ]

  -- A loop over `tot_len` bytes, which is a `ssize_t`: below 0 it is not entered.
  unfoldable pub write_all :
      ℕ → (List ℕ → W → WriteResult × W) → List ℕ → ℤ → (ret : ℕ) → W → Run ℤ W
  unfolding write_loop
  write_all fuel call memory (pos tot_len) ret w =
      write_loop fuel call memory tot_len (start tot_len ret) w
  write_all fuel call memory (negsuc n) ret w = returned (pos ret) w

-- How a read loop ends: with all bytes, at the end of the stream, or on an error.
pub data ReadEnd : Type 0 where
  complete : (ret : ℕ) → ReadEnd
  peer_closed broken : ReadEnd

-- `bytes` stored at offset `p`.
abbrev pub store : List ℕ → ℕ → List ℕ → List ℕ
store memory p bytes = take p memory ++ (bytes ++ drop (p + length bytes) memory)

module _ {W : Type 0} where
  -- The body behind the call. The object comes back with what was stored in it.
  unfoldable pub after_read :
      (List ℕ → Locals → W → Run (ReadEnd × List ℕ) W)
      → List ℕ
      → ℕ
      → Locals
      → ReadResult × W
      → Run (ReadEnd × List ℕ) W
  after_read again memory tot_len s (got [], w) = returned (peer_closed, memory) w
  after_read again memory tot_len s (got (b ∷ bytes), w) =
      again (store memory s.pointer (b ∷ bytes)) (progress tot_len s (length (b ∷ bytes))) w
  after_read again memory tot_len s (read_failed eagain, w) =
      again memory (record s { moved = 0 }) w
  after_read again memory tot_len s (read_failed eintr, w) = again memory (record s { moved = 0 }) w
  after_read again memory tot_len s (read_failed (other e), w) = returned (broken, memory) w

  unfoldable pub read_loop :
      ℕ → (ℕ → W → ReadResult × W) → List ℕ → ℕ → Locals → W → Run (ReadEnd × List ℕ) W
  unfolding after_read
  read_loop zero call memory tot_len s w = running
  read_loop (suc fuel) call memory tot_len s w = elim (ltb s.count tot_len) [
    | false ↦ returned (complete s.ret, memory) w
    | true ↦ elim (leb (s.pointer + s.moved + s.len) (length memory)) [
      | false ↦ fault
      | true ↦
          after_read (λ m. read_loop fuel call m tot_len) memory tot_len (step_pointer s)
            (call s.len w)
    ]
  ]
