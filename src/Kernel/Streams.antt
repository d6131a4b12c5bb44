-- ===== src/Kernel/Streams.antt =====
-- The laws of the system calls, for the socket that a handle names.
use comm_system.Prelude.{ℕ, List}
use comm_system.System.Laws.{
  IsWriter, IsPatient, IsReader, IsPunctual, IsAllocator, IsFlowing, HasMemory,
}
use comm_system.Kernel.{Kernel}

module _ (k : Kernel) (socket_fd : ℕ) where
  open k use {World, write, send, read, recv, malloc}

  -- `outgoing` is what the socket has accepted, and its peer takes data in the end.
  pub record IsOutStream (outgoing : World → List ℕ) (patience : World → ℕ) : Type 0 where
    pub write_law : IsWriter (write socket_fd) outgoing
    pub send_law : IsWriter (send socket_fd) outgoing
    pub write_patient : IsPatient (write socket_fd) patience
    pub send_patient : IsPatient (send socket_fd) patience

  -- `incoming` is what is to come from the socket, and reads are not interrupted for ever.
  pub record IsInStream (incoming : World → List ℕ) (patience : World → ℕ) : Type 0 where
    pub read_law : IsReader (read socket_fd) incoming
    pub recv_law : IsReader (recv socket_fd) incoming
    pub read_punctual : IsPunctual (read socket_fd) patience
    pub recv_punctual : IsPunctual (recv socket_fd) patience
    pub malloc_law : IsAllocator malloc incoming patience

  -- The connection stays up, and memory is not exhausted.
  pub record IsHealthy (incoming : World → List ℕ) : Type 0 where
    pub read_flowing : IsFlowing (read socket_fd) incoming
    pub recv_flowing : IsFlowing (recv socket_fd) incoming
    pub memory : HasMemory malloc
