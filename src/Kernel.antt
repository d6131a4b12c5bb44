-- ===== src/Kernel.antt =====
-- The calls that the library makes into the C library and the kernel, as parameters.
pub mod Streams
use comm_system.Prelude.{ℕ, List, Option, ℤ}
use comm_system.System.{WriteResult, ReadResult, Address, Domain}
use comm_system.Message.{CommClient}

-- `World` is all that lies outside the process: the sockets, their peers, the heap's allocator.
pub record Kernel : Type 1 where
  pub World : Type 0
  pub write : ℕ → List ℕ → World → WriteResult × World
  pub send : ℕ → List ℕ → World → WriteResult × World
  pub read : ℕ → ℕ → World → ReadResult × World
  pub recv : ℕ → ℕ → World → ReadResult × World
  -- The block that was allocated, whose contents are not determined, or NULL.
  pub malloc : ℕ → World → Option (List ℕ) × World
  pub close : ℕ → World → World
  -- `socket(domain, SOCK_STREAM, 0)`: a descriptor, or -1.
  pub socket : Domain → World → Option ℕ × World
  -- `connect` and what follows in the kernel: 0 or -1.
  pub connect : ℕ → Address → World → ℤ × World
  -- `malloc(sizeof(comm_client_t))` and `free` of such a block, read as the structure.
  pub malloc_client : World → Option CommClient × World
  pub free_client : CommClient → World → World
