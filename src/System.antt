-- ===== src/System.antt =====
-- The system calls and the allocator that the library calls (`write`, `send`, `read`, `recv`,
-- `malloc`, `close`, `socket`, `connect` of the C library): none is implemented in the repository,
-- so all are parameters, the fields of the records in Kernel.antt. A property that relies on what POSIX documents of
-- them takes it as one of the law records of System/Laws.antt.
pub mod Laws
use comm_system.Prelude.{ℕ, List}

-- The values of `errno` that the code tells apart.
pub data Errno : Type 0 where
  eagain eintr : Errno
  other : ℕ → Errno

-- What `write` and `send` return: a count, or -1 with `errno`.
pub data WriteResult : Type 0 where
  wrote : ℕ → WriteResult
  write_failed : Errno → WriteResult

-- What `read` and `recv` return: the bytes that were stored, or -1 with `errno`.
pub data ReadResult : Type 0 where
  got : List ℕ → ReadResult
  read_failed : Errno → ReadResult

-- `sun_path` of a Unix-domain address, or the IPv4 address and the port.
pub data Address : Type 0 where
  unix_path : List ℕ → Address
  inet : List ℕ → ℕ → Address

pub data Domain : Type 0 where
  af_unix af_inet : Domain
