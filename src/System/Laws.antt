-- ===== src/System/Laws.antt =====
-- What POSIX documents of the system calls, as hypotheses of the properties that rely on it.
use comm_system.Prelude.{
  Option, none, some, ℕ, suc, ◌+◌, ◌≤◌, ◌<◌, ◌≡◌, List, [], ◌∷◌, ◌++◌, length, take,
}
use comm_system.System.{other, WriteResult, wrote, write_failed, ReadResult, got, read_failed}

module _ {W : Type 0} where
  -- An answer to a write of `bytes`: a count accepts that many of the first bytes, a failure none.
  abbrev pub Accepts : (W → List ℕ) → List ℕ → W → WriteResult × W → Type 0
  Accepts outgoing bytes w (wrote n, w') =
      (n ≤ length bytes) × (outgoing w' ≡ outgoing w ++ take n bytes)
  Accepts outgoing bytes w (write_failed e, w') = outgoing w' ≡ outgoing w

  -- `call` writes to a stream on which `outgoing` bytes have been accepted so far.
  pub record IsWriter (call : List ℕ → W → WriteResult × W) (outgoing : W → List ℕ) : Type 0 where
    pub accepts : (bytes : List ℕ) (w : W) → Accepts outgoing bytes w (call bytes w)

  -- An answer to a read of at most `n` bytes: the bytes come off the front of the stream.
  abbrev pub Delivers : (W → List ℕ) → ℕ → W → ReadResult × W → Type 0
  Delivers incoming n w (got bytes, w') = (length bytes ≤ n) × (incoming w ≡ bytes ++ incoming w')
  Delivers incoming n w (read_failed e, w') = incoming w' ≡ incoming w

  -- `call` reads from a stream on which `incoming` bytes are still to come.
  pub record IsReader (call : ℕ → W → ReadResult × W) (incoming : W → List ℕ) : Type 0 where
    pub delivers : (n : ℕ) (w : W) → Delivers incoming n w (call n w)

  -- A call that comes back with nothing done (0 bytes, EAGAIN or EINTR) uses up patience.
  abbrev pub Hurries : (W → ℕ) → W → WriteResult × W → Type 0
  Hurries patience w (wrote n, w') = patience w' < patience w + n
  Hurries patience w (write_failed (other e), w') = Unit
  Hurries patience w (write_failed e, w') = patience w' < patience w

  -- A peer that takes data in the end: only so many calls in a row get nothing done.
  pub record IsPatient (call : List ℕ → W → WriteResult × W) (patience : W → ℕ) : Type 0 where
    pub hurries : (b : ℕ) (bytes : List ℕ) (w : W) → Hurries patience w (call (b ∷ bytes) w)

  -- No error but EAGAIN and EINTR.
  abbrev pub Survives : WriteResult × W → Type 0
  Survives (write_failed (other e), w') = ⊥
  Survives _ = Unit

  pub record IsConnected (call : List ℕ → W → WriteResult × W) : Type 0 where
    pub survives : (bytes : List ℕ) (w : W) → Survives (call bytes w)

  -- An interrupted read uses up patience, and no read adds any.
  abbrev pub Hastens : (W → ℕ) → W → ReadResult × W → Type 0
  Hastens patience w (got bytes, w') = patience w' ≤ patience w
  Hastens patience w (read_failed (other e), w') = patience w' ≤ patience w
  Hastens patience w (read_failed e, w') = patience w' < patience w

  -- Only so many reads come back with EAGAIN or EINTR.
  pub record IsPunctual (call : ℕ → W → ReadResult × W) (patience : W → ℕ) : Type 0 where
    pub hastens : (n : ℕ) (w : W) → Hastens patience w (call n w)

  -- A read of 0 bytes comes at the end of the stream alone, and there is no error but EAGAIN and
  -- EINTR.
  abbrev pub Flows : (W → List ℕ) → W → ReadResult × W → Type 0
  Flows incoming w (got [], w') = incoming w ≡ []
  Flows incoming w (read_failed (other e), w') = ⊥
  Flows incoming w _ = Unit

  pub record IsFlowing (call : ℕ → W → ReadResult × W) (incoming : W → List ℕ) : Type 0 where
    pub flows : (n : ℕ) (w : W) → Flows incoming w (call (suc n) w)

  -- An answer to `malloc(n)`: NULL or a block of `n` bytes; no stream and no patience is touched.
  abbrev pub Allocates : (W → List ℕ) → (W → ℕ) → ℕ → W → Option (List ℕ) × W → Type 0
  Allocates incoming patience n w (none, w') =
      (incoming w' ≡ incoming w) × (patience w' ≤ patience w)
  Allocates incoming patience n w (some block, w') =
      (incoming w' ≡ incoming w) × (patience w' ≤ patience w) × (length block ≡ n)

  pub record IsAllocator (malloc : ℕ → W → Option (List ℕ) × W) (incoming : W → List ℕ)
      (patience : W → ℕ) : Type 0 where
    pub allocates : (n : ℕ) (w : W) → Allocates incoming patience n w (malloc n w)

  -- Memory is not exhausted.
  abbrev pub IsBlock : Option (List ℕ) × W → Type 0
  IsBlock (none, w') = ⊥
  IsBlock (some block, w') = Unit

  pub record HasMemory (malloc : ℕ → W → Option (List ℕ) × W) : Type 0 where
    pub never_null : (n : ℕ) (w : W) → IsBlock (malloc n w)
