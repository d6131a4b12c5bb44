-- ===== src/Queue/Segments.antt =====
-- Chains of queue entries in the heap.
use comm_system.Prelude.{
  ℕ, ◌≡◌, ◌≢◌, refl, Bool, true, false, ◌||◌, some, List, [], ◌∷◌, ◌==◌, arith,
}
use comm_system.Queue.{Ptr, null, CommQueueEntry, Heap, update, set_next}

-- An entry: where it is, and the connection that it holds.
abbrev pub Cell : Type 0
Cell = Ptr × ℕ

abbrev pub entry : ℕ → Ptr → CommQueueEntry
entry fd next = record { socket_fd = fd; next = next }

abbrev pub has : Ptr → List Cell → Bool
has a [] = false
has a ((b, fd) ∷ xs) = (a == b) || has a xs

-- From `p` the `next` pointers lead through the distinct entries `xs` to NULL.
abbrev pub Seg : Heap → Ptr → List Cell → Type 0
Seg heap p [] = p ≡ null
Seg heap p ((a, fd) ∷ xs) =
    (n : Ptr) × (p ≡ a)
    × (a ≢ null)
    × (heap a ≡ some (entry fd n))
    × (has a xs ≡ false)
    × Seg heap n xs

abbrev pub Disjoint : List Cell → List Cell → Type 0
Disjoint xs ys = (a : Ptr) → has a xs ≡ true → has a ys ≡ false

-- A write elsewhere leaves a chain as it was.
pub Seg-update :
    (heap : Heap) (a : Ptr) (e : CommQueueEntry) (p : Ptr) (xs : List Cell)
    → has a xs ≡ false
    → Seg heap p xs
    → Seg (update heap a e) p xs
Seg-update heap a e p [] out s = s
Seg-update heap a e p ((b, fd) ∷ xs) out (n, at_, real, holds, new, s) =
    (n, at_, real, ground arith, new, Seg-update heap a e n xs (ground arith) s)

pub set_next_of_holds :
    (heap : Heap) (p q n : Ptr) (fd : ℕ)
    → heap p ≡ some (entry fd n)
    → set_next p q heap ≡ some (update heap p (entry fd q))
unfolding set_next
set_next_of_holds heap p q n fd e = rw (e, set_next)

pub Seg-cons :
    (heap : Heap) (p q : Ptr) (fd : ℕ) (xs : List Cell)
    → p ≢ null
    → has p xs ≡ false
    → Seg heap q xs
    → Seg (update heap p (entry fd q)) p ((p, fd) ∷ xs)
Seg-cons heap p q fd xs real new s =
    (q, refl, real, ground arith, new, Seg-update heap p (entry fd q) q xs new s)
