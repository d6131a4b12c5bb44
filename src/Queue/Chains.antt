-- ===== src/Queue/Chains.antt =====
-- The chains of the queue while the acceptor and a worker are at it, and what each step does to them.
use comm_system.Prelude.{
  ℕ, ◌≡◌, ◌≢◌, refl, sym, ◌∙◌, false, inl, inr, none, some, List, [], ◌∷◌, ◌==◌, arith, ==→eq,
  Bool-cases,
}
use comm_system.Queue.{Ptr, null, CommQueueEntry, Shared, Heap, update}
use comm_system.Queue.Segments.{Cell, entry, has, Seg, Disjoint, Seg-update, Seg-cons}
use comm_system.Queue.Race.{
  Inserter, idle, holding, linked, Getter, outside, turning, Race, race, link, set_in, set_out,
}

-- What is left to turn over.
abbrev pub head_of : Getter → Ptr
head_of outside = null
head_of (turning head) = head

-- An entry at `p` in none of the chains.
pub record IsApart (p : Ptr) (ins moving outs : List Cell) : Type 0 where
  pub real : p ≢ null
  pub not_in : has p ins ≡ false
  pub not_moving : has p moving ≡ false
  pub not_out : has p outs ≡ false

abbrev pub Pending : Inserter → Heap → List Cell → List Cell → List Cell → Type 0
Pending idle heap ins moving outs = Unit
Pending (holding p) heap ins moving outs =
    IsApart p ins moving outs × ((e : CommQueueEntry) × (heap p ≡ some e))
Pending (linked p q) heap ins moving outs =
    IsApart p ins moving outs × ((fd : ℕ) × (heap p ≡ some (entry fd q)))

-- The chains of the newer stack, of the entries that are being turned over, and of the older stack.
pub record IsChained (r : Race) (ins moving outs : List Cell) : Type 0 where
  pub in_chain : Seg r.shared.heap r.shared.root.queue_in ins
  pub moving_chain : Seg r.shared.heap (head_of r.getter) moving
  pub out_chain : Seg r.shared.heap r.shared.root.queue_out outs
  pub in_moving : Disjoint ins moving
  pub in_out : Disjoint ins outs
  pub moving_out : Disjoint moving outs
  pub pending : Pending r.inserter r.shared.heap ins moving outs

pub Seg-null : (heap : Heap) (p : Ptr) (xs : List Cell) → p ≡ null → Seg heap p xs → xs ≡ []
Seg-null heap p [] e s = refl
Seg-null heap p ((a, fd) ∷ xs) e (n, at_, real, holds, new, s) = absurd (real (sym at_ ∙ e))

-- An unused block is in no chain.
pub has-unused :
    (heap : Heap) (a p : Ptr) (xs : List Cell) → heap a ≡ none → Seg heap p xs → has a xs ≡ false
has-unused heap a p [] e s = refl
has-unused heap a p ((b, fd) ∷ xs) e (n, at_, real, holds, new, s) = elim (Bool-cases (a == b)) [
  | inl same ↦ let eq : a ≡ b = ==→eq a b same in absurd cc
  | inr other ↦ let rest = has-unused heap a n xs e s in ground arith
]

module _ (s : Shared) (ins moving outs : List Cell) where
  pub make_entry-IsChained :
      (g : Getter) (p fd : ℕ)
      → p ≢ null
      → s.heap p ≡ none
      → IsChained (race s idle g) ins moving outs
      → IsChained
          (race (record s { heap = update s.heap p (entry fd null) }) (holding p) g)
          ins
          moving
          outs
  make_entry-IsChained g p fd real unused c =
      let new_in = has-unused s.heap p _ ins unused c.in_chain in
      let new_moving = has-unused s.heap p _ moving unused c.moving_chain in
      let new_out = has-unused s.heap p _ outs unused c.out_chain in
      record {
        in_chain = Seg-update s.heap p _ _ ins new_in c.in_chain;
        moving_chain = Seg-update s.heap p _ _ moving new_moving c.moving_chain;
        out_chain = Seg-update s.heap p _ _ outs new_out c.out_chain;
        in_moving = c.in_moving;
        in_out = c.in_out;
        moving_out = c.moving_out;
        pending = (
          record { real = real; not_in = new_in; not_moving = new_moving; not_out = new_out },
          (entry fd null, ground arith),
        );
      }

  pub load-IsChained :
      (g : Getter) (p : Ptr) (e : CommQueueEntry)
      → IsChained (race s (holding p) g) ins moving outs
      → IsChained
          (race (link p e (s.root.queue_in) s) (linked p (s.root.queue_in)) g)
          ins
          moving
          outs
  load-IsChained g p e c =
      let apart = c.pending.0 in
      record {
        in_chain = Seg-update s.heap p _ _ ins apart.not_in c.in_chain;
        moving_chain = Seg-update s.heap p _ _ moving apart.not_moving c.moving_chain;
        out_chain = Seg-update s.heap p _ _ outs apart.not_out c.out_chain;
        in_moving = c.in_moving;
        in_out = c.in_out;
        moving_out = c.moving_out;
        pending = (apart, (e.socket_fd, ground arith));
      }

  pub exchange-IsChained :
      (g : Getter) (p q fd : ℕ)
      → s.root.queue_in ≡ q
      → s.heap p ≡ some (entry fd q)
      → IsChained (race s (linked p q) g) ins moving outs
      → IsChained (race (set_in p s) idle g) ((p, fd) ∷ ins) moving outs
  exchange-IsChained g p q fd same holds c =
      let apart = c.pending.0 in
      let not_in = apart.not_in in
      let not_moving = apart.not_moving in
      let not_out = apart.not_out in
      record {
        in_chain = (q, refl, apart.real, holds, not_in, rw same at c.in_chain);
        moving_chain = c.moving_chain;
        out_chain = c.out_chain;
        in_moving = λ a h. ground (arith, c.in_moving a);
        in_out = λ a h. ground (arith, c.in_out a);
        moving_out = c.moving_out;
        pending = tt;
      }

Pending-seize :
    (i : Inserter) (heap : Heap) (ins : List Cell)
    → Pending i heap ins [] []
    → Pending i heap [] ins []
Pending-seize idle heap ins h = tt
Pending-seize (holding p) heap ins (a, h) =
    (record { real = a.real; not_in = refl; not_moving = a.not_in; not_out = refl }, h)
Pending-seize (linked p q) heap ins (a, h) =
    (record { real = a.real; not_in = refl; not_moving = a.not_in; not_out = refl }, h)

IsApart-pop :
    (p a fd : ℕ) (ins outs : List Cell) → IsApart p ins [] ((a, fd) ∷ outs) → IsApart p ins [] outs
IsApart-pop p a fd ins outs c =
    let far = c.not_out in
    record { real = c.real; not_in = c.not_in; not_moving = refl; not_out = ground arith }

Pending-pop :
    (i : Inserter) (heap : Heap) (ins outs : List Cell) (a fd : ℕ)
    → Pending i heap ins [] ((a, fd) ∷ outs)
    → Pending i heap ins [] outs
Pending-pop idle heap ins outs a fd h = tt
Pending-pop (holding p) heap ins outs a fd (c, h) = (IsApart-pop p a fd ins outs c, h)
Pending-pop (linked p q) heap ins outs a fd (c, h) = (IsApart-pop p a fd ins outs c, h)

module _ (heap : Heap) (p a fd : ℕ) (ins moving outs : List Cell) where
  IsApart-move : IsApart p ins ((a, fd) ∷ moving) outs → IsApart p ins moving ((a, fd) ∷ outs)
  IsApart-move c =
      let far = c.not_moving in
      let out = c.not_out in
      record { real = c.real; not_in = c.not_in; not_moving = ground arith; not_out = ground arith }

  -- The entry of the acceptor is not the one that is turned over.
  update_elsewhere :
      (e : CommQueueEntry) → IsApart p ins ((a, fd) ∷ moving) outs → update heap a e p ≡ heap p
  update_elsewhere e c = let far = c.not_moving in ground arith

Pending-move :
    (i : Inserter) (heap : Heap) (a fd : ℕ) (e : CommQueueEntry) (ins moving outs : List Cell)
    → Pending i heap ins ((a, fd) ∷ moving) outs
    → Pending i (update heap a e) ins moving ((a, fd) ∷ outs)
Pending-move idle heap a fd e ins moving outs h = tt
Pending-move (holding p) heap a fd e ins moving outs (c, (e', h)) = (
  IsApart-move heap p a fd ins moving outs c,
  (e', update_elsewhere heap p a fd ins moving outs e c ∙ h),
)
Pending-move (linked p q) heap a fd e ins moving outs (c, (fd', h)) = (
  IsApart-move heap p a fd ins moving outs c,
  (fd', update_elsewhere heap p a fd ins moving outs e c ∙ h),
)

module _ (s : Shared) (i : Inserter) where
  pub seize-IsChained :
      (ins : List Cell)
      → IsChained (race s i outside) ins [] []
      → IsChained (race (set_in null s) i (turning (s.root.queue_in))) [] ins []
  seize-IsChained ins c = record {
    in_chain = refl;
    moving_chain = c.in_chain;
    out_chain = c.out_chain;
    in_moving = λ a h. absurd cc;
    in_out = λ a h. refl;
    moving_out = λ a h. refl;
    pending = Pending-seize i s.heap ins c.pending;
  }

  pub move-IsChained :
      (a fd n : ℕ) (ins moving outs : List Cell)
      → a ≢ null
      → has a moving ≡ false
      → Seg s.heap n moving
      → IsChained (race s i (turning a)) ins ((a, fd) ∷ moving) outs
      → IsChained
          (race (set_out a (link a (entry fd n) (s.root.queue_out) s)) i (turning n))
          ins
          moving
          ((a, fd) ∷ outs)
  move-IsChained a fd n ins moving outs real new rest c =
      let not_in : has a ins ≡ false = elim (Bool-cases (has a ins)) [
        | inl both ↦ let far = c.in_moving a both in absurd (ground arith)
        | inr far ↦ far
      ] in
      let not_out : has a outs ≡ false = c.moving_out a (ground arith) in
      record {
        in_chain = Seg-update s.heap a _ _ ins not_in c.in_chain;
        moving_chain = Seg-update s.heap a _ n moving new rest;
        out_chain = Seg-cons s.heap a s.root.queue_out fd outs real not_out c.out_chain;
        in_moving = λ b h. ground (arith, c.in_moving b);
        in_out = λ b h. ground (arith, c.in_moving b, c.in_out b);
        moving_out = λ b h. ground (arith, c.moving_out b);
        pending = Pending-move i s.heap a fd _ ins moving outs c.pending;
      }

  pub pop-IsChained :
      (g : Getter) (a fd n : ℕ) (ins outs : List Cell)
      → Seg s.heap n outs
      → IsChained (race s i g) ins [] ((a, fd) ∷ outs)
      → IsChained (race (set_out n s) i outside) ins [] outs
  pop-IsChained g a fd n ins outs rest c = record {
    in_chain = c.in_chain;
    moving_chain = refl;
    out_chain = rest;
    in_moving = λ b h. refl;
    in_out = λ b h. ground (arith, c.in_out b);
    moving_out = λ b h. absurd cc;
    pending = Pending-pop i s.heap ins outs a fd c.pending;
  }
