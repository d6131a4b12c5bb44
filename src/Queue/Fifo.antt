-- ===== src/Queue/Fifo.antt =====
-- The two stacks of the queue are one queue: first in, first out.
use mathlib.Core.List.{reverse_aux}
use comm_system.Prelude.{
  ℕ, zero, suc, ◌<◌, ◌≡◌, ◌≢◌, refl, sym, ap, ◌∙◌, false, some, List, [], ◌∷◌, ◌++◌, append_assoc,
  length, ◌==◌, arith, eq→==,
}
use comm_system.Transfer.{returned}
use comm_system.Queue.{Ptr, null, Shared, update, comm_queue_insert, turn_over}
use comm_system.Queue.Segments.{
  Cell, entry, has, Seg, Disjoint, Seg-update, set_next_of_holds, Seg-cons,
}

-- The entries on the two stacks, each from its top.
pub record IsQueue (s : Shared) (ins outs : List Cell) : Type 0 where
  pub in_chain : Seg s.heap s.root.queue_in ins
  pub out_chain : Seg s.heap s.root.queue_out outs
  pub apart : Disjoint ins outs

-- `xs` in the order in which they leave: the older stack, then the newer from its bottom.
abbrev pub Holds : List Cell → Shared → Type 0
Holds xs s =
    (ins : List Cell) × (outs : List Cell) × IsQueue s ins outs × (xs ≡ outs ++ reverse_aux ins [])

-- One round of the loop moves the entry at `head`.
turn_over_step :
    (fuel fd : ℕ) (head n : Ptr) (s : Shared)
    → head ≢ null
    → s.heap head ≡ some (entry fd n)
    → turn_over (suc fuel) head s
      ≡ turn_over fuel n (record {
        heap = update s.heap head (entry fd s.root.queue_out);
        root = record { queue_in = s.root.queue_in; queue_out = head };
      })
unfolding turn_over
turn_over_step fuel fd head n s real e =
    let ne : (head == null) ≡ false = ground arith in
    rw (ne, turn_over)
      (rw (e, turn_over)
        (rw (set_next_of_holds s.heap head s.root.queue_out n fd e, turn_over) refl))

pub turn_over-Seg :
    (fuel : ℕ) (ins outs : List Cell) (head : Ptr) (s : Shared)
    → Seg s.heap head ins
    → Seg s.heap s.root.queue_out outs
    → Disjoint ins outs
    → length ins < fuel
    → (s' : Shared) × (turn_over fuel head s ≡ returned tt s')
      × (s'.root.queue_in ≡ s.root.queue_in)
      × Seg s'.heap s'.root.queue_out (reverse_aux ins outs)
unfolding turn_over
turn_over-Seg zero ins outs head s i o apart few = absurd (omega arith)
turn_over-Seg (suc fuel) [] outs head s i o apart few =
    (s, rw (eq→== head null i, turn_over), refl, o)
turn_over-Seg (suc fuel) ((a, fd) ∷ ins) outs head s (n, at_, real, holds, new, i) o apart few =
    let moved : Shared = record {
      heap = update s.heap a (entry fd s.root.queue_out);
      root = record { queue_in = s.root.queue_in; queue_out = a };
    } in
    let fresh : has a outs ≡ false = apart a (ground arith) in
    let (s', run, same, seg) =
      turn_over-Seg fuel ins ((a, fd) ∷ outs) n moved
        (Seg-update s.heap a (entry fd s.root.queue_out) n ins new i)
        (Seg-cons s.heap a s.root.queue_out fd outs real fresh o) (λ b h. ground (arith, apart b))
        (omega arith) in
    (
      s',
      ap (λ h. turn_over (suc fuel) h s) at_ ∙ turn_over_step fuel fd a n s real holds ∙ run,
      same,
      seg,
    )

reverse_aux-append : (xs ys : List Cell) → reverse_aux xs ys ≡ reverse_aux xs [] ++ ys
reverse_aux-append [] ys = refl
reverse_aux-append (x ∷ xs) ys =
    reverse_aux-append xs (x ∷ ys)
    ∙ sym (append_assoc (reverse_aux xs []) (x ∷ []) ys)
    ∙ ap (λ l. l ++ ys) (sym (reverse_aux-append xs (x ∷ [])))

-- An entry on top of the newer stack is the last one of the queue.
pub append-reverse_aux :
    (front ins : List Cell) (c : Cell)
    → (front ++ reverse_aux ins []) ++ c ∷ [] ≡ front ++ reverse_aux ins (c ∷ [])
append-reverse_aux front ins c =
    append_assoc front (reverse_aux ins []) (c ∷ [])
    ∙ ap (λ l. front ++ l) (sym (reverse_aux-append ins (c ∷ [])))

-- A new entry at `p`, linked from nowhere.
pub record IsFresh (s : Shared) (xs : List Cell) (p : Ptr) (fd : ℕ) : Type 0 where
  pub real : p ≢ null
  pub link : Ptr
  pub holds : s.heap p ≡ some (entry fd link)
  pub new : has p xs ≡ false

has-append_left : (a : Ptr) (xs ys : List Cell) → has a (xs ++ ys) ≡ false → has a xs ≡ false
has-append_left a [] ys h = refl
has-append_left a ((b, fd) ∷ xs) ys h = ground (arith, has-append_left a xs ys)

has-append_right : (a : Ptr) (xs ys : List Cell) → has a (xs ++ ys) ≡ false → has a ys ≡ false
has-append_right a [] ys h = h
has-append_right a ((b, fd) ∷ xs) ys h = has-append_right a xs ys (ground arith)

has-reverse_aux :
    (a : Ptr) (xs ys : List Cell) → has a (reverse_aux xs ys) ≡ false → has a xs ≡ false
has-reverse_aux a [] ys h = refl
has-reverse_aux a ((b, fd) ∷ xs) ys h =
    let rest = has-reverse_aux a xs ((b, fd) ∷ ys) h in
    let here =
      has-append_right a (reverse_aux xs []) ((b, fd) ∷ ys)
        (ap (has a) (sym (reverse_aux-append xs ((b, fd) ∷ ys))) ∙ h) in
    ground (arith, rest, here)

-- With no other thread between its load and its exchange, comm_queue_insert of a new entry, which
-- is in no stack, adds it behind the entries `xs` that the queue holds, without a fault and
-- whatever its `next` pointed to.
pub comm_queue_insert-Holds :
    (p : Ptr) (fd : ℕ) (xs : List Cell) (s : Shared)
    → Holds xs s
    → IsFresh s xs p fd
    → (s' : Shared) × (comm_queue_insert p s ≡ returned tt s') × Holds (xs ++ (p, fd) ∷ []) s'
unfolding comm_queue_insert
comm_queue_insert-Holds p fd xs s (ins, outs, q, order) f =
    (s', run, ((p, fd) ∷ ins, outs, q', order'))
  where
    s' : Shared
    s' = record {
      heap = update s.heap p (entry fd s.root.queue_in);
      root = record { queue_in = p; queue_out = s.root.queue_out };
    }

    run : comm_queue_insert p s ≡ returned tt s'
    run = rw (set_next_of_holds s.heap p s.root.queue_in f.link fd f.holds, comm_queue_insert) refl

    new_in : has p ins ≡ false
    new_in =
        has-reverse_aux p ins []
          (has-append_right p outs (reverse_aux ins []) (ap (has p) (sym order) ∙ f.new))

    new_out : has p outs ≡ false
    new_out = has-append_left p outs (reverse_aux ins []) (ap (has p) (sym order) ∙ f.new)

    q' : IsQueue s' ((p, fd) ∷ ins) outs
    q' = record {
      in_chain = Seg-cons s.heap p s.root.queue_in fd ins f.real new_in q.in_chain;
      out_chain =
          Seg-update s.heap p (entry fd s.root.queue_in) s.root.queue_out outs new_out q.out_chain;
      apart = λ a h. ground (arith, q.apart a, new_out);
    }

    order' : xs ++ (p, fd) ∷ [] ≡ outs ++ reverse_aux ins ((p, fd) ∷ [])
    order' = ap (λ l. l ++ (p, fd) ∷ []) order ∙ append-reverse_aux outs ins (p, fd)
