-- ===== src/Queue/Get.antt =====
-- comm_queue_get takes the oldest entry.
use mathlib.Core.List.{reverse_aux}
use comm_system.Prelude.{
  ℕ, ◌+◌, ◌<◌, ◌≡◌, ◌≢◌, refl, ap, ◌∙◌, false, some, List, [], ◌∷◌, ◌++◌, append-nil, length,
  length-append, ◌==◌, arith, eq→==,
}
use comm_system.Transfer.{Run, returned, fault, running}
use comm_system.Queue.{Ptr, null, Shared, refill, pop, comm_queue_get}
use comm_system.Queue.Segments.{Cell, entry}
use comm_system.Queue.Fifo.{IsQueue, Holds, turn_over-Seg}

-- NULL from an empty queue; else, and not NULL, the entry that was inserted first, with its connection, and the
-- others stay in their order.
abbrev pub Gets : List Cell → Run Ptr Shared → Type 0
Gets [] (returned p s) = (p ≡ null) × Holds [] s
Gets ((a, fd) ∷ xs) (returned p s) =
    (p ≡ a) × (a ≢ null) × ((link : Ptr) × (s.heap a ≡ some (entry fd link))) × Holds xs s
Gets xs fault = ⊥
Gets xs running = ⊥

length-reverse_aux : (xs ys : List Cell) → length (reverse_aux xs ys) ≡ length xs + length ys
length-reverse_aux [] ys = omega arith
length-reverse_aux (x ∷ xs) ys = omega (arith, length-reverse_aux xs (x ∷ ys))

pop-cons :
    (ins outs : List Cell) (a : Ptr) (fd : ℕ) (s : Shared)
    → IsQueue s ins ((a, fd) ∷ outs)
    → Gets ((a, fd) ∷ (outs ++ reverse_aux ins [])) (pop s)
unfolding pop
pop-cons ins outs a fd s q =
    let (n, at_, real, holds, new, rest) = q.out_chain in
    let ne : (s.root.queue_out == null) ≡ false = ground arith in
    let found : s.heap s.root.queue_out ≡ some (entry fd n) = ap s.heap at_ ∙ holds in
    rw (ne, Gets)
      (rw (found, Gets)
        (
          at_,
          real,
          (n, holds),
          (
            ins,
            outs,
            record {
              in_chain = q.in_chain;
              out_chain = rest;
              apart = λ b h. ground (arith, q.apart b);
            },
            refl,
          ),
        ))

pop-Gets : (outs : List Cell) (s : Shared) → IsQueue s [] outs → Gets (outs ++ []) (pop s)
unfolding pop
pop-Gets [] s q = rw (eq→== s.root.queue_out null q.out_chain, Gets) (refl, ([], [], q, refl))
pop-Gets ((a, fd) ∷ outs) s q = pop-cons [] outs a fd s q

refill_of_cons :
    (fuel : ℕ) (ins outs : List Cell) (a : Ptr) (fd : ℕ) (s : Shared)
    → IsQueue s ins ((a, fd) ∷ outs)
    → refill fuel s ≡ returned tt s
unfolding refill
refill_of_cons fuel ins outs a fd s q =
    let (n, at_, real, holds, new, rest) = q.out_chain in
    let ne : (s.root.queue_out == null) ≡ false = ground arith in rw (ne, refill) refl

refill_of_nil :
    (fuel : ℕ) (ins : List Cell) (s : Shared)
    → IsQueue s ins []
    → length ins < fuel
    → (s' : Shared) × (refill fuel s ≡ returned tt s') × IsQueue s' [] (reverse_aux ins [])
unfolding refill
refill_of_nil fuel ins s q few =
    let taken : Shared = record s { root = record (s.root) { queue_in = null } } in
    let (s', run, same, seg) =
      turn_over-Seg fuel ins [] s.root.queue_in taken q.in_chain q.out_chain q.apart few in
    (
      s',
      rw (eq→== s.root.queue_out null q.out_chain, refill) run,
      record { in_chain = same; out_chain = seg; apart = λ a h. cc },
    )

get_of :
    (fuel : ℕ) (s s' : Shared) → refill fuel s ≡ returned tt s' → comm_queue_get fuel s ≡ pop s'
unfolding comm_queue_get
get_of fuel s s' e = rw (e, comm_queue_get) refl

get-Gets :
    (fuel : ℕ) (ins outs : List Cell) (s : Shared)
    → IsQueue s ins outs
    → length ins < fuel
    → Gets (outs ++ reverse_aux ins []) (comm_queue_get fuel s)
get-Gets fuel ins [] s q few =
    let (s', run, q') = refill_of_nil fuel ins s q few in
    rw (get_of fuel s s' run, ← append-nil (reverse_aux ins []))
      (pop-Gets (reverse_aux ins []) s' q')
get-Gets fuel ins ((a, fd) ∷ outs) s q few =
    rw (get_of fuel s s (refill_of_cons fuel ins outs a fd s q)) (pop-cons ins outs a fd s q)

-- From a queue whose two stacks hold the entries `xs` in their order of insertion, with more fuel
-- than entries, comm_queue_get always comes to an end without a fault: it returns NULL if there is
-- none, and else the oldest entry, which still holds its connection; the other entries stay in the
-- queue in their order.
pub comm_queue_get-Gets :
    (fuel : ℕ) (xs : List Cell) (s : Shared)
    → Holds xs s
    → length xs < fuel
    → Gets xs (comm_queue_get fuel s)
comm_queue_get-Gets fuel xs s (ins, outs, q, order) few = rw order (
    get-Gets fuel ins outs s q (
      omega (
        arith,
        ap length order,
        length-append outs (reverse_aux ins []),
        length-reverse_aux ins [],
      )))
