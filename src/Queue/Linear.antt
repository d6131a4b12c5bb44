-- ===== src/Queue/Linear.antt =====
-- Whatever the order of their steps, the threads share one first-in first-out queue.
use mathlib.Core.List.{reverse_aux}
use mathlib.Core.Option.{some-injective}
use comm_system.Prelude.{
  ◌≡◌, ◌≢◌, refl, sym, ap, ◌∙◌, some, List, [], ◌∷◌, ◌++◌, append_assoc, append-nil,
}
use comm_system.Queue.{Ptr, null, CommQueueEntry, Shared, Heap}
use comm_system.Queue.Segments.{Cell, entry, Seg}
use comm_system.Queue.Fifo.{append-reverse_aux}
use comm_system.Queue.Race.{
  Inserter, Getter, outside, turning, Race, race, link, set_in, set_out, Event, silent, inserts,
  takes, IsPopping, Step, make_entry, load, exchange, retry, seize, move, find_empty, pop, Steps,
  stop, one_more, inserted, taken,
}
use comm_system.Queue.Chains.{
  head_of, IsChained, Seg-null, make_entry-IsChained, load-IsChained, exchange-IsChained,
  seize-IsChained, move-IsChained, pop-IsChained,
}

-- The queue holds the entries `xs`, the oldest first.
abbrev pub Represents : List Cell → Race → Type 0
Represents xs r =
    (ins : List Cell) × (moving : List Cell) × (outs : List Cell) × IsChained r ins moving outs
    × (xs ≡ reverse_aux moving outs ++ reverse_aux ins [])

abbrev pub arrivals : Event → List Cell
arrivals silent = []
arrivals (inserts c) = c ∷ []
arrivals (takes c) = []

abbrev pub departures : Event → List Cell
departures silent = []
departures (inserts c) = []
departures (takes c) = c ∷ []

abbrev pub Follows : List Cell → Event → Race → Type 0
Follows xs e r = (ys : List Cell) × Represents ys r × (xs ++ arrivals e ≡ departures e ++ ys)

Represents-seize :
    (s : Shared) (i : Inserter) (xs ins moving outs : List Cell)
    → moving ≡ []
    → outs ≡ []
    → IsChained (race s i outside) ins moving outs
    → xs ≡ reverse_aux moving outs ++ reverse_aux ins []
    → Follows xs silent (race (set_in null s) i (turning (s.root.queue_in)))
Represents-seize s i xs ins moving outs m o c order =
    let c' : IsChained (race s i outside) ins [] [] = rw (m, o) at c in
    let order' : xs ≡ reverse_aux ins [] = rw (m, o) at order in
    (
      xs,
      ([], ins, [], seize-IsChained s i ins c', order' ∙ sym (append-nil (reverse_aux ins []))),
      append-nil xs,
    )

Represents-move :
    (s : Shared) (i : Inserter) (xs : List Cell) (head : Ptr) (e : CommQueueEntry)
    (ins moving outs : List Cell)
    → head ≢ null
    → s.heap head ≡ some e
    → Seg s.heap head moving
    → IsChained (race s i (turning head)) ins moving outs
    → xs ≡ reverse_aux moving outs ++ reverse_aux ins []
    → Follows xs silent (race (set_out head (link head e (s.root.queue_out) s)) i (turning e.next))
Represents-move s i xs head e ins [] outs real holds chain c order = absurd (real chain)
Represents-move s i xs head e ins ((a, fd) ∷ moving) outs real holds
      (n, at_, real', holds', new, rest) c order =
    let same : e ≡ entry fd n = some-injective _ _ (sym holds ∙ ap s.heap at_ ∙ holds') in
    let c' : IsChained (race s i (turning a)) ins ((a, fd) ∷ moving) outs = rw at_ at c in
    rw (same, at_)
      (
        xs,
        (
          ins,
          moving,
          (a, fd) ∷ outs,
          move-IsChained s i a fd n ins moving outs real' new rest c',
          order,
        ),
        append-nil xs,
      )

Represents-pop :
    (s : Shared) (i : Inserter) (g : Getter) (xs : List Cell) (e : CommQueueEntry)
    (ins moving outs : List Cell)
    → moving ≡ []
    → s.root.queue_out ≢ null
    → s.heap s.root.queue_out ≡ some e
    → Seg s.heap s.root.queue_out outs
    → IsChained (race s i g) ins moving outs
    → xs ≡ reverse_aux moving outs ++ reverse_aux ins []
    → Follows xs (takes (s.root.queue_out, e.socket_fd)) (race (set_out e.next s) i outside)
Represents-pop s i g xs e ins moving [] m real holds chain c order = absurd (real chain)
Represents-pop s i g xs e ins moving ((a, fd) ∷ outs) m real holds
      (n, at_, real', holds', new, rest) c order =
    let same : e ≡ entry fd n = some-injective _ _ (sym holds ∙ ap s.heap at_ ∙ holds') in
    let c' : IsChained (race s i g) ins [] ((a, fd) ∷ outs) = rw m at c in
    let order' : xs ≡ (a, fd) ∷ (outs ++ reverse_aux ins []) = rw m at order in
    rw (same, at_)
      (
        outs ++ reverse_aux ins [],
        (ins, [], outs, pop-IsChained s i g a fd n ins outs rest c', refl),
        append-nil xs ∙ order',
      )

IsPopping-nil :
    (g : Getter) (heap : Heap) (moving : List Cell)
    → IsPopping g
    → Seg heap (head_of g) moving
    → moving ≡ []
IsPopping-nil outside heap moving done chain = Seg-null heap null moving refl chain
IsPopping-nil (turning head) heap moving done chain = Seg-null heap head moving done chain

Step-Represents :
    {r r' : Race} {e : Event} (xs : List Cell) → Step r e r' → Represents xs r → Follows xs e r'
Step-Represents xs (make_entry s g p fd real unused) (ins, moving, outs, c, order) = (
  xs,
  (ins, moving, outs, make_entry-IsChained s ins moving outs g p fd real unused c, order),
  append-nil xs,
)
Step-Represents xs (load s g p e holds) (ins, moving, outs, c, order) =
    (xs, (ins, moving, outs, load-IsChained s ins moving outs g p e c, order), append-nil xs)
Step-Represents xs (exchange s g p q e same holds) (ins, moving, outs, c, order) =
    let (fd, held) = c.pending.1 in
    let known : e.socket_fd ≡ fd = ap (λ h. h.socket_fd) (some-injective _ _ (sym holds ∙ held)) in
    rw known (
      xs ++ (p, fd) ∷ [],
      (
        (p, fd) ∷ ins,
        moving,
        outs,
        exchange-IsChained s ins moving outs g p q fd same held c,
        ap (λ l. l ++ (p, fd) ∷ []) order
            ∙ append-reverse_aux (reverse_aux moving outs) ins (p, fd),
      ),
      refl,
    )
Step-Represents xs (retry s g p q other) (ins, moving, outs, c, order) =
    let (fd, held) = c.pending.1 in
    (
      xs,
      (
        ins,
        moving,
        outs,
        record {
          in_chain = c.in_chain;
          moving_chain = c.moving_chain;
          out_chain = c.out_chain;
          in_moving = c.in_moving;
          in_out = c.in_out;
          moving_out = c.moving_out;
          pending = (c.pending.0, (entry fd q, held));
        },
        order,
      ),
      append-nil xs,
    )
Step-Represents xs (seize s i empty) (ins, moving, outs, c, order) =
    Represents-seize s i xs ins moving outs (Seg-null s.heap null moving refl c.moving_chain)
      (Seg-null s.heap s.root.queue_out outs empty c.out_chain) c order
Step-Represents xs (move s i head e real holds) (ins, moving, outs, c, order) =
    Represents-move s i xs head e ins moving outs real holds c.moving_chain c order
Step-Represents xs (find_empty s i empty) (ins, moving, outs, c, order) = (
  xs,
  (
    ins,
    moving,
    outs,
    record {
      in_chain = c.in_chain;
      moving_chain = c.moving_chain;
      out_chain = c.out_chain;
      in_moving = c.in_moving;
      in_out = c.in_out;
      moving_out = c.moving_out;
      pending = c.pending;
    },
    order,
  ),
  append-nil xs,
)
Step-Represents xs (pop s i g e done some_left holds) (ins, moving, outs, c, order) =
    Represents-pop s i g xs e ins moving outs (IsPopping-nil g s.heap moving done c.moving_chain)
      some_left holds c.out_chain c order

-- The events of one step, and those of the others.
join_events :
    (e : Event) (events : List Event) (xs ys zs : List Cell)
    → xs ++ arrivals e ≡ departures e ++ ys
    → ys ++ inserted events ≡ taken events ++ zs
    → xs ++ inserted (e ∷ events) ≡ taken (e ∷ events) ++ zs
unfolding inserted taken
join_events silent events xs ys zs e₁ e₂ =
    ap (λ l. l ++ inserted events) (sym (append-nil xs) ∙ e₁) ∙ e₂
join_events (inserts c) events xs ys zs e₁ e₂ =
    sym (append_assoc xs (c ∷ []) (inserted events)) ∙ ap (λ l. l ++ inserted events) e₁ ∙ e₂
join_events (takes c) events xs ys zs e₁ e₂ =
    ap (λ l. l ++ inserted events) (sym (append-nil xs) ∙ e₁) ∙ ap (λ l. c ∷ l) e₂

-- Whatever the order in which the acceptor and the worker that holds the lock take their steps,
-- failed exchanges included, the queue is one first-in first-out queue: if it held the entries `xs`
-- before, then those of `xs` and behind them the ones inserted meanwhile, in the order of their
-- exchanges, are the ones taken meanwhile, in the order of their removal, and behind them the ones
-- that it holds afterwards. None is lost, doubled or passed.
pub Steps-Represents :
    {r r' : Race} {events : List Event} (xs : List Cell)
    → Represents xs r
    → Steps r events r'
    → (ys : List Cell) × Represents ys r' × (xs ++ inserted events ≡ taken events ++ ys)
unfolding inserted taken
Steps-Represents xs h (stop s) = (xs, h, append-nil xs)
Steps-Represents xs h (one_more {e = e} {events = events} step steps) =
    let (ys, h', e₁) = Step-Represents xs step h in
    let (zs, h'', e₂) = Steps-Represents ys h' steps in
    (zs, h'', join_events e events xs ys zs e₁ e₂)
