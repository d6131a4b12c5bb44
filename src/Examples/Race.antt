-- ===== src/Examples/Race.antt =====
-- The acceptor inserts a connection while a worker takes the two oldest.
use comm_system.Prelude.{◌≡◌, refl, List, [], ◌∷◌, ◌++◌, arith}
use comm_system.Queue.{null}
use comm_system.Queue.Segments.{Cell, entry}
use comm_system.Queue.Race.{
  Race, race, idle, outside, Event, silent, inserts, takes, make_entry, load, exchange, retry,
  seize, move, pop, Steps, stop, one_more, inserted, taken,
}
use comm_system.Queue.Linear.{Represents, Steps-Represents}
use comm_system.Examples.Server.{shared, cells}

abbrev at_rest : Race
at_rest = race shared idle outside

at_rest-Represents : Represents cells at_rest
at_rest-Represents = (
  (30, 6) ∷ (20, 5) ∷ [],
  [],
  (10, 4) ∷ [],
  record {
    in_chain = (20, refl, omega arith, refl, refl, (null, refl, omega arith, refl, refl, refl));
    moving_chain = refl;
    out_chain = (null, refl, omega arith, refl, refl, refl);
    in_moving = λ a h. refl;
    in_out = λ a h. ground arith;
    moving_out = λ a h. ground arith;
    pending = tt;
  },
  refl,
)

abbrev events : List Event
events =
    silent
    ∷ silent
    ∷ takes (10, 4)
    ∷ silent
    ∷ silent
    ∷ silent
    ∷ silent
    ∷ inserts (50, 8)
    ∷ silent
    ∷ takes (20, 5)
    ∷ []

-- The exchange fails once, since the worker seizes the stack between the load and the exchange.
overlap : (r : Race) × Steps at_rest events r
overlap = (
  _,
  one_more (make_entry shared outside 50 8 (omega arith) refl) (
      one_more (load _ _ 50 (entry 8 null) refl) (
        one_more (pop _ _ _ (entry 4 null) tt (omega arith) refl) (
          one_more (seize _ _ refl) (
            one_more (retry _ _ 50 30 (omega arith)) (
              one_more (move _ _ 30 (entry 6 20) (omega arith) refl) (
                one_more (load _ _ 50 (entry 8 30) refl) (
                  one_more (exchange _ _ 50 null (entry 8 null) refl refl) (
                    one_more (move _ _ 20 (entry 5 null) (omega arith) refl)
                      (one_more (pop _ _ _ (entry 5 30) refl (omega arith) refl) (stop _)))))))))),
)

Steps-Represents_example :
    (ys : List Cell) × Represents ys overlap.0 × (cells ++ inserted events ≡ taken events ++ ys)
Steps-Represents_example = Steps-Represents cells at_rest-Represents overlap.1
