-- ===== src/Replay/Lawful.antt =====
-- The kernel of the tests meets the laws of the system calls.
use comm_system.Prelude.{
  ℕ, zero, suc, ◌≤◌, ◌<◌, ◌≡◌, refl, sym, ap, List, [], ◌∷◌, length, length-take, take-append-drop,
  ltb, if◌then◌else◌, arith,
}
use comm_system.System.Laws.{Accepts, Hurries, Delivers, Hastens, Flows}
use comm_system.Kernel.Streams.{IsOutStream, IsInStream, IsHealthy}
use comm_system.Replay.{
  Turn, chunk, interrupt, not_yet, Wire, write_turn, supply, read_turn, zeros, replay,
}

abbrev pub sent : Wire → List ℕ
sent w = w.sent

abbrev pub coming : Wire → List ℕ
coming w = w.coming

abbrev pub turns_left : Wire → ℕ
turns_left w = length w.script

write_turn-Accepts :
    (turns : List Turn) (bytes : List ℕ) (w : Wire)
    → Accepts sent bytes w (write_turn turns bytes w)
write_turn-Accepts [] bytes w = (ground arith, refl)
write_turn-Accepts (chunk n ∷ rest) bytes w = (ground arith, refl)
write_turn-Accepts (interrupt ∷ rest) bytes w = refl
write_turn-Accepts (not_yet ∷ rest) bytes w = refl

write_turn-Hurries :
    (turns : List Turn) (b : ℕ) (bytes : List ℕ) (w : Wire)
    → turns ≡ w.script
    → Hurries turns_left w (write_turn turns (b ∷ bytes) w)
write_turn-Hurries [] b bytes w e = ground (arith, ap length e)
write_turn-Hurries (chunk n ∷ rest) b bytes w e = ground (arith, ap length e)
write_turn-Hurries (interrupt ∷ rest) b bytes w e = omega (arith, ap length e)
write_turn-Hurries (not_yet ∷ rest) b bytes w e = omega (arith, ap length e)

read_turn-Delivers :
    (turns : List Turn) (n : ℕ) (w : Wire) → Delivers coming n w (read_turn turns n w)
read_turn-Delivers [] n w =
    (omega (arith, length-take n w.coming), sym (take-append-drop n w.coming))
read_turn-Delivers (chunk m ∷ rest) n w =
    let k = if ltb (suc m) n then suc m else n in
    let small : k ≤ n = ground arith in
    (omega (arith, length-take k w.coming), sym (take-append-drop k w.coming))
read_turn-Delivers (interrupt ∷ rest) n w = refl
read_turn-Delivers (not_yet ∷ rest) n w = refl

read_turn-Hastens :
    (turns : List Turn) (n : ℕ) (w : Wire)
    → turns ≡ w.script
    → Hastens turns_left w (read_turn turns n w)
read_turn-Hastens [] n w e = omega (arith, ap length e)
read_turn-Hastens (chunk m ∷ rest) n w e = omega (arith, ap length e)
read_turn-Hastens (interrupt ∷ rest) n w e = omega (arith, ap length e)
read_turn-Hastens (not_yet ∷ rest) n w e = omega (arith, ap length e)

-- A read of at least one byte brings none at the end of the stream alone.
supply-Flows :
    (n : ℕ) (bytes : List ℕ) (w : Wire) (rest : List Turn)
    → bytes ≡ w.coming
    → 0 < n
    → Flows coming w (supply n w rest)
supply-Flows zero bytes w rest e h = absurd (omega arith)
supply-Flows (suc n) [] w rest e h = rw (← e, Flows) (sym e)
supply-Flows (suc n) (b ∷ bytes) w rest e h = rw (← e, Flows) tt

read_turn-Flows :
    (turns : List Turn) (n : ℕ) (w : Wire) → Flows coming w (read_turn turns (suc n) w)
read_turn-Flows [] n w = supply-Flows (suc n) w.coming w [] refl (omega arith)
read_turn-Flows (chunk m ∷ rest) n w =
    supply-Flows (if ltb (suc m) (suc n) then suc m else suc n) w.coming w rest refl (ground arith)
read_turn-Flows (interrupt ∷ rest) n w = tt
read_turn-Flows (not_yet ∷ rest) n w = tt

length-zeros : (n : ℕ) → length (zeros n) ≡ n
length-zeros zero = refl
length-zeros (suc n) = ap suc (length-zeros n)

pub replay-IsOutStream : (fd : ℕ) → IsOutStream replay fd sent turns_left
replay-IsOutStream fd = record {
  write_law = record { accepts = λ bytes w. write_turn-Accepts w.script bytes w };
  send_law = record { accepts = λ bytes w. write_turn-Accepts w.script bytes w };
  write_patient = record { hurries = λ b bytes w. write_turn-Hurries w.script b bytes w refl };
  send_patient = record { hurries = λ b bytes w. write_turn-Hurries w.script b bytes w refl };
}

pub replay-IsInStream : (fd : ℕ) → IsInStream replay fd coming turns_left
replay-IsInStream fd = record {
  read_law = record { delivers = λ n w. read_turn-Delivers w.script n w };
  recv_law = record { delivers = λ n w. read_turn-Delivers w.script n w };
  read_punctual = record { hastens = λ n w. read_turn-Hastens w.script n w refl };
  recv_punctual = record { hastens = λ n w. read_turn-Hastens w.script n w refl };
  malloc_law = record { allocates = λ n w. (refl, omega arith, length-zeros n) };
}

pub replay-IsHealthy : (fd : ℕ) → IsHealthy replay fd coming
replay-IsHealthy fd = record {
  read_flowing = record { flows = λ n w. read_turn-Flows w.script n w };
  recv_flowing = record { flows = λ n w. read_turn-Flows w.script n w };
  memory = record { never_null = λ n w. tt };
}
