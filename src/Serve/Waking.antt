-- ===== src/Serve/Waking.antt =====
-- What a wait for events finds on an edge-triggered epoll set with the listening socket alone.
use comm_system.Prelude.{
  ℕ, ◌<◌, ◌≡◌, refl, sym, ap, ◌∙◌, false, Option, none, some, List, [], ◌∷◌, ◌++◌, append-nil,
  length, drop, inl, inr,
}
use comm_system.Queue.Segments.{Cell}
use comm_system.Accept.{Sockets}
use comm_system.Accept.Backlog.{Rests, fds}
use comm_system.Worker.{EpollEvent, is_failed}

pub fds-append : (xs ys : List Cell) → fds (xs ++ ys) ≡ fds xs ++ fds ys
fds-append [] ys = refl
fds-append ((a, fd) ∷ xs) ys = ap (λ l. fd ∷ l) (fds-append xs ys)

drop-length {ℓ} : {A : Type ℓ} (xs : List A) → drop (length xs) xs ≡ []
drop-length [] = refl
drop-length (x ∷ xs) = drop-length xs

module _ {W : Type 0} (sockets : Sockets W) (backlog : W → List ℕ) where
  -- An event of readable input on the listening socket alone.
  abbrev pub IsReadable : (sfd : ℕ) → EpollEvent → Type 0
  IsReadable sfd event = (event.fd ≡ sfd) × (is_failed event ≡ false)

  abbrev pub AllReadable : (sfd : ℕ) → List EpollEvent → Type 0
  AllReadable sfd [] = Unit
  AllReadable sfd (event ∷ events) = IsReadable sfd event × AllReadable sfd events

  -- The connections that have come between two worlds.
  abbrev pub come : W → W → List ℕ
  come w w' = drop (length (backlog w)) (backlog w')

  -- epoll_wait on the listening socket: when it fails, or finds no event, no connection has come;
  -- its events are of readable input, and those that have come wait behind the others.
  abbrev pub Wakes : (sfd bound : ℕ) → W → Option (List EpollEvent) × W → Type 0
  Wakes sfd bound w (none, w') = backlog w' ≡ backlog w
  Wakes sfd bound w (some [], w') = backlog w' ≡ backlog w
  Wakes sfd bound w (some (event ∷ events), w') =
      AllReadable sfd (event ∷ events)
      × (backlog w' ≡ backlog w ++ come w w')
      × (length (backlog w') < bound)

  pub Wakes-come :
      (sfd bound : ℕ) (w : W) (r : Option (List EpollEvent) × W)
      → Wakes sfd bound w r
      → backlog w ++ come w r.1 ≡ backlog r.1
  Wakes-come sfd bound w (none, w') e =
      ap (λ l. backlog w ++ drop (length (backlog w)) l) e
      ∙ ap (λ l. backlog w ++ l) (drop-length (backlog w))
      ∙ append-nil (backlog w)
      ∙ sym e
  Wakes-come sfd bound w (some [], w') e =
      ap (λ l. backlog w ++ drop (length (backlog w)) l) e
      ∙ ap (λ l. backlog w ++ l) (drop-length (backlog w))
      ∙ append-nil (backlog w)
      ∙ sym e
  Wakes-come sfd bound w (some (event ∷ events), w') (ready, e, few) = sym e

  pub Rests-backlog :
      (w w' : W) → backlog w' ≡ backlog w → Rests sockets backlog w → Rests sockets backlog w'
  Rests-backlog w w' e (inl empty) = inl (e ∙ empty)
  Rests-backlog w w' e (inr (v, err, v', other, failed, same)) =
      inr (v, err, v', other, failed, e ∙ same)
