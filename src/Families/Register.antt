-- ===== src/Families/Register.antt =====
-- What registering a family does to the look-ups of all families.
use comm_system.Prelude.{
  ℕ, zero, suc, ◌<◌, ◌≡◌, ◌≢◌, refl, sym, ap, ◌∙◌, ◌⊎◌, inl, inr, true, false, Option, none, some,
  List, [], ◌∷◌, length, lt→ltb, Bool-cases, leb, if◌then◌else◌, arith, ℤ, pos, negsuc, eq_ℤ,
  eq_ℤ→eq, eq_ℤ_refl,
}
use comm_system.Transfer.{Run, returned, fault, running}
use comm_system.Families.{
  FamilyError, Family, unused_slot, str_len, find_family, find_slot, set_slot, is_refused,
  number_for, fill_slot, add_family_error,
}

-- The number of slots that are not used.
abbrev pub free_slots : List Family → ℕ
free_slots [] = 0
free_slots (family ∷ tab_family) =
    if eq_ℤ family.num_family unused_slot
    then suc (free_slots tab_family)
    else free_slots tab_family

-- After a family was stored: it is found under its number, if no family had it before; the other
-- numbers find what they found, and one slot less is free.
pub record IsStored (before : List Family) (family : Family) (after : List Family) : Type 0 where
  pub found :
      find_family before family.num_family ≡ none
      → find_family after family.num_family ≡ some family
  pub kept :
      (n : ℤ) → n ≢ family.num_family → n ≢ unused_slot → find_family after n ≡ find_family before n
  pub counted : free_slots before ≡ suc (free_slots after)

eq_ℤ-ne : (a b : ℤ) → a ≢ b → eq_ℤ a b ≡ false
eq_ℤ-ne a b h = elim (Bool-cases (eq_ℤ a b)) [ inl e ↦ absurd (h (eq_ℤ→eq a b e)) | inr e ↦ e ]

-- `i` is the first unused slot.
abbrev IsSlot : ℕ → List Family → Type 0
IsSlot i [] = ⊥
IsSlot zero (first ∷ rest) = first.num_family ≡ unused_slot
IsSlot (suc i) (first ∷ rest) = (first.num_family ≢ unused_slot) × IsSlot i rest

module _ (family : Family) (used : family.num_family ≢ unused_slot) where
  -- The slot is the first of the array.
  here-IsStored :
      (old : Family) (rest : List Family)
      → old.num_family ≡ unused_slot
      → IsStored (old ∷ rest) family (family ∷ rest)
  unfolding find_family
  here-IsStored old rest free = record {
    found = λ h. rw (eq_ℤ_refl family.num_family) refl;
    kept = λ n other not_free.
        rw (eq_ℤ-ne family.num_family n (λ e. other (sym e)))
          (rw free (rw (eq_ℤ-ne unused_slot n (λ e. not_free (sym e))) refl));
    counted = rw free (rw (eq_ℤ-ne family.num_family unused_slot used) refl);
  }

  -- The slot lies behind a used one.
  cons-IsStored :
      (first : Family) (rest rest' : List Family)
      → first.num_family ≢ unused_slot
      → IsStored rest family rest'
      → IsStored (first ∷ rest) family (first ∷ rest')
  unfolding find_family
  cons-IsStored first rest rest' taken h = record {
    found = λ none_before. elim (Bool-cases (eq_ℤ first.num_family family.num_family)) [
      | inl same ↦ absurd (let clash : some first ≡ none = rw same at none_before in cc)
      | inr other ↦ rw other (h.found (rw other at none_before))
    ];
    kept = λ n other not_free.
        ap (λ f. if eq_ℤ first.num_family n then some first else f) (h.kept n other not_free);
    counted = rw (eq_ℤ-ne first.num_family unused_slot taken) h.counted;
  }

  set_slot-IsStored :
      (i : ℕ) (tab_family : List Family)
      → IsSlot i tab_family
      → IsStored tab_family family (set_slot i family tab_family)
  unfolding set_slot
  set_slot-IsStored i [] h = absurd h
  set_slot-IsStored zero (first ∷ rest) h = here-IsStored first rest h
  set_slot-IsStored (suc i) (first ∷ rest) (taken, h) =
      cons-IsStored first rest _ taken (set_slot-IsStored i rest h)

find_slot-cases :
    (tab_family : List Family)
    → ((find_slot tab_family ≡ none) × (free_slots tab_family ≡ 0))
      ⊎ ((i : ℕ) × (find_slot tab_family ≡ some i) × IsSlot i tab_family)
unfolding find_slot
find_slot-cases [] = inl (refl, refl)
find_slot-cases (first ∷ rest) = elim (Bool-cases (eq_ℤ first.num_family unused_slot)) [
  | inl free ↦ inr (zero, rw (free, find_slot), eq_ℤ→eq first.num_family unused_slot free)
  | inr taken ↦
      let ne : first.num_family ≢ unused_slot =
        λ e. (let clash : true ≡ false = sym (ap (λ n. eq_ℤ n unused_slot) e) ∙ taken in cc) in
      elim (find_slot-cases rest) [
        | inl (e, k) ↦ inl (rw (taken, find_slot) (rw (e, find_slot) refl), rw taken k)
        | inr (i, e, h) ↦ inr (suc i, rw (taken, find_slot) (rw (e, find_slot) refl), (ne, h))
      ]
]

-- The numbers that may be asked for: one from 1 to 49, or -1 for any.
abbrev pub IsNumber : ℤ → Type 0
IsNumber (pos n) = (0 < n) × (n < 50)
IsNumber (negsuc n) = n ≡ 0

is_refused-cases :
    (num_family : ℤ)
    → ((is_refused num_family ≡ true) × (¬ (IsNumber num_family)))
      ⊎ ((is_refused num_family ≡ false) × IsNumber num_family)
unfolding is_refused
is_refused-cases (pos zero) = inl (refl, λ h. omega (arith, h))
is_refused-cases (pos (suc n)) = elim (Bool-cases (leb 50 (suc n))) [
  | inl big ↦ inl (big, λ h. ground (arith, h))
  | inr small ↦ inr (small, ground arith)
]
is_refused-cases (negsuc zero) = inr (refl, refl)
is_refused-cases (negsuc (suc n)) = inl (refl, λ h. omega (arith, h))

number_for-ne :
    (num_family : ℤ) (i : ℕ) → is_refused num_family ≡ false → number_for num_family i ≢ unused_slot
unfolding number_for is_refused
number_for-ne (pos n) i h = λ e. (cc)
number_for-ne (negsuc zero) i h = λ e. (cc)
number_for-ne (negsuc (suc n)) i h = λ e. (cc)

-- The number asked for, or the index of a slot if any will do.
number_for-cases :
    (num_family : ℤ) (i : ℕ) → (num_family ≡ negsuc 0) ⊎ (number_for num_family i ≡ num_family)
unfolding number_for
number_for-cases num_family i = elim (Bool-cases (eq_ℤ num_family (negsuc 0))) [
  | inl any ↦ inl (eq_ℤ→eq num_family (negsuc 0) any)
  | inr own ↦ inr (rw own refl)
]

module _ (num_family : ℤ) (name : List ℕ) (tab_err : Option (List FamilyError))
    (before : List Family) where
  -- -1 and nothing changed, for a number that is not allowed or with no slot left.
  abbrev pub Refuses : ℤ → List Family → Type 0
  Refuses result after =
      (result ≡ negsuc 0) × (after ≡ before) × ((¬ (IsNumber num_family)) ⊎ (free_slots before ≡ 0))

  -- The family is stored under the number that is returned.
  abbrev pub Stores : ℤ → List Family → Type 0
  Stores result after =
      IsNumber num_family
      × ((num_family ≡ negsuc 0) ⊎ (result ≡ num_family))
      × IsStored before (record { num_family = result; name_family = name; tab_err = tab_err })
          after

  abbrev pub Registers : Run ℤ (List Family) → Type 0
  Registers (returned result after) = Refuses result after ⊎ Stores result after
  Registers fault = ⊥
  Registers running = ⊥

  -- For a name that fits a slot, AddFamilyError never goes wrong: it returns -1 and leaves the
  -- table as it was, and then the number is not from -1 to 49 or is 0, or no slot is free; or the
  -- number is allowed, and the returned number is the one asked for unless that is -1; the family
  -- is found under it with that name and table, if no family had it before; every other number but
  -- -1, which marks the free slots, finds what it found before, and one slot less is free.
  pub add_family_error_lem :
      length name < str_len → Registers (add_family_error num_family name tab_err before)
  unfolding add_family_error fill_slot
  add_family_error_lem short = elim (is_refused-cases num_family) [
    | inl (refused, bad) ↦ rw (refused, Registers) (inl (refl, refl, inl bad))
    | inr (allowed, good) ↦
        rw (allowed, Registers)
          (elim (find_slot-cases before) [
            | inl (e, full) ↦ rw (e, Registers) (inl (refl, refl, inr full))
            | inr (i, e, slot) ↦
                rw (e, Registers)
                  (rw (lt→ltb (length name) str_len short, Registers)
                    (inr (
                      good,
                      number_for-cases num_family i,
                      set_slot-IsStored _ (number_for-ne num_family i allowed) i before slot,
                    )))
          ])
  ]
