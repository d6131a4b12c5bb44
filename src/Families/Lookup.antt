-- ===== src/Families/Lookup.antt =====
-- Which error is found in a table, and what MakeLogError makes of it.
use comm_system.Prelude.{
  ℕ, zero, suc, ◌^◌, ◌≤◌, ◌<◌, ◌≡◌, ◌≢◌, refl, sym, ap, ◌∙◌, ◌⊎◌, inl, inr, Bool, true, false, ◌||◌,
  ◌&&◌, Option, none, some, List, [], ◌∷◌, length, length-append, Bool-cases, ltb, ltb→lt, arith, ℤ,
  pos, negsuc, eq_ℤ, eq_ℤ→eq, eq_ℤ_refl,
}
use comm_system.Transfer.{Run, returned, fault, running}
use comm_system.Families.{
  FamilyError, Family, err_null, trouve_tab_err, trouve_err, Formatting, status_text, error_text,
  log_error_of, make_log_error,
}
use comm_system.Families.Tables.{tab_systeme_err}

-- The table has an entry ERR_NULL.
abbrev pub IsEnded : List FamilyError → Type 0
IsEnded [] = ⊥
IsEnded (entry ∷ tab_err) = (entry.numero ≡ err_null) ⊎ IsEnded tab_err

-- `e` is the first entry that has the number `num` or ends the table.
abbrev pub IsFirst : ℤ → FamilyError → List FamilyError → Type 0
IsFirst num e [] = ⊥
IsFirst num e (entry ∷ tab_err) =
    ((entry ≡ e) × ((e.numero ≡ num) ⊎ (e.numero ≡ err_null)))
    ⊎ ((entry.numero ≢ num) × (entry.numero ≢ err_null) × IsFirst num e tab_err)

ne-of_eq_ℤ : (a b : ℤ) → eq_ℤ a b ≡ false → a ≢ b
ne-of_eq_ℤ a b h =
    λ e. (let clash : true ≡ false = sym (eq_ℤ_refl b) ∙ ap (λ x. eq_ℤ x b) (sym e) ∙ h in cc)

IsEnded-rest :
    (entry : FamilyError) (tab_err : List FamilyError)
    → eq_ℤ entry.numero err_null ≡ false
    → IsEnded (entry ∷ tab_err)
    → IsEnded tab_err
IsEnded-rest entry tab_err inside (inl last) = absurd (ne-of_eq_ℤ entry.numero err_null inside last)
IsEnded-rest entry tab_err inside (inr rest) = rest

-- In a table with an entry ERR_NULL, TrouveErr ends inside the table, for any number: it returns
-- the first entry that has the number or is ERR_NULL.
pub trouve_err-IsFirst :
    (tab_err : List FamilyError) (num : ℤ)
    → IsEnded tab_err
    → (e : FamilyError) × (trouve_err tab_err num ≡ some e) × IsFirst num e tab_err
unfolding trouve_err
trouve_err-IsFirst [] num h = absurd h
trouve_err-IsFirst (entry ∷ tab_err) num h = elim (Bool-cases (eq_ℤ entry.numero num)) [
  | inl same ↦ (entry, rw (same, ◌||◌) refl, inl (refl, inl (eq_ℤ→eq entry.numero num same)))
  | inr other ↦ elim (Bool-cases (eq_ℤ entry.numero err_null)) [
    | inl last ↦ (
      entry,
      rw (other, ◌||◌) (rw (last, ◌||◌) refl),
      inl (refl, inr (eq_ℤ→eq entry.numero err_null last)),
    )
    | inr inside ↦
        let (e, found, first) =
          trouve_err-IsFirst tab_err num (IsEnded-rest entry tab_err inside h) in
        (
          e,
          rw (other, ◌||◌) (rw (inside, ◌||◌) found),
          inr (ne-of_eq_ℤ entry.numero num other, ne-of_eq_ℤ entry.numero err_null inside, first),
        )
  ]
]

ℕ_cases : (n m : ℕ) → n < suc m → (m ≡ n) ⊎ (n < m)
ℕ_cases n m h = elim (Bool-cases (ltb n m)) [
  | inl lt ↦ inr (ltb→lt n m lt)
  | inr ge ↦ inl (ground arith)
]

found_at : ℕ → Bool
found_at n = elim (trouve_err tab_systeme_err (pos n)) [
  | none ↦ false
  | some e ↦ eq_ℤ e.numero (pos n)
]

found_below : ℕ → Bool
found_below zero = true
found_below (suc n) = found_at n && found_below n

found_below-found_at : (m n : ℕ) → found_below m ≡ true → n < m → found_at n ≡ true
unfolding found_below
found_below-found_at zero n h lt = absurd (omega arith)
found_below-found_at (suc m) n h lt = elim (Bool-cases (found_at m)) [
  | inl found ↦ elim (ℕ_cases n m (omega arith)) [
    | inl same ↦ rw (← same) found
    | inr below ↦ found_below-found_at m n (rw (found, ◌&&◌) at h) below
  ]
  | inr missing ↦ absurd (let clash : false ≡ true = rw (missing, ◌&&◌) at h in cc)
]

all_found : found_below 72 ≡ true
unfolding found_below found_at trouve_err
all_found = refl

-- Each of the system's errors is found under its number.
abbrev pub IsNumbered : ℤ → Option FamilyError → Type 0
IsNumbered num none = ⊥
IsNumbered num (some e) = e.numero ≡ num

found_at-IsNumbered :
    (n : ℕ) (r : Option FamilyError)
    → (elim r as (λ r'. Bool) [ none ↦ false | some e ↦ eq_ℤ e.numero (pos n) ]) ≡ true
    → IsNumbered (pos n) r
found_at-IsNumbered n none h = absurd cc
found_at-IsNumbered n (some e) h = eq_ℤ→eq e.numero (pos n) h

-- In the table of the system's errors, TrouveErr finds an entry with its number for each number
-- below 72.
pub trouve_err-tab_systeme_err :
    (n : ℕ) → n < 72 → IsNumbered (pos n) (trouve_err tab_systeme_err (pos n))
unfolding found_at
trouve_err-tab_systeme_err n h = found_at-IsNumbered n _ (found_below-found_at 72 n all_found h)

-- An `int`.
abbrev pub IsInt : ℤ → Type 0
IsInt (pos n) = n < 2 ^ 31
IsInt (negsuc n) = n < 2 ^ 31

-- The sizes of `label` and `msg`, each with a NUL behind the text.
abbrev pub Fits : List FamilyError → Type 0
Fits [] = Unit
Fits (entry ∷ tab_err) = (length entry.label < 50) × (length entry.msg < 255) × Fits tab_err

Fits-IsFirst :
    (num : ℤ) (e : FamilyError) (tab_err : List FamilyError)
    → Fits tab_err
    → IsFirst num e tab_err
    → (length e.label < 50) × (length e.msg < 255)
Fits-IsFirst num e [] f h = absurd h
Fits-IsFirst num e (entry ∷ tab_err) (label, msg, f) (inl (same, found)) = rw (← same) (label, msg)
Fits-IsFirst num e (entry ∷ tab_err) (label, msg, f) (inr (other, inside, h)) =
    Fits-IsFirst num e tab_err f h

module _ (formatting : Formatting) where
  open formatting use {decimal, strerror_r}

  -- `%d` of an int has at most 11 characters, and `strerror_r` is given a buffer of 1024.
  pub record IsFormatting : Type 0 where
    pub decimal_short : (z : ℤ) → IsInt z → length (decimal z) ≤ 11
    pub strerror_short : (z : ℤ) → length (strerror_r z) < 1024

  -- The text of the entry is written, and with its NUL it fits in STR_LEN_TXT bytes.
  abbrev pub Reports : List FamilyError → (num_error status ma_ligne : ℤ) → Run ℤ (List ℕ) → Type 0
  Reports tab_err num_error status ma_ligne (returned result buffer) =
      (e : FamilyError) × IsFirst num_error e tab_err
      × (buffer ≡ error_text formatting e status ma_ligne)
      × (result ≡ pos (length buffer))
      × (length buffer < 2048)
  Reports tab_err num_error status ma_ligne fault = ⊥
  Reports tab_err num_error status ma_ligne running = ⊥

  length-status_text : (status : ℤ) → IsFormatting → length (status_text formatting status) < 1027
  unfolding status_text
  length-status_text status law = elim (Bool-cases (eq_ℤ status (pos 0))) [
    | inl none_set ↦ rw (none_set, length) (omega arith)
    | inr other ↦ rw (other, length) (omega (arith, law.strerror_short status))
  ]

  length-error_text :
      (e : FamilyError) (status ma_ligne : ℤ)
      → IsFormatting
      → IsInt status
      → IsInt ma_ligne
      → length e.label < 50
      → length e.msg < 255
      → length (error_text formatting e status ma_ligne) < 2048
  unfolding error_text
  length-error_text e status ma_ligne law s l label msg = omega (
    arith,
    length-append {0},
    label,
    msg,
    law.decimal_short status s,
    law.decimal_short ma_ligne l,
    length-status_text status law,
  )

  -- If TrouveTabErr finds a table for the family that has an entry ERR_NULL and whose texts fit
  -- their fields, `%d` of an int takes at most 11 characters, strerror_r stays inside its buffer,
  -- and status and line are ints, then MakeLogError writes the text of the first entry that has the
  -- number or is ERR_NULL and returns the length of that text, and the text with its NUL fits in a
  -- buffer of 2048 bytes.
  pub make_log_error_lem :
      (tab_family : List Family) (tab_err : List FamilyError)
      (num_family num_error status ma_ligne : ℤ) (buffer : List ℕ)
      → IsFormatting
      → trouve_tab_err tab_family num_family ≡ some tab_err
      → IsEnded tab_err
      → Fits tab_err
      → IsInt status
      → IsInt ma_ligne
      → Reports tab_err num_error status ma_ligne
          (make_log_error formatting tab_family num_family num_error status ma_ligne buffer)
  unfolding make_log_error log_error_of
  make_log_error_lem tab_family tab_err num_family num_error status ma_ligne buffer law known ended
        fits s l =
      let (e, found, first) = trouve_err-IsFirst tab_err num_error ended in
      let (label, msg) = Fits-IsFirst num_error e tab_err fits first in
      rw known (
        rw (found, Reports)
          (e, first, refl, refl, length-error_text e status ma_ligne law s l label msg))
