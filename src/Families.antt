-- ===== src/Families.antt =====
-- The error families of log_functions.c: the array `tab_family`, the functions that register a family
-- and look an error up, and MakeLogError. Pointers to a table are the table, NULL is `none`.
pub mod Tables
pub mod Register
pub mod Lookup
use comm_system.Prelude.{
  ℕ, zero, suc, ◌+◌, Bool, true, false, ◌||◌, Option, none, some, List, [], ◌∷◌, ◌++◌, length, ltb,
  leb, codes, if◌then◌else◌, ℤ, pos, negsuc, ltb_ℤ, eq_ℤ,
}
use comm_system.Transfer.{Run, returned, fault}

-- family_error_t
pub record FamilyError : Type 0 where
  pub numero : ℤ
  pub label : List ℕ
  pub msg : List ℕ

-- family_t
pub record Family : Type 0 where
  pub num_family : ℤ
  pub name_family : List ℕ
  pub tab_err : Option (List FamilyError)

-- UNUSED_SLOT and ERR_NULL
abbrev pub unused_slot : ℤ
unused_slot = negsuc 0

abbrev pub err_null : ℤ
err_null = negsuc 0

-- MAX_NUM_FAMILY, and STR_LEN, the size of `name_family`
abbrev pub max_num_family : ℕ
max_num_family = 50

abbrev pub str_len : ℕ
str_len = 256

-- The slots of `tab_family` behind the first one, as InitLogging leaves them.
unfoldable pub unused_slots : ℕ → List Family
unused_slots zero = []
unused_slots (suc n) =
    record { num_family = unused_slot; name_family = []; tab_err = none } ∷ unused_slots n

-- The part of InitLogging that fills `tab_family`.
unfoldable pub init_families : List FamilyError → List Family
unfolding unused_slots
init_families tab_systeme_err =
    record {
      num_family = pos 0;
      name_family = codes "Errors Systeme UNIX";
      tab_err = some tab_systeme_err;
    }
    ∷ unused_slots 49

-- The loops over `tab_family` of ReturnNameFamilyError and TrouveTabErr.
unfoldable pub find_family : List Family → ℤ → Option Family
find_family [] num_family = none
find_family (family ∷ tab_family) num_family =
    if eq_ℤ family.num_family num_family then some family else find_family tab_family num_family

unfoldable pub return_name_family_error : List Family → ℤ → Option (List ℕ)
unfolding find_family
return_name_family_error tab_family num_family = elim (find_family tab_family num_family) [
  | none ↦ none
  | some family ↦ some family.name_family
]

unfoldable pub trouve_tab_err : List Family → ℤ → Option (List FamilyError)
unfolding find_family
trouve_tab_err tab_family num_family = elim (find_family tab_family num_family) [
  | none ↦ none
  | some family ↦ family.tab_err
]

-- The loop of AddFamilyError: the index of the first unused slot, if there is one.
unfoldable pub find_slot : List Family → Option ℕ
find_slot [] = none
find_slot (family ∷ tab_family) = elim (eq_ℤ family.num_family unused_slot) [
  | true ↦ some zero
  | false ↦ elim (find_slot tab_family) [ none ↦ none | some i ↦ some (suc i) ]
]

-- `tab_family[i] = family`
unfoldable pub set_slot : ℕ → Family → List Family → List Family
set_slot i family [] = []
set_slot zero family (old ∷ tab_family) = family ∷ tab_family
set_slot (suc i) family (old ∷ tab_family) = old ∷ set_slot i family tab_family

-- The tests of `num_family`, with the one for 0.
unfoldable pub is_refused : ℤ → Bool
is_refused (pos zero) = true
is_refused (pos (suc n)) = leb max_num_family (suc n)
is_refused (negsuc zero) = false
is_refused (negsuc (suc n)) = true

-- `(num_family != -1) ? num_family : i`
unfoldable pub number_for : ℤ → ℕ → ℤ
number_for num_family i = if eq_ℤ num_family (negsuc 0) then pos i else num_family

-- Behind the loop. `strcpy` of a name that does not fit overruns the slot.
unfoldable pub fill_slot :
    ℤ → List ℕ → Option (List FamilyError) → List Family → Option ℕ → Run ℤ (List Family)
unfolding set_slot number_for
fill_slot num_family name tab_err tab_family none = returned (negsuc 0) tab_family
fill_slot num_family name tab_err tab_family (some i) =
    if ltb (length name) str_len
    then returned (number_for num_family i) (
        set_slot i
          (record { num_family = number_for num_family i; name_family = name; tab_err = tab_err })
          tab_family)
    else fault

unfoldable pub add_family_error :
    ℤ → List ℕ → Option (List FamilyError) → List Family → Run ℤ (List Family)
unfolding is_refused find_slot fill_slot
add_family_error num_family name tab_err tab_family =
    if is_refused num_family
    then returned (negsuc 0) tab_family
    else fill_slot num_family name tab_err tab_family (find_slot tab_family)

-- TrouveErr; `none` is a read past the end of the table.
unfoldable pub trouve_err : List FamilyError → ℤ → Option FamilyError
trouve_err [] num = none
trouve_err (entry ∷ tab_err) num =
    if eq_ℤ entry.numero num || eq_ℤ entry.numero err_null
    then some entry
    else trouve_err tab_err num

-- The calls of sprintf with `%d`, and of strerror_r.
pub record Formatting : Type 0 where
  pub decimal : ℤ → List ℕ
  pub strerror_r : ℤ → List ℕ

module _ (formatting : Formatting) where
  open formatting use {decimal, strerror_r}

  -- What the second format says of the status.
  unfoldable pub status_text : ℤ → List ℕ
  status_text status = if eq_ℤ status (pos 0) then [] else codes " : " ++ strerror_r status

  -- The text that `sprintf` writes into `buffer`.
  unfoldable pub error_text : FamilyError → (status ma_ligne : ℤ) → List ℕ
  unfolding status_text
  error_text the_error status ma_ligne =
      codes "Error "
      ++ (the_error.label
          ++ (codes " : "
              ++ (the_error.msg
                  ++ (codes " : status "
                      ++ (decimal status
                          ++ (status_text status ++ (codes " : Line " ++ decimal ma_ligne)))))))

  -- Behind TrouveTabErr; `buffer` is what the buffer held.
  unfoldable pub log_error_of :
      Option (List FamilyError) → (num_error status ma_ligne : ℤ) (buffer : List ℕ) → Run ℤ (List ℕ)
  unfolding trouve_err error_text
  log_error_of none num_error status ma_ligne buffer = returned (negsuc 0) buffer
  log_error_of (some tab_err) num_error status ma_ligne buffer =
      elim (trouve_err tab_err num_error) [
        | none ↦ fault
        | some the_error ↦
            returned (pos (length (error_text the_error status ma_ligne)))
              (error_text the_error status ma_ligne)
      ]

  unfoldable pub make_log_error :
      List Family → (num_family num_error status ma_ligne : ℤ) (buffer : List ℕ) → Run ℤ (List ℕ)
  unfolding trouve_tab_err log_error_of
  make_log_error tab_family num_family num_error status ma_ligne buffer =
      log_error_of (trouve_tab_err tab_family num_family) num_error status ma_ligne buffer
