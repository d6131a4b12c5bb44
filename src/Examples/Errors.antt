-- ===== src/Examples/Errors.antt =====
-- The error families, with a family that is registered at run time.
use comm_system.Prelude.{◌≡◌, refl, some, List, [], ◌∷◌, codes, arith, ℤ, pos, negsuc, inl, inr}
use comm_system.Transfer.{Run, returned}
use comm_system.Families.{
  FamilyError, Family, init_families, unused_slots, trouve_tab_err, trouve_err, add_family_error,
  Formatting, make_log_error,
}
use comm_system.Families.Tables.{error_entry, tab_systeme_err}
use comm_system.Families.Register.{Registers, add_family_error_lem}
use comm_system.Families.Lookup.{
  IsFirst, IsNumbered, trouve_err-IsFirst, trouve_err-tab_systeme_err, IsFormatting, Reports,
  make_log_error_lem,
}

abbrev lru_errors : List FamilyError
lru_errors = error_entry (pos 3) "FULL" "no room" ∷ error_entry (negsuc 0) "ERR_NULL" "" ∷ []

abbrev at_start : List Family
at_start = init_families tab_systeme_err

add_family_error_lem_example :
    Registers
      (pos 10)
      (codes "LRU")
      (some lru_errors)
      at_start
      (add_family_error (pos 10) (codes "LRU") (some lru_errors) at_start)
add_family_error_lem_example =
    add_family_error_lem (pos 10) (codes "LRU") (some lru_errors) at_start (omega arith)

trouve_err-IsFirst_example :
    (e : FamilyError) × (trouve_err lru_errors (pos 9) ≡ some e) × IsFirst (pos 9) e lru_errors
trouve_err-IsFirst_example = trouve_err-IsFirst lru_errors (pos 9) (inr (inl refl))

trouve_err-tab_systeme_err_example : IsNumbered (pos 41) (trouve_err tab_systeme_err (pos 41))
trouve_err-tab_systeme_err_example = trouve_err-tab_systeme_err 41 (omega arith)

-- Two numbers asked for by the caller, then a slot for any: both families have the number 3.
abbrev then_add : ℤ → Run ℤ (List Family) → Run ℤ (List Family)
then_add num (returned k tab_family) = add_family_error num (codes "X") (some lru_errors) tab_family
then_add num r = r

abbrev number_of : Run ℤ (List Family) → ℤ
number_of (returned k tab_family) = k
number_of r = negsuc 9

twice_three :
    number_of
      (then_add (negsuc 0) (then_add (pos 7) (then_add (pos 3) (returned (pos 0) at_start))))
    ≡ pos 3
unfolding add_family_error init_families unused_slots
twice_three = refl

-- A formatting that writes one digit, and no text for a status.
abbrev one_digit : Formatting
one_digit = record { decimal = λ z. 49 ∷ []; strerror_r = λ z. [] }

one_digit-IsFormatting : IsFormatting one_digit
one_digit-IsFormatting = record {
  decimal_short = λ z h. omega arith;
  strerror_short = λ z. omega arith;
}

abbrev lru_family : List Family
lru_family =
    record { num_family = pos 10; name_family = codes "LRU"; tab_err = some lru_errors } ∷ []

make_log_error_lem_example :
    Reports one_digit lru_errors
      (pos 3)
      (pos 0)
      (pos 88)
      (make_log_error one_digit lru_family (pos 10) (pos 3) (pos 0) (pos 88) [])
unfolding trouve_tab_err
make_log_error_lem_example =
    make_log_error_lem one_digit lru_family lru_errors (pos 10) (pos 3) (pos 0) (pos 88) []
      one_digit-IsFormatting refl (inr (inl refl)) (omega arith) (omega arith) (omega arith)
