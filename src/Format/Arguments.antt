-- ===== src/Format/Arguments.antt =====
-- The arguments of log_vsnprintf, and which of them a conversion passes over.
use comm_system.Prelude.{
  ℕ, zero, suc, Option, none, some, List, [], ◌∷◌, ◌==◌, if◌then◌else◌, ℤ, to_int,
}
use comm_system.Families.{FamilyError}
use comm_system.Format.{
  ConvType, int_type, long_type, char_type, string_type, float_type, double_type, pointeur_type,
  TypeLg, no_long, short_lg, long_lg, long_long_lg,
}

-- An argument of the `va_list`, by the type that it was passed with.
pub data VaArg : Type 0 where
  int_arg long_arg long_long_arg : ℤ → VaArg
  double_arg long_double_arg pointer_arg : ℕ → VaArg
  string_arg : List ℕ → VaArg

pub data ArgKind : Type 0 where
  int_kind long_kind long_long_kind double_kind long_double_kind pointer_kind string_kind : ArgKind

abbrev pub kind_of : VaArg → ArgKind
kind_of (int_arg z) = int_kind
kind_of (long_arg z) = long_kind
kind_of (long_long_arg z) = long_long_kind
kind_of (double_arg x) = double_kind
kind_of (long_double_arg x) = long_double_kind
kind_of (pointer_arg p) = pointer_kind
kind_of (string_arg s) = string_kind

abbrev code_of_kind : ArgKind → ℕ
code_of_kind int_kind = 0
code_of_kind long_kind = 1
code_of_kind long_long_kind = 2
code_of_kind double_kind = 3
code_of_kind long_double_kind = 4
code_of_kind pointer_kind = 5
code_of_kind string_kind = 6

-- `va_arg(arguments, …)` for its effect; another type than the argument's is undefined in C.
unfoldable pub va_arg : ArgKind → List VaArg → Option (List VaArg)
va_arg kind [] = none
va_arg kind (arg ∷ arguments) =
    if code_of_kind (kind_of arg) == code_of_kind kind then some arguments else none

-- `va_arg` for the value.
unfoldable pub va_arg_int : List VaArg → Option (ℤ × List VaArg)
va_arg_int [] = none
va_arg_int (arg ∷ arguments) = elim arg [ int_arg z ↦ some (z, arguments) | _ ↦ none ]

unfoldable pub va_arg_long : List VaArg → Option (ℤ × List VaArg)
va_arg_long [] = none
va_arg_long (arg ∷ arguments) = elim arg [ long_arg z ↦ some (z, arguments) | _ ↦ none ]

unfoldable pub va_arg_string : List VaArg → Option (List ℕ × List VaArg)
va_arg_string [] = none
va_arg_string (arg ∷ arguments) = elim arg [ string_arg s ↦ some (s, arguments) | _ ↦ none ]

abbrev pub then_some {ℓ κ} : {A : Type ℓ} {B : Type κ} → Option A → (A → Option B) → Option B
then_some none f = none
then_some (some a) f = f a

-- VA_ARG_ERREUR_T
unfoldable pub va_arg_erreur_t : List VaArg → Option (FamilyError × List VaArg)
unfolding va_arg_long va_arg_string
va_arg_erreur_t arguments = then_some (va_arg_long arguments) (λ numero.
    then_some (va_arg_string numero.1) (λ label.
      then_some (va_arg_string label.1)
        (λ msg. some (record { numero = to_int numero.0; label = label.0; msg = msg.0 }, msg.1))))

-- The `switch (typelg)`: the type of the argument that is passed over, if there is one.
unfoldable pub arg_of : TypeLg → ConvType → Option ArgKind
arg_of short_lg type = some int_kind
arg_of no_long type = elim type [
  | int_type ↦ some int_kind
  | long_type ↦ some long_kind
  | float_type ↦ some double_kind
  | double_type ↦ some double_kind
  | char_type ↦ some int_kind
  | pointeur_type ↦ some pointer_kind
  | string_type ↦ some string_kind
  | _ ↦ none
]
arg_of long_lg type = elim type [
  | int_type ↦ some long_kind
  | long_type ↦ some long_long_kind
  | float_type ↦ some double_kind
  | double_type ↦ some long_double_kind
  | _ ↦ none
]
arg_of long_long_lg type = elim type [
  | int_type ↦ some long_long_kind
  | long_type ↦ some long_long_kind
  | float_type ↦ some long_double_kind
  | double_type ↦ some long_double_kind
  | _ ↦ none
]

unfoldable pub pass_over : Option ArgKind → List VaArg → Option (List VaArg)
unfolding va_arg
pass_over none arguments = some arguments
pass_over (some kind) arguments = va_arg kind arguments

-- `while(precision_in_valist != 0) { … }`
unfoldable pub pass_stars : ℕ → List VaArg → Option (List VaArg)
unfolding va_arg
pass_stars zero arguments = some arguments
pass_stars (suc n) arguments = then_some (va_arg int_kind arguments) (pass_stars n)
