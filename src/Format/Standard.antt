-- ===== src/Format/Standard.antt =====
-- The arguments that the C standard gives to a directive are those that log_vsnprintf passes over,
-- and it hands the directive to vsnprintf.
use comm_system.Prelude.{ℕ, zero, suc, ◌≡◌, refl, Option, none, some, List, [], ◌∷◌, ◌++◌, ℤ}
use comm_system.Families.{Family, Formatting}
use comm_system.Format.{
  ConvType, no_type, int_type, long_type, char_type, string_type, float_type, double_type,
  pointeur_type, extended_type, conversion_type,
}
use comm_system.Format.Output.{Printing, convert, convert_plain}
use comm_system.Format.Arguments.{
  VaArg, ArgKind, int_kind, int_arg, long_arg, long_long_arg, double_arg, long_double_arg,
  pointer_arg, string_arg, kind_of, va_arg, then_some, pass_over, pass_stars,
}
use comm_system.Format.Directives.{
  Modifier, no_modifier, hh_modifier, h_modifier, l_modifier, ll_modifier, big_l_modifier,
  q_modifier, z_modifier, big_z_modifier, t_modifier, j_modifier, modifier_lg,
}
use comm_system.Format.Letters.{IsStandard, IsStandardType, conversion_type-IsStandardType}

-- The arguments of a directive: an int for each star, and one of the kind of its conversion.
abbrev pub HasKinds : ℕ → Option ArgKind → List VaArg → Type 0
HasKinds zero none [] = Unit
HasKinds zero none (arg ∷ args) = ⊥
HasKinds zero (some kind) [] = ⊥
HasKinds zero (some kind) (arg ∷ args) = (kind_of arg ≡ kind) × (args ≡ [])
HasKinds (suc stars) kind [] = ⊥
HasKinds (suc stars) kind (arg ∷ args) = (kind_of arg ≡ int_kind) × HasKinds stars kind args

va_arg-kind_of :
    (arg : VaArg) (rest : List VaArg) (kind : ArgKind)
    → kind_of arg ≡ kind
    → va_arg kind (arg ∷ rest) ≡ some rest
unfolding va_arg
va_arg-kind_of (int_arg z) rest kind e = rw (← e) refl
va_arg-kind_of (long_arg z) rest kind e = rw (← e) refl
va_arg-kind_of (long_long_arg z) rest kind e = rw (← e) refl
va_arg-kind_of (double_arg x) rest kind e = rw (← e) refl
va_arg-kind_of (long_double_arg x) rest kind e = rw (← e) refl
va_arg-kind_of (pointer_arg p) rest kind e = rw (← e) refl
va_arg-kind_of (string_arg s) rest kind e = rw (← e) refl

-- Stars and conversion together pass over just their own arguments.
pub pass_over-pass_stars :
    (stars : ℕ) (kind : Option ArgKind) (own more : List VaArg)
    → HasKinds stars kind own
    → then_some (pass_stars stars (own ++ more)) (pass_over kind) ≡ some more
unfolding pass_stars pass_over
pass_over-pass_stars zero none [] more h = refl
pass_over-pass_stars zero none (arg ∷ args) more h = absurd h
pass_over-pass_stars zero (some kind) [] more h = absurd h
pass_over-pass_stars zero (some kind) (arg ∷ args) more (e, nil) =
    rw nil (va_arg-kind_of arg more kind e)
pass_over-pass_stars (suc stars) kind [] more h = absurd h
pass_over-pass_stars (suc stars) kind (arg ∷ args) more (e, h) =
    rw (va_arg-kind_of arg (args ++ more) int_kind e) (pass_over-pass_stars stars kind args more h)

module _ (formatting : Formatting) (vsnprintf : ℕ → List ℕ → List VaArg → Option (ℤ × List ℕ))
    (tab_family : List Family) (taille : ℕ) where
  convert-IsStandardType :
      (modifier : Modifier) (type : ConvType) (sub : List ℕ) (s : Printing)
      → IsStandardType modifier type
      → convert formatting vsnprintf tab_family taille sub (modifier_lg modifier) type s
        ≡ convert_plain formatting vsnprintf tab_family taille (modifier_lg modifier) type sub s
  unfolding convert
  convert-IsStandardType no_modifier no_type sub s is = refl
  convert-IsStandardType no_modifier int_type sub s is = refl
  convert-IsStandardType no_modifier long_type sub s is = absurd cc
  convert-IsStandardType no_modifier char_type sub s is = refl
  convert-IsStandardType no_modifier string_type sub s is = refl
  convert-IsStandardType no_modifier float_type sub s is = absurd cc
  convert-IsStandardType no_modifier double_type sub s is = refl
  convert-IsStandardType no_modifier pointeur_type sub s is = refl
  convert-IsStandardType no_modifier (extended_type type_ext) sub s is = absurd cc
  convert-IsStandardType big_l_modifier type sub s is = rw is refl
  convert-IsStandardType hh_modifier type sub s is = rw is refl
  convert-IsStandardType h_modifier type sub s is = rw is refl
  convert-IsStandardType l_modifier type sub s is = rw is refl
  convert-IsStandardType ll_modifier type sub s is = rw is refl
  convert-IsStandardType q_modifier type sub s is = rw is refl
  convert-IsStandardType z_modifier type sub s is = rw is refl
  convert-IsStandardType big_z_modifier type sub s is = rw is refl
  convert-IsStandardType t_modifier type sub s is = rw is refl
  convert-IsStandardType j_modifier type sub s is = rw is refl

  pub convert-IsStandard :
      (modifier : Modifier) (c : ℕ) (sub : List ℕ) (s : Printing)
      → IsStandard modifier c
      → convert formatting vsnprintf tab_family taille sub
          (modifier_lg modifier)
          (conversion_type c)
          s
        ≡ convert_plain formatting vsnprintf tab_family taille
            (modifier_lg modifier)
            (conversion_type c)
            sub
            s
  convert-IsStandard modifier c sub s is =
      convert-IsStandardType modifier (conversion_type c) sub s
        (conversion_type-IsStandardType modifier c is)
