-- ===== src/Format/Letters.antt =====
-- The conversions of the C standard by their letters, and the arguments that log_vsnprintf takes them
-- for.
use comm_system.Prelude.{
  ℕ, ◌≡◌, refl, ap, ◌∙◌, inl, inr, Bool, true, false, Bool-cases, ==→eq, ◌==◌, ◌||◌, codes,
  if◌then◌else◌, Option, none, some, List, map, [], ◌∷◌,
}
use comm_system.Format.{
  ConvType, int_type, long_type, float_type, double_type, extended_type, is_in, conversion_type,
}
use comm_system.Format.Arguments.{
  ArgKind, int_kind, long_kind, long_long_kind, double_kind, long_double_kind, pointer_kind,
  string_kind, arg_of,
}
use comm_system.Format.Directives.{
  Modifier, no_modifier, hh_modifier, h_modifier, l_modifier, ll_modifier, big_l_modifier,
  q_modifier, z_modifier, big_z_modifier, t_modifier, j_modifier, modifier_lg,
}

-- The letters of the standard's conversions, by what they print.
abbrev pub integer_letters : List ℕ
integer_letters = codes "diouxX"

abbrev pub real_letters : List ℕ
real_letters = codes "aAeEfFgG"

abbrev pub letters : List ℕ
letters = codes "diouxXaAeEfFgGcsp"

-- The tables of the C standard for the length modifiers, where size_t, ptrdiff_t and intmax_t have
-- the length of a long, and for the letters. `%%` has no argument.
abbrev pub integer_kind : Modifier → ArgKind
integer_kind no_modifier = int_kind
integer_kind hh_modifier = int_kind
integer_kind h_modifier = int_kind
integer_kind l_modifier = long_kind
integer_kind ll_modifier = long_long_kind
integer_kind big_l_modifier = long_long_kind
integer_kind q_modifier = long_long_kind
integer_kind z_modifier = long_kind
integer_kind big_z_modifier = long_kind
integer_kind t_modifier = long_kind
integer_kind j_modifier = long_kind

abbrev pub real_kind : Modifier → ArgKind
real_kind big_l_modifier = long_double_kind
real_kind modifier = double_kind

abbrev pub printf_kind : Modifier → (conversion : ℕ) → Option ArgKind
printf_kind modifier conversion =
    if is_in conversion integer_letters
    then some (integer_kind modifier)
    else if is_in conversion real_letters
    then some (real_kind modifier)
    else if conversion == b'c'
    then some int_kind
    else if conversion == b's'
    then some string_kind
    else if conversion == b'p'
    then some pointer_kind
    else none

-- The pairs of a length modifier and a letter, but for `l` in front of a letter of a double, a
-- character or a string.
abbrev pub IsStandard : Modifier → (conversion : ℕ) → Type 0
IsStandard no_modifier conversion = is_in conversion (b'%' ∷ letters) ≡ true
IsStandard big_l_modifier conversion = is_in conversion real_letters ≡ true
IsStandard modifier conversion = is_in conversion integer_letters ≡ true

-- The types that the scanner has for them.
abbrev is_standard_type : ConvType → Bool
is_standard_type (extended_type type_ext) = false
is_standard_type long_type = false
is_standard_type float_type = false
is_standard_type type = true

abbrev pub IsStandardType : Modifier → ConvType → Type 0
IsStandardType no_modifier type = is_standard_type type ≡ true
IsStandardType big_l_modifier type = type ≡ double_type
IsStandardType modifier type = type ≡ int_type

-- Two functions that agree on the letters of a list agree on one that is in it.
same_on :
    {A : Type 0} (f g : ℕ → A) (c : ℕ) (xs : List ℕ)
    → is_in c xs ≡ true
    → map f xs ≡ map g xs
    → f c ≡ g c
same_on f g c [] h all = absurd cc
same_on f g c (x ∷ xs) h all = elim (Bool-cases (c == x)) [
  | inl same ↦ let this : f x ≡ g x = cc in rw (==→eq c x same) this
  | inr other ↦ let rest : map f xs ≡ map g xs = cc in same_on f g c xs (rw (other, ◌||◌) at h) rest
]

integer-conversion_type : (c : ℕ) → is_in c integer_letters ≡ true → conversion_type c ≡ int_type
unfolding conversion_type
integer-conversion_type c h = same_on conversion_type (λ c. int_type) c integer_letters h refl

real-conversion_type : (c : ℕ) → is_in c real_letters ≡ true → conversion_type c ≡ double_type
unfolding conversion_type
real-conversion_type c h = same_on conversion_type (λ c. double_type) c real_letters h refl

arg_of-integer :
    (modifier : Modifier) → arg_of (modifier_lg modifier) int_type ≡ some (integer_kind modifier)
unfolding arg_of
arg_of-integer no_modifier = refl
arg_of-integer hh_modifier = refl
arg_of-integer h_modifier = refl
arg_of-integer l_modifier = refl
arg_of-integer ll_modifier = refl
arg_of-integer big_l_modifier = refl
arg_of-integer q_modifier = refl
arg_of-integer z_modifier = refl
arg_of-integer big_z_modifier = refl
arg_of-integer t_modifier = refl
arg_of-integer j_modifier = refl

-- The arguments that log_vsnprintf passes over are those of the standard.
abbrev AsStandard : Modifier → ℕ → Type 0
AsStandard modifier c = arg_of (modifier_lg modifier) (conversion_type c) ≡ printf_kind modifier c

integer-AsStandard :
    (modifier : Modifier) (c : ℕ) → is_in c integer_letters ≡ true → AsStandard modifier c
integer-AsStandard modifier c h =
    ap (arg_of (modifier_lg modifier)) (integer-conversion_type c h)
    ∙ arg_of-integer modifier
    ∙ rw h refl

pub arg_of-printf_kind :
    (modifier : Modifier) (c : ℕ) → IsStandard modifier c → AsStandard modifier c
unfolding arg_of conversion_type
arg_of-printf_kind no_modifier c is =
    same_on (λ c. arg_of (modifier_lg no_modifier) (conversion_type c)) (printf_kind no_modifier) c
      (b'%' ∷ letters) is refl
arg_of-printf_kind big_l_modifier c is =
    same_on (λ c. arg_of (modifier_lg big_l_modifier) (conversion_type c))
      (printf_kind big_l_modifier) c real_letters is refl
arg_of-printf_kind hh_modifier c is = integer-AsStandard hh_modifier c is
arg_of-printf_kind h_modifier c is = integer-AsStandard h_modifier c is
arg_of-printf_kind l_modifier c is = integer-AsStandard l_modifier c is
arg_of-printf_kind ll_modifier c is = integer-AsStandard ll_modifier c is
arg_of-printf_kind q_modifier c is = integer-AsStandard q_modifier c is
arg_of-printf_kind z_modifier c is = integer-AsStandard z_modifier c is
arg_of-printf_kind big_z_modifier c is = integer-AsStandard big_z_modifier c is
arg_of-printf_kind t_modifier c is = integer-AsStandard t_modifier c is
arg_of-printf_kind j_modifier c is = integer-AsStandard j_modifier c is

pub conversion_type-IsStandardType :
    (modifier : Modifier) (c : ℕ)
    → IsStandard modifier c
    → IsStandardType modifier (conversion_type c)
unfolding conversion_type
conversion_type-IsStandardType no_modifier c is =
    same_on (λ c. is_standard_type (conversion_type c)) (λ c. true) c (b'%' ∷ letters) is refl
conversion_type-IsStandardType big_l_modifier c is = real-conversion_type c is
conversion_type-IsStandardType hh_modifier c is = integer-conversion_type c is
conversion_type-IsStandardType h_modifier c is = integer-conversion_type c is
conversion_type-IsStandardType l_modifier c is = integer-conversion_type c is
conversion_type-IsStandardType ll_modifier c is = integer-conversion_type c is
conversion_type-IsStandardType q_modifier c is = integer-conversion_type c is
conversion_type-IsStandardType z_modifier c is = integer-conversion_type c is
conversion_type-IsStandardType big_z_modifier c is = integer-conversion_type c is
conversion_type-IsStandardType t_modifier c is = integer-conversion_type c is
conversion_type-IsStandardType j_modifier c is = integer-conversion_type c is
