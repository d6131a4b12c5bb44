-- ===== src/Examples/Printer.antt =====
-- A vsnprintf that prints its arguments: strings and characters as they are, and numbers in decimal
-- digits; flags, widths and precisions leave the text as it is.
use comm_system.Prelude.{
  ℕ, zero, suc, ◌+◌, ◌-◌, ◌≡◌, refl, ap, ◌∙◌, inl, inr, Bool, true, false, not, ◌&&◌, Option, some,
  List, [], ◌∷◌, ◌++◌, length, take, drop, ◌==◌, codes, Bool-cases, if◌then◌else◌, ltb, ◌/◌, ◌%◌, ℤ,
  pos_part, pos, negsuc,
}
use comm_system.Format.{is_literal, is_in}
use comm_system.Format.Arguments.{
  VaArg, int_arg, long_arg, long_long_arg, double_arg, long_double_arg, pointer_arg, string_arg,
}
use comm_system.Format.Directives.{
  Width, no_width, width_digits, width_star, Precision, no_precision, precision_digits,
  precision_star, Modifier, no_modifier, hh_modifier, h_modifier, l_modifier, ll_modifier,
  big_l_modifier, q_modifier, z_modifier, big_z_modifier, t_modifier, j_modifier, width_text,
  precision_text, modifier_text, width_stars, precision_stars, all_of, IsWidth, IsPrecision,
  all_of-is_in,
}
use comm_system.Format.Letters.{letters}
use comm_system.Format.Printing.{width_is_plain, precision_is_plain}

-- The digits of `n`, with fuel, in front of `rest`.
abbrev digits : ℕ → ℕ → List ℕ → List ℕ
digits zero n rest = rest
digits (suc fuel) n rest = elim (ltb n 10) [
  | true ↦ (b'0' + n) ∷ rest
  | false ↦ digits fuel (n / 10) ((b'0' + n % 10) ∷ rest)
]

abbrev pub signed : ℤ → List ℕ
signed (pos n) = digits (suc n) n []
signed (negsuc n) = b'-' ∷ digits (suc (suc n)) (suc n) []

-- What the letter `c` prints of an argument.
abbrev shown : (c : ℕ) → VaArg → List ℕ
shown c (int_arg z) = if c == b'c' then pos_part z ∷ [] else signed z
shown c (long_arg z) = signed z
shown c (long_long_arg z) = signed z
shown c (double_arg x) = digits (suc x) x []
shown c (long_double_arg x) = digits (suc x) x []
shown c (pointer_arg p) = digits (suc p) p []
shown c (string_arg text) = text

abbrev pub shown_first : (c : ℕ) → List VaArg → List ℕ
shown_first c [] = []
shown_first c (arg ∷ args) = shown c arg

-- What a format prints; `inside` says that it stands behind a `%`.
unfoldable pub render : (inside : Bool) → List ℕ → List VaArg → List ℕ
render inside [] args = []
render false (c ∷ rest) args = elim (c == b'%') [
  | true ↦ render true rest args
  | false ↦ c ∷ render false rest args
]
render true (c ∷ rest) args = elim (is_in c letters) [
  | true ↦ shown_first c args ++ render false rest (drop 1 args)
  | false ↦ elim (c == b'*') [
    | true ↦ render true rest (drop 1 args)
    | false ↦ elim (c == b'%') [
      | true ↦ b'%' ∷ render false rest args
      | false ↦ render true rest args
    ]
  ]
]

unfoldable pub print_format : List ℕ → List VaArg → List ℕ
unfolding render
print_format format args = render false format args

unfoldable pub printing : ℕ → List ℕ → List VaArg → Option (ℤ × List ℕ)
unfolding print_format
printing n format args =
    let text = print_format format args in some (pos (length text), take (n - 1) text)

pub render-literal :
    (literal rest : List ℕ) (args : List VaArg)
    → all_of is_literal literal ≡ true
    → render false (literal ++ rest) args ≡ literal ++ render false rest args
unfolding render
render-literal [] rest args all = refl
render-literal (c ∷ literal) rest args all = elim (Bool-cases (c == b'%')) [
  | inl percent ↦ absurd (let clash : false ≡ true = rw (percent, ◌&&◌) at all in cc)
  | inr other ↦
      rw (other, render)
        (ap (λ l. c ∷ l) (render-literal literal rest args (rw (other, ◌&&◌) at all)))
]

-- A letter of the flags, of the digits or of the length modifiers.
abbrev is_quiet : ℕ → Bool
is_quiet c = not (is_in c letters) && (not (c == b'*') && not (c == b'%'))

render-quiet-one :
    (c : ℕ) (rest : List ℕ) (args : List VaArg)
    → is_quiet c ≡ true
    → render true (c ∷ rest) args ≡ render true rest args
unfolding render
render-quiet-one c rest args h = elim (Bool-cases (is_in c letters)) [
  | inl letter ↦ absurd (let clash : false ≡ true = rw (letter, ◌&&◌) at h in cc)
  | inr other ↦ elim (Bool-cases (c == b'*')) [
    | inl star ↦ absurd (let clash : false ≡ true = rw (other, star, ◌&&◌) at h in cc)
    | inr digit ↦ elim (Bool-cases (c == b'%')) [
      | inl percent ↦
          absurd (let clash : false ≡ true = rw (other, digit, percent, ◌&&◌) at h in cc)
      | inr quiet ↦ rw (other, digit, quiet, render) refl
    ]
  ]
]

pub render-quiet :
    (list xs rest : List ℕ) (args : List VaArg)
    → all_of is_quiet list ≡ true
    → all_of (λ c. is_in c list) xs ≡ true
    → render true (xs ++ rest) args ≡ render true rest args
render-quiet list [] rest args quiet all = refl
render-quiet list (c ∷ xs) rest args quiet all = elim (Bool-cases (is_in c list)) [
  | inl known ↦
      render-quiet-one c (xs ++ rest) args (all_of-is_in is_quiet c list known quiet)
      ∙ render-quiet list xs rest args quiet (rw (known, ◌&&◌) at all)
  | inr other ↦ absurd (let clash : false ≡ true = rw (other, ◌&&◌) at all in cc)
]

and_left : (a b : Bool) → a && b ≡ true → a ≡ true
and_left true b h = refl
and_left false b h = h

-- A star uses up an argument.
pub render-width :
    (width : Width) (rest : List ℕ) (args : List VaArg)
    → IsWidth width
    → width_is_plain width ≡ true
    → render true (width_text width ++ rest) args ≡ render true rest (drop (width_stars width) args)
unfolding render
render-width no_width rest args is plain = refl
render-width width_star rest args is plain = refl
render-width (width_digits first more) rest args (known, all) plain =
    render-quiet-one first (more ++ rest) args
      (all_of-is_in is_quiet first (codes "123456789") known refl)
    ∙ render-quiet (codes "0123456789") more rest args refl (and_left _ _ plain)

pub render-precision :
    (precision : Precision) (rest : List ℕ) (args : List VaArg)
    → IsPrecision precision
    → precision_is_plain precision ≡ true
    → render true (precision_text precision ++ rest) args
      ≡ render true rest (drop (precision_stars precision) args)
unfolding render
render-precision no_precision rest args is plain = refl
render-precision precision_star rest args is plain = refl
render-precision (precision_digits first more) rest args (known, all) plain =
    render-quiet-one first (more ++ rest) args
      (all_of-is_in is_quiet first (codes "0123456789") known refl)
    ∙ render-quiet (codes "0123456789") more rest args refl (and_left _ _ plain)

pub render-modifier :
    (modifier : Modifier) (rest : List ℕ) (args : List VaArg)
    → render true (modifier_text modifier ++ rest) args ≡ render true rest args
unfolding render
render-modifier no_modifier rest args = refl
render-modifier hh_modifier rest args = refl
render-modifier h_modifier rest args = refl
render-modifier l_modifier rest args = refl
render-modifier ll_modifier rest args = refl
render-modifier big_l_modifier rest args = refl
render-modifier q_modifier rest args = refl
render-modifier z_modifier rest args = refl
render-modifier big_z_modifier rest args = refl
render-modifier t_modifier rest args = refl
render-modifier j_modifier rest args = refl
