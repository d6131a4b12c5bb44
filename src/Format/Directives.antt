-- ===== src/Format/Directives.antt =====
-- The directives of a format, as the C standard and the extensions of log_vsnprintf write them, and
-- what the scanner finds in the text of one.
use comm_system.Prelude.{
  ℕ, ◌+◌, ◌≡◌, refl, inl, inr, Bool, true, false, ◌&&◌, ◌||◌, not, List, [], ◌∷◌, ◌++◌, Bool-cases,
  ==→eq, ◌==◌, codes,
}
use comm_system.Format.{
  TypeLg, no_long, short_lg, long_lg, long_long_lg, is_in, is_flag, is_width, starts, skip,
}

pub data Width : Type 0 where
  no_width : Width
  width_digits : (first : ℕ) (more : List ℕ) → Width
  width_star : Width

pub data Precision : Type 0 where
  no_precision : Precision
  precision_digits : (first : ℕ) (more : List ℕ) → Precision
  precision_star : Precision

-- The length modifiers; Z, q are older names of z, ll.
pub data Modifier : Type 0 where
  no_modifier hh_modifier h_modifier l_modifier ll_modifier big_l_modifier q_modifier : Modifier
  z_modifier big_z_modifier t_modifier j_modifier : Modifier

pub record Directive : Type 0 where
  pub flags : List ℕ
  pub width : Width
  pub precision : Precision
  pub modifier : Modifier
  pub conversion : ℕ

abbrev pub width_text : Width → List ℕ
width_text no_width = []
width_text (width_digits first more) = first ∷ more
width_text width_star = codes "*"

abbrev pub precision_text : Precision → List ℕ
precision_text no_precision = []
precision_text (precision_digits first more) = b'.' ∷ first ∷ more
precision_text precision_star = codes ".*"

abbrev pub modifier_text : Modifier → List ℕ
modifier_text no_modifier = []
modifier_text hh_modifier = codes "hh"
modifier_text h_modifier = codes "h"
modifier_text l_modifier = codes "l"
modifier_text ll_modifier = codes "ll"
modifier_text big_l_modifier = codes "L"
modifier_text q_modifier = codes "q"
modifier_text z_modifier = codes "z"
modifier_text big_z_modifier = codes "Z"
modifier_text t_modifier = codes "t"
modifier_text j_modifier = codes "j"

-- How long an argument the scanner takes each modifier for.
abbrev pub modifier_lg : Modifier → TypeLg
modifier_lg no_modifier = no_long
modifier_lg hh_modifier = no_long
modifier_lg h_modifier = short_lg
modifier_lg l_modifier = long_lg
modifier_lg ll_modifier = long_long_lg
modifier_lg big_l_modifier = long_long_lg
modifier_lg q_modifier = long_long_lg
modifier_lg z_modifier = long_lg
modifier_lg big_z_modifier = long_lg
modifier_lg t_modifier = long_lg
modifier_lg j_modifier = long_lg

abbrev pub width_stars : Width → ℕ
width_stars width_star = 1
width_stars no_width = 0
width_stars (width_digits first more) = 0

abbrev pub precision_stars : Precision → ℕ
precision_stars precision_star = 1
precision_stars no_precision = 0
precision_stars (precision_digits first more) = 0

-- The text of a directive behind its `%`, in front of `rest`.
abbrev pub print_directive : Directive → List ℕ → List ℕ
print_directive d rest =
    d.flags
    ++ (width_text d.width
        ++ (precision_text d.precision ++ (modifier_text d.modifier ++ d.conversion ∷ rest)))

abbrev pub all_of : (ℕ → Bool) → List ℕ → Bool
all_of test [] = true
all_of test (c ∷ rest) = test c && all_of test rest

-- The conversions, but for `h`: whether that is a modifier depends on the text behind it.
abbrev pub conversions : List ℕ
conversions = codes "diouxXeEfFgGaAcCsSpbBHyYrRvVJKwWm%"

abbrev pub modifiers : List ℕ
modifiers = codes "hlLqzZtj"

abbrev pub IsWidth : Width → Type 0
IsWidth no_width = Unit
IsWidth (width_digits first more) =
    (is_in first (codes "123456789") ≡ true) × (all_of is_width more ≡ true)
IsWidth width_star = Unit

abbrev pub IsPrecision : Precision → Type 0
IsPrecision no_precision = Unit
IsPrecision (precision_digits first more) =
    (is_in first (codes "0123456789") ≡ true) × (all_of is_width more ≡ true)
IsPrecision precision_star = Unit

-- The modifier h goes with the conversions of an integer.
abbrev pub IsModifier : Modifier → ℕ → Type 0
IsModifier h_modifier conversion = is_in conversion (codes "diuxXo") ≡ true
IsModifier modifier conversion = Unit

pub record IsDirective (d : Directive) : Type 0 where
  pub flags : all_of is_flag d.flags ≡ true
  pub width : IsWidth d.width
  pub precision : IsPrecision d.precision
  pub modifier : IsModifier d.modifier d.conversion
  pub conversion : is_in d.conversion conversions ≡ true

-- A test that holds for all letters of a list, or for none, says so of one of them.
pub all_of-is_in :
    (test : ℕ → Bool) (c : ℕ) (xs : List ℕ)
    → is_in c xs ≡ true
    → all_of test xs ≡ true
    → test c ≡ true
all_of-is_in test c [] h all = absurd cc
all_of-is_in test c (x ∷ xs) h all = elim (Bool-cases (test x)) [
  | inl holds ↦ elim (Bool-cases (c == x)) [
    | inl same ↦ rw (==→eq c x same) holds
    | inr other ↦ all_of-is_in test c xs (rw (other, ◌||◌) at h) (rw (holds, ◌&&◌) at all)
  ]
  | inr fails ↦ absurd (let clash : false ≡ true = rw (fails, ◌&&◌) at all in cc)
]

not-true : (b : Bool) → not b ≡ true → b ≡ false
not-true true h = absurd cc
not-true false h = refl

pub none_of-is_in :
    (test : ℕ → Bool) (c : ℕ) (xs : List ℕ)
    → is_in c xs ≡ true
    → all_of (λ x. not (test x)) xs ≡ true
    → test c ≡ false
none_of-is_in test c xs h never = not-true (test c) (all_of-is_in (λ x. not (test x)) c xs h never)

-- The loop goes over the letters of a piece and stops behind it.
pub skip-append :
    (test : ℕ → Bool) (xs rest : List ℕ) (len : ℕ)
    → all_of test xs ≡ true
    → starts test rest ≡ false
    → (len' : ℕ) × (skip test (xs ++ rest) len ≡ record { iterformat = rest; len = len' })
unfolding skip
skip-append test [] [] len all stop = (len, refl)
skip-append test [] (c ∷ rest) len all stop = (len, rw (stop, skip) refl)
skip-append test (x ∷ xs) rest len all stop = elim (Bool-cases (test x)) [
  | inl more ↦
      let (len', e) = skip-append test xs rest (len + 1) (rw (more, ◌&&◌) at all) stop in
      (len', rw (more, skip) e)
  | inr fails ↦ absurd (let clash : false ≡ true = rw (fails, ◌&&◌) at all in cc)
]

module _ (modifier : Modifier) (conversion : ℕ) (rest : List ℕ)
    (known : is_in conversion conversions ≡ true) where
  -- A test that fails for modifiers and conversions fails behind the precision.
  pub stops_at_modifier :
      (test : ℕ → Bool)
      → all_of (λ x. not (test x)) modifiers ≡ true
      → all_of (λ x. not (test x)) conversions ≡ true
      → starts test (modifier_text modifier ++ conversion ∷ rest) ≡ false
  stops_at_modifier test fails never =
      elim modifier as (λ m. starts test (modifier_text m ++ conversion ∷ rest) ≡ false) [
        | no_modifier ↦ none_of-is_in test conversion conversions known never
        | hh_modifier ↦ none_of-is_in test b'h' modifiers refl fails
        | h_modifier ↦ none_of-is_in test b'h' modifiers refl fails
        | l_modifier ↦ none_of-is_in test b'l' modifiers refl fails
        | ll_modifier ↦ none_of-is_in test b'l' modifiers refl fails
        | big_l_modifier ↦ none_of-is_in test b'L' modifiers refl fails
        | q_modifier ↦ none_of-is_in test b'q' modifiers refl fails
        | z_modifier ↦ none_of-is_in test b'z' modifiers refl fails
        | big_z_modifier ↦ none_of-is_in test b'Z' modifiers refl fails
        | t_modifier ↦ none_of-is_in test b't' modifiers refl fails
        | j_modifier ↦ none_of-is_in test b'j' modifiers refl fails
      ]
