-- ===== src/Format/Scanning.antt =====
-- The scanner finds in the text of a directive what the directive says.
use comm_system.Prelude.{
  ℕ, ◌+◌, ◌≡◌, refl, Bool, true, false, ◌&&◌, ◌||◌, Option, some, List, [], ◌∷◌, ◌++◌, ◌==◌, codes,
}
use comm_system.Format.{
  is_in, is_flag, is_digit, is_width, starts, skip, Found, scan_star, scan_precision, scan_dot,
  scan_twice, scan_length, conversion_type, Scanned, scan_conversion, scan_behind_length, scan_type,
  scan_behind_width, scan,
}
use comm_system.Format.Directives.{
  Width, no_width, width_digits, width_star, Precision, no_precision, precision_digits,
  precision_star, Modifier, no_modifier, hh_modifier, h_modifier, l_modifier, ll_modifier,
  big_l_modifier, q_modifier, z_modifier, big_z_modifier, t_modifier, j_modifier, Directive,
  width_text, precision_text, modifier_text, modifier_lg, width_stars, precision_stars,
  print_directive, all_of, conversions, IsWidth, IsPrecision, IsModifier, IsDirective, all_of-is_in,
  none_of-is_in, skip-append, stops_at_modifier,
}

abbrev is_star : ℕ → Bool
is_star c = c == b'*'

abbrev is_dot : ℕ → Bool
is_dot c = c == b'.'

scan_star-stop :
    (text : List ℕ) (len : ℕ)
    → starts is_star text ≡ false
    → scan_star text len ≡ record { value = 0; behind = record { iterformat = text; len = len } }
unfolding scan_star
scan_star-stop [] len stop = refl
scan_star-stop (c ∷ rest) len stop = rw stop refl

scan_dot-stop :
    (text : List ℕ) (len : ℕ)
    → starts is_dot text ≡ false
    → scan_dot text len
      ≡ some (record { value = 0; behind = record { iterformat = text; len = len } })
unfolding scan_dot
scan_dot-stop [] len stop = refl
scan_dot-stop (c ∷ rest) len stop = rw stop refl

skip-stop :
    (test : ℕ → Bool) (text : List ℕ) (len : ℕ)
    → starts test text ≡ false
    → skip test text len ≡ record { iterformat = text; len = len }
unfolding skip
skip-stop test [] len stop = refl
skip-stop test (c ∷ rest) len stop = rw (stop, skip) refl

scan_star-star :
    (rest : List ℕ) (len : ℕ)
    → starts is_width rest ≡ false
    → scan_star (b'*' ∷ rest) len
      ≡ record { value = 1; behind = record { iterformat = rest; len = len + 1 } }
unfolding scan_star
scan_star-star rest len stop = rw (skip-stop is_width rest (len + 1) stop) refl

scan_star-width :
    (width : Width) (rest : List ℕ) (len : ℕ)
    → IsWidth width
    → starts is_width rest ≡ false
    → starts is_star rest ≡ false
    → (len' : ℕ) × (scan_star
          (skip is_width (width_text width ++ rest) len).iterformat
          (skip is_width (width_text width ++ rest) len).len
        ≡ record { value = width_stars width; behind = record { iterformat = rest; len = len' } })
scan_star-width no_width rest len is stop no_star =
    (len, rw (skip-stop is_width rest len stop) (scan_star-stop rest len no_star))
scan_star-width (width_digits first more) rest len (digit, digits) stop no_star =
    let all : all_of is_width (first ∷ more) ≡ true =
      rw (all_of-is_in is_width first (codes "123456789") digit refl, ◌&&◌) digits in
    let (len', e) = skip-append is_width (first ∷ more) rest len all stop in
    (len', rw e (scan_star-stop rest len' no_star))
scan_star-width width_star rest len is stop no_star =
    (len + 1, rw (skip-stop is_width (b'*' ∷ rest) len refl) (scan_star-star rest len stop))

scan_dot-precision :
    (precision : Precision) (rest : List ℕ) (len : ℕ)
    → IsPrecision precision
    → starts is_width rest ≡ false
    → starts is_dot rest ≡ false
    → (len' : ℕ) × (scan_dot (precision_text precision ++ rest) len
        ≡ some (record {
          value = precision_stars precision;
          behind = record { iterformat = rest; len = len' };
        }))
unfolding scan_dot scan_precision
scan_dot-precision no_precision rest len is stop no_dot = (len, scan_dot-stop rest len no_dot)
scan_dot-precision (precision_digits first more) rest len (digit, digits) stop no_dot =
    let all : all_of is_width (first ∷ more) ≡ true =
      rw (all_of-is_in is_width first (codes "0123456789") digit refl, ◌&&◌) digits in
    let (len', e) = skip-append is_width (first ∷ more) rest (len + 1) all stop in
    (
      len',
      rw (none_of-is_in is_star first (codes "0123456789") digit refl)
          (rw (all_of-is_in is_digit first (codes "0123456789") digit refl) (rw e refl)),
    )
scan_dot-precision precision_star rest len is stop no_dot =
    (len + 1 + 1, rw (skip-stop is_width rest (len + 1 + 1) stop) refl)

scan_length-modifier :
    (modifier : Modifier) (conversion : ℕ) (rest : List ℕ) (len : ℕ)
    → IsModifier modifier conversion
    → is_in conversion conversions ≡ true
    → (len' : ℕ) × (scan_length (modifier_text modifier ++ conversion ∷ rest) len ≡ record {
      value = modifier_lg modifier;
      behind = record { iterformat = conversion ∷ rest; len = len' };
    })
unfolding scan_length scan_twice
scan_length-modifier no_modifier conversion rest len is known = (
  len,
  rw
      (
        none_of-is_in (λ c. c == b'h') conversion conversions known refl,
        none_of-is_in (λ c. c == b'l') conversion conversions known refl,
        none_of-is_in (λ c. is_in c (codes "Lq")) conversion conversions known refl,
        none_of-is_in (λ c. is_in c (codes "zZtj")) conversion conversions known refl,
        ◌&&◌,
      )
      refl,
)
scan_length-modifier hh_modifier conversion rest len is known = (len + 1 + 1, refl)
scan_length-modifier h_modifier conversion rest len is known =
    let not_h = none_of-is_in (λ c. c == b'h') conversion conversions known refl in
    (len + 1, rw (not_h, ◌||◌) (rw is refl))
scan_length-modifier l_modifier conversion rest len is known =
    (len + 1, rw (none_of-is_in (λ c. c == b'l') conversion conversions known refl) refl)
scan_length-modifier ll_modifier conversion rest len is known = (len + 1 + 1, refl)
scan_length-modifier big_l_modifier conversion rest len is known = (len + 1, refl)
scan_length-modifier q_modifier conversion rest len is known = (len + 1, refl)
scan_length-modifier z_modifier conversion rest len is known = (len + 1, refl)
scan_length-modifier big_z_modifier conversion rest len is known = (len + 1, refl)
scan_length-modifier t_modifier conversion rest len is known = (len + 1, refl)
scan_length-modifier j_modifier conversion rest len is known = (len + 1, refl)

module _ (d : Directive) (is : IsDirective d) (rest : List ℕ) where
  abbrev from_modifier : List ℕ
  from_modifier = modifier_text d.modifier ++ d.conversion ∷ rest

  abbrev from_precision : List ℕ
  from_precision = precision_text d.precision ++ from_modifier

  abbrev from_width : List ℕ
  from_width = width_text d.width ++ from_precision

  stops_at_precision :
      (test : ℕ → Bool)
      → starts test from_modifier ≡ false
      → test b'.' ≡ false
      → starts test from_precision ≡ false
  stops_at_precision test stop no_dot =
      elim d.precision as (λ p. starts test (precision_text p ++ from_modifier) ≡ false) [
        | no_precision ↦ stop
        | precision_digits first more ↦ no_dot
        | precision_star ↦ no_dot
      ]

  stops_at_width :
      (width : Width) → IsWidth width → starts is_flag (width_text width ++ from_precision) ≡ false
  stops_at_width no_width w =
      stops_at_precision is_flag
        (stops_at_modifier d.modifier d.conversion rest is.conversion is_flag refl refl) refl
  stops_at_width (width_digits first more) (digit, digits) =
      none_of-is_in is_flag first (codes "123456789") digit refl
  stops_at_width width_star w = refl

  -- What a scan has found, wherever its cursor has counted to.
  abbrev pub Finds : Option Scanned → Type 0
  Finds r =
      (len : ℕ) × (r
        ≡ some (record {
          type = conversion_type d.conversion;
          typelg = modifier_lg d.modifier;
          stars = width_stars d.width + precision_stars d.precision;
          end = record { iterformat = rest; len = len };
        }))

  scan_behind_width-Finds :
      (found : Found ℕ) (len : ℕ)
      → found ≡ record {
        value = width_stars d.width;
        behind = record { iterformat = from_precision; len = len };
      }
      → Finds (scan_behind_width found)
  unfolding scan_behind_width scan_type scan_behind_length scan_conversion
  scan_behind_width-Finds found len e =
      let stops = stops_at_modifier d.modifier d.conversion rest is.conversion in
      let (len₁, dot) =
        scan_dot-precision d.precision from_modifier len is.precision (stops is_width refl refl)
          (stops is_dot refl refl) in
      let (len₂, modifier) =
        scan_length-modifier d.modifier d.conversion rest len₁ is.modifier is.conversion in
      (len₂ + 1, rw (e, dot, modifier) refl)

  pub scan-Finds : (len : ℕ) → Finds (scan (print_directive d rest) len)
  unfolding scan
  scan-Finds len =
      let stops = stops_at_modifier d.modifier d.conversion rest is.conversion in
      let (len₁, flags) =
        skip-append is_flag d.flags from_width len is.flags (stops_at_width d.width is.width) in
      let (len₂, star) =
        scan_star-width d.width from_precision len₁ is.width
          (stops_at_precision is_width (stops is_width refl refl) refl)
          (stops_at_precision is_star (stops is_star refl refl) refl) in
      rw flags (scan_behind_width-Finds _ len₂ star)
