-- ===== src/Format.antt =====
-- log_vsnprintf of log_functions.c: the types of its variables, and the scan of one conversion of a
-- format. A `char *` into the format is the text from there on, without the NUL at its end.

pub mod Arguments
pub mod Output
pub mod Moves
pub mod Directives
pub mod Scanning
pub mod Pieces
pub mod Printing
pub mod Equivalence
pub mod Letters
pub mod Standard
use comm_system.Prelude.{
  ℕ, zero, suc, ◌+◌, Bool, true, false, ◌&&◌, ◌||◌, not, Option, none, some, List, [], ◌∷◌, leb,
  ◌==◌, codes, if◌then◌else◌,
}

-- The values of `type_ext`.
pub data TypeExt : Type 0 where
  status_short status_long contexte_short contexte_long erreur_short erreur_long : TypeExt
  errnum_short errnum_long errctx_short errctx_long : TypeExt
  change_err_family change_ctx_family errno_short errno_long : TypeExt

-- The values of `type`; EXTENDED_TYPE comes with its `type_ext`.
pub data ConvType : Type 0 where
  no_type int_type long_type char_type string_type float_type double_type pointeur_type : ConvType
  extended_type : TypeExt → ConvType

-- The values of `typelg`.
pub data TypeLg : Type 0 where
  no_long short_lg long_lg long_long_lg : TypeLg

-- `iterformat` and `len`.
pub record Cursor : Type 0 where
  pub iterformat : List ℕ
  pub len : ℕ

abbrev pub is_in : ℕ → List ℕ → Bool
is_in c [] = false
is_in c (x ∷ xs) = c == x || is_in c xs

abbrev pub is_literal : ℕ → Bool
is_literal c = not (c == b'%')

abbrev pub is_flag : ℕ → Bool
is_flag c = is_in c (codes "#-0 +I'")

abbrev pub is_digit : ℕ → Bool
is_digit c = leb b'0' c && leb c b'9'

abbrev pub is_width : ℕ → Bool
is_width c = is_digit c || c == b'$'

-- A test of `*iterformat`, which fails for the NUL.
abbrev pub starts : (ℕ → Bool) → List ℕ → Bool
starts test [] = false
starts test (c ∷ rest) = test c

-- `while(test(*iterformat)) { ONE_STEP; }`
unfoldable pub skip : (ℕ → Bool) → List ℕ → ℕ → Cursor
skip test [] len = record { iterformat = []; len = len }
skip test (c ∷ rest) len = elim (test c) [
  | true ↦ skip test rest (len + 1)
  | false ↦ record { iterformat = c ∷ rest; len = len }
]

-- What was found at a place, and the cursor behind it.
pub record Found (A : Type 0) : Type 0 where
  pub value : A
  pub behind : Cursor

-- `*` in the width, with the number of stars.
unfoldable pub scan_star : List ℕ → ℕ → Found ℕ
unfolding skip
scan_star [] len = record { value = 0; behind = record { iterformat = []; len = len } }
scan_star (c ∷ rest) len =
    if c == b'*'
    then record { value = 1; behind = skip is_width rest (len + 1) }
    else record { value = 0; behind = record { iterformat = c ∷ rest; len = len } }

-- Behind the `.` of a precision. A step over the NUL is `none`.
unfoldable pub scan_precision : List ℕ → ℕ → Option (Found ℕ)
unfolding skip
scan_precision [] len = none
scan_precision (c ∷ rest) len =
    if c == b'*'
    then some (record { value = 1; behind = skip is_width rest (len + 1) })
    else if is_digit c
    then some (record { value = 0; behind = skip is_width (c ∷ rest) len })
    else some (record { value = 0; behind = record { iterformat = rest; len = len + 1 } })

unfoldable pub scan_dot : List ℕ → ℕ → Option (Found ℕ)
unfolding scan_precision
scan_dot [] len = some (record { value = 0; behind = record { iterformat = []; len = len } })
scan_dot (c ∷ rest) len =
    if c == b'.'
    then scan_precision rest (len + 1)
    else some (record { value = 0; behind = record { iterformat = c ∷ rest; len = len } })

-- Behind an `h` or an `l`: the same letter once more, or not.
unfoldable pub scan_twice : ℕ → (once twice : TypeLg) → List ℕ → ℕ → Found TypeLg
scan_twice letter once twice [] len = record {
  value = once;
  behind = record { iterformat = []; len = len };
}
scan_twice letter once twice (c ∷ rest) len =
    if c == letter
    then record { value = twice; behind = record { iterformat = rest; len = len + 1 } }
    else record { value = once; behind = record { iterformat = c ∷ rest; len = len } }

-- The first `switch (*iterformat)`, with a `long` of 64 bits.
unfoldable pub scan_length : List ℕ → ℕ → Found TypeLg
unfolding scan_twice
scan_length [] len = record { value = no_long; behind = record { iterformat = []; len = len } }
scan_length (c ∷ rest) len =
    if c == b'h' && starts (λ d. is_in d (codes "hdiuxXo")) rest
    then scan_twice b'h' short_lg no_long rest (len + 1)
    else if c == b'l'
    then scan_twice b'l' long_lg long_long_lg rest (len + 1)
    else if is_in c (codes "Lq")
    then record { value = long_long_lg; behind = record { iterformat = rest; len = len + 1 } }
    else if is_in c (codes "zZtj")
    then record { value = long_lg; behind = record { iterformat = rest; len = len + 1 } }
    else record { value = no_long; behind = record { iterformat = c ∷ rest; len = len } }

-- The extended conversions, by their letters.
abbrev pub extended_letters : List (ℕ × TypeExt)
extended_letters =
    (b'b', status_short)
    ∷ (b'B', status_long)
    ∷ (b'h', contexte_short)
    ∷ (b'H', contexte_long)
    ∷ (b'y', erreur_short)
    ∷ (b'Y', erreur_long)
    ∷ (b'r', errnum_short)
    ∷ (b'R', errnum_long)
    ∷ (b'v', errctx_short)
    ∷ (b'V', errctx_long)
    ∷ (b'J', change_err_family)
    ∷ (b'K', change_ctx_family)
    ∷ (b'w', errno_short)
    ∷ (b'W', errno_long)
    ∷ []

abbrev pub find_letter : ℕ → List (ℕ × TypeExt) → ConvType
find_letter c [] = no_type
find_letter c ((letter, type_ext) ∷ letters) =
    if c == letter then extended_type type_ext else find_letter c letters

-- The second `switch (*iterformat)`. Every case takes one step.
unfoldable pub conversion_type : ℕ → ConvType
conversion_type c =
    if is_in c (codes "iduoxX")
    then int_type
    else if is_in c (codes "eEfFgGaA")
    then double_type
    else if is_in c (codes "cC")
    then char_type
    else if is_in c (codes "sS")
    then string_type
    else if c == b'p'
    then pointeur_type
    else find_letter c extended_letters

-- `type`, `typelg`, the stars that were counted, and the cursor, where the conversion ends.
pub record Scanned : Type 0 where
  pub type : ConvType
  pub typelg : TypeLg
  pub stars : ℕ
  pub end : Cursor

unfoldable pub scan_conversion : (stars : ℕ) → TypeLg → List ℕ → ℕ → Option Scanned
unfolding conversion_type
scan_conversion stars typelg [] len = none
scan_conversion stars typelg (c ∷ rest) len = some (record {
  type = conversion_type c;
  typelg = typelg;
  stars = stars;
  end = record { iterformat = rest; len = len + 1 };
})

unfoldable pub scan_behind_length : (stars : ℕ) → Found TypeLg → Option Scanned
unfolding scan_conversion
scan_behind_length stars found =
    scan_conversion stars found.value found.behind.iterformat found.behind.len

-- Behind the precision.
unfoldable pub scan_type : (stars : ℕ) → Option (Found ℕ) → Option Scanned
unfolding scan_length scan_behind_length
scan_type stars none = none
scan_type stars (some found) =
    scan_behind_length (stars + found.value) (scan_length found.behind.iterformat found.behind.len)

unfoldable pub scan_behind_width : Found ℕ → Option Scanned
unfolding scan_dot scan_type
scan_behind_width found = scan_type found.value (scan_dot found.behind.iterformat found.behind.len)

-- From the step over the `%`, with the text behind it.
unfoldable pub scan : List ℕ → ℕ → Option Scanned
unfolding skip scan_star scan_behind_width
scan rest len =
    let flags = skip is_flag rest len in
    let width = skip is_width flags.iterformat flags.len in
    scan_behind_width (scan_star width.iterformat width.len)
