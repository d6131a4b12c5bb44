-- ===== src/Format/Pieces.antt =====
-- A format as pieces: some text, a directive, and the arguments that belong to it.
use comm_system.Prelude.{
  ℕ, ◌+◌, ◌≡◌, refl, sym, ap, ◌∙◌, true, some, List, [], ◌∷◌, ◌++◌, append_assoc, length,
  length-append, take, take-append, arith,
}
use comm_system.Format.{is_literal, skip, conversion_type, Scanned, scan}
use comm_system.Format.Arguments.{VaArg}
use comm_system.Format.Moves.{Moves, MovesIf, skip-Moves, scan-Moves}
use comm_system.Format.Directives.{
  Directive, width_text, precision_text, modifier_text, modifier_lg, width_stars, precision_stars,
  print_directive, all_of, IsDirective, skip-append,
}
use comm_system.Format.Scanning.{scan-Finds}

pub record Piece : Type 0 where
  pub literal : List ℕ
  pub directive : Directive
  pub own : List VaArg

-- The text of a piece in front of `rest`.
abbrev pub print_piece : Piece → List ℕ → List ℕ
print_piece p rest = p.literal ++ b'%' ∷ print_directive p.directive rest

abbrev pub print_pieces : List Piece → List ℕ → List ℕ
print_pieces [] tail = tail
print_pieces (p ∷ ps) tail = print_piece p (print_pieces ps tail)

abbrev pub arguments_of : List Piece → List VaArg
arguments_of [] = []
arguments_of (p ∷ ps) = p.own ++ arguments_of ps

print_directive-append :
    (d : Directive) (rest : List ℕ) → print_directive d rest ≡ print_directive d [] ++ rest
print_directive-append d rest = sym (
    append_assoc d.flags _ rest
    ∙ ap (λ l. d.flags ++ l)
        (append_assoc (width_text d.width) _ rest
          ∙ ap (λ l. width_text d.width ++ l)
              (append_assoc (precision_text d.precision) _ rest
                ∙ ap (λ l. precision_text d.precision ++ l)
                    (append_assoc (modifier_text d.modifier) (d.conversion ∷ []) rest))))

pub print_piece-append : (p : Piece) (rest : List ℕ) → print_piece p rest ≡ print_piece p [] ++ rest
print_piece-append p rest =
    ap (λ l. p.literal ++ b'%' ∷ l) (print_directive-append p.directive rest)
    ∙ sym (append_assoc p.literal (b'%' ∷ print_directive p.directive []) rest)

pub record IsPiece (p : Piece) : Type 0 where
  pub literal : all_of is_literal p.literal ≡ true
  pub directive : IsDirective p.directive

abbrev pub stars_of : Directive → ℕ
stars_of d = width_stars d.width + precision_stars d.precision

-- What a scan finds of a piece that ends at `last`, in front of `rest`.
abbrev pub scanned_of : Piece → List ℕ → (last : ℕ) → Scanned
scanned_of p rest last = record {
  type = conversion_type p.directive.conversion;
  typelg = modifier_lg p.directive.modifier;
  stars = stars_of p.directive;
  end = record { iterformat = rest; len = last };
}

-- What the scanner has found of a piece in front of `rest`: `first` is where its first loop stops.
pub record Reads (p : Piece) (rest : List ℕ) : Type 0 where
  pub first : ℕ
  pub last : ℕ
  pub skips :
      skip is_literal (print_piece p rest) 0
      ≡ record { iterformat = b'%' ∷ print_directive p.directive rest; len = first }
  pub scans : scan (print_directive p.directive rest) (first + 1) ≡ some (scanned_of p rest last)
  pub cuts : take last (print_piece p rest) ≡ print_piece p []
  pub counts : last ≡ length (print_piece p [])

-- The scanner of log_vsnprintf reads a printed directive back. For some text, a directive of the
-- grammar with any flags, width, precision, length modifier and conversion, the extended ones but
-- for `h` included, and any rest of the format behind it, the scanner finds the type of the
-- conversion, the length of its argument and the number of stars, it cuts off just the text and the
-- directive, and stops at the rest.
pub scan-print_piece : (p : Piece) (rest : List ℕ) → IsPiece p → Reads p rest
scan-print_piece p rest is =
    let (first, skips) =
      skip-append is_literal p.literal (b'%' ∷ print_directive p.directive rest) 0 is.literal
        refl in
    let (last, scans) = scan-Finds p.directive is.directive rest (first + 1) in
    let behind = print_directive p.directive rest in
    let (front, cut, counted) =
      rw (skips, Moves) at (skip-Moves is_literal (print_piece p rest) 0) in
    let (part, cut', counted') = rw (scans, MovesIf) at (scan-Moves behind (first + 1)) in
    let counts : last ≡ length (print_piece p []) = omega (
      arith,
      counted,
      counted',
      ap length cut,
      ap length cut',
      length-append front (b'%' ∷ behind),
      length-append part rest,
      ap length (print_piece-append p rest),
      length-append (print_piece p []) rest,
    ) in
    record {
      first = first;
      last = last;
      skips = skips;
      scans = scans;
      cuts = rw (counts, print_piece-append p rest) (take-append (print_piece p []) rest);
      counts = counts;
    }
