-- ===== src/Examples/Formatting.antt =====
-- log_vsnprintf on some formats.
use Prim.Native.String.{String}
use comm_system.Prelude.{ℕ, ◌≡◌, refl, List, [], ◌∷◌, length, codes, arith, ℤ, pos, negsuc}
use comm_system.Transfer.{Run, returned, fault}
use comm_system.Families.{Formatting}
use comm_system.Format.Output.{Printing, log_vsnprintf}
use comm_system.Format.Arguments.{VaArg, int_arg, long_arg, double_arg, string_arg}
use comm_system.Format.Directives.{
  no_width, width_digits, no_precision, precision_star, no_modifier, l_modifier,
}
use comm_system.Format.Pieces.{Piece, print_pieces, arguments_of, IsPiece, Reads, scan-print_piece}
use comm_system.Format.Printing.{AllPlain}
use comm_system.Examples.Printer.{print_format, printing}
use comm_system.Examples.Rendering.{printing-IsPrintf}
use comm_system.Format.Equivalence.{Prints, log_vsnprintf-vsnprintf}

abbrev one_digit : Formatting
one_digit = record { decimal = λ z. codes "7"; strerror_r = λ z. codes "E" }

-- `n = %-5ld`, ` x = %.*f` and ` of %s`, with their arguments.
abbrev long_number : Piece
long_number = record {
  literal = codes "n = ";
  directive = record {
    flags = codes "-";
    width = width_digits b'5' [];
    precision = no_precision;
    modifier = l_modifier;
    conversion = b'd';
  };
  own = long_arg (pos 342) ∷ [];
}

abbrev some_digits : Piece
some_digits = record {
  literal = codes " x = ";
  directive = record {
    flags = [];
    width = no_width;
    precision = precision_star;
    modifier = no_modifier;
    conversion = b'f';
  };
  own = int_arg (pos 2) ∷ double_arg 1 ∷ [];
}

abbrev some_name : Piece
some_name = record {
  literal = codes " of ";
  directive = record {
    flags = [];
    width = no_width;
    precision = no_precision;
    modifier = no_modifier;
    conversion = b's';
  };
  own = string_arg (codes "abc") ∷ [];
}

long_number-IsPiece : IsPiece long_number
long_number-IsPiece = record {
  literal = refl;
  directive = record {
    flags = refl;
    width = (refl, refl);
    precision = _;
    modifier = _;
    conversion = refl;
  };
}

some_digits-IsPiece : IsPiece some_digits
some_digits-IsPiece = record {
  literal = refl;
  directive = record { flags = refl; width = _; precision = _; modifier = _; conversion = refl };
}

some_name-IsPiece : IsPiece some_name
some_name-IsPiece = record {
  literal = refl;
  directive = record { flags = refl; width = _; precision = _; modifier = _; conversion = refl };
}

abbrev three_pieces : List Piece
three_pieces = long_number ∷ some_digits ∷ some_name ∷ []

three_pieces-AllPlain : AllPlain one_digit printing [] 2048 print_format three_pieces
unfolding print_format
three_pieces-AllPlain = (
  record {
    piece = long_number-IsPiece;
    width = refl;
    precision = refl;
    percent = refl;
    standard = refl;
    kinds = (refl, refl);
  },
  refl,
  omega arith,
  omega arith,
  (
    record {
      piece = some_digits-IsPiece;
      width = refl;
      precision = refl;
      percent = refl;
      standard = refl;
      kinds = (refl, (refl, refl));
    },
    refl,
    omega arith,
    omega arith,
    (
      record {
        piece = some_name-IsPiece;
        width = refl;
        precision = refl;
        percent = refl;
        standard = refl;
        kinds = (refl, refl);
      },
      refl,
      omega arith,
      omega arith,
      _,
    ),
  ),
)

scan-print_piece_example : Reads long_number (codes ", %s")
scan-print_piece_example = scan-print_piece long_number (codes ", %s") long_number-IsPiece

log_vsnprintf-vsnprintf_example :
    Prints one_digit printing [] 2048 print_format
      (print_pieces three_pieces (codes "."))
      (arguments_of three_pieces)
      (codes ".")
      (log_vsnprintf one_digit printing [] 2048 9
        (print_pieces three_pieces (codes "."))
        (arguments_of three_pieces))
unfolding print_format
log_vsnprintf-vsnprintf_example =
    log_vsnprintf-vsnprintf one_digit printing [] 2048 print_format three_pieces (codes ".") 9
      (printing-IsPrintf one_digit [] 2048) three_pieces-AllPlain refl (omega arith) (omega arith)
      (omega arith)

abbrev run : String → List VaArg → Run ℤ Printing
run format arguments = log_vsnprintf one_digit printing [] 2048 20 (codes format) arguments

-- A `%` at the end: the scanner steps over the NUL.
trailing_percent : run "50%" [] ≡ fault
unfolding log_vsnprintf
trailing_percent = refl

-- A precision without digits: the scanner takes the conversion for a part of it.
bare_precision : run "%.f" (double_arg 1 ∷ []) ≡ fault
unfolding log_vsnprintf
bare_precision = refl

-- The argument of `%lf` is a double, and a long double is passed over.
long_float : run "%lf" (double_arg 1 ∷ []) ≡ fault
unfolding log_vsnprintf printing
long_float = refl

-- The argument of `%ls` is not passed over.
abbrev arguments_left : Run ℤ Printing → ℕ
arguments_left (returned retval s) = length s.arguments
arguments_left r = 99

long_string : arguments_left (run "%ls" (string_arg [] ∷ [])) ≡ 1
unfolding log_vsnprintf printing
long_string = refl

abbrev text_out : Run ℤ Printing → List ℕ
text_out (returned retval s) = s.out
text_out r = []

abbrev count_out : Run ℤ Printing → ℤ
count_out (returned retval s) = retval
count_out r = negsuc 0

three_printed :
    text_out (
      run "n = %-5ld x = %.*f of %s."
        (long_arg (pos 342) ∷ int_arg (pos 2) ∷ double_arg 1 ∷ string_arg (codes "abc") ∷ []))
    ≡ codes "n = 342 x = 1 of abc."
unfolding log_vsnprintf printing
three_printed = refl

-- An extended conversion, and text behind it, which the result does not count.
status :
    text_out (run "<%b>." (long_arg (pos 7) ∷ string_arg (codes "LRU") ∷ string_arg [] ∷ []))
    ≡ codes "<LRU(7)>."
unfolding log_vsnprintf
status = refl

status_count :
    count_out (run "<%b>." (long_arg (pos 7) ∷ string_arg (codes "LRU") ∷ string_arg [] ∷ []))
    ≡ pos 0
unfolding log_vsnprintf
status_count = refl
