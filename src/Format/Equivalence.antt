-- ===== src/Format/Equivalence.antt =====
-- log_vsnprintf against one call of vsnprintf.
use comm_system.Prelude.{
  ℕ, zero, suc, ◌+◌, ◌-◌, ◌^◌, ◌<◌, ◌≤◌, ◌≡◌, refl, sym, ap, ◌∙◌, true, Option, some, List, [], ◌∷◌,
  ◌++◌, append_assoc, append-nil, length, length-append, arith, ℤ, pos,
}
use comm_system.Transfer.{Run, returned, fault, running}
use comm_system.Families.{Family, Formatting}
use comm_system.Format.{is_literal, skip}
use comm_system.Format.Output.{
  Printing, strncat, convert_scanned, finish, behind_round, behind_scan, behind_literal,
  format_loop, log_vsnprintf,
}
use comm_system.Format.Arguments.{VaArg}
use comm_system.Format.Directives.{all_of, skip-append}
use comm_system.Format.Pieces.{
  Piece, print_piece, print_pieces, arguments_of, Reads, scanned_of, scan-print_piece,
}
use comm_system.Format.Printing.{
  text_of, IsPrintf, AllPlain, texts_of, text-print_pieces, strncat-fits, between,
  convert_scanned-piece,
}

module _ (formatting : Formatting) (vsnprintf : ℕ → List ℕ → List VaArg → Option (ℤ × List ℕ))
    (tab_family : List Family) (taille : ℕ) (text : List ℕ → List VaArg → List ℕ) where
  -- The end of a round is the start of the next one, also at the end of the format.
  behind_round-format_loop :
      (fuel : ℕ) (rest : List ℕ) (s : Printing)
      → behind_round formatting vsnprintf tab_family taille
          (format_loop formatting vsnprintf tab_family taille (suc fuel))
          rest
          (some s)
        ≡ format_loop formatting vsnprintf tab_family taille (suc fuel) rest s
  unfolding behind_round format_loop behind_literal skip
  behind_round-format_loop fuel [] s = refl
  behind_round-format_loop fuel (c ∷ rest) s = refl

  -- A round over a piece.
  format_loop-print_piece :
      (fuel : ℕ) (p : Piece) (rest : List ℕ) (s s' : Printing) (found : Reads p rest)
      → convert_scanned formatting vsnprintf tab_family taille
          (print_piece p rest)
          (scanned_of p rest found.last)
          s
        ≡ some s'
      → format_loop formatting vsnprintf tab_family taille (suc (suc fuel)) (print_piece p rest) s
        ≡ format_loop formatting vsnprintf tab_family taille (suc fuel) rest s'
  unfolding format_loop behind_literal behind_scan
  format_loop-print_piece fuel p rest s s' found e =
      rw (found.skips, found.scans, e) (behind_round-format_loop fuel rest s')

  behind_literal-end :
      (again : List ℕ → Printing → Run ℤ Printing) (ptrsub : List ℕ) (len : ℕ) (s s' : Printing)
      → strncat formatting vsnprintf tab_family taille ptrsub taille s ≡ some s'
      → behind_literal formatting vsnprintf tab_family taille again ptrsub
          (record { iterformat = []; len = len })
          s
        ≡ returned s'.retval s'
  unfolding behind_literal finish
  behind_literal-end again ptrsub len s s' e = rw (e, finish) refl

  finish-tail :
      (fuel : ℕ) (tail out : List ℕ) (n : ℕ)
      → all_of is_literal tail ≡ true
      → length out + length tail < taille
      → format_loop formatting vsnprintf tab_family taille (suc fuel) tail (between out [] n)
        ≡ returned (pos n) (between (out ++ tail) [] n)
  unfolding format_loop
  finish-tail fuel tail out n literal short =
      let (len, e) = skip-append is_literal tail [] 0 literal refl in
      let stops = rw (append-nil tail) at e in
      rw stops (
        behind_literal-end (format_loop formatting vsnprintf tab_family taille fuel) tail len
          (between out [] n) (between (out ++ tail) [] n)
          (strncat-fits formatting vsnprintf tab_family taille text tail (between out [] n) short))

  ends-append :
      (out t ts tail : List ℕ) (n : ℕ)
      → ◌≡◌ {A = Run ℤ Printing}
          (returned
            (pos (n + length t + length ts))
            (between (((out ++ t) ++ ts) ++ tail) [] (n + length t + length ts)))
          (returned
            (pos (n + length (t ++ ts)))
            (between ((out ++ (t ++ ts)) ++ tail) [] (n + length (t ++ ts))))
  ends-append out t ts tail n =
      let sum : n + length t + length ts ≡ n + length (t ++ ts) =
        omega (arith, length-append t ts) in
      rw (append_assoc out t ts, sum) refl

  module _ (law : IsPrintf formatting vsnprintf tab_family taille text)
      (small : taille ≤ 2 ^ 31) where
    format_loop-print_pieces :
        (ps : List Piece) (tail out : List ℕ) (fuel n : ℕ)
        → AllPlain formatting vsnprintf tab_family taille text ps
        → all_of is_literal tail ≡ true
        → length ps < fuel
        → n ≤ length out
        → length out + length (texts_of text ps) + length tail < taille
        → format_loop formatting vsnprintf tab_family taille fuel
            (print_pieces ps tail)
            (between out (arguments_of ps) n)
          ≡ returned
              (pos (n + length (texts_of text ps)))
              (between ((out ++ texts_of text ps) ++ tail) [] (n + length (texts_of text ps)))
    format_loop-print_pieces ps tail out zero n all literal enough less short =
        absurd (omega (arith, enough))
    format_loop-print_pieces [] tail out (suc fuel) n all literal enough less short =
        let sum : n + 0 ≡ n = omega arith in
        rw (append-nil out, sum) (finish-tail fuel tail out n literal (omega (arith, short)))
    format_loop-print_pieces (p ∷ ps) tail out (suc zero) n all literal enough less short =
        absurd (omega (arith, enough))
    format_loop-print_pieces (p ∷ ps) tail out (suc (suc fuel)) n (is, clean, sub, own, all) literal
          enough less short =
        let rest = print_pieces ps tail in
        let t = text_of text p in
        let found = scan-print_piece p rest is.piece in
        format_loop-print_piece fuel p rest (between out (p.own ++ arguments_of ps) n)
          (between (out ++ t) (arguments_of ps) (n + length t)) found
          (convert_scanned-piece formatting vsnprintf tab_family taille text law small p rest
            (arguments_of ps) out n found.last is sub own found.cuts found.counts less
            (omega (arith, short, length-append t (texts_of text ps))))
        ∙ format_loop-print_pieces ps tail (out ++ t) (suc fuel) (n + length t) all literal
            (omega (arith, enough)) (omega (arith, less, length-append out t))
            (omega (arith, short, length-append out t, length-append t (texts_of text ps)))
        ∙ ends-append out t (texts_of text ps) tail n

  -- What comes out for a format and its arguments: the text of a call of vsnprintf, and the length of
  -- it without the text behind the last directive.
  abbrev pub Prints :
      (format : List ℕ) (arguments : List VaArg) (tail : List ℕ) → Run ℤ Printing → Type 0
  Prints format arguments tail (returned retval s) =
      (retval ≡ pos (length (text format arguments) - length tail))
      × (s.out ≡ text format arguments)
      × (s.arguments ≡ [])
  Prints format arguments tail fault = ⊥
  Prints format arguments tail running = ⊥

  -- log_vsnprintf prints as one call of vsnprintf would. The format is any sequence of texts and
  -- directives, with some text behind them: a bare `%%`, or the conversions `diouxXaAeEfFgGcsp`,
  -- with any flags, where a width is a number of at most nine digits or a star, a precision a dot
  -- with at most nine digits or a star, and a length modifier stands only before an integer, or is
  -- `L` before a double. Left out are `l` before a double, a character or a string, a dot without
  -- digits, and numbered arguments. The arguments are those that the standard asks for, in their
  -- order; vsnprintf prints each directive of such a format from its own arguments, as it prints it
  -- alone, and writes and counts a text that fits; each part fits the local buffers and prints no
  -- NUL, the whole text fits the buffer of `taille` bytes, at most 2 ^ 31, and the fuel is more
  -- than the number of directives. Then the loop ends, `out` is the text that vsnprintf prints for
  -- the format and the arguments, all arguments are used, and the result is the length of that text
  -- less the length of the text behind the last directive.
  pub log_vsnprintf-vsnprintf :
      (ps : List Piece) (tail : List ℕ) (fuel : ℕ)
      → IsPrintf formatting vsnprintf tab_family taille text
      → AllPlain formatting vsnprintf tab_family taille text ps
      → all_of is_literal tail ≡ true
      → taille ≤ 2 ^ 31
      → length (text (print_pieces ps tail) (arguments_of ps)) < taille
      → length ps < fuel
      → Prints (print_pieces ps tail) (arguments_of ps) tail (
          log_vsnprintf formatting vsnprintf tab_family taille fuel
            (print_pieces ps tail)
            (arguments_of ps))
  unfolding log_vsnprintf
  log_vsnprintf-vsnprintf ps tail fuel law all literal small short enough =
      let cut =
        text-print_pieces formatting vsnprintf tab_family taille text ps tail law all literal in
      let parts = length-append (texts_of text ps) tail in
      let fits : length (texts_of text ps) + length tail < taille =
        omega (arith, short, ap length cut, parts) in
      rw
        (
          format_loop-print_pieces law small ps tail [] fuel 0 all literal enough (omega arith)
              (omega (arith, fits)),
          Prints,
        )
        (ap pos (omega (arith, ap length cut, parts)), sym cut, refl)
