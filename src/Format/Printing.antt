-- ===== src/Format/Printing.antt =====
-- A format of the standard's directives is printed by log_vsnprintf as by one call of vsnprintf.
use comm_system.Prelude.{
  ℕ, ◌+◌, ◌^◌, ◌<◌, ◌≤◌, ◌≡◌, refl, sym, ap, ◌∙◌, Bool, true, ◌||◌, not, ◌&&◌, leb, ◌==◌, codes,
  Option, none, some, List, [], ◌∷◌, ◌++◌, append_assoc, length, take, take-of_le, lt→ltb, arith, ℤ,
  pos,
}
use comm_system.Families.{Family, Formatting}
use comm_system.Format.{ConvType, TypeLg, is_literal, is_in, conversion_type, Scanned}
use comm_system.Format.Output.{
  Printing, max_str_tok, err_posix, strncat, behind_vsnprintf, convert_plain, convert,
  convert_scanned,
}
use comm_system.Format.Arguments.{VaArg, then_some, arg_of, pass_over, pass_stars}
use comm_system.Format.Directives.{
  Width, width_digits, Precision, precision_digits, Directive, print_directive, modifier_lg, all_of,
}
use comm_system.Format.Pieces.{
  Piece, stars_of, print_piece, print_pieces, arguments_of, IsPiece, scanned_of,
}
use comm_system.Format.Letters.{printf_kind, IsStandard, arg_of-printf_kind}
use comm_system.Format.Standard.{HasKinds, pass_over-pass_stars, convert-IsStandard}

-- The digits of a width or of a precision behind the first, without the `$` of a numbered argument,
-- and so few that the number is an int.
abbrev pub are_digits : List ℕ → Bool
are_digits more = all_of (λ c. is_in c (codes "0123456789")) more && leb (length more) 8

abbrev pub width_is_plain : Width → Bool
width_is_plain (width_digits first more) = are_digits more
width_is_plain _ = true

abbrev pub precision_is_plain : Precision → Bool
precision_is_plain (precision_digits first more) = are_digits more
precision_is_plain _ = true

-- `%%` stands alone.
abbrev pub percent_is_bare : Directive → Bool
percent_is_bare d = not (d.conversion == b'%') || length (print_directive d []) == 1

-- A piece with a directive of the standard and the arguments for it, in their order.
pub record IsPlain (p : Piece) : Type 0 where
  pub piece : IsPiece p
  pub width : width_is_plain p.directive.width ≡ true
  pub precision : precision_is_plain p.directive.precision ≡ true
  pub percent : percent_is_bare p.directive ≡ true
  pub standard : IsStandard p.directive.modifier p.directive.conversion
  pub kinds :
      HasKinds
        (stars_of p.directive)
        (printf_kind p.directive.modifier p.directive.conversion)
        p.own

abbrev pub ArePlain : List Piece → Type 0
ArePlain [] = Unit
ArePlain (p ∷ ps) = IsPlain p × ArePlain ps

-- The variables between two rounds.
abbrev pub between : List ℕ → List VaArg → ℕ → Printing
between out arguments n = record {
  out = out;
  arguments = arguments;
  precision_in_valist = 0;
  retval = pos n;
  err_family = err_posix;
  ctx_family = pos 0;
}

-- What the pieces print, where `text` says what a format and its arguments print.
module _ (text : List ℕ → List VaArg → List ℕ) where
  abbrev pub text_of : Piece → List ℕ
  text_of p = text (print_piece p []) p.own

  abbrev pub texts_of : List Piece → List ℕ
  texts_of [] = []
  texts_of (p ∷ ps) = text_of p ++ texts_of ps

module _ (formatting : Formatting) (vsnprintf : ℕ → List ℕ → List VaArg → Option (ℤ × List ℕ))
    (tab_family : List Family) (taille : ℕ) (text : List ℕ → List VaArg → List ℕ) where
  -- What the C standard says of vsnprintf for formats of plain pieces, where `text` is what a format and its arguments print: a
  -- text that fits is written and counted, more arguments than the format has do no harm, a
  -- directive prints what it prints alone, and other characters print themselves.
  pub record IsPrintf : Type 0 where
    pub fits :
        (p : Piece) (more : List VaArg) (n : ℕ)
        → IsPlain p
        → n ≤ 2 ^ 31
        → length (text_of text p) < n
        → vsnprintf n (print_piece p []) (p.own ++ more)
          ≡ some (pos (length (text_of text p)), text_of text p)
    pub apart :
        (p : Piece) (ps : List Piece) (tail : List ℕ)
        → IsPlain p
        → ArePlain ps
        → all_of is_literal tail ≡ true
        → text (print_pieces (p ∷ ps) tail) (arguments_of (p ∷ ps))
          ≡ text_of text p ++ text (print_pieces ps tail) (arguments_of ps)
    pub plain : (tail : List ℕ) → all_of is_literal tail ≡ true → text tail [] ≡ tail

  -- Each piece is a plain one, whose text has no NUL and, like its format, fits the buffers for one
  -- part.
  abbrev pub AllPlain : List Piece → Type 0
  AllPlain [] = Unit
  AllPlain (p ∷ ps) =
      IsPlain p
      × (all_of (λ c. not (c == 0)) (text_of text p) ≡ true)
      × (length (print_piece p []) < max_str_tok)
      × (length (text_of text p) < max_str_tok)
      × AllPlain ps

  AllPlain-ArePlain : (ps : List Piece) → AllPlain ps → ArePlain ps
  AllPlain-ArePlain [] all = tt
  AllPlain-ArePlain (p ∷ ps) (is, clean, sub, own, all) = (is, AllPlain-ArePlain ps all)

  pub text-print_pieces :
      (ps : List Piece) (tail : List ℕ)
      → IsPrintf
      → AllPlain ps
      → all_of is_literal tail ≡ true
      → text (print_pieces ps tail) (arguments_of ps) ≡ texts_of text ps ++ tail
  text-print_pieces [] tail law all literal = law.plain tail literal
  text-print_pieces (p ∷ ps) tail law (is, clean, sub, own, all) literal =
      law.apart p ps tail is (AllPlain-ArePlain ps all) literal
      ∙ ap (λ l. text_of text p ++ l) (text-print_pieces ps tail law all literal)
      ∙ sym (append_assoc (text_of text p) (texts_of text ps) tail)

  pub strncat-fits :
      (part : List ℕ) (s : Printing)
      → length s.out + length part < taille
      → strncat formatting vsnprintf tab_family taille part taille s
        ≡ some (record s { out = s.out ++ part })
  unfolding strncat
  strncat-fits part s short =
      rw (take-of_le taille part (omega arith), lt→ltb (length s.out + length part) taille short)
        refl

  then_some-some {ℓ κ ι} :
      {A : Type ℓ} {B : Type κ} {C : Type ι} (a : Option A) (f : A → Option B) (g : B → Option C)
      (b : B)
      → then_some a f ≡ some b
      → then_some a (λ x. then_some (f x) g) ≡ g b
  then_some-some none f g b h = absurd cc
  then_some-some (some x) f g b h = ap (λ r. then_some r g) h

  behind_vsnprintf-between :
      (typelg : TypeLg) (type : ConvType) (stars n : ℕ) (own more : List VaArg) (out t : List ℕ)
      → taille ≤ 2 ^ 31
      → HasKinds stars (arg_of typelg type) own
      → length t < max_str_tok
      → n ≤ length out
      → length out + length t < taille
      → behind_vsnprintf formatting vsnprintf tab_family taille typelg type
          (record (between out (own ++ more) n) { precision_in_valist = stars })
          (pos (length t), t)
        ≡ some (between (out ++ t) more (n + length t))
  unfolding behind_vsnprintf
  behind_vsnprintf-between typelg type stars n own more out t small kinds part less short =
      rw (lt→ltb (length t) 2048 part, lt→ltb (n + length t) (2 ^ 31) (omega arith))
        (then_some-some (pass_stars stars (own ++ more)) (pass_over (arg_of typelg type)) _ more
            (pass_over-pass_stars stars (arg_of typelg type) own more kinds)
          ∙ strncat-fits t (between out more (n + length t)) short)

  convert_scanned-take :
      (ptrsub sub : List ℕ) (scanned : Scanned) (s : Printing) (stars : ℕ)
      → s.precision_in_valist + scanned.stars ≡ stars
      → take scanned.end.len ptrsub ≡ sub
      → scanned.end.len < max_str_tok
      → convert_scanned formatting vsnprintf tab_family taille ptrsub scanned s
        ≡ convert formatting vsnprintf tab_family taille sub scanned.typelg scanned.type
            (record s { precision_in_valist = stars })
  unfolding convert_scanned
  convert_scanned-take ptrsub sub scanned s stars counted cuts short =
      rw (lt→ltb scanned.end.len 2048 short, cuts, counted) refl

  convert_plain-some :
      (typelg : TypeLg) (type : ConvType) (sub : List ℕ) (s : Printing) (r : ℤ × List ℕ)
      → vsnprintf taille sub s.arguments ≡ some r
      → convert_plain formatting vsnprintf tab_family taille typelg type sub s
        ≡ behind_vsnprintf formatting vsnprintf tab_family taille typelg type s r
  unfolding convert_plain
  convert_plain-some typelg type sub s r e = rw e refl

  module _ (law : IsPrintf) (small : taille ≤ 2 ^ 31) where
    pub convert_scanned-piece :
        (p : Piece) (rest : List ℕ) (more : List VaArg) (out : List ℕ) (n last : ℕ)
        → IsPlain p
        → length (print_piece p []) < max_str_tok
        → length (text_of text p) < max_str_tok
        → take last (print_piece p rest) ≡ print_piece p []
        → last ≡ length (print_piece p [])
        → n ≤ length out
        → length out + length (text_of text p) < taille
        → convert_scanned formatting vsnprintf tab_family taille
            (print_piece p rest)
            (scanned_of p rest last)
            (between out (p.own ++ more) n)
          ≡ some (between (out ++ text_of text p) more (n + length (text_of text p)))
    convert_scanned-piece p rest more out n last is sub own cuts counts less short =
        let modifier = p.directive.modifier in
        let conversion = p.directive.conversion in
        let type = conversion_type conversion in
        let s : Printing = record (between out (p.own ++ more) n) {
          precision_in_valist = stars_of p.directive;
        } in
        convert_scanned-take (print_piece p rest) (print_piece p []) (scanned_of p rest last)
          (between out (p.own ++ more) n) (stars_of p.directive) (omega arith) cuts (omega arith)
        ∙ convert-IsStandard formatting vsnprintf tab_family taille modifier conversion
            (print_piece p []) s is.standard
        ∙ convert_plain-some (modifier_lg modifier) type (print_piece p []) s
            (pos (length (text_of text p)), text_of text p)
            (law.fits p more taille is small (omega arith))
        ∙ behind_vsnprintf-between (modifier_lg modifier) type (stars_of p.directive) n p.own more
            out (text_of text p) small
            (rw (arg_of-printf_kind modifier conversion is.standard) is.kinds) own less short
