-- ===== src/Examples/Rendering.antt =====
-- The vsnprintf of Examples/Printer.antt keeps the laws that are asked of vsnprintf.
use comm_system.Prelude.{
  ℕ, zero, suc, ◌+◌, ◌-◌, ◌<◌, ◌≤◌, ◌^◌, ◌⊎◌, ◌≡◌, refl, sym, ap, ◌∙◌, inl, inr, Bool, true, false,
  ◌||◌, Option, none, some, List, [], ◌∷◌, ◌++◌, append_assoc, append-nil, length, take, take-of_le,
  drop, ◌==◌, codes, arith, Bool-cases, ==→eq, pos,
}
use comm_system.Families.{Formatting, Family}
use comm_system.Format.{is_literal, is_in}
use comm_system.Format.Arguments.{VaArg, ArgKind}
use comm_system.Format.Directives.{
  Modifier, no_modifier, hh_modifier, h_modifier, l_modifier, ll_modifier, big_l_modifier,
  q_modifier, z_modifier, big_z_modifier, t_modifier, j_modifier, width_stars, precision_stars,
  print_directive, all_of, all_of-is_in,
}
use comm_system.Format.Pieces.{Piece, stars_of, print_piece, print_pieces, arguments_of}
use comm_system.Format.Letters.{letters, integer_letters, real_letters, printf_kind, IsStandard}
use comm_system.Format.Standard.{HasKinds}
use comm_system.Format.Printing.{IsPlain, text_of, IsPrintf}
use comm_system.Examples.Printer.{
  render, shown_first, print_format, printing, render-literal, render-quiet, render-width,
  render-precision, render-modifier,
}

drop-nil {ℓ} : {A : Type ℓ} (n : ℕ) → ◌≡◌ {A = List A} (drop n []) []
drop-nil zero = refl
drop-nil (suc n) = refl

drop-drop {ℓ} : {A : Type ℓ} (m n k : ℕ) (xs : List A) → k ≡ m + n → drop n (drop m xs) ≡ drop k xs
drop-drop zero n k xs e = ap (λ i. drop i xs) (omega (arith, e))
drop-drop (suc m) n k [] e = drop-nil n ∙ sym (drop-nil k)
drop-drop (suc m) n zero (x ∷ xs) e = absurd (omega (arith, e))
drop-drop (suc m) n (suc k) (x ∷ xs) e = drop-drop m n k xs (omega (arith, e))

-- Behind the stars, the argument of the conversion is left, if it has one.
after_stars :
    (stars : ℕ) (kind : Option ArgKind) (own : List VaArg)
    → HasKinds stars kind own
    → (last : List VaArg) × HasKinds zero kind last
      × ((more : List VaArg) → drop stars (own ++ more) ≡ last ++ more)
after_stars zero kind own h = (own, h, (λ more. refl))
after_stars (suc stars) kind [] h = absurd h
after_stars (suc stars) kind (arg ∷ own) (e, h) =
    let (last, one, rest) = after_stars stars kind own h in (last, one, rest)

-- `%%`, or a letter.
IsStandard-cases :
    (modifier : Modifier) (c : ℕ) → IsStandard modifier c → (c ≡ b'%') ⊎ (is_in c letters ≡ true)
IsStandard-cases no_modifier c is = elim (Bool-cases (c == b'%')) [
  | inl percent ↦ inl (==→eq c b'%' percent)
  | inr other ↦ inr (rw (other, ◌||◌) at is)
]
IsStandard-cases big_l_modifier c is =
    inr (all_of-is_in (λ c. is_in c letters) c real_letters is refl)
IsStandard-cases hh_modifier c is =
    inr (all_of-is_in (λ c. is_in c letters) c integer_letters is refl)
IsStandard-cases h_modifier c is =
    inr (all_of-is_in (λ c. is_in c letters) c integer_letters is refl)
IsStandard-cases l_modifier c is =
    inr (all_of-is_in (λ c. is_in c letters) c integer_letters is refl)
IsStandard-cases ll_modifier c is =
    inr (all_of-is_in (λ c. is_in c letters) c integer_letters is refl)
IsStandard-cases q_modifier c is =
    inr (all_of-is_in (λ c. is_in c letters) c integer_letters is refl)
IsStandard-cases z_modifier c is =
    inr (all_of-is_in (λ c. is_in c letters) c integer_letters is refl)
IsStandard-cases big_z_modifier c is =
    inr (all_of-is_in (λ c. is_in c letters) c integer_letters is refl)
IsStandard-cases t_modifier c is =
    inr (all_of-is_in (λ c. is_in c letters) c integer_letters is refl)
IsStandard-cases j_modifier c is =
    inr (all_of-is_in (λ c. is_in c letters) c integer_letters is refl)

abbrev has_argument : Option ArgKind → Bool
has_argument none = false
has_argument (some kind) = true

-- What is printed does not depend on what follows.
abbrev Prints : List ℕ → (List ℕ → List ℕ) → (List VaArg → List VaArg) → Type 0
Prints text format args =
    (rest : List ℕ) (more : List VaArg)
    → render true (format rest) (args more) ≡ text ++ render false rest more

conversion-Prints :
    (modifier : Modifier) (c : ℕ) (kind : Option ArgKind) (last : List VaArg)
    → (c ≡ b'%') ⊎ (is_in c letters ≡ true)
    → printf_kind modifier c ≡ kind
    → HasKinds zero kind last
    → (text : List ℕ) × Prints text (λ rest. c ∷ rest) (λ more. last ++ more)
unfolding render
conversion-Prints modifier c none [] (inl percent) e h = (codes "%", (λ rest more. rw percent refl))
conversion-Prints modifier c none (arg ∷ last) split e h = absurd h
conversion-Prints modifier c (some kind) [] split e h = absurd h
conversion-Prints modifier c (some kind) (arg ∷ last) (inl percent) e h =
    absurd (let clash : none ≡ some kind = rw percent at e in cc)
conversion-Prints modifier c none [] (inr letter) e h =
    let has : has_argument (printf_kind modifier c) ≡ true =
      all_of-is_in (λ c. has_argument (printf_kind modifier c)) c letters letter refl in
    absurd (let clash : false ≡ true = rw e at has in cc)
conversion-Prints modifier c (some kind) (arg ∷ last) (inr letter) e (same, nil) = (
  shown_first c (arg ∷ []),
  (λ rest more.
      rw (letter, render)
        (ap (λ l. shown_first c (arg ∷ []) ++ render false rest (l ++ more)) nil)),
)

directive-Prints :
    (p : Piece)
    → IsPlain p
    → (text : List ℕ) × Prints text (print_directive p.directive) (λ more. p.own ++ more)
directive-Prints p is =
    let d = p.directive in
    let kind = printf_kind d.modifier d.conversion in
    let (last, one, drops) = after_stars (stars_of d) kind p.own is.kinds in
    let (text, prints) =
      conversion-Prints d.modifier d.conversion kind last
        (IsStandard-cases d.modifier d.conversion is.standard) refl one in
    (
      text,
      λ rest more.
          render-quiet (codes "#-0 +I'") d.flags _ (p.own ++ more) refl is.piece.directive.flags
          ∙ render-width d.width _ (p.own ++ more) is.piece.directive.width is.width
          ∙ render-precision d.precision _ _ is.piece.directive.precision is.precision
          ∙ render-modifier d.modifier _ _
          ∙ ap (render true (d.conversion ∷ rest)) (
              drop-drop (width_stars d.width) (precision_stars d.precision) (stars_of d)
                (p.own ++ more) refl
              ∙ drops more)
          ∙ prints rest more,
    )

-- A piece prints what it prints alone, and then comes the rest.
print_format-piece :
    (p : Piece) (rest : List ℕ) (more : List VaArg)
    → IsPlain p
    → print_format (print_piece p rest) (p.own ++ more)
      ≡ text_of print_format p ++ print_format rest more
unfolding print_format render
print_format-piece p rest more is =
    let (text, prints) = directive-Prints p is in
    let alone : text_of print_format p ≡ p.literal ++ text =
      ap (print_format (print_piece p [])) (sym (append-nil p.own))
      ∙ render-literal p.literal (b'%' ∷ print_directive p.directive []) (p.own ++ [])
          is.piece.literal
      ∙ ap (λ l. p.literal ++ l) (prints [] [] ∙ append-nil text) in
    render-literal p.literal (b'%' ∷ print_directive p.directive rest) (p.own ++ more)
      is.piece.literal
    ∙ ap (λ l. p.literal ++ l) (prints rest more)
    ∙ sym (append_assoc p.literal text (render false rest more))
    ∙ ap (λ l. l ++ render false rest more) (sym alone)

-- More arguments than the directives have do no harm.
printing-fits :
    (p : Piece) (more : List VaArg) (n : ℕ)
    → IsPlain p
    → n ≤ 2 ^ 31
    → length (text_of print_format p) < n
    → printing n (print_piece p []) (p.own ++ more)
      ≡ some (pos (length (text_of print_format p)), text_of print_format p)
unfolding printing
printing-fits p more n is small short =
    let same : print_format (print_piece p []) (p.own ++ more) ≡ text_of print_format p =
      print_format-piece p [] more is ∙ append-nil (text_of print_format p) in
    let text = text_of print_format p in
    ap (λ t. some (pos (length t), take (n - 1) t)) same
    ∙ ap (λ t. some (pos (length text), t)) (take-of_le (n - 1) text (omega (arith, short)))

print_format-literal : (tail : List ℕ) → all_of is_literal tail ≡ true → print_format tail [] ≡ tail
unfolding print_format render
print_format-literal tail literal =
    ap (λ l. render false l []) (sym (append-nil tail))
    ∙ render-literal tail [] [] literal
    ∙ append-nil tail

pub printing-IsPrintf :
    (formatting : Formatting) (tab_family : List Family) (taille : ℕ)
    → IsPrintf formatting printing tab_family taille print_format
printing-IsPrintf formatting tab_family taille = record {
  fits = printing-fits;
  apart =
      λ p ps tail is all literal. print_format-piece p (print_pieces ps tail) (arguments_of ps) is;
  plain = print_format-literal;
}
