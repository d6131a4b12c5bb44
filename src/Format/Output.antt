-- ===== src/Format/Output.antt =====
-- log_vsnprintf of log_functions.c behind the scan of a conversion: what it prints, and the loop
-- over the format.
use comm_system.Prelude.{
  ℕ, zero, suc, ◌+◌, ◌-◌, Option, none, some, List, [], ◌∷◌, ◌++◌, length, take, ltb, codes,
  if◌then◌else◌, ℤ, pos, ◌+ℤ◌, is_int,
}
use comm_system.Transfer.{Run, returned, fault, running}
use comm_system.Families.{FamilyError, Family, trouve_tab_err, trouve_err, Formatting}
use comm_system.Format.Arguments.{
  VaArg, va_arg_int, then_some, va_arg_erreur_t, arg_of, pass_over, pass_stars,
}
use comm_system.Format.{
  TypeExt, status_short, status_long, contexte_short, contexte_long, erreur_short, erreur_long,
  errnum_short, errnum_long, errctx_short, errctx_long, change_err_family, change_ctx_family,
  errno_short, errno_long, ConvType, extended_type, TypeLg, Cursor, is_literal, skip, Scanned, scan,
}

-- `out` and the variables that live from one conversion to the next.
pub record Printing : Type 0 where
  pub out : List ℕ
  pub arguments : List VaArg
  pub precision_in_valist : ℕ
  pub retval : ℤ
  pub err_family : ℤ
  pub ctx_family : ℤ

-- MAX_STR_TOK, the size of `subformat` and `tmpout`, and ERR_POSIX
abbrev pub max_str_tok : ℕ
max_str_tok = 2048

abbrev pub err_posix : ℤ
err_posix = pos 1

-- `formatting` and `vsnprintf` are calls of the C library; `vsnprintf` gives its result and the text
-- that it leaves, or `none` where C leaves its behaviour undefined. `taille` is the size of `out`.
module _ (formatting : Formatting) (vsnprintf : ℕ → List ℕ → List VaArg → Option (ℤ × List ℕ))
    (tab_family : List Family) (taille : ℕ) where
  open formatting use {decimal, strerror_r}

  -- `strncat(out, text, n)`, which may overrun `out`.
  unfoldable pub strncat : List ℕ → ℕ → Printing → Option Printing
  strncat text n s =
      if ltb (length s.out + length (take n text)) taille
      then some (record s { out = s.out ++ take n text })
      else none

  -- The formats `"%s(%d)"` and `"%s(%d) : '%s'"`.
  abbrev pub short_text : List ℕ → ℤ → List ℕ
  short_text label numero = label ++ (codes "(" ++ (decimal numero ++ codes ")"))

  abbrev pub long_text : List ℕ → ℤ → List ℕ → List ℕ
  long_text label numero msg = short_text label numero ++ (codes " : '" ++ (msg ++ codes "'"))

  -- `snprintf(tmpout, MAX_STR_TOK, …)`
  abbrev pub snprintf : List ℕ → List ℕ
  snprintf text = take (max_str_tok - 1) text

  abbrev pub with_arguments : Printing → List VaArg → Printing
  with_arguments s arguments = record s { arguments = arguments }

  -- One `erreur_t`, or two, from the arguments.
  unfoldable pub expand_one : (FamilyError → List ℕ) → Printing → Option (List ℕ × Printing)
  unfolding va_arg_erreur_t
  expand_one text s =
      then_some (va_arg_erreur_t s.arguments)
        (λ e. some (snprintf (text e.0), with_arguments s e.1))

  unfoldable pub expand_two :
      (FamilyError → FamilyError → List ℕ) → Printing → Option (List ℕ × Printing)
  unfolding va_arg_erreur_t
  expand_two text s = then_some (va_arg_erreur_t s.arguments) (λ tmp.
      then_some (va_arg_erreur_t tmp.1)
        (λ e. some (snprintf (text tmp.0 e.0), with_arguments s e.1)))

  -- A number whose error is looked up in the table of a family.
  unfoldable pub expand_number :
      Option (List FamilyError) → (FamilyError → ℤ → List ℕ) → Printing → Option (List ℕ × Printing)
  unfolding va_arg_int trouve_err
  expand_number none text s = some (codes "?", s)
  expand_number (some tab_err) text s = then_some (va_arg_int s.arguments) (λ numero.
      then_some (trouve_err tab_err numero.0)
        (λ the_error. some (snprintf (text the_error numero.0), with_arguments s numero.1)))

  unfoldable pub expand_family : (ℤ → Printing → Printing) → Printing → Option (List ℕ × Printing)
  unfolding va_arg_int
  expand_family change s =
      then_some (va_arg_int s.arguments)
        (λ family. some ([], change family.0 (with_arguments s family.1)))

  -- The `switch (type_ext)`: `tmpout`, and the variables behind it.
  unfoldable pub expand : TypeExt → Printing → Option (List ℕ × Printing)
  unfolding expand_one expand_two expand_number expand_family trouve_tab_err
  expand status_short s = expand_one (λ e. short_text e.label e.numero) s
  expand contexte_short s = expand_one (λ e. short_text e.label e.numero) s
  expand status_long s = expand_one (λ e. long_text e.label e.numero e.msg) s
  expand contexte_long s = expand_one (λ e. long_text e.label e.numero e.msg) s
  expand erreur_short s =
      expand_two (λ tmp e. tmp.label ++ (codes " " ++ short_text e.label e.numero)) s
  expand erreur_long s =
      expand_two
        (λ tmp e.
          long_text tmp.label tmp.numero tmp.msg
          ++ (codes " -> " ++ long_text e.label e.numero e.msg))
        s
  expand change_err_family s = expand_family (λ family s'. record s' { err_family = family }) s
  expand change_ctx_family s = expand_family (λ family s'. record s' { ctx_family = family }) s
  expand errnum_short s =
      expand_number (trouve_tab_err tab_family s.err_family)
        (λ the_error numero. short_text the_error.label the_error.numero) s
  expand errnum_long s =
      expand_number (trouve_tab_err tab_family s.err_family)
        (λ the_error numero. long_text the_error.label the_error.numero the_error.msg) s
  expand errno_short s =
      expand_number (trouve_tab_err tab_family err_posix)
        (λ the_error numero. short_text the_error.label the_error.numero) s
  expand errno_long s =
      expand_number (trouve_tab_err tab_family err_posix)
        (λ the_error numero. long_text the_error.label the_error.numero (strerror_r numero)) s
  expand errctx_short s =
      expand_number (trouve_tab_err tab_family s.ctx_family)
        (λ the_error numero. short_text the_error.label the_error.numero) s
  expand errctx_long s =
      expand_number (trouve_tab_err tab_family s.ctx_family)
        (λ the_error numero. long_text the_error.label numero the_error.msg) s

  -- `if(strlen(subformat) > 2) strncat(…)`
  unfoldable pub copy_before : List ℕ → Printing → Option Printing
  unfolding strncat
  copy_before subformat s =
      if ltb 2 (length subformat) then strncat subformat (length subformat - 2) s else some s

  unfoldable pub convert_extended : TypeExt → List ℕ → Printing → Option Printing
  unfolding copy_before expand strncat
  convert_extended type_ext subformat s =
      then_some (copy_before subformat s)
        (λ s₁. then_some (expand type_ext s₁) (λ r. strncat r.0 taille r.1))

  -- Behind `vsnprintf`. A text that is longer than `tmpout` overruns it, and so may `retval`.
  unfoldable pub behind_vsnprintf : TypeLg → ConvType → Printing → ℤ × List ℕ → Option Printing
  unfolding strncat pass_stars pass_over arg_of
  behind_vsnprintf typelg type s (n, tmpout) =
      if ltb (length tmpout) max_str_tok
      then if is_int (s.retval +ℤ n)
        then then_some (pass_stars s.precision_in_valist s.arguments) (λ args.
          then_some (pass_over (arg_of typelg type) args) (λ arguments.
            strncat tmpout taille (record s {
              arguments = arguments;
              precision_in_valist = 0;
              retval = s.retval +ℤ n;
            })))
        else none
      else none

  unfoldable pub convert_plain : TypeLg → ConvType → List ℕ → Printing → Option Printing
  unfolding behind_vsnprintf
  convert_plain typelg type subformat s =
      then_some (vsnprintf taille subformat s.arguments) (behind_vsnprintf typelg type s)

  -- Behind the second `switch (*iterformat)`. A part longer than `subformat` overruns it.
  unfoldable pub convert : List ℕ → TypeLg → ConvType → Printing → Option Printing
  unfolding convert_extended convert_plain
  convert subformat typelg (extended_type type_ext) s = convert_extended type_ext subformat s
  convert subformat typelg type s = convert_plain typelg type subformat s

  -- `subformat`, from the text at `ptrsub`, and the stars counted.
  unfoldable pub convert_scanned : List ℕ → Scanned → Printing → Option Printing
  unfolding convert
  convert_scanned ptrsub scanned s =
      if ltb scanned.end.len max_str_tok
      then convert (take scanned.end.len ptrsub) scanned.typelg scanned.type
          (record s { precision_in_valist = s.precision_in_valist + scanned.stars })
      else none

  -- Behind the loop, with the text that is left at `ptrsub`.
  unfoldable pub finish : List ℕ → Option Printing → Run ℤ Printing
  unfolding strncat
  finish ptrsub none = fault
  finish ptrsub (some s) = elim (strncat ptrsub taille s) [
    | none ↦ fault
    | some s' ↦ returned s'.retval s'
  ]

  -- The end of a round: `while(*iterformat != '\0')`.
  unfoldable pub behind_round :
      (List ℕ → Printing → Run ℤ Printing) → List ℕ → Option Printing → Run ℤ Printing
  unfolding finish
  behind_round again iterformat none = fault
  behind_round again [] (some s) = finish [] (some s)
  behind_round again (c ∷ rest) (some s) = again (c ∷ rest) s

  unfoldable pub behind_scan :
      (List ℕ → Printing → Run ℤ Printing) → List ℕ → Option Scanned → Printing → Run ℤ Printing
  unfolding behind_round convert_scanned
  behind_scan again ptrsub none s = fault
  behind_scan again ptrsub (some scanned) s =
      behind_round again scanned.end.iterformat (convert_scanned ptrsub scanned s)

  -- A round behind its first loop, which has stopped at a `%` or at the end of the format.
  unfoldable pub behind_literal :
      (List ℕ → Printing → Run ℤ Printing) → List ℕ → Cursor → Printing → Run ℤ Printing
  unfolding finish behind_scan scan
  behind_literal again ptrsub at s = elim at.iterformat [
    | [] ↦ finish ptrsub (some s)
    | _ ∷ rest ↦ behind_scan again ptrsub (scan rest (at.len + 1)) s
  ]

  unfoldable pub format_loop : (fuel : ℕ) → List ℕ → Printing → Run ℤ Printing
  unfolding behind_literal skip
  format_loop zero format s = running
  format_loop (suc fuel) format s =
      behind_literal (format_loop fuel) format (skip is_literal format 0) s

  unfoldable pub log_vsnprintf : (fuel : ℕ) → List ℕ → List VaArg → Run ℤ Printing
  unfolding format_loop
  log_vsnprintf fuel format arguments = format_loop fuel format (record {
    out = [];
    arguments = arguments;
    precision_in_valist = 0;
    retval = pos 0;
    err_family = err_posix;
    ctx_family = pos 0;
  })
