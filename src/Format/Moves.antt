-- ===== src/Format/Moves.antt =====
-- The scan of a conversion takes a part off the format and leaves the rest.
use comm_system.Prelude.{
  ℕ, ◌+◌, ◌≡◌, ◌⊎◌, refl, sym, ap, ◌∙◌, inl, inr, Bool, true, false, ◌&&◌, Option, none, some, List,
  [], ◌∷◌, ◌++◌, append_assoc, length, length-append, Bool-cases, ◌==◌, codes, if◌then◌else◌, arith,
}
use comm_system.Format.{
  TypeLg, no_long, short_lg, long_lg, long_long_lg, Cursor, is_in, is_flag, is_digit, is_width,
  starts, skip, Found, scan_star, scan_precision, scan_dot, scan_twice, scan_length, Scanned,
  scan_conversion, scan_behind_length, scan_type, scan_behind_width, scan,
}

-- The cursor has gone from `text` over a part of it, which `len` has counted.
abbrev pub Moves : List ℕ → ℕ → Cursor → Type 0
Moves text len at = (part : List ℕ) × (text ≡ part ++ at.iterformat) × (at.len ≡ len + length part)

Moves-stay : (text : List ℕ) (len : ℕ) → Moves text len (record { iterformat = text; len = len })
Moves-stay text len = ([], refl, omega arith)

Moves-step :
    (c : ℕ) (rest : List ℕ) (len : ℕ) (at : Cursor)
    → Moves rest (len + 1) at
    → Moves (c ∷ rest) len at
Moves-step c rest len at (part, cut, counted) = (c ∷ part, ap (λ l. c ∷ l) cut, omega arith)

Moves-trans :
    (text : List ℕ) (len : ℕ) (at to : Cursor)
    → Moves text len at
    → Moves at.iterformat at.len to
    → Moves text len to
Moves-trans text len at to (part, cut, counted) (more, cut', counted') = (
  part ++ more,
  cut ∙ ap (λ l. part ++ l) cut' ∙ sym (append_assoc part more to.iterformat),
  omega (arith, length-append part more),
)

pub skip-Moves : (test : ℕ → Bool) (text : List ℕ) (len : ℕ) → Moves text len (skip test text len)
unfolding skip
skip-Moves test [] len = Moves-stay [] len
skip-Moves test (c ∷ rest) len = elim (Bool-cases (test c)) [
  | inl more ↦ rw (more, skip) (Moves-step c rest len _ (skip-Moves test rest (len + 1)))
  | inr stop ↦ rw (stop, skip) (Moves-stay (c ∷ rest) len)
]

-- The same of an answer that may be missing.
abbrev pub MovesIf {ℓ} : {A : Type ℓ} → (A → Cursor) → List ℕ → ℕ → Option A → Type 0
MovesIf behind text len none = Unit
MovesIf behind text len (some a) = Moves text len (behind a)

MovesIf-step :
    (c : ℕ) (rest : List ℕ) (len : ℕ) (r : Option (Found ℕ))
    → MovesIf (λ f. f.behind) rest (len + 1) r
    → MovesIf (λ f. f.behind) (c ∷ rest) len r
MovesIf-step c rest len none h = _
MovesIf-step c rest len (some f) h = Moves-step c rest len f.behind h

pub Option-cases {ℓ} : {A : Type ℓ} (r : Option A) → (r ≡ none) ⊎ ((a : A) × (r ≡ some a))
Option-cases none = inl refl
Option-cases (some a) = inr (a, refl)

scan_star-Moves : (text : List ℕ) (len : ℕ) → Moves text len (scan_star text len).behind
unfolding scan_star
scan_star-Moves [] len = Moves-stay [] len
scan_star-Moves (c ∷ rest) len = elim (Bool-cases (c == b'*')) [
  | inl star ↦ rw star (Moves-step c rest len _ (skip-Moves is_width rest (len + 1)))
  | inr other ↦ rw other (Moves-stay (c ∷ rest) len)
]

scan_precision-Moves :
    (text : List ℕ) (len : ℕ) → MovesIf (λ f. f.behind) text len (scan_precision text len)
unfolding scan_precision
scan_precision-Moves [] len = _
scan_precision-Moves (c ∷ rest) len = elim (Bool-cases (c == b'*')) [
  | inl star ↦ rw star (Moves-step c rest len _ (skip-Moves is_width rest (len + 1)))
  | inr other ↦ elim (Bool-cases (is_digit c)) [
    | inl digit ↦ rw other (rw digit (skip-Moves is_width (c ∷ rest) len))
    | inr no_digit ↦ rw other (rw no_digit (Moves-step c rest len _ (Moves-stay rest (len + 1))))
  ]
]

scan_dot-Moves : (text : List ℕ) (len : ℕ) → MovesIf (λ f. f.behind) text len (scan_dot text len)
unfolding scan_dot
scan_dot-Moves [] len = Moves-stay [] len
scan_dot-Moves (c ∷ rest) len = elim (Bool-cases (c == b'.')) [
  | inl dot ↦ rw dot (MovesIf-step c rest len _ (scan_precision-Moves rest (len + 1)))
  | inr other ↦ rw other (Moves-stay (c ∷ rest) len)
]

-- Both sides of a test.
if_both :
    (text : List ℕ) (len : ℕ) (b : Bool) (x y : Found TypeLg)
    → Moves text len x.behind
    → Moves text len y.behind
    → Moves text len (if b then x else y).behind
if_both text len true x y h k = h
if_both text len false x y h k = k

Moves-one :
    (c : ℕ) (rest : List ℕ) (len : ℕ)
    → Moves (c ∷ rest) len (record { iterformat = rest; len = len + 1 })
Moves-one c rest len = Moves-step c rest len _ (Moves-stay rest (len + 1))

scan_twice-Moves :
    (letter : ℕ) (once twice : TypeLg) (text : List ℕ) (len : ℕ)
    → Moves text len (scan_twice letter once twice text len).behind
unfolding scan_twice
scan_twice-Moves letter once twice [] len = Moves-stay [] len
scan_twice-Moves letter once twice (c ∷ rest) len =
    if_both (c ∷ rest) len (c == letter) _ _ (Moves-one c rest len) (Moves-stay (c ∷ rest) len)

scan_length-Moves : (text : List ℕ) (len : ℕ) → Moves text len (scan_length text len).behind
unfolding scan_length
scan_length-Moves [] len = Moves-stay [] len
scan_length-Moves (c ∷ rest) len =
    elim (Bool-cases (c == b'h' && starts (λ d. is_in d (codes "hdiuxXo")) rest)) [
      | inl short ↦
          rw short (Moves-step c rest len _ (scan_twice-Moves b'h' short_lg no_long rest (len + 1)))
      | inr not_short ↦ elim (Bool-cases (c == b'l')) [
        | inl long ↦
            rw (not_short, long)
              (Moves-step c rest len _ (scan_twice-Moves b'l' long_lg long_long_lg rest (len + 1)))
        | inr not_long ↦ elim (Bool-cases (is_in c (codes "Lq"))) [
          | inl long_long ↦ rw (not_short, not_long, long_long) (Moves-one c rest len)
          | inr other ↦
              rw (not_short, not_long, other)
                (if_both (c ∷ rest) len (is_in c (codes "zZtj")) _ _ (Moves-one c rest len)
                  (Moves-stay (c ∷ rest) len))
        ]
      ]
    ]

scan_conversion-Moves :
    (stars : ℕ) (typelg : TypeLg) (text : List ℕ) (len : ℕ)
    → MovesIf (λ s. s.end) text len (scan_conversion stars typelg text len)
unfolding scan_conversion
scan_conversion-Moves stars typelg [] len = _
scan_conversion-Moves stars typelg (c ∷ rest) len = Moves-one c rest len

MovesIf-trans :
    (text : List ℕ) (len : ℕ) (at : Cursor) (r : Option Scanned)
    → Moves text len at
    → MovesIf (λ s. s.end) at.iterformat at.len r
    → MovesIf (λ s. s.end) text len r
MovesIf-trans text len at none h k = _
MovesIf-trans text len at (some s) h k = Moves-trans text len at s.end h k

scan_type-Moves :
    (text : List ℕ) (len : ℕ) (stars : ℕ) (r : Option (Found ℕ))
    → MovesIf (λ f. f.behind) text len r
    → MovesIf (λ s. s.end) text len (scan_type stars r)
unfolding scan_type scan_behind_length
scan_type-Moves text len stars none h = _
scan_type-Moves text len stars (some found) h =
    let at = found.behind in
    let modifier = scan_length at.iterformat at.len in
    MovesIf-trans text len modifier.behind
      (scan_conversion (stars + found.value) modifier.value modifier.behind.iterformat
        modifier.behind.len)
      (Moves-trans text len at modifier.behind h (scan_length-Moves at.iterformat at.len))
      (scan_conversion-Moves (stars + found.value) modifier.value modifier.behind.iterformat
        modifier.behind.len)

pub scan-Moves : (text : List ℕ) (len : ℕ) → MovesIf (λ s. s.end) text len (scan text len)
unfolding scan scan_behind_width
scan-Moves text len =
    let flags = skip is_flag text len in
    let width = skip is_width flags.iterformat flags.len in
    let star = scan_star width.iterformat width.len in
    MovesIf-trans text len star.behind (scan_behind_width star)
      (Moves-trans text len width star.behind
        (Moves-trans text len flags width (skip-Moves is_flag text len)
          (skip-Moves is_width flags.iterformat flags.len))
        (scan_star-Moves width.iterformat width.len))
      (scan_type-Moves star.behind.iterformat star.behind.len star.value
        (scan_dot star.behind.iterformat star.behind.len)
        (scan_dot-Moves star.behind.iterformat star.behind.len))
