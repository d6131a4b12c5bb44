-- ===== src/Prelude/Text.antt =====
-- Literal texts as lists of character codes, and the comparison of texts.
use Prim.Native.Char.{code}
use Prim.Native.String.{String}
use Prim.Native.Nat.{ℕ}
use mathlib.Core.Path.{◌≡◌, refl}
use mathlib.Core.Logic.{inl, inr}
use mathlib.Core.Bool.{Bool, true, false, ◌&&◌}
use mathlib.Core.List.{List, [], ◌∷◌}
use comm_system.Prelude.Tests.{◌==◌, ==→eq, eq→==, Bool-cases}

abbrev pub codes : String → List ℕ
codes String.[] = []
codes (String.◌∷◌ c s) = code c ∷ codes s

-- !strcmp(a, b)
abbrev pub same_text : List ℕ → List ℕ → Bool
same_text [] [] = true
same_text [] (b ∷ ys) = false
same_text (a ∷ xs) [] = false
same_text (a ∷ xs) (b ∷ ys) = (a == b) && same_text xs ys

pub same_text→eq : (xs ys : List ℕ) → same_text xs ys ≡ true → xs ≡ ys
same_text→eq [] [] h = refl
same_text→eq [] (y ∷ ys) h = absurd cc
same_text→eq (x ∷ xs) [] h = absurd cc
same_text→eq (x ∷ xs) (y ∷ ys) h = elim (Bool-cases (x == y)) [
  | inl same ↦
      let head : x ≡ y = ==→eq x y same in
      let rest : xs ≡ ys = same_text→eq xs ys (rw (same, ◌&&◌) at h) in cc
  | inr other ↦ let no : false ≡ true = rw (other, ◌&&◌) at h in absurd cc
]

pub same_text_refl : (xs : List ℕ) → same_text xs xs ≡ true
same_text_refl [] = refl
same_text_refl (x ∷ xs) = rw (eq→== x x refl, ◌&&◌) (same_text_refl xs)
