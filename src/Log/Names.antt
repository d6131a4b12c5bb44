-- ===== src/Log/Names.antt =====
-- The names of the levels, and the levels of the names.
use comm_system.Prelude.{
  ℕ, zero, suc, ◌<◌, ◌≡◌, refl, ap, ◌∙◌, inl, inr, some, List, if◌then◌else◌, Bool-cases, same_text,
  same_text→eq, arith, ℤ, pos, negsuc,
}
use comm_system.Log.{find_text, return_level_ascii, find_value, return_level_int}

-- A level was found under its name, or -1 was returned.
abbrev Names : List ℕ → ℤ → Type 0
Names text (pos n) = return_level_int (pos n) ≡ some text
Names text (negsuc n) = n ≡ 0

Names-if :
    (n : ℕ) (str text : List ℕ) (other : ℤ)
    → return_level_int (pos n) ≡ some str
    → Names text other
    → Names text (if same_text str text then pos n else other)
Names-if n str text other e h = elim (Bool-cases (same_text str text)) [
  | inl same ↦ rw (same, Names) (e ∙ ap some (same_text→eq str text same))
  | inr different ↦ rw (different, Names) h
]

-- For every text, ReturnLevelAscii returns -1 or a level whose name in ReturnLevelInt is the text.
return_level_ascii-Names : (text : List ℕ) → Names text (return_level_ascii text)
unfolding return_level_ascii find_text return_level_int find_value
return_level_ascii-Names text = Names-if 0 _ text _ refl (
    Names-if 1 _ text _ refl (
      Names-if 2 _ text _ refl
        (Names-if 3 _ text _ refl (Names-if 4 _ text _ refl (Names-if 5 _ text _ refl refl)))))

-- Each level from 0 to 5 has a name in ReturnLevelInt, and ReturnLevelAscii of this name is the
-- level.
pub return_level_ascii-return_level_int :
    (n : ℕ)
    → n < 6
    → (text : List ℕ) × (return_level_int (pos n) ≡ some text) × (return_level_ascii text ≡ pos n)
unfolding return_level_ascii find_text return_level_int find_value
return_level_ascii-return_level_int zero h = (_, refl, refl)
return_level_ascii-return_level_int (suc zero) h = (_, refl, refl)
return_level_ascii-return_level_int (suc (suc zero)) h = (_, refl, refl)
return_level_ascii-return_level_int (suc (suc (suc zero))) h = (_, refl, refl)
return_level_ascii-return_level_int (suc (suc (suc (suc zero)))) h = (_, refl, refl)
return_level_ascii-return_level_int (suc (suc (suc (suc (suc zero))))) h = (_, refl, refl)
return_level_ascii-return_level_int (suc (suc (suc (suc (suc (suc n)))))) h = absurd (omega arith)
