-- ===== src/Log/Environment.antt =====
-- InitLogging takes the level of a component from the variable of its name.
use comm_system.Prelude.{
  ℕ, ◌≡◌, refl, ap, ◌∙◌, ◌⊎◌, inl, inr, false, Option, none, some, List, [], ◌∷◌, ◌==◌, eq→==,
  Bool-cases, if◌then◌else◌, ℤ, pos, negsuc,
}
use comm_system.Log.{
  LogComponent, component_all, component_log, component_log_emerg, component_memalloc,
  component_memleaks, component_stdout, component_comm, code_of_component, Table, components,
  return_level_ascii, set_level, use_level, use_value, init_levels, init_logging,
}

-- The level that a value of the environment selects: itself if it is a level, else the old one.
abbrev pub chosen_level : ℤ → ℤ → ℤ
chosen_level (pos n) old = pos n
chosen_level (negsuc n) old = if n == 0 then old else negsuc n

abbrev pub chosen : Option (List ℕ) → ℤ → ℤ
chosen none old = old
chosen (some env_value) old = chosen_level (return_level_ascii env_value) old

module _ (c d : LogComponent) (table : Table) where
  use_level_elsewhere :
      (level : ℤ)
      → (code_of_component c == code_of_component d) ≡ false
      → use_level c level table d ≡ table d
  unfolding use_level set_level
  use_level_elsewhere (pos n) other = rw other
  use_level_elsewhere (negsuc n) other = elim (Bool-cases (n == 0)) [
    | inl minus_one ↦ rw minus_one
    | inr below ↦ rw below (rw other)
  ]

  use_value_elsewhere :
      (value : Option (List ℕ))
      → (code_of_component c == code_of_component d) ≡ false
      → use_value c value table d ≡ table d
  unfolding use_value
  use_value_elsewhere none other = refl
  use_value_elsewhere (some text) other = use_level_elsewhere (return_level_ascii text) other

module _ (d : LogComponent) (table : Table) where
  use_level-chosen_level :
      (level : ℤ)
      → (use_level d level table d).comp_log_level ≡ chosen_level level (table d).comp_log_level
  unfolding use_level set_level
  use_level-chosen_level (pos n) = rw (eq→== (code_of_component d) (code_of_component d) refl)
  use_level-chosen_level (negsuc n) = elim (Bool-cases (n == 0)) [
    | inl minus_one ↦ rw minus_one
    | inr below ↦ rw below (rw (eq→== (code_of_component d) (code_of_component d) refl))
  ]

  use_value-chosen :
      (value : Option (List ℕ))
      → (use_value d value table d).comp_log_level ≡ chosen value (table d).comp_log_level
  unfolding use_value
  use_value-chosen none = refl
  use_value-chosen (some text) = use_level-chosen_level (return_level_ascii text)

-- `d` is none of the components, or exactly one of them.
abbrev NotIn : LogComponent → List LogComponent → Type 0
NotIn d [] = Unit
NotIn d (c ∷ cs) = ((code_of_component c == code_of_component d) ≡ false) × NotIn d cs

abbrev OnceIn : LogComponent → List LogComponent → Type 0
OnceIn d [] = ⊥
OnceIn d (c ∷ cs) =
    ((c ≡ d) × NotIn d cs) ⊎ (((code_of_component c == code_of_component d) ≡ false) × OnceIn d cs)

module _ (getenv : List ℕ → Option (List ℕ)) (d : LogComponent) where
  init_levels_elsewhere :
      (cs : List LogComponent) (table : Table)
      → NotIn d cs
      → init_levels getenv cs table d ≡ table d
  unfolding init_levels
  init_levels_elsewhere [] table h = refl
  init_levels_elsewhere (c ∷ cs) table (other, h) =
      init_levels_elsewhere cs _ h
      ∙ use_value_elsewhere c d table (getenv (table c).comp_name) other

  init_levels-chosen :
      (cs : List LogComponent) (table : Table)
      → OnceIn d cs
      → (init_levels getenv cs table d).comp_log_level
        ≡ chosen (getenv (table d).comp_name) (table d).comp_log_level
  unfolding init_levels
  init_levels-chosen [] table h = absurd h
  init_levels-chosen (c ∷ cs) table (inl (same, h)) =
      ap (λ i. i.comp_log_level)
        (init_levels_elsewhere cs (use_value c (getenv (table c).comp_name) table) h)
      ∙ ap (λ x. (use_value x (getenv (table x).comp_name) table d).comp_log_level) same
      ∙ use_value-chosen d table (getenv (table d).comp_name)
  init_levels-chosen (c ∷ cs) table (inr (other, h)) =
      init_levels-chosen cs _ h
      ∙ ap (λ i. chosen (getenv i.comp_name) i.comp_log_level)
          (use_value_elsewhere c d table (getenv (table c).comp_name) other)

components-OnceIn : (d : LogComponent) → OnceIn d components
components-OnceIn component_all = inl (refl, (refl, (refl, (refl, (refl, (refl, (refl, tt)))))))
components-OnceIn component_log = inr (refl, inl (refl, (refl, (refl, (refl, (refl, (refl, tt)))))))
components-OnceIn component_log_emerg =
    inr (refl, inr (refl, inl (refl, (refl, (refl, (refl, (refl, tt)))))))
components-OnceIn component_memalloc =
    inr (refl, inr (refl, inr (refl, inl (refl, (refl, (refl, (refl, tt)))))))
components-OnceIn component_memleaks =
    inr (refl, inr (refl, inr (refl, inr (refl, inl (refl, (refl, (refl, tt)))))))
components-OnceIn component_stdout =
    inr (refl, inr (refl, inr (refl, inr (refl, inr (refl, inl (refl, (refl, tt)))))))
components-OnceIn component_comm =
    inr (refl, inr (refl, inr (refl, inr (refl, inr (refl, inr (refl, inl (refl, tt)))))))

-- After InitLogging, whatever the environment and the table, each component has the level that the
-- variable of its name holds, and its old level if there is no such variable or its value is no
-- level.
pub init_logging-chosen :
    (getenv : List ℕ → Option (List ℕ)) (table : Table) (d : LogComponent)
    → (init_logging getenv table d).comp_log_level
      ≡ chosen (getenv (table d).comp_name) (table d).comp_log_level
unfolding init_logging
init_logging-chosen getenv table d =
    init_levels-chosen getenv d components table (components-OnceIn d)
