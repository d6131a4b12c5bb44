-- ===== src/Log/Levels.antt =====
-- Levels stay in their range, and what each call does to the table.
use comm_system.Prelude.{
  same_text, ℕ, suc, ◌+◌, ◌<◌, ◌≡◌, refl, ap, ◌∙◌, inl, inr, Bool, true, false, Option, none, some,
  List, [], ◌∷◌, ◌==◌, leb, if◌then◌else◌, Bool-cases, arith, ℤ, pos, negsuc,
}
use comm_system.Log.{
  LogComponent, component_all, component_log, component_log_emerg, component_memalloc,
  component_memleaks, component_stdout, component_comm, code_of_component, Table, components,
  LevelEntry, tab_log_level, find_text, return_level_ascii, set_level, clamp, set_levels,
  set_level_debug, return_level_debug, set_component_log_level, increased, decreased,
  incremente_level_debug, decremente_level_debug, use_level, use_value, init_levels, init_logging,
  LogCommand, set_component, set_all, sigusr1, sigusr2, start_up, obey, obey_all,
}

abbrev pub IsLevel : ℤ → Type 0
IsLevel (pos n) = n < 6
IsLevel (negsuc n) = ⊥

-- Every component has a level of tabLogLevel.
abbrev pub IsTable : Table → Type 0
IsTable table = (c : LogComponent) → IsLevel (table c).comp_log_level

clamp-IsLevel : (level : ℤ) → IsLevel (clamp level)
unfolding clamp
clamp-IsLevel (pos n) = elim (Bool-cases (leb 6 n)) [
  | inl big ↦ rw (big, IsLevel) (omega arith)
  | inr small ↦ rw (small, IsLevel) (ground arith)
]
clamp-IsLevel (negsuc n) = omega arith

set_level-IsTable :
    (c : LogComponent) (level : ℤ) (table : Table)
    → IsLevel level
    → IsTable table
    → IsTable (set_level c level table)
unfolding set_level
set_level-IsTable c level table l h d =
    elim (Bool-cases (code_of_component c == code_of_component d)) [
      | inl same ↦ rw (same, IsLevel) l
      | inr other ↦ rw (other, IsLevel) (h d)
    ]

set_levels-IsTable :
    (cs : List LogComponent) (level : ℤ) (table : Table)
    → IsLevel level
    → IsTable table
    → IsTable (set_levels cs level table)
unfolding set_levels
set_levels-IsTable [] level table l h = h
set_levels-IsTable (c ∷ cs) level table l h =
    set_levels-IsTable cs level _ l (set_level-IsTable c level table l h)

set_level_debug-IsTable :
    (level : ℤ) (table : Table) → IsTable table → IsTable (set_level_debug level table)
unfolding set_level_debug
set_level_debug-IsTable level table h =
    set_levels-IsTable components (clamp level) table (clamp-IsLevel level) h

-- All components have one level.
abbrev pub AllAt : ℤ → Table → Type 0
AllAt level table = (c : LogComponent) → (table c).comp_log_level ≡ level

set_level_debug-AllAt :
    (level : ℤ) (table : Table) → AllAt (clamp level) (set_level_debug level table)
unfolding set_level_debug set_levels set_level
set_level_debug-AllAt level table component_all = refl
set_level_debug-AllAt level table component_log = refl
set_level_debug-AllAt level table component_log_emerg = refl
set_level_debug-AllAt level table component_memalloc = refl
set_level_debug-AllAt level table component_memleaks = refl
set_level_debug-AllAt level table component_stdout = refl
set_level_debug-AllAt level table component_comm = refl

set_component_log_level-IsTable :
    (c : LogComponent) (level : ℤ) (table : Table)
    → IsTable table
    → IsTable (set_component_log_level c level table)
unfolding set_component_log_level
set_component_log_level-IsTable component_all level table h = set_level_debug-IsTable level table h
set_component_log_level-IsTable component_log level table h =
    set_level-IsTable component_log _ table (clamp-IsLevel level) h
set_component_log_level-IsTable component_log_emerg level table h =
    set_level-IsTable component_log_emerg _ table (clamp-IsLevel level) h
set_component_log_level-IsTable component_memalloc level table h =
    set_level-IsTable component_memalloc _ table (clamp-IsLevel level) h
set_component_log_level-IsTable component_memleaks level table h =
    set_level-IsTable component_memleaks _ table (clamp-IsLevel level) h
set_component_log_level-IsTable component_stdout level table h =
    set_level-IsTable component_stdout _ table (clamp-IsLevel level) h
set_component_log_level-IsTable component_comm level table h =
    set_level-IsTable component_comm _ table (clamp-IsLevel level) h

-- What ReturnLevelAscii finds is the value of an entry, or -1.
abbrev IsFound : ℤ → Type 0
IsFound (pos n) = n < 6
IsFound (negsuc n) = n ≡ 0

IsFound-if : (b : Bool) (x y : ℤ) → IsFound x → IsFound y → IsFound (if b then x else y)
IsFound-if true x y h k = h
IsFound-if false x y h k = k

abbrev AllSmall : List LevelEntry → Type 0
AllSmall [] = Unit
AllSmall (entry ∷ entries) = (entry.value < 6) × AllSmall entries

find_text-IsFound :
    (entries : List LevelEntry) (text : List ℕ)
    → AllSmall entries
    → IsFound (find_text entries text)
unfolding find_text
find_text-IsFound [] text h = refl
find_text-IsFound (entry ∷ entries) text (small, h) =
    IsFound-if (same_text entry.str text) (pos entry.value) (find_text entries text) small
      (find_text-IsFound entries text h)

use_level-IsTable :
    (c : LogComponent) (level : ℤ) (table : Table)
    → IsFound level
    → IsTable table
    → IsTable (use_level c level table)
unfolding use_level
use_level-IsTable c (pos n) table f h = set_level-IsTable c (pos n) table f h
use_level-IsTable c (negsuc n) table f h = rw f h

use_value-IsTable :
    (c : LogComponent) (value : Option (List ℕ)) (table : Table)
    → IsTable table
    → IsTable (use_value c value table)
unfolding use_value return_level_ascii
use_value-IsTable c none table h = h
use_value-IsTable c (some text) table h =
    use_level-IsTable c _ table
      (find_text-IsFound tab_log_level text (
        omega arith,
        (omega arith, (omega arith, (omega arith, (omega arith, (omega arith, tt))))),
      ))
      h

init_levels-IsTable :
    (getenv : List ℕ → Option (List ℕ)) (cs : List LogComponent) (table : Table)
    → IsTable table
    → IsTable (init_levels getenv cs table)
unfolding init_levels
init_levels-IsTable getenv [] table h = h
init_levels-IsTable getenv (c ∷ cs) table h =
    init_levels-IsTable getenv cs _ (use_value-IsTable c (getenv (table c).comp_name) table h)

obey-IsTable : (command : LogCommand) (table : Table) → IsTable table → IsTable (obey command table)
unfolding obey incremente_level_debug decremente_level_debug init_logging
obey-IsTable (set_component c level) table h = set_component_log_level-IsTable c level table h
obey-IsTable (set_all level) table h = set_level_debug-IsTable level table h
obey-IsTable sigusr1 table h =
    set_level_debug-IsTable (increased (return_level_debug table)) table h
obey-IsTable sigusr2 table h =
    set_level_debug-IsTable (decreased (return_level_debug table)) table h
obey-IsTable (start_up getenv) table h = init_levels-IsTable getenv components table h

-- Every component keeps a level from NIV_NULL to NIV_FULL_DEBUG, if it had one before, under any
-- sequence of calls of SetComponentLogLevel and SetLevelDebug with any integers, of SIGUSR1 and
-- SIGUSR2, and of InitLogging with any environment.
pub obey_all-IsTable :
    (commands : List LogCommand) (table : Table) → IsTable table → IsTable (obey_all commands table)
unfolding obey_all
obey_all-IsTable [] table h = h
obey_all-IsTable (command ∷ commands) table h =
    obey_all-IsTable commands _ (obey-IsTable command table h)

clamp_of_lt : (n : ℕ) → n < 6 → clamp (pos n) ≡ pos n
unfolding clamp
clamp_of_lt n h = let small : leb 6 n ≡ false = ground arith in rw small

-- If COMPONENT_ALL has a level below NIV_FULL_DEBUG, then SIGUSR1 brings every component to the
-- next level, whatever its own was, and SIGUSR2 after it brings every component to the level that
-- COMPONENT_ALL had.
pub decremente_level_debug-incremente_level_debug :
    (table : Table) (n : ℕ)
    → return_level_debug table ≡ pos n
    → n < 5
    → AllAt (pos (n + 1)) (incremente_level_debug table)
      × AllAt (pos n) (decremente_level_debug (incremente_level_debug table))
unfolding incremente_level_debug decremente_level_debug return_level_debug
decremente_level_debug-incremente_level_debug table n e h =
    let up : AllAt (pos (n + 1)) (incremente_level_debug table) = λ c.
      set_level_debug-AllAt (increased (return_level_debug table)) table c
      ∙ ap (λ l. clamp (increased l)) e
      ∙ clamp_of_lt (n + 1) (omega arith) in
    let next : n + 1 ≡ suc n = omega arith in
    (
      up,
      λ c.
          set_level_debug-AllAt (decreased (return_level_debug (incremente_level_debug table)))
            (incremente_level_debug table) c
          ∙ ap (λ l. clamp (decreased l)) (up component_all)
          ∙ ap (λ k. clamp (decreased (pos k))) next
          ∙ clamp_of_lt n (omega arith),
    )
