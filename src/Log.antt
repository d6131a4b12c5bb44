-- ===== src/Log.antt =====
-- The log levels of log_functions.c: the table `CommLogComponents`, the functions that set a level,
-- the signal handlers, and the environment at the start. Names are lists of character codes.
pub mod Levels
pub mod Names
pub mod Environment
use comm_system.Prelude.{
  ℕ, zero, suc, ◌+◌, Bool, true, false, Option, none, some, List, [], ◌∷◌, ◌==◌, leb, codes,
  same_text, if◌then◌else◌, ℤ, pos, negsuc,
}

-- log_components_t
pub data LogComponent : Type 0 where
  component_all component_log component_log_emerg component_memalloc : LogComponent
  component_memleaks component_stdout component_comm : LogComponent

abbrev pub code_of_component : LogComponent → ℕ
code_of_component component_all = 0
code_of_component component_log = 1
code_of_component component_log_emerg = 2
code_of_component component_memalloc = 3
code_of_component component_memleaks = 4
code_of_component component_stdout = 5
code_of_component component_comm = 6

-- The members of log_component_info that the levels need.
pub record LogComponentInfo : Type 0 where
  pub comp_name : List ℕ
  pub comp_log_level : ℤ

abbrev pub Table : Type 0
Table = LogComponent → LogComponentInfo

-- Every component, in the order of the loops from COMPONENT_ALL to COMPONENT_COUNT.
abbrev pub components : List LogComponent
components =
    component_all ∷ component_log ∷ component_log_emerg ∷ component_memalloc ∷ component_memleaks
    ∷ component_stdout ∷ component_comm ∷ []

abbrev pub nb_log_level : ℕ
nb_log_level = 6

-- An entry of tabLogLevel: `value` and `str`.
pub record LevelEntry : Type 0 where
  pub value : ℕ
  pub str : List ℕ

abbrev pub level_entry : ℕ → List ℕ → LevelEntry
level_entry value str = record { value = value; str = str }

abbrev pub tab_log_level : List LevelEntry
tab_log_level =
    level_entry 0 (codes "NIV_NULL")
    ∷ level_entry 1 (codes "NIV_MAJ")
    ∷ level_entry 2 (codes "NIV_CRIT")
    ∷ level_entry 3 (codes "NIV_EVENT")
    ∷ level_entry 4 (codes "NIV_DEBUG")
    ∷ level_entry 5 (codes "NIV_FULL_DEBUG")
    ∷ []

-- The loop of ReturnLevelAscii.
unfoldable pub find_text : List LevelEntry → List ℕ → ℤ
find_text [] text = negsuc 0
find_text (entry ∷ entries) text =
    if same_text entry.str text then pos entry.value else find_text entries text

unfoldable pub return_level_ascii : List ℕ → ℤ
unfolding find_text
return_level_ascii text = find_text tab_log_level text

-- The loop of ReturnLevelInt; NULL is `none`.
unfoldable pub find_value : List LevelEntry → ℕ → Option (List ℕ)
find_value [] level = none
find_value (entry ∷ entries) level =
    if entry.value == level then some entry.str else find_value entries level

unfoldable pub return_level_int : ℤ → Option (List ℕ)
unfolding find_value
return_level_int (pos level) = find_value tab_log_level level
return_level_int (negsuc level) = none

-- `CommLogComponents[c].comp_log_level = level`
unfoldable pub set_level : LogComponent → ℤ → Table → Table
set_level c level table d =
    if code_of_component c == code_of_component d
    then record (table d) { comp_log_level = level }
    else table d

-- The two tests that bring `level_to_set` into the range.
unfoldable pub clamp : ℤ → ℤ
clamp (pos n) = if leb nb_log_level n then pos 5 else pos n
clamp (negsuc n) = pos 0

-- The loop of _SetLevelDebug.
unfoldable pub set_levels : List LogComponent → ℤ → Table → Table
unfolding set_level
set_levels [] level table = table
set_levels (c ∷ cs) level table = set_levels cs level (set_level c level table)

unfoldable pub set_level_debug : ℤ → Table → Table
unfolding set_levels clamp
set_level_debug level_to_set table = set_levels components (clamp level_to_set) table

unfoldable pub return_level_debug : Table → ℤ
return_level_debug table = (table component_all).comp_log_level

unfoldable pub set_component_log_level : LogComponent → ℤ → Table → Table
unfolding set_level_debug set_level clamp
set_component_log_level component_all level_to_set table = set_level_debug level_to_set table
set_component_log_level component level_to_set table =
    set_level component (clamp level_to_set) table

-- `level + 1` and `level - 1`
abbrev pub increased : ℤ → ℤ
increased (pos n) = pos (n + 1)
increased (negsuc zero) = pos 0
increased (negsuc (suc n)) = negsuc n

abbrev pub decreased : ℤ → ℤ
decreased (pos zero) = negsuc 0
decreased (pos (suc n)) = pos n
decreased (negsuc n) = negsuc (suc n)

-- The handlers of SIGUSR1 and SIGUSR2.
unfoldable pub incremente_level_debug : Table → Table
unfolding set_level_debug return_level_debug
incremente_level_debug table = set_level_debug (increased (return_level_debug table)) table

unfoldable pub decremente_level_debug : Table → Table
unfolding set_level_debug return_level_debug
decremente_level_debug table = set_level_debug (decreased (return_level_debug table)) table

-- Behind `getenv`: -1 is not a level and is passed over.
unfoldable pub use_level : LogComponent → ℤ → Table → Table
unfolding set_level
use_level c (pos n) table = set_level c (pos n) table
use_level c (negsuc n) table = if n == 0 then table else set_level c (negsuc n) table

unfoldable pub use_value : LogComponent → Option (List ℕ) → Table → Table
unfolding use_level return_level_ascii
use_value c none table = table
use_value c (some env_value) table = use_level c (return_level_ascii env_value) table

-- The loop of InitLogging; `getenv` is the environment.
unfoldable pub init_levels : (List ℕ → Option (List ℕ)) → List LogComponent → Table → Table
unfolding use_value
init_levels getenv [] table = table
init_levels getenv (c ∷ cs) table =
    init_levels getenv cs (use_value c (getenv (table c).comp_name) table)

unfoldable pub init_logging : (List ℕ → Option (List ℕ)) → Table → Table
unfolding init_levels
init_logging getenv table = init_levels getenv components table

-- CommLogComponents as the program starts with it.
abbrev pub info : List ℕ → ℤ → LogComponentInfo
info name level = record { comp_name = name; comp_log_level = level }

abbrev pub comm_log_components : Table
comm_log_components component_all = info (codes "COMPONENT_ALL") (pos 3)
comm_log_components component_log = info (codes "COMPONENT_LOG") (pos 3)
comm_log_components component_log_emerg = info (codes "COMPONENT_LOG_EMERG") (pos 3)
comm_log_components component_memalloc = info (codes "COMPONENT_MEMALLOC") (pos 0)
comm_log_components component_memleaks = info (codes "COMPONENT_MEMLEAKS") (pos 0)
comm_log_components component_stdout = info (codes "COMPONENT_STDOUT") (pos 3)
comm_log_components component_comm = info (codes "COMPONENT_COMM") (pos 3)

-- The calls and signals that change levels.
pub data LogCommand : Type 0 where
  set_component : LogComponent → ℤ → LogCommand
  set_all : ℤ → LogCommand
  sigusr1 sigusr2 : LogCommand
  start_up : (List ℕ → Option (List ℕ)) → LogCommand

unfoldable pub obey : LogCommand → Table → Table
unfolding set_component_log_level set_level_debug incremente_level_debug decremente_level_debug
    init_logging
obey (set_component c level) table = set_component_log_level c level table
obey (set_all level) table = set_level_debug level table
obey sigusr1 table = incremente_level_debug table
obey sigusr2 table = decremente_level_debug table
obey (start_up getenv) table = init_logging getenv table

unfoldable pub obey_all : List LogCommand → Table → Table
unfolding obey
obey_all [] table = table
obey_all (command ∷ commands) table = obey_all commands (obey command table)
