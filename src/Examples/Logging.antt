-- ===== src/Examples/Logging.antt =====
-- The log levels.
use comm_system.Prelude.{
  same_text, codes, ℕ, ◌≡◌, refl, Option, none, some, List, [], ◌∷◌, arith, pos, negsuc,
  if◌then◌else◌,
}
use comm_system.Log.{
  component_all, component_log, component_log_emerg, component_memalloc, component_memleaks,
  component_stdout, component_comm, return_level_ascii, return_level_int, incremente_level_debug,
  decremente_level_debug, return_level_debug, init_logging, comm_log_components, LogCommand,
  set_component, set_all, sigusr1, sigusr2, start_up, obey_all,
}
use comm_system.Log.Levels.{
  IsTable, AllAt, obey_all-IsTable, decremente_level_debug-incremente_level_debug,
}
use comm_system.Log.Names.{return_level_ascii-return_level_int}
use comm_system.Log.Environment.{chosen, init_logging-chosen}

-- NIV_DEBUG for COMPONENT_LOG, and nothing else.
abbrev niv_debug : List ℕ
niv_debug = codes "NIV_DEBUG"

abbrev environment : List ℕ → Option (List ℕ)
environment name =
    if same_text name (comm_log_components component_log).comp_name then some niv_debug else none

comm_log_components-IsTable : IsTable comm_log_components
comm_log_components-IsTable component_all = omega arith
comm_log_components-IsTable component_log = omega arith
comm_log_components-IsTable component_log_emerg = omega arith
comm_log_components-IsTable component_memalloc = omega arith
comm_log_components-IsTable component_memleaks = omega arith
comm_log_components-IsTable component_stdout = omega arith
comm_log_components-IsTable component_comm = omega arith

abbrev commands : List LogCommand
commands =
    start_up environment
    ∷ sigusr1
    ∷ set_component component_comm (negsuc 3)
    ∷ set_all (pos 40)
    ∷ sigusr1
    ∷ sigusr2
    ∷ []

obey_all-IsTable_example : IsTable (obey_all commands comm_log_components)
obey_all-IsTable_example = obey_all-IsTable commands comm_log_components comm_log_components-IsTable

decremente_level_debug-incremente_level_debug_example :
    AllAt (pos 4) (incremente_level_debug comm_log_components)
    × AllAt (pos 3) (decremente_level_debug (incremente_level_debug comm_log_components))
unfolding return_level_debug
decremente_level_debug-incremente_level_debug_example =
    decremente_level_debug-incremente_level_debug comm_log_components 3 refl (omega arith)

return_level_ascii-return_level_int_example :
    (text : List ℕ) × (return_level_int (pos 4) ≡ some text) × (return_level_ascii text ≡ pos 4)
return_level_ascii-return_level_int_example = return_level_ascii-return_level_int 4 (omega arith)

init_logging-chosen_example :
    (init_logging environment comm_log_components component_log).comp_log_level
    ≡ chosen (environment (comm_log_components component_log).comp_name) (pos 3)
init_logging-chosen_example = init_logging-chosen environment comm_log_components component_log
