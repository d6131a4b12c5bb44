-- ===== src/Examples/Destinations.antt =====
-- The log of all components sent to a file, and to the standard error.
use comm_system.Prelude.{ℕ, ◌≡◌, refl, Option, some, List, [], ◌∷◌, length, codes, ℤ, pos}
use comm_system.Transfer.{Run, returned}
use comm_system.Log.{component_log, components}
use comm_system.Destination.{
  accepts_name, is_valid_log_path, type_of, syslog, filelog, Target, changing, LogState,
  set_component_log_file, set_default_logging,
}
use comm_system.Destination.Default.{SetsAll, set_default_logging-SetsAll}

abbrev to_syslog : Target
to_syslog = record { comp_log_type = syslog; comp_log_file = codes "SYSLOG"; comp_buffer = 0 }

abbrev at_start : LogState
at_start = record { targets = λ c. to_syslog; logged = [] }

abbrev root_only : List ℕ → Option (List ℕ)
root_only path = some (codes "/")

set_default_logging-SetsAll_example :
    SetsAll
      (pos 3)
      root_only
      (codes "/log")
      at_start
      (set_default_logging (pos 3) root_only components (codes "/log") at_start)
unfolding accepts_name is_valid_log_path type_of
set_default_logging-SetsAll_example =
    set_default_logging-SetsAll (pos 3) root_only (codes "/log") at_start refl

abbrev state_of : Run (Unit {0}) LogState → LogState
state_of (returned done s) = s
state_of r = at_start

-- Six components change, COMPONENT_LOG once, and the notice for all makes seven.
seven_notices :
    length
      (state_of (set_default_logging (pos 3) root_only components (codes "/log") at_start)).logged
    ≡ 7
unfolding set_default_logging
seven_notices = refl

-- The notice of a change of COMPONENT_LOG names the new file twice.
abbrev state_behind : Run ℤ LogState → LogState
state_behind (returned rc s) = s
state_behind r = at_start

abbrev to_file : Target
to_file = record { comp_log_type = filelog; comp_log_file = codes "/log"; comp_buffer = 0 }

named_twice :
    (state_behind
      (set_component_log_file (pos 3) root_only component_log (codes "/log") at_start)).logged
    ≡ (to_file, changing component_log (codes "/log") (codes "/log")) ∷ []
unfolding set_component_log_file
named_twice = refl
