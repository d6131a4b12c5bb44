-- ===== src/Destination.antt =====
-- The destinations of the log: SetComponentLogFile, SetDefaultLogging, SetComponentLogBuffer and
-- isValidLogPath of log_functions.c, and the macro LogChanges, by which they report a change.

pub mod Default
use comm_system.Prelude.{
  ℕ, Bool, true, false, ◌&&◌, ◌||◌, not, Option, none, some, List, [], ◌∷◌, ◌++◌, length, ltb, ◌==◌,
  codes, same_text, if◌then◌else◌, ℤ, pos, negsuc, ltb_ℤ, eq_ℤ,
}
use comm_system.Transfer.{Run, returned, fault, running, and_then}
use comm_system.Log.{
  LogComponent, component_all, component_log, component_log_emerg, component_memalloc,
  component_memleaks, component_stdout, component_comm, code_of_component,
}

-- enum log_type
pub data LogType : Type 0 where
  syslog filelog stderrlog stdoutlog testlog bufflog : LogType

abbrev pub code_of_type : LogType → ℕ
code_of_type syslog = 0
code_of_type filelog = 1
code_of_type stderrlog = 2
code_of_type stdoutlog = 3
code_of_type testlog = 4
code_of_type bufflog = 5

-- The members of log_component_info that say where a component logs to.
pub record Target : Type 0 where
  pub comp_log_type : LogType
  pub comp_log_file : List ℕ
  pub comp_buffer : ℕ

abbrev pub Targets : Type 0
Targets = LogComponent → Target

-- What the functions report of themselves.
pub data Notice : Type 0 where
  changing : (component : LogComponent) (from to : List ℕ) → Notice
  setting_all : (to : List ℕ) → Notice
  could_not_set : (to : List ℕ) → Notice

-- The table, and the notices that were logged, each with what the target of COMPONENT_LOG was then.
pub record LogState : Type 0 where
  pub targets : Targets
  pub logged : List (Target × Notice)

-- MAXPATHLEN, the size of `comp_log_file`
abbrev pub max_path_len : ℕ
max_path_len = 4096

abbrev pub same_component : LogComponent → LogComponent → Bool
same_component c d = code_of_component c == code_of_component d

abbrev pub same_type : LogType → LogType → Bool
same_type a b = code_of_type a == code_of_type b

unfoldable pub set_target : LogComponent → Target → Targets → Targets
set_target c target targets d = if same_component c d then target else targets d

-- LogMajor and LogChanges write by DisplayLogComponentLevel.
abbrev pub log_notice : Notice → LogState → LogState
log_notice notice s = record s { logged = s.logged ++ (s.targets component_log, notice) ∷ [] }

-- The type that a name stands for.
unfoldable pub type_of : List ℕ → LogType
type_of name =
    if same_text name (codes "SYSLOG")
    then syslog
    else if same_text name (codes "STDERR")
    then stderrlog
    else if same_text name (codes "STDOUT")
    then stdoutlog
    else if same_text name (codes "TEST")
    then testlog
    else filelog

unfoldable pub set_component_log_buffer : LogComponent → (buffer : ℕ) → Targets → Targets
unfolding set_target
set_component_log_buffer component buffer targets =
    set_target component
      (record (targets component) { comp_log_type = bufflog; comp_buffer = buffer }) targets

-- `comp_log_level` is that of COMPONENT_LOG; `dirname` is the call of the C library, with `none` for NULL.
module _ (comp_log_level : ℤ) (dirname : List ℕ → Option (List ℕ)) where
  unfoldable pub log_changes : Notice → LogState → LogState
  log_changes notice s =
      if not (same_type ((s.targets component_log).comp_log_type) testlog)
        || eq_ℤ comp_log_level (pos 5)
      then log_notice notice s
      else s

  -- The result of `access` is looked at for messages only. A path that fills `tempname` has no NUL
  -- there: `none`.
  unfoldable pub is_valid_log_path : List ℕ → Option Bool
  is_valid_log_path pathname =
      if ltb (length pathname) max_path_len
      then some (elim (dirname pathname) [ none ↦ false | some directory_name ↦ true ])
      else none

  -- `if (newtype == FILELOG) { … }`
  unfoldable pub accepts_name : LogType → List ℕ → Option Bool
  unfolding is_valid_log_path
  accepts_name newtype name =
      if same_type newtype filelog then is_valid_log_path name else some true

  abbrev pub is_changed : LogType → List ℕ → Target → Bool
  is_changed newtype name target =
      not (same_type newtype target.comp_log_type)
      || (same_type newtype filelog && not (same_text name target.comp_log_file))

  -- `if (…) LogChanges("Changing log destination …")`
  unfoldable pub report_if : Bool → LogComponent → List ℕ → LogState → LogState
  unfolding log_changes
  report_if b component name s =
      if b then log_changes (changing component ((s.targets component).comp_log_file) name) s else s

  -- Behind the test of the name.
  unfoldable pub change_target : LogComponent → List ℕ → LogState → LogState
  unfolding report_if set_target type_of
  change_target component name s =
      let newtype = type_of name in
      let changed = is_changed newtype name (s.targets component) in
      let s₁ =
        report_if (not (same_component component component_log) && changed) component name s in
      let s₂ : LogState = record s₁ {
        targets =
            set_target component
              (record (s₁.targets component) { comp_log_type = newtype; comp_log_file = name })
              s₁.targets;
      } in
      report_if (same_component component component_log && changed) component name s₂

  unfoldable pub behind_name : LogComponent → List ℕ → LogState → Option Bool → Run ℤ LogState
  unfolding change_target
  behind_name component name s none = fault
  behind_name component name s (some false) =
      returned (negsuc 0)
        (if ltb_ℤ comp_log_level (pos 1) then s else log_notice (could_not_set name) s)
  behind_name component name s (some true) = returned (pos 0) (change_target component name s)

  unfoldable pub set_component_log_file : LogComponent → List ℕ → LogState → Run ℤ LogState
  unfolding behind_name accepts_name type_of
  set_component_log_file component name s =
      behind_name component name s (accepts_name (type_of name) name)

  -- The loop over the components.
  unfoldable pub set_log_files : List LogComponent → List ℕ → LogState → Run (Unit {0}) LogState
  unfolding set_component_log_file
  set_log_files [] name s = returned tt s
  set_log_files (component ∷ cs) name s =
      if same_component component component_stdout
      then set_log_files cs name s
      else and_then (set_component_log_file component name s) (λ rc s'. set_log_files cs name s')

  unfoldable pub set_default_logging :
      List LogComponent → List ℕ → LogState → Run (Unit {0}) LogState
  unfolding set_component_log_file log_changes set_log_files
  set_default_logging components name s =
      and_then (set_component_log_file component_log name s)
        (λ rc s'. set_log_files components name (log_changes (setting_all name) s'))
