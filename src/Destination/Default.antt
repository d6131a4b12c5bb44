-- ===== src/Destination/Default.antt =====
-- What SetDefaultLogging does to all components, and where its reports go.
use mathlib.Core.Path.{subst}
use comm_system.Prelude.{
  ℕ, ◌≡◌, refl, sym, ap, ◌∙◌, inl, inr, Bool, true, false, ◌&&◌, ◌||◌, not, Option, some, List, [],
  ◌∷◌, ◌++◌, append_assoc, append-nil, Bool-cases, ℤ, pos, eq_ℤ,
}
use comm_system.Transfer.{Run, returned, fault, running}
use comm_system.Log.{
  LogComponent, component_all, component_log, component_log_emerg, component_memalloc,
  component_memleaks, component_stdout, component_comm, components,
}
use comm_system.Destination.{
  testlog, Target, Targets, Notice, setting_all, LogState, same_component, same_type, set_target,
  type_of, log_changes, accepts_name, is_changed, report_if, change_target, behind_name,
  set_component_log_file, set_log_files, set_default_logging,
}

-- The components that a loop over some of them sets.
abbrev hit : List LogComponent → LogComponent → Bool
hit [] d = false
hit (c ∷ cs) d = (not (same_component c component_stdout) && same_component c d) || hit cs d

module _ (comp_log_level : ℤ) (dirname : List ℕ → Option (List ℕ)) (name : List ℕ) where
  -- The target is the one that the name stands for.
  abbrev pub IsThere : Target → Type 0
  IsThere target = (target.comp_log_type ≡ type_of name) × (target.comp_log_file ≡ name)

  abbrev pub AllThere : List (Target × Notice) → Type 0
  AllThere [] = Unit
  AllThere ((target, notice) ∷ rest) = IsThere target × AllThere rest

  -- Some reports were added, and all went to where the name says.
  abbrev pub ReportsThere : (before after : List (Target × Notice)) → Type 0
  ReportsThere before after =
      (more : List (Target × Notice)) × (after ≡ before ++ more) × AllThere more

  AllThere-append :
      (xs ys : List (Target × Notice)) → AllThere xs → AllThere ys → AllThere (xs ++ ys)
  AllThere-append [] ys h k = k
  AllThere-append ((target, notice) ∷ xs) ys (there, h) k = (there, AllThere-append xs ys h k)

  ReportsThere-trans :
      (a b c : List (Target × Notice)) → ReportsThere a b → ReportsThere b c → ReportsThere a c
  ReportsThere-trans a b c (xs, e, h) (ys, e', k) =
      (xs ++ ys, e' ∙ ap (λ l. l ++ ys) e ∙ append_assoc a xs ys, AllThere-append xs ys h k)

  ReportsThere-refl : (a : List (Target × Notice)) → ReportsThere a a
  ReportsThere-refl a = ([], sym (append-nil a), tt)

  -- What has become of a target: set, or left alone.
  abbrev Outcome : Bool → (before after : Target) → Type 0
  Outcome true before after = IsThere after
  Outcome false before after = after ≡ before

  Outcome-trans :
      (first second : Bool) (a b c : Target)
      → Outcome first a b
      → Outcome second b c
      → Outcome (first || second) a c
  Outcome-trans true true a b c h k = k
  Outcome-trans true false a b c h k = rw k h
  Outcome-trans false true a b c h k = k
  Outcome-trans false false a b c h k = k ∙ h

  Outcome-IsThere : (set : Bool) (a b : Target) → IsThere a → Outcome set a b → IsThere b
  Outcome-IsThere true a b h k = k
  Outcome-IsThere false a b h k = rw k h

  log_changes-ReportsThere :
      (notice : Notice) (s : LogState)
      → IsThere (s.targets component_log)
      → (ReportsThere s.logged (log_changes comp_log_level dirname notice s).logged)
        × ((log_changes comp_log_level dirname notice s).targets ≡ s.targets)
  unfolding log_changes
  log_changes-ReportsThere notice s h =
      elim (Bool-cases (
        not (same_type ((s.targets component_log).comp_log_type) testlog)
        || eq_ℤ comp_log_level (pos 5))) [
          | inl loud ↦ rw loud (((s.targets component_log, notice) ∷ [], refl, (h, tt)), refl)
          | inr quiet ↦ rw quiet (ReportsThere-refl s.logged, refl)
        ]

  report_if-ReportsThere :
      (b : Bool) (component : LogComponent) (s : LogState)
      → ((b ≡ true) → IsThere (s.targets component_log))
      → (ReportsThere s.logged (report_if comp_log_level dirname b component name s).logged)
        × ((report_if comp_log_level dirname b component name s).targets ≡ s.targets)
  unfolding report_if
  report_if-ReportsThere true component s h = log_changes-ReportsThere _ s (h refl)
  report_if-ReportsThere false component s h = (ReportsThere-refl s.logged, refl)

  abbrev retarget : LogComponent → LogState → LogState
  retarget component s = record s {
    targets =
        set_target component
          (record (s.targets component) { comp_log_type = type_of name; comp_log_file = name })
          s.targets;
  }

  retarget-Outcome :
      (component d : LogComponent) (s : LogState)
      → Outcome (same_component component d) (s.targets d) ((retarget component s).targets d)
  unfolding set_target
  retarget-Outcome component d s = elim (Bool-cases (same_component component d)) [
    | inl same ↦ rw (same, Outcome) (refl, refl)
    | inr other ↦ rw (other, Outcome) refl
  ]

  -- What a call for one component does.
  abbrev Changes : LogComponent → (before after : LogState) → Type 0
  Changes component s s' =
      ((d : LogComponent) → Outcome (same_component component d) (s.targets d) (s'.targets d))
      × ReportsThere s.logged s'.logged

  abbrev reported : (b : Bool) → LogComponent → LogState → LogState
  reported b component s = report_if comp_log_level dirname b component name s

  change_target-Changes :
      (b changed : Bool) (component : LogComponent) (s : LogState)
      → same_component component component_log ≡ b
      → ((b ≡ false) → IsThere (s.targets component_log))
      → Changes component s (
          reported
            (b && changed)
            component
            (retarget component (reported (not b && changed) component s)))
  unfolding report_if
  change_target-Changes true changed component s own set =
      let there : IsThere ((retarget component s).targets component_log) =
        rw own at (retarget-Outcome component component_log s) in
      let (reports, same) =
        report_if-ReportsThere changed component (retarget component s) (λ e. there) in
      ((λ d. rw same (retarget-Outcome component d s)), reports)
  change_target-Changes false changed component s own set =
      let (reports, same) = report_if-ReportsThere changed component s (λ e. set refl) in
      let s₁ : LogState = reported changed component s in
      (
        (λ d.
            subst
              (λ t. Outcome (same_component component d) (t d) ((retarget component s₁).targets d))
              same (retarget-Outcome component d s₁)),
        reports,
      )

  -- A name of a file that fits and has a directory, or the name of another destination.
  abbrev pub IsName : Type 0
  IsName = accepts_name comp_log_level dirname (type_of name) name ≡ some true

  set_component_log_file-Changes :
      (component : LogComponent) (s : LogState)
      → IsName
      → ((same_component component component_log ≡ false) → IsThere (s.targets component_log))
      → (s' : LogState) × (set_component_log_file comp_log_level dirname component name s
          ≡ returned (pos 0) s')
        × Changes component s s'
  unfolding set_component_log_file behind_name change_target
  set_component_log_file-Changes component s valid set =
      let changed = is_changed comp_log_level dirname (type_of name) name (s.targets component) in
      (
        change_target comp_log_level dirname component name s,
        rw valid refl,
        change_target-Changes (same_component component component_log) changed component s refl set,
      )

  -- What a loop over some components does.
  abbrev ChangesAll : List LogComponent → (before after : LogState) → Type 0
  ChangesAll cs s s' =
      ((d : LogComponent) → Outcome (hit cs d) (s.targets d) (s'.targets d))
      × ReportsThere s.logged s'.logged

  set_log_files-ChangesAll :
      (cs : List LogComponent) (s : LogState)
      → IsName
      → IsThere (s.targets component_log)
      → (s' : LogState) × (set_log_files comp_log_level dirname cs name s ≡ returned tt s')
        × ChangesAll cs s s'
  unfolding set_log_files
  set_log_files-ChangesAll [] s valid set = (s, refl, ((λ d. refl), ReportsThere-refl s.logged))
  set_log_files-ChangesAll (c ∷ cs) s valid set =
      elim (Bool-cases (same_component c component_stdout)) [
        | inl skipped ↦
            let (s', run, (outcomes, reports)) = set_log_files-ChangesAll cs s valid set in
            (
              s',
              rw (skipped, set_log_files) run,
              ((λ d. rw (skipped, ◌&&◌, ◌||◌) (outcomes d)), reports),
            )
        | inr other ↦
            let (s₁, run₁, (outcomes₁, reports₁)) =
              set_component_log_file-Changes c s valid (λ e. set) in
            let set₁ =
              Outcome-IsThere (same_component c component_log) (s.targets component_log)
                (s₁.targets component_log) set (outcomes₁ component_log) in
            let (s', run, (outcomes, reports)) = set_log_files-ChangesAll cs s₁ valid set₁ in
            (
              s',
              rw (other, set_log_files) (rw run₁ run),
              (
                (λ d.
                    rw (other, ◌&&◌)
                      (Outcome-trans (same_component c d) (hit cs d) (s.targets d) (s₁.targets d)
                        (s'.targets d) (outcomes₁ d) (outcomes d))),
                ReportsThere-trans s.logged s₁.logged s'.logged reports₁ reports,
              ),
            )
      ]

  -- All components but COMPONENT_STDOUT log to where the name says, and all reports went there.
  abbrev pub SetsAll : (before : LogState) → Run (Unit {0}) LogState → Type 0
  SetsAll s (returned done s') =
      ((d : LogComponent)
        → Outcome (not (same_component d component_stdout)) (s.targets d) (s'.targets d))
      × ReportsThere s.logged s'.logged
  SetsAll s fault = ⊥
  SetsAll s running = ⊥

  -- COMPONENT_LOG is set by the first call and again by the loop.
  all_but_stdout :
      (a b c : Targets)
      → ((d : LogComponent) → Outcome (same_component component_log d) (a d) (b d))
      → ((d : LogComponent) → Outcome (hit components d) (b d) (c d))
      → (d : LogComponent) → Outcome (not (same_component d component_stdout)) (a d) (c d)
  all_but_stdout a b c first second component_all = second component_all
  all_but_stdout a b c first second component_log = second component_log
  all_but_stdout a b c first second component_log_emerg = second component_log_emerg
  all_but_stdout a b c first second component_memalloc = second component_memalloc
  all_but_stdout a b c first second component_memleaks = second component_memleaks
  all_but_stdout a b c first second component_stdout =
      second component_stdout ∙ first component_stdout
  all_but_stdout a b c first second component_comm = second component_comm

  -- For the name of a destination, or a path that fits and has a directory, and any table and
  -- levels, SetDefaultLogging returns, every component but COMPONENT_STDOUT has the type and the
  -- file of that name, COMPONENT_STDOUT has what it had, and every report that the calls log on the
  -- way goes to the new destination already. It never goes wrong.
  pub set_default_logging-SetsAll :
      (s : LogState)
      → IsName
      → SetsAll s (set_default_logging comp_log_level dirname components name s)
  unfolding set_default_logging
  set_default_logging-SetsAll s valid =
      let (s₁, run₁, (outcomes₁, reports₁)) =
        set_component_log_file-Changes component_log s valid (λ e. absurd cc) in
      let s₂ : LogState = log_changes comp_log_level dirname (setting_all name) s₁ in
      let (reports₂, same) =
        log_changes-ReportsThere (setting_all name) s₁ (outcomes₁ component_log) in
      let (s₃, run₃, (outcomes₃, reports₃)) =
        set_log_files-ChangesAll components s₂ valid
          (subst (λ t. IsThere (t component_log)) (sym same) (outcomes₁ component_log)) in
      rw (run₁, run₃, SetsAll)
        (
          all_but_stdout s.targets s₁.targets s₃.targets outcomes₁ (
              subst (λ t. (d : LogComponent) → Outcome (hit components d) (t d) (s₃.targets d)) same
                outcomes₃),
          ReportsThere-trans s.logged s₁.logged s₃.logged reports₁
              (ReportsThere-trans s₁.logged s₂.logged s₃.logged reports₂ reports₃),
        )
