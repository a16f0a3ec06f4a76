-- ===== src/Command/Classification/Safety.antt =====
-- What a workspace command that is let through may do (crates/moe-command-broker/src/lib.rs).
use m_i_o.Prelude.{
  ◌≡◌, ◌≤◌, inl, inr, refl, ap, sym, not, ◌&&◌, if◌then◌else◌, true, false, arith, ok, Result-cases,
  Bool-cases, Option,
}
use m_i_o.Text.{Str}
use m_i_o.Command.Paths.{PathBuf, workspace_relative_directory}
use m_i_o.Command.Paths.Joining.{
  workspace_relative_directory-IsWithin, IsWithin, workspace_relative_directory_idem,
}
use m_i_o.Command.Classification.{
  WorkspaceCommandAccess, WorkspaceCommandIntent, action_time, read_only, read_write,
  WorkspaceCommandRequest, WorkspaceCommandPlan, BaselineCommand, CommandClassification,
  baseline_writes_workspace, is_read_write, classify_command, maximum_command_output_bytes,
  maximum_command_seconds, tool, NpmPackageInstallRequest, NpmPackageInstallPlan,
  NpmPackageInstallClassification, classify_npm_package_install, Version, workspace_write_required,
  valid_npm_package_name, valid_exact_npm_version,
}

-- The plan for a directory and a command.
abbrev pub plan_for : PathBuf → BaselineCommand → WorkspaceCommandPlan
plan_for directory c = record {
  working_directory = directory;
  command = c;
  tool = tool c;
  network_enabled = false;
  accepts_shell_command_string = false;
  maximum_output_bytes = maximum_command_output_bytes;
  maximum_seconds = maximum_command_seconds;
}

-- A plan, and the request that it is made for.
abbrev pub IsPlanFor :
    WorkspaceCommandRequest → WorkspaceCommandAccess → WorkspaceCommandPlan → Type 0
IsPlanFor request access plan =
    (workspace_relative_directory request.working_directory ≡ ok plan.working_directory)
    × (request.intent ≡ WorkspaceCommandIntent.baseline plan.command)
    × (plan ≡ plan_for plan.working_directory plan.command)
    × (baseline_writes_workspace plan.command ≡ true → access ≡ read_write)

planned :
    (path directory : PathBuf) (intent : WorkspaceCommandIntent) (access : WorkspaceCommandAccess)
    {plan : WorkspaceCommandPlan}
    → workspace_relative_directory path ≡ ok directory
    → classify_command (record { working_directory = path; intent = intent }) access
      ≡ CommandClassification.baseline plan
    → IsPlanFor (record { working_directory = path; intent = intent }) access plan
unfolding classify_command
planned path directory (WorkspaceCommandIntent.baseline c) read_only {plan} made e =
    elim (Bool-cases (baseline_writes_workspace c)) [
      | inl writes ↦ absurd (ground (arith, made, e, writes))
      | inr reads ↦ ground (arith, made, e, reads)
    ]
planned path directory (WorkspaceCommandIntent.baseline c) read_write {plan} made e =
    ground (arith, made, e)
planned path directory (action_time c) access made e = absurd (ground (arith, made, e))

pub baseline_plan :
    (request : WorkspaceCommandRequest) (access : WorkspaceCommandAccess)
    {plan : WorkspaceCommandPlan}
    → classify_command request access ≡ CommandClassification.baseline plan
    → IsPlanFor request access plan
unfolding classify_command
baseline_plan request access {plan} e =
    elim (Result-cases (workspace_relative_directory request.working_directory)) [
      | inl (_, failed) ↦ absurd (ground (arith, e, failed))
      | inr (directory, made) ↦
          planned request.working_directory directory request.intent access made e
    ]

-- No network, no shell, bounded output and time, inside the workspace, and no writing to it
-- without the access for that.
abbrev pub IsConfined : WorkspaceCommandAccess → WorkspaceCommandPlan → Type 0
IsConfined access plan =
    (plan.network_enabled ≡ false)
    × (plan.accepts_shell_command_string ≡ false)
    × (plan.maximum_output_bytes ≤ maximum_command_output_bytes)
    × (plan.maximum_seconds ≤ maximum_command_seconds)
    × (plan.tool ≡ tool plan.command)
    × (baseline_writes_workspace plan.command ≡ true → access ≡ read_write)
    × IsWithin plan.working_directory

-- A baseline plan is confined: it has no network, takes no shell text, its output and time are
-- bounded, its directory is `.` or a relative path of names only, and it writes to the workspace
-- only with read and write access.
pub classify_command-IsConfined :
    (request : WorkspaceCommandRequest) (access : WorkspaceCommandAccess)
    {plan : WorkspaceCommandPlan}
    → classify_command request access ≡ CommandClassification.baseline plan
    → IsConfined access plan
classify_command-IsConfined request access {plan} e =
    let (made, intent, same, writes) = baseline_plan request access e in
    let within : IsWithin plan.working_directory =
      workspace_relative_directory-IsWithin request.working_directory made in
    (
      ap (λ p. p.network_enabled) same,
      ap (λ p. p.accepts_shell_command_string) same,
      ground (arith, same),
      ground (arith, same),
      ap (λ p. p.tool) same,
      writes,
      within,
    )

accepted :
    (access : WorkspaceCommandAccess) (plan : WorkspaceCommandPlan)
    → plan ≡ plan_for plan.working_directory plan.command
    → (baseline_writes_workspace plan.command ≡ true → access ≡ read_write)
    → (if baseline_writes_workspace plan.command && not (is_read_write access)
        then CommandClassification.denied workspace_write_required
        else CommandClassification.baseline (plan_for plan.working_directory plan.command))
      ≡ CommandClassification.baseline plan
accepted read_write plan same writes = ground (arith, same)
accepted read_only plan same writes = elim (Bool-cases (baseline_writes_workspace plan.command)) [
  | inl w ↦ absurd (ground (arith, writes w))
  | inr r ↦ rw r (ap (λ p. CommandClassification.baseline p) (sym same))
]

-- A plan is accepted again for its own directory and command.
pub classify_command-plan_idem :
    (request : WorkspaceCommandRequest) (access : WorkspaceCommandAccess)
    {plan : WorkspaceCommandPlan}
    → classify_command request access ≡ CommandClassification.baseline plan
    → classify_command
        (record {
          working_directory = plan.working_directory;
          intent = WorkspaceCommandIntent.baseline plan.command;
        })
        access
      ≡ CommandClassification.baseline plan
unfolding classify_command
classify_command-plan_idem request access {plan} e =
    let (made, intent, same, writes) = baseline_plan request access e in
    let again = workspace_relative_directory_idem request.working_directory made in
    rw (again, classify_command) (accepted access plan same writes)

module _ (parse_version : Str → Option Version) where
  -- An installation that is asked about, and its request.
  abbrev pub IsInstallFor :
      NpmPackageInstallRequest → WorkspaceCommandAccess → NpmPackageInstallPlan → Type 0
  IsInstallFor request access plan =
      (workspace_relative_directory request.working_directory ≡ ok plan.working_directory)
      × (access ≡ read_write)
      × (valid_npm_package_name plan.package_name ≡ true)
      × (valid_exact_npm_version parse_version plan.exact_version ≡ true)
      × (request.package_name ≡ plan.package_name)
      × (request.exact_version ≡ plan.exact_version)

  pub install_plan :
      (request : NpmPackageInstallRequest) (access : WorkspaceCommandAccess)
      {plan : NpmPackageInstallPlan}
      → classify_npm_package_install parse_version request access
        ≡ NpmPackageInstallClassification.action_time_confirmation_required plan
      → IsInstallFor request access plan
  unfolding classify_npm_package_install
  install_plan request access {plan} e =
      elim (Result-cases (workspace_relative_directory request.working_directory)) [
        | inl (_, failed) ↦ absurd (ground (arith, e, failed))
        | inr (directory, made) ↦ ground (arith, e, made)
      ]

  pub install_plan_idem :
      (request : NpmPackageInstallRequest) (access : WorkspaceCommandAccess)
      {plan : NpmPackageInstallPlan}
      → classify_npm_package_install parse_version request access
        ≡ NpmPackageInstallClassification.action_time_confirmation_required plan
      → classify_npm_package_install parse_version
          (record {
            working_directory = plan.working_directory;
            package_name = plan.package_name;
            exact_version = plan.exact_version;
          })
          access
        ≡ NpmPackageInstallClassification.action_time_confirmation_required plan
  unfolding classify_npm_package_install
  install_plan_idem request access {plan} e =
      let (made, writes, name, version, n, v) = install_plan request access e in
      let again = workspace_relative_directory_idem request.working_directory made in
      rw (again, writes, name, version, classify_npm_package_install) refl
