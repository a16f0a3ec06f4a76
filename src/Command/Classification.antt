-- ===== src/Command/Classification.antt =====
-- Which workspace commands are let through (crates/moe-command-broker/src/lib.rs). The semver
-- crate's `Version::parse` is a parameter.
pub mod Safety
use m_i_o.Prelude.{
  ℕ, ◌*◌, Bool, true, false, not, ◌&&◌, ◌||◌, Option, none, some, List, [], ◌∷◌, arith, ltb,
  nat_beq, between, if◌then◌else◌, is_some_and, length, is_empty, all, any, Result, ok, err, ◌==◌,
  PartialEq, nat_eq, list_eq, ◌≡◌, ◌↔◌, eq_iff,
}
use m_i_o.Text.{Str, bytes, len}
use m_i_o.Command.Policy.{ActionTimeCommand, ConfirmationReason, reason, writes_workspace}
use m_i_o.Command.Paths.{PathBuf, path_beq, split, workspace_relative_directory}

abbrev pub maximum_npm_package_name_bytes : ℕ
maximum_npm_package_name_bytes = 214

abbrev pub maximum_npm_exact_version_bytes : ℕ
maximum_npm_exact_version_bytes = 128

abbrev pub maximum_command_output_bytes : ℕ
maximum_command_output_bytes = 256 * 1024

abbrev pub maximum_command_seconds : ℕ
maximum_command_seconds = 300

pub data WorkspaceCommandAccess : Type 0 where
  read_only read_write : WorkspaceCommandAccess

pub data RegisteredTool : Type 0 where
  git node npm cargo : RegisteredTool

pub data BaselineCommand : Type 0 where
  git_status git_diff git_diff_staged git_log node_run npm_build npm_test : BaselineCommand
  npm_typecheck cargo_check cargo_build cargo_test cargo_clippy cargo_fmt_check : BaselineCommand

unfoldable pub tool : BaselineCommand → RegisteredTool
tool git_status = git
tool git_diff = git
tool git_diff_staged = git
tool git_log = git
tool node_run = node
tool npm_build = npm
tool npm_test = npm
tool npm_typecheck = npm
tool _ = cargo

-- `BaselineCommand::writes_workspace`.
unfoldable pub baseline_writes_workspace : BaselineCommand → Bool
baseline_writes_workspace git_status = false
baseline_writes_workspace git_diff = false
baseline_writes_workspace git_diff_staged = false
baseline_writes_workspace git_log = false
baseline_writes_workspace _ = true

pub data WorkspaceCommandIntent : Type 0 where
  baseline : BaselineCommand → WorkspaceCommandIntent
  action_time : ActionTimeCommand → WorkspaceCommandIntent

-- The position of a constructor, which derived tests for equality compare.
unfoldable pub command_discriminant : BaselineCommand → ℕ
command_discriminant git_status = 0
command_discriminant git_diff = 1
command_discriminant git_diff_staged = 2
command_discriminant git_log = 3
command_discriminant node_run = 4
command_discriminant npm_build = 5
command_discriminant npm_test = 6
command_discriminant npm_typecheck = 7
command_discriminant cargo_check = 8
command_discriminant cargo_build = 9
command_discriminant cargo_test = 10
command_discriminant cargo_clippy = 11
command_discriminant cargo_fmt_check = 12

unfoldable pub tool_discriminant : RegisteredTool → ℕ
tool_discriminant git = 0
tool_discriminant node = 1
tool_discriminant npm = 2
tool_discriminant cargo = 3

pub record WorkspaceCommandRequest : Type 0 where
  pub working_directory : PathBuf
  pub intent : WorkspaceCommandIntent

pub record WorkspaceCommandPlan : Type 0 where
  pub working_directory : PathBuf
  pub command : BaselineCommand
  pub tool : RegisteredTool
  pub network_enabled : Bool
  pub accepts_shell_command_string : Bool
  pub maximum_output_bytes : ℕ
  pub maximum_seconds : ℕ

abbrev pub bool_beq : Bool → Bool → Bool
bool_beq true b = b
bool_beq false b = not b

-- The derived `PartialEq` of a plan; paths are equal when their components are.
unfoldable pub plan_beq : WorkspaceCommandPlan → WorkspaceCommandPlan → Bool
unfolding path_beq command_discriminant tool_discriminant
plan_beq a b =
    path_beq a.working_directory b.working_directory
    && nat_beq (command_discriminant a.command) (command_discriminant b.command)
    && nat_beq (tool_discriminant a.tool) (tool_discriminant b.tool)
    && bool_beq a.network_enabled b.network_enabled
    && bool_beq a.accepts_shell_command_string b.accepts_shell_command_string
    && nat_beq a.maximum_output_bytes b.maximum_output_bytes
    && nat_beq a.maximum_seconds b.maximum_seconds

pub data CommandDenialReason : Type 0 where
  invalid_working_directory invalid_package_name : CommandDenialReason
  invalid_exact_version workspace_write_required : CommandDenialReason

pub record NpmPackageInstallRequest : Type 0 where
  pub working_directory : PathBuf
  pub package_name : Str
  pub exact_version : Str

pub record NpmPackageInstallPlan : Type 0 where
  pub working_directory : PathBuf
  pub package_name : Str
  pub exact_version : Str

unfoldable pub install_plan_beq : NpmPackageInstallPlan → NpmPackageInstallPlan → Bool
unfolding path_beq
install_plan_beq a b =
    path_beq a.working_directory b.working_directory
    && a.package_name == b.package_name
    && a.exact_version == b.exact_version

pub data NpmPackageInstallClassification : Type 0 where
  action_time_confirmation_required : NpmPackageInstallPlan → NpmPackageInstallClassification
  denied : CommandDenialReason → NpmPackageInstallClassification

pub data CommandClassification : Type 0 where
  baseline : WorkspaceCommandPlan → CommandClassification
  action_time_confirmation_required : ConfirmationReason → CommandClassification
  denied : CommandDenialReason → CommandClassification

abbrev pub is_read_write : WorkspaceCommandAccess → Bool
is_read_write read_write = true
is_read_write read_only = false

unfoldable pub classify_command :
    WorkspaceCommandRequest → WorkspaceCommandAccess → CommandClassification
classify_command request access = elim (workspace_relative_directory request.working_directory) [
  | err _ ↦ CommandClassification.denied invalid_working_directory
  | ok directory ↦ elim request.intent [
    | WorkspaceCommandIntent.baseline c ↦
        if baseline_writes_workspace c && not (is_read_write access)
        then CommandClassification.denied workspace_write_required
        else CommandClassification.baseline (record {
          working_directory = directory;
          command = c;
          tool = tool c;
          network_enabled = false;
          accepts_shell_command_string = false;
          maximum_output_bytes = maximum_command_output_bytes;
          maximum_seconds = maximum_command_seconds;
        })
    | action_time c ↦
        if writes_workspace c && not (is_read_write access)
        then CommandClassification.denied workspace_write_required
        else CommandClassification.action_time_confirmation_required (reason c)
  ]
]

-- `u8::is_ascii_lowercase` and `u8::is_ascii_digit`.
abbrev pub is_lower_or_digit : ℕ → Bool
is_lower_or_digit byte = between b'a' b'z' byte || between b'0' b'9' byte

abbrev pub npm_byte : ℕ → Bool
npm_byte byte =
    is_lower_or_digit byte || nat_beq byte b'-' || nat_beq byte b'_' || nat_beq byte b'.'

abbrev pub first_byte : List ℕ → Option ℕ
first_byte [] = none
first_byte (byte ∷ rest) = some byte

-- Behind the test for ASCII a name is its bytes.
unfoldable pub valid_npm_name_component : List ℕ → Bool
valid_npm_name_component component =
    is_some_and (first_byte component) is_lower_or_digit && all npm_byte component

-- The name with the scope, behind `strip_prefix('@')`.
abbrev pub valid_scope : List ℕ → Bool
valid_scope [] = false
valid_scope (byte ∷ rest) = nat_beq byte b'@' && valid_npm_name_component rest

unfoldable pub valid_npm_package_name : Str → Bool
valid_npm_package_name name =
    if is_empty name
      || ltb maximum_npm_package_name_bytes (len name)
      || any (λ byte. ltb 127 byte) (bytes name)
      || any (between b'A' b'Z') (bytes name)
    then false
    else elim (split b'/' (bytes name)) [
      | [] ↦ valid_npm_name_component []
      | first ∷ [] ↦ valid_npm_name_component first
      | first ∷ second ∷ [] ↦ valid_scope first && valid_npm_name_component second
      | first ∷ second ∷ third ∷ rest ↦ false
    ]

-- What the code asks of a parsed version: its canonical text, and whether it has build metadata.
pub record Version : Type 0 where
  pub text : Str
  pub has_build : Bool

module _ (parse_version : Str → Option Version) where
  unfoldable pub valid_exact_npm_version : Str → Bool
  valid_exact_npm_version version =
      if is_empty version
        || ltb maximum_npm_exact_version_bytes (len version)
        || any (λ byte. ltb 127 byte) (bytes version)
      then false
      else is_some_and (parse_version version)
          (λ parsed. parsed.text == version && not parsed.has_build)

  unfoldable pub classify_npm_package_install :
      NpmPackageInstallRequest → WorkspaceCommandAccess → NpmPackageInstallClassification
  classify_npm_package_install request access =
      elim (workspace_relative_directory request.working_directory) [
        | err _ ↦ NpmPackageInstallClassification.denied invalid_working_directory
        | ok directory ↦
            if not (is_read_write access)
            then NpmPackageInstallClassification.denied workspace_write_required
            else if not (valid_npm_package_name request.package_name)
            then NpmPackageInstallClassification.denied invalid_package_name
            else if not (valid_exact_npm_version request.exact_version)
            then NpmPackageInstallClassification.denied invalid_exact_version
            else NpmPackageInstallClassification.action_time_confirmation_required (record {
              working_directory = directory;
              package_name = request.package_name;
              exact_version = request.exact_version;
            })
      ]
