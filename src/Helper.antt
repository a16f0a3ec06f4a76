-- ===== src/Helper.antt =====
-- The requests that the host sends to the isolated command helper
-- (crates/moe-command-helper-protocol/src/lib.rs). `serde_json::to_vec` and
-- `serde_json::from_slice` on each request are parameters, as is the semver crate's parser. A
-- `String` on the wire stands for its UTF-8 bytes.
pub mod Deciding
pub mod RoundTrip
mod Samples
use m_i_o.Prelude.{
  ℕ, suc, ◌*◌, ◌≡◌, Option, none, some, List, take, ltb, nat_beq, if◌then◌else◌, length, not, Bool,
  true, false, ◌&&◌, Result, ok, err, ok_or, ◌>>=◌, ◌==◌, nat_eq, list_eq,
}
use m_i_o.Text.{Str, is_utf8}
use m_i_o.Command.Paths.{PathBuf, path_beq}
use m_i_o.Command.Classification.{
  WorkspaceCommandAccess, WorkspaceCommandIntent, RegisteredTool, WorkspaceCommandPlan,
  BaselineCommand, CommandClassification, classify_command, plan_beq, install_plan_beq,
  NpmPackageInstallPlan, NpmPackageInstallClassification, classify_npm_package_install, Version,
}

abbrev pub command_helper_protocol_version : ℕ
command_helper_protocol_version = 1

abbrev pub maximum_command_helper_request_bytes : ℕ
maximum_command_helper_request_bytes = 16 * 1024

pub data CommandHelperProtocolError : Type 0 where
  invalid_plan non_unicode_working_directory request_too_large : CommandHelperProtocolError
  invalid_encoding unsupported_version : CommandHelperProtocolError
  rejected_by_command_broker input_read_failed : CommandHelperProtocolError

pub data WireBaselineCommand : Type 0 where
  git_status git_diff git_diff_staged git_log node_run npm_build npm_test : WireBaselineCommand
  npm_typecheck cargo_check cargo_build cargo_test cargo_clippy : WireBaselineCommand
  cargo_fmt_check : WireBaselineCommand

-- `From<BaselineCommand> for WireBaselineCommand`.
unfoldable pub to_wire_command : BaselineCommand → WireBaselineCommand
to_wire_command BaselineCommand.git_status = WireBaselineCommand.git_status
to_wire_command BaselineCommand.git_diff = WireBaselineCommand.git_diff
to_wire_command BaselineCommand.git_diff_staged = WireBaselineCommand.git_diff_staged
to_wire_command BaselineCommand.git_log = WireBaselineCommand.git_log
to_wire_command BaselineCommand.node_run = WireBaselineCommand.node_run
to_wire_command BaselineCommand.npm_build = WireBaselineCommand.npm_build
to_wire_command BaselineCommand.npm_test = WireBaselineCommand.npm_test
to_wire_command BaselineCommand.npm_typecheck = WireBaselineCommand.npm_typecheck
to_wire_command BaselineCommand.cargo_check = WireBaselineCommand.cargo_check
to_wire_command BaselineCommand.cargo_build = WireBaselineCommand.cargo_build
to_wire_command BaselineCommand.cargo_test = WireBaselineCommand.cargo_test
to_wire_command BaselineCommand.cargo_clippy = WireBaselineCommand.cargo_clippy
to_wire_command BaselineCommand.cargo_fmt_check = WireBaselineCommand.cargo_fmt_check

-- `From<WireBaselineCommand> for BaselineCommand`.
unfoldable pub of_wire_command : WireBaselineCommand → BaselineCommand
of_wire_command WireBaselineCommand.git_status = BaselineCommand.git_status
of_wire_command WireBaselineCommand.git_diff = BaselineCommand.git_diff
of_wire_command WireBaselineCommand.git_diff_staged = BaselineCommand.git_diff_staged
of_wire_command WireBaselineCommand.git_log = BaselineCommand.git_log
of_wire_command WireBaselineCommand.node_run = BaselineCommand.node_run
of_wire_command WireBaselineCommand.npm_build = BaselineCommand.npm_build
of_wire_command WireBaselineCommand.npm_test = BaselineCommand.npm_test
of_wire_command WireBaselineCommand.npm_typecheck = BaselineCommand.npm_typecheck
of_wire_command WireBaselineCommand.cargo_check = BaselineCommand.cargo_check
of_wire_command WireBaselineCommand.cargo_build = BaselineCommand.cargo_build
of_wire_command WireBaselineCommand.cargo_test = BaselineCommand.cargo_test
of_wire_command WireBaselineCommand.cargo_clippy = BaselineCommand.cargo_clippy
of_wire_command WireBaselineCommand.cargo_fmt_check = BaselineCommand.cargo_fmt_check

pub data WireWorkspaceAccess : Type 0 where
  read_only read_write : WireWorkspaceAccess

unfoldable pub to_wire_access : WorkspaceCommandAccess → WireWorkspaceAccess
to_wire_access WorkspaceCommandAccess.read_only = WireWorkspaceAccess.read_only
to_wire_access WorkspaceCommandAccess.read_write = WireWorkspaceAccess.read_write

unfoldable pub of_wire_access : WireWorkspaceAccess → WorkspaceCommandAccess
of_wire_access WireWorkspaceAccess.read_only = WorkspaceCommandAccess.read_only
of_wire_access WireWorkspaceAccess.read_write = WorkspaceCommandAccess.read_write

pub record WireRequest : Type 0 where
  pub version : ℕ
  pub command : WireBaselineCommand
  pub working_directory : List ℕ
  pub access : WireWorkspaceAccess

pub data WireOperation : Type 0 where
  npm_package_install : WireOperation

pub record WireNpmPackageInstallRequest : Type 0 where
  pub version : ℕ
  pub operation : WireOperation
  pub working_directory : List ℕ
  pub package_name : Str
  pub exact_version : Str
  pub access : WireWorkspaceAccess

pub data DecodedCommandRequest : Type 0 where
  baseline : WorkspaceCommandPlan → DecodedCommandRequest
  npm_package_install : NpmPackageInstallPlan → DecodedCommandRequest

-- `serde_json::to_vec` and `serde_json::from_slice` for a type of requests.
pub record Json (Request : Type 0) : Type 0 where
  pub to_vec : Request → Option (List ℕ)
  pub from_slice : List ℕ → Option Request

-- What was written is read back.
abbrev pub ReadsBack : {Request : Type 0} → Json Request → Type 0
ReadsBack {Request} json =
    (request : Request) (encoded : List ℕ)
    → json.to_vec request ≡ some encoded
    → json.from_slice encoded ≡ some request

-- `Path::to_str`, the text as its bytes.
abbrev pub to_str : PathBuf → Option (List ℕ)
to_str path = if is_utf8 path then some path else none

unfoldable pub classify :
    PathBuf
    → BaselineCommand
    → WorkspaceCommandAccess
    → Result CommandHelperProtocolError WorkspaceCommandPlan
classify directory command access =
    elim (classify_command
      (record { working_directory = directory; intent = WorkspaceCommandIntent.baseline command })
      access) [ CommandClassification.baseline plan ↦ ok plan | _ ↦ err rejected_by_command_broker ]

module _ (json : Json WireRequest) where
  unfoldable pub encode_request :
      WorkspaceCommandPlan → WorkspaceCommandAccess → Result CommandHelperProtocolError (List ℕ)
  unfolding classify plan_beq to_wire_command to_wire_access
  encode_request plan access = do
    reclassified ← classify plan.working_directory plan.command access
    _ ← if plan_beq reclassified plan then ok tt else err invalid_plan
    directory ← ok_or (to_str plan.working_directory) non_unicode_working_directory
    encoded ←
        ok_or
          (json.to_vec (record {
            version = command_helper_protocol_version;
            command = to_wire_command plan.command;
            working_directory = directory;
            access = to_wire_access access;
          }))
          invalid_encoding
    if ltb maximum_command_helper_request_bytes (length encoded)
        then err request_too_large
        else ok encoded

  unfoldable pub decode_request : List ℕ → Result CommandHelperProtocolError WorkspaceCommandPlan
  unfolding classify of_wire_command of_wire_access
  decode_request encoded =
      if ltb maximum_command_helper_request_bytes (length encoded)
      then err request_too_large
      else elim (json.from_slice encoded) [
        | none ↦ err invalid_encoding
        | some request ↦
            if not (nat_beq request.version command_helper_protocol_version)
            then err unsupported_version
            else classify request.working_directory (of_wire_command request.command)
                (of_wire_access request.access)
      ]

module _ (parse_version : Str → Option Version) where
  unfoldable pub classify_npm_package_install_plan :
      PathBuf
      → Str
      → Str
      → WorkspaceCommandAccess
      → Result CommandHelperProtocolError NpmPackageInstallPlan
  classify_npm_package_install_plan directory package_name exact_version access =
      elim (classify_npm_package_install parse_version
        (record {
          working_directory = directory;
          package_name = package_name;
          exact_version = exact_version;
        })
        access) [
          | NpmPackageInstallClassification.action_time_confirmation_required plan ↦ ok plan
          | NpmPackageInstallClassification.denied _ ↦ err rejected_by_command_broker
        ]

  module _ (json : Json WireNpmPackageInstallRequest) where
    unfoldable pub encode_npm_package_install_request :
        NpmPackageInstallPlan → WorkspaceCommandAccess → Result CommandHelperProtocolError (List ℕ)
    unfolding classify_npm_package_install_plan install_plan_beq to_wire_access
    encode_npm_package_install_request plan access = do
      reclassified ←
          classify_npm_package_install_plan plan.working_directory plan.package_name
            plan.exact_version access
      _ ← if install_plan_beq reclassified plan then ok tt else err invalid_plan
      directory ← ok_or (to_str plan.working_directory) non_unicode_working_directory
      encoded ←
          ok_or
            (json.to_vec (record {
              version = command_helper_protocol_version;
              operation = npm_package_install;
              working_directory = directory;
              package_name = plan.package_name;
              exact_version = plan.exact_version;
              access = to_wire_access access;
            }))
            invalid_encoding
      if ltb maximum_command_helper_request_bytes (length encoded)
          then err request_too_large
          else ok encoded

    unfoldable pub decode_npm_package_install_request :
        List ℕ → Result CommandHelperProtocolError NpmPackageInstallPlan
    unfolding classify_npm_package_install_plan of_wire_access
    decode_npm_package_install_request encoded =
        if ltb maximum_command_helper_request_bytes (length encoded)
        then err request_too_large
        else elim (json.from_slice encoded) [
          | none ↦ err invalid_encoding
          | some request ↦
              if not (nat_beq request.version command_helper_protocol_version)
              then err unsupported_version
              else classify_npm_package_install_plan request.working_directory request.package_name
                  request.exact_version (of_wire_access request.access)
        ]

module _ (json : Json WireRequest) (parse_version : Str → Option Version)
    (npm_json : Json WireNpmPackageInstallRequest) where
  -- The second reading, with its plan as a request.
  abbrev pub decode_npm : List ℕ → Result CommandHelperProtocolError DecodedCommandRequest
  decode_npm encoded = elim (decode_npm_package_install_request parse_version npm_json encoded) [
    | err e ↦ err e
    | ok plan ↦ ok (DecodedCommandRequest.npm_package_install plan)
  ]

  unfoldable pub decode_command_request :
      List ℕ → Result CommandHelperProtocolError DecodedCommandRequest
  unfolding decode_request decode_npm_package_install_request
  decode_command_request encoded = elim (decode_request json encoded) [
    | ok plan ↦ ok (DecodedCommandRequest.baseline plan)
    | err request_too_large ↦ err request_too_large
    | err _ ↦ decode_npm encoded
  ]

  -- A reader is what it yields before its end, or the failure to read it.
  unfoldable pub decode_command_request_from_reader :
      Option (List ℕ) → Result CommandHelperProtocolError DecodedCommandRequest
  unfolding decode_command_request
  decode_command_request_from_reader none = err input_read_failed
  decode_command_request_from_reader (some input) =
      decode_command_request (take (suc maximum_command_helper_request_bytes) input)

  unfoldable pub decode_request_from_reader :
      Option (List ℕ) → Result CommandHelperProtocolError WorkspaceCommandPlan
  unfolding decode_request
  decode_request_from_reader none = err input_read_failed
  decode_request_from_reader (some input) =
      decode_request json (take (suc maximum_command_helper_request_bytes) input)
