-- ===== src/Helper/Samples.antt =====
-- A small codec in place of serde_json, with which the theorems on the command helper's requests
-- (crates/moe-command-helper-protocol/src/lib.rs) are applied.
use m_i_o.Prelude.{
  ℕ, zero, suc, ◌*◌, ◌↔◌, ◌<◌, ◌≤◌, ◌≡◌, refl, Option, none, some, List, [], ◌∷◌, ◌++◌, arith,
  length, ok, err, if◌then◌else◌, ◌&&◌, ◌==◌, list_eq, nat_eq, eq_iff, true, false, Bool,
  Bool-cases, inl, inr, list_beq, all,
}
use m_i_o.Text.{Str, lit}
use m_i_o.Command.Paths.{PathBuf}
use m_i_o.Command.Classification.{
  Version, read_write, read_only, cargo_test, WorkspaceCommandRequest, WorkspaceCommandPlan,
  WorkspaceCommandIntent, NpmPackageInstallRequest, NpmPackageInstallPlan,
}
use m_i_o.Command.Classification.Safety.{plan_for}
use m_i_o.Helper.{
  Json, ReadsBack, WireRequest, WireBaselineCommand, WireWorkspaceAccess,
  WireNpmPackageInstallRequest, npm_package_install, DecodedCommandRequest,
  decode_command_request_from_reader, request_too_large, maximum_command_helper_request_bytes,
}
use m_i_o.Helper.RoundTrip.{
  decode_command_request-encode_request, decode_command_request-encode_install,
}
use m_i_o.Helper.Deciding.{IsAllowed, decode_from_reader-IsAllowed}

write : ℕ → WireBaselineCommand → List ℕ → WireWorkspaceAccess → Option (List ℕ)
write version WireBaselineCommand.cargo_test directory WireWorkspaceAccess.read_write =
    some (0 ∷ version ∷ directory)
write version WireBaselineCommand.git_status directory WireWorkspaceAccess.read_only =
    some (1 ∷ version ∷ directory)
write _ _ _ _ = none

abbrev read : List ℕ → Option WireRequest
read (zero ∷ version ∷ directory) = some (record {
  version = version;
  command = WireBaselineCommand.cargo_test;
  working_directory = directory;
  access = WireWorkspaceAccess.read_write;
})
read (suc zero ∷ version ∷ directory) = some (record {
  version = version;
  command = WireBaselineCommand.git_status;
  working_directory = directory;
  access = WireWorkspaceAccess.read_only;
})
read _ = none

abbrev json : Json WireRequest
json = record {
  to_vec = λ r. write r.version r.command r.working_directory r.access;
  from_slice = read;
}

read-write :
    (version : ℕ) (command : WireBaselineCommand) (directory : List ℕ)
    (access : WireWorkspaceAccess) (encoded : List ℕ)
    → write version command directory access ≡ some encoded
    → read encoded
      ≡ some (record {
        version = version;
        command = command;
        working_directory = directory;
        access = access;
      })
unfolding write
read-write version WireBaselineCommand.cargo_test directory WireWorkspaceAccess.read_write encoded
      e =
    ground (arith, e)
read-write version WireBaselineCommand.git_status directory WireWorkspaceAccess.read_only encoded
      e =
    ground (arith, e)
read-write version command directory access encoded e = ground (arith, e)

json-ReadsBack : ReadsBack json
json-ReadsBack r encoded e = read-write r.version r.command r.working_directory r.access encoded e

abbrev is_react : Str → Str → Bool
is_react name version = name == lit "react" && version == lit "19.1.0"

npm_write : ℕ → List ℕ → Str → Str → WireWorkspaceAccess → Option (List ℕ)
npm_write version directory name exact_version WireWorkspaceAccess.read_write =
    if is_react name exact_version then some (2 ∷ version ∷ directory) else none
npm_write version directory name exact_version WireWorkspaceAccess.read_only = none

abbrev npm_read : List ℕ → Option WireNpmPackageInstallRequest
npm_read (suc (suc zero) ∷ version ∷ directory) = some (record {
  version = version;
  operation = npm_package_install;
  working_directory = directory;
  package_name = lit "react";
  exact_version = lit "19.1.0";
  access = WireWorkspaceAccess.read_write;
})
npm_read _ = none

abbrev npm_json : Json WireNpmPackageInstallRequest
npm_json = record {
  to_vec = λ r. npm_write r.version r.working_directory r.package_name r.exact_version r.access;
  from_slice = npm_read;
}

npm_write-IsTagged :
    (version : ℕ) (directory : List ℕ) (name exact_version : Str) (access : WireWorkspaceAccess)
    (encoded : List ℕ)
    → npm_write version directory name exact_version access ≡ some encoded
    → (encoded ≡ 2 ∷ version ∷ directory)
      × (name ≡ lit "react")
      × (exact_version ≡ lit "19.1.0")
      × (access ≡ WireWorkspaceAccess.read_write)
unfolding npm_write
npm_write-IsTagged version directory name exact_version access encoded e =
    ground (arith, e, eq_iff name (lit "react"), eq_iff exact_version (lit "19.1.0"))

npm_json-ReadsBack : ReadsBack npm_json
npm_json-ReadsBack r encoded e =
    let (tag, name, version, access) =
      npm_write-IsTagged r.version r.working_directory r.package_name r.exact_version r.access
        encoded e in
    ground (arith, tag, name, version, access)

json-refuses :
    (r : WireNpmPackageInstallRequest)
    → (encoded : List ℕ) → npm_json.to_vec r ≡ some encoded
    → json.from_slice encoded ≡ none
json-refuses r encoded e =
    rw
      ((npm_write-IsTagged r.version r.working_directory r.package_name r.exact_version r.access
        encoded e).0)
      refl

abbrev parse_version : Str → Option Version
parse_version text =
    if text == lit "19.1.0" then some (record { text = text; has_build = false }) else none

abbrev test_request : WorkspaceCommandRequest
test_request = record {
  working_directory = lit "packages//app/.";
  intent = WorkspaceCommandIntent.baseline cargo_test;
}

abbrev install_request : NpmPackageInstallRequest
install_request = record {
  working_directory = lit "packages/app/";
  package_name = lit "react";
  exact_version = lit "19.1.0";
}

abbrev install : NpmPackageInstallPlan
install = record {
  working_directory = lit "packages/app";
  package_name = lit "react";
  exact_version = lit "19.1.0";
}

decode_command_request-encode_request_example :
    decode_command_request_from_reader json parse_version npm_json
      (some (0 ∷ 1 ∷ lit "packages/app"))
    ≡ ok (DecodedCommandRequest.baseline (plan_for (lit "packages/app") cargo_test))
unfolding m_i_o.Command.Classification.classify_command
    m_i_o.Command.Paths.workspace_relative_directory m_i_o.Command.Paths.path_beq list_beq
    m_i_o.Command.Paths.relative_from m_i_o.Prelude.contains m_i_o.Prelude.option_beq
    m_i_o.Prelude.last m_i_o.Command.Classification.baseline_writes_workspace
    m_i_o.Helper.encode_request m_i_o.Command.Classification.tool m_i_o.Text.is_utf8 write
decode_command_request-encode_request_example =
    decode_command_request-encode_request parse_version npm_json json test_request read_write
      json-ReadsBack refl refl

decode_command_request-encode_install_example :
    decode_command_request_from_reader json parse_version npm_json
      (some (2 ∷ 1 ∷ lit "packages/app"))
    ≡ ok (DecodedCommandRequest.npm_package_install install)
unfolding m_i_o.Command.Classification.classify_npm_package_install
    m_i_o.Command.Paths.workspace_relative_directory m_i_o.Command.Paths.path_beq list_beq
    m_i_o.Command.Paths.relative_from m_i_o.Prelude.contains m_i_o.Prelude.option_beq
    m_i_o.Prelude.last m_i_o.Command.Classification.valid_npm_package_name m_i_o.Text.len
    m_i_o.Prelude.any m_i_o.Command.Classification.valid_npm_name_component all
    m_i_o.Command.Classification.valid_exact_npm_version
    m_i_o.Helper.encode_npm_package_install_request m_i_o.Text.is_utf8 npm_write
decode_command_request-encode_install_example =
    decode_command_request-encode_install parse_version npm_json json install_request read_write
      npm_json-ReadsBack json-refuses refl refl

decode_from_reader-IsAllowed_example :
    (length (2 ∷ 1 ∷ lit "packages/app//") ≤ maximum_command_helper_request_bytes)
    × IsAllowed parse_version npm_json json
        (2 ∷ 1 ∷ lit "packages/app//")
        (DecodedCommandRequest.npm_package_install install)
unfolding decode_command_request_from_reader
    m_i_o.Command.Classification.classify_npm_package_install
    m_i_o.Command.Paths.workspace_relative_directory m_i_o.Command.Paths.path_beq list_beq
    m_i_o.Command.Paths.relative_from m_i_o.Prelude.contains m_i_o.Prelude.option_beq
    m_i_o.Prelude.last m_i_o.Command.Classification.valid_npm_package_name m_i_o.Text.len
    m_i_o.Prelude.any m_i_o.Command.Classification.valid_npm_name_component all
    m_i_o.Command.Classification.valid_exact_npm_version
decode_from_reader-IsAllowed_example =
    decode_from_reader-IsAllowed parse_version npm_json json (2 ∷ 1 ∷ lit "packages/app//") refl
