-- ===== src/Helper/RoundTrip.antt =====
-- What the host encodes, the helper decodes (crates/moe-command-helper-protocol/src/lib.rs).
use m_i_o.Prelude.{
  ℕ, ◌≤◌, ◌≡◌, refl, Option, none, some, List, arith, length, ok, true, nat_beq, eq_refl, list_eq,
  nat_eq, Bool, take, suc, zero, ap, ◌∷◌, [],
}
use m_i_o.Text.{Str}
use m_i_o.Command.Paths.{PathBuf, path_beq, components, component_eq}
use m_i_o.Command.Classification.{
  WorkspaceCommandAccess, WorkspaceCommandRequest, WorkspaceCommandPlan, BaselineCommand,
  CommandClassification, classify_command, plan_beq, install_plan_beq, NpmPackageInstallPlan,
  NpmPackageInstallRequest, NpmPackageInstallClassification, classify_npm_package_install, Version,
  bool_beq, command_discriminant, tool_discriminant,
}
use m_i_o.Command.Classification.Safety.{classify_command-plan_idem, install_plan_idem}
use m_i_o.Helper.{
  Json, ReadsBack, WireRequest, to_wire_command, of_wire_command, to_wire_access, of_wire_access,
  WireNpmPackageInstallRequest, npm_package_install, DecodedCommandRequest,
  classify_npm_package_install_plan, encode_npm_package_install_request,
  decode_npm_package_install_request, decode_command_request, decode_command_request_from_reader,
  classify, encode_request, decode_request, maximum_command_helper_request_bytes,
}

of-to_wire_command : (c : BaselineCommand) → of_wire_command (to_wire_command c) ≡ c
unfolding of_wire_command to_wire_command
of-to_wire_command c = ground arith

of-to_wire_access : (a : WorkspaceCommandAccess) → of_wire_access (to_wire_access a) ≡ a
unfolding of_wire_access to_wire_access
of-to_wire_access a = ground arith

path_beq_refl : (p : PathBuf) → path_beq p p ≡ true
unfolding path_beq
path_beq_refl p = eq_refl (components p)

nat_beq_refl : (n : ℕ) → nat_beq n n ≡ true
nat_beq_refl n = ground arith

bool_beq_refl : (b : Bool) → bool_beq b b ≡ true
bool_beq_refl b = ground arith

plan_beq_refl : (p : WorkspaceCommandPlan) → plan_beq p p ≡ true
unfolding plan_beq
plan_beq_refl p = ground (
  arith,
  path_beq_refl p.working_directory,
  nat_beq_refl (command_discriminant p.command),
  nat_beq_refl (tool_discriminant p.tool),
  bool_beq_refl p.network_enabled,
  bool_beq_refl p.accepts_shell_command_string,
  nat_beq_refl p.maximum_output_bytes,
  nat_beq_refl p.maximum_seconds,
)

install_plan_beq_refl : (p : NpmPackageInstallPlan) → install_plan_beq p p ≡ true
unfolding install_plan_beq
install_plan_beq_refl p =
    ground
      (arith, path_beq_refl p.working_directory, eq_refl p.package_name, eq_refl p.exact_version)

-- A plan that the broker made is made again.
abbrev pub IsClassified : WorkspaceCommandAccess → WorkspaceCommandPlan → Type 0
IsClassified access plan = classify plan.working_directory plan.command access ≡ ok plan

classified :
    (request : WorkspaceCommandRequest) (access : WorkspaceCommandAccess)
    {plan : WorkspaceCommandPlan}
    → classify_command request access ≡ CommandClassification.baseline plan
    → IsClassified access plan
unfolding classify
classified request access {plan} e = rw (classify_command-plan_idem request access e, classify) refl

-- What was encoded: a request in bounds.
encoded_request :
    (json : Json WireRequest) (plan : WorkspaceCommandPlan) (access : WorkspaceCommandAccess)
    {encoded : List ℕ}
    → IsClassified access plan
    → encode_request json plan access ≡ ok encoded
    → (json.to_vec (record {
      version = 1;
      command = to_wire_command plan.command;
      working_directory = plan.working_directory;
      access = to_wire_access access;
    })
        ≡ some encoded)
      × (length encoded ≤ maximum_command_helper_request_bytes)
unfolding encode_request
encoded_request json plan access {encoded} c e = ground (arith, c, e, plan_beq_refl plan)

decode-encode_request :
    (json : Json WireRequest) (plan : WorkspaceCommandPlan) (access : WorkspaceCommandAccess)
    {encoded : List ℕ}
    → ReadsBack json
    → IsClassified access plan
    → encode_request json plan access ≡ ok encoded
    → decode_request json encoded ≡ ok plan
unfolding decode_request
decode-encode_request json plan access {encoded} reads c e =
    let (written, short) = encoded_request json plan access c e in
    rw (reads _ encoded written, of-to_wire_command plan.command, of-to_wire_access access)
      (ground (arith, short, c))

take_all : (n : ℕ) (s : List ℕ) → length s ≤ n → take n s ≡ s
take_all zero [] short = refl
take_all zero (c ∷ s) short = absurd (omega arith)
take_all (suc n) [] short = refl
take_all (suc n) (c ∷ s) short = ap (λ l. c ∷ l) (take_all n s (omega arith))

module _ (parse_version : Str → Option Version) where
  abbrev pub IsInstallable : WorkspaceCommandAccess → NpmPackageInstallPlan → Type 0
  IsInstallable access plan =
      classify_npm_package_install_plan parse_version plan.working_directory plan.package_name
        plan.exact_version access
      ≡ ok plan

  installable :
      (request : NpmPackageInstallRequest) (access : WorkspaceCommandAccess)
      {plan : NpmPackageInstallPlan}
      → classify_npm_package_install parse_version request access
        ≡ NpmPackageInstallClassification.action_time_confirmation_required plan
      → IsInstallable access plan
  unfolding classify_npm_package_install_plan
  installable request access {plan} e =
      rw (install_plan_idem parse_version request access e, classify_npm_package_install_plan) refl

  module _ (npm_json : Json WireNpmPackageInstallRequest) where
    encoded_install :
        (plan : NpmPackageInstallPlan) (access : WorkspaceCommandAccess) {encoded : List ℕ}
        → IsInstallable access plan
        → encode_npm_package_install_request parse_version npm_json plan access ≡ ok encoded
        → (npm_json.to_vec (record {
          version = 1;
          operation = npm_package_install;
          working_directory = plan.working_directory;
          package_name = plan.package_name;
          exact_version = plan.exact_version;
          access = to_wire_access access;
        })
            ≡ some encoded)
          × (length encoded ≤ maximum_command_helper_request_bytes)
    unfolding encode_npm_package_install_request
    encoded_install plan access {encoded} c e = ground (arith, c, e, install_plan_beq_refl plan)

    decode-encode_install :
        (plan : NpmPackageInstallPlan) (access : WorkspaceCommandAccess) {encoded : List ℕ}
        → ReadsBack npm_json
        → IsInstallable access plan
        → encode_npm_package_install_request parse_version npm_json plan access ≡ ok encoded
        → decode_npm_package_install_request parse_version npm_json encoded ≡ ok plan
    unfolding decode_npm_package_install_request
    decode-encode_install plan access {encoded} reads c e =
        let (written, short) = encoded_install plan access c e in
        rw (reads _ encoded written, of-to_wire_access access) (ground (arith, short, c))

    module _ (json : Json WireRequest) where
      -- The encoding of a plan that the broker made, read by the helper, gives that plan, provided
      -- that serde reads back what it writes.
      pub decode_command_request-encode_request :
          (request : WorkspaceCommandRequest) (access : WorkspaceCommandAccess)
          {plan : WorkspaceCommandPlan} {encoded : List ℕ}
          → ReadsBack json
          → classify_command request access ≡ CommandClassification.baseline plan
          → encode_request json plan access ≡ ok encoded
          → decode_command_request_from_reader json parse_version npm_json (some encoded)
            ≡ ok (DecodedCommandRequest.baseline plan)
      unfolding decode_command_request_from_reader decode_command_request
      decode_command_request-encode_request request access {plan} {encoded} reads c e =
          let made = classified request access c in
          let short = (encoded_request json plan access made e).1 in
          rw
            (
              take_all (suc maximum_command_helper_request_bytes) encoded (omega (arith, short)),
              decode-encode_request json plan access reads made e,
              decode_command_request,
            )
            refl

      -- The encoding of an installation that the broker lets be asked about, read by the helper,
      -- gives that installation, provided that serde reads back what it writes and refuses the
      -- fields of an installation in a request for a command.
      pub decode_command_request-encode_install :
          (request : NpmPackageInstallRequest) (access : WorkspaceCommandAccess)
          {plan : NpmPackageInstallPlan} {encoded : List ℕ}
          → ReadsBack npm_json
          → ((r : WireNpmPackageInstallRequest)
              → (b : List ℕ) → npm_json.to_vec r ≡ some b
              → json.from_slice b ≡ none)
          → classify_npm_package_install parse_version request access
            ≡ NpmPackageInstallClassification.action_time_confirmation_required plan
          → encode_npm_package_install_request parse_version npm_json plan access ≡ ok encoded
          → decode_command_request_from_reader json parse_version npm_json (some encoded)
            ≡ ok (DecodedCommandRequest.npm_package_install plan)
      unfolding decode_command_request_from_reader decode_command_request decode_request
      decode_command_request-encode_install request access {plan} {encoded} reads refuses c e =
          let made = installable request access c in
          let (written, short) = encoded_install plan access made e in
          let refused = refuses _ encoded written in
          rw (take_all (suc maximum_command_helper_request_bytes) encoded (omega (arith, short)))
            (ground (arith, short, refused, decode-encode_install plan access reads made e))
