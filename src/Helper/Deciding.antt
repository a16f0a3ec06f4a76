-- ===== src/Helper/Deciding.antt =====
-- What the helper accepts, and for which request, and what it refuses, for any bytes
-- (crates/moe-command-helper-protocol/src/lib.rs).
use m_i_o.Prelude.{
  ℕ, suc, zero, ◌<◌, ◌≤◌, ◌≡◌, ◌↔◌, ◌⊎◌, refl, Option, some, List, [], ◌∷◌, arith, length, take, ok,
  err, is_ok, ap, false, Result-cases, Option-cases, inl, inr, subst, sym, ◌∙◌,
}
use m_i_o.Text.{Str}
use m_i_o.Command.Paths.Joining.{IsWithin, workspace_relative_directory-IsWithin}
use m_i_o.Command.Classification.{
  WorkspaceCommandAccess, WorkspaceCommandIntent, WorkspaceCommandRequest, WorkspaceCommandPlan,
  NpmPackageInstallRequest, BaselineCommand, CommandClassification, classify_command,
  NpmPackageInstallPlan, NpmPackageInstallClassification, classify_npm_package_install, Version,
}
use m_i_o.Command.Classification.Safety.{
  classify_command-IsConfined, IsConfined, IsPlanFor, baseline_plan, IsInstallFor, install_plan,
}
use m_i_o.Helper.{
  Json, WireRequest, WireNpmPackageInstallRequest, DecodedCommandRequest, of_wire_command,
  of_wire_access, classify_npm_package_install_plan, decode_npm_package_install_request,
  decode_command_request, decode_command_request_from_reader, decode_npm, classify, decode_request,
  CommandHelperProtocolError, command_helper_protocol_version, request_too_large,
  rejected_by_command_broker, maximum_command_helper_request_bytes,
}

-- The command that a decoded request asks for.
abbrev pub command_request : WireRequest → WorkspaceCommandRequest
command_request request = record {
  working_directory = request.working_directory;
  intent = WorkspaceCommandIntent.baseline (of_wire_command request.command);
}

-- The plan is the one for the directory and the command of the request, and it is confined for the
-- access of the request.
abbrev pub IsConfinedFor : WireRequest → WorkspaceCommandPlan → Type 0
IsConfinedFor request plan =
    (request.version ≡ command_helper_protocol_version)
    × IsPlanFor (command_request request) (of_wire_access request.access) plan
    × IsConfined (of_wire_access request.access) plan

classify_of :
    (request : WorkspaceCommandRequest) (command : BaselineCommand)
    (access : WorkspaceCommandAccess) (found : CommandClassification)
    → request.intent ≡ WorkspaceCommandIntent.baseline command
    → classify_command request access ≡ found
    → (classify request.working_directory command access ≡ err rejected_by_command_broker)
      ⊎ ((plan : WorkspaceCommandPlan) × (classify request.working_directory command access
            ≡ ok plan)
          × IsPlanFor request access plan
          × IsConfined access plan)
unfolding classify
classify_of request command access (CommandClassification.baseline plan) i e = inr (
  plan,
  ground (arith, e, i),
  baseline_plan request access e,
  classify_command-IsConfined request access e,
)
classify_of request command access (CommandClassification.action_time_confirmation_required r) i e =
    inl (ground (arith, e, i))
classify_of request command access (CommandClassification.denied r) i e = inl (ground (arith, e, i))

classify-cases :
    (request : WireRequest)
    → let found =
        classify request.working_directory
          (of_wire_command request.command)
          (of_wire_access request.access) in
      (found ≡ err rejected_by_command_broker)
      ⊎ ((plan : WorkspaceCommandPlan) × (found ≡ ok plan)
          × IsPlanFor (command_request request) (of_wire_access request.access) plan
          × IsConfined (of_wire_access request.access) plan)
classify-cases request =
    classify_of (command_request request) (of_wire_command request.command)
      (of_wire_access request.access) _ refl refl

module _ (json : Json WireRequest) where
  decode_request-IsConfinedFor :
      (encoded : List ℕ) {plan : WorkspaceCommandPlan}
      → decode_request json encoded ≡ ok plan
      → (request : WireRequest) × (json.from_slice encoded ≡ some request)
        × IsConfinedFor request plan
  unfolding decode_request
  decode_request-IsConfinedFor encoded {plan} e = elim (Option-cases (json.from_slice encoded)) [
    | inl unread ↦ absurd (ground (arith, e, unread))
    | inr (request, read) ↦ elim (classify-cases request) [
      | inl rejected ↦ absurd (ground (arith, e, read, rejected))
      | inr (found, made, asked, confined) ↦
          let same : found ≡ plan = ground (arith, e, read, made) in
          (
            request,
            read,
            (
              ground (arith, e, read),
              subst (IsPlanFor (command_request request) (of_wire_access request.access)) same
                  asked,
              subst (IsConfined (of_wire_access request.access)) same confined,
            ),
          )
    ]
  ]

  decode_request-too_large_iff :
      (encoded : List ℕ)
      → (decode_request json encoded ≡ err request_too_large)
        ↔ (maximum_command_helper_request_bytes < length encoded)
  unfolding decode_request
  decode_request-too_large_iff encoded = elim (Option-cases (json.from_slice encoded)) [
    | inl unread ↦ ground (arith, unread)
    | inr (request, read) ↦ elim (classify-cases request) [
      | inl rejected ↦ ground (arith, read, rejected)
      | inr (found, made, asked, confined) ↦ ground (arith, read, made)
    ]
  ]

module _ (parse_version : Str → Option Version) where
  -- The installation that a decoded request asks for.
  abbrev pub install_request : WireNpmPackageInstallRequest → NpmPackageInstallRequest
  install_request request = record {
    working_directory = request.working_directory;
    package_name = request.package_name;
    exact_version = request.exact_version;
  }

  -- The installation is the one that the request asks for, with read and write access, of a
  -- package with a valid name and an exact version; and it is inside the workspace.
  abbrev pub IsAskableFor : WireNpmPackageInstallRequest → NpmPackageInstallPlan → Type 0
  IsAskableFor request plan =
      (request.version ≡ command_helper_protocol_version)
      × IsInstallFor parse_version (install_request request) (of_wire_access request.access) plan
      × IsWithin plan.working_directory

  install_of :
      (request : NpmPackageInstallRequest) (access : WorkspaceCommandAccess)
      (found : NpmPackageInstallClassification)
      → classify_npm_package_install parse_version request access ≡ found
      → (classify_npm_package_install_plan parse_version request.working_directory
            request.package_name request.exact_version access
          ≡ err rejected_by_command_broker)
        ⊎ ((plan : NpmPackageInstallPlan) × (classify_npm_package_install_plan parse_version
                request.working_directory request.package_name request.exact_version access
              ≡ ok plan)
            × IsInstallFor parse_version request access plan)
  unfolding classify_npm_package_install_plan
  install_of request access (NpmPackageInstallClassification.denied r) e = inl (ground (arith, e))
  install_of request access (NpmPackageInstallClassification.action_time_confirmation_required plan)
        e =
      inr (plan, ground (arith, e), install_plan parse_version request access e)

  module _ (npm_json : Json WireNpmPackageInstallRequest) where
    decode_install-IsAskableFor :
        (encoded : List ℕ) {plan : NpmPackageInstallPlan}
        → decode_npm_package_install_request parse_version npm_json encoded ≡ ok plan
        → (request : WireNpmPackageInstallRequest) × (npm_json.from_slice encoded ≡ some request)
          × IsAskableFor request plan
    unfolding decode_npm_package_install_request
    decode_install-IsAskableFor encoded {plan} e =
        elim (Option-cases (npm_json.from_slice encoded)) [
          | inl unread ↦ absurd (ground (arith, e, unread))
          | inr (r, read) ↦ elim (install_of (install_request r) (of_wire_access r.access) _ refl) [
            | inl rejected ↦ absurd (ground (arith, e, read, rejected))
            | inr (found, made, fine) ↦
                let same : found ≡ plan = ground (arith, e, read, made) in
                let asked =
                  subst (IsInstallFor parse_version (install_request r) (of_wire_access r.access))
                    same fine in
                (
                  r,
                  read,
                  (
                    ground (arith, e, read),
                    asked,
                    workspace_relative_directory-IsWithin r.working_directory asked.0,
                  ),
                )
          ]
        ]

    decode_install-too_large_iff :
        (encoded : List ℕ)
        → (decode_npm_package_install_request parse_version npm_json encoded
            ≡ err request_too_large)
          ↔ (maximum_command_helper_request_bytes < length encoded)
    unfolding decode_npm_package_install_request
    decode_install-too_large_iff encoded = elim (Option-cases (npm_json.from_slice encoded)) [
      | inl unread ↦ ground (arith, unread)
      | inr (r, read) ↦ elim (install_of (install_request r) (of_wire_access r.access) _ refl) [
        | inl rejected ↦ ground (arith, read, rejected)
        | inr (found, made, fine) ↦ ground (arith, read, made)
      ]
    ]

    module _ (json : Json WireRequest) where
      -- What the helper may run when it has read these bytes: it follows from the request in
      -- them, and an installation only if they are no command that is let through.
      abbrev pub IsAllowed : List ℕ → DecodedCommandRequest → Type 0
      IsAllowed encoded (DecodedCommandRequest.baseline plan) =
          (request : WireRequest) × (json.from_slice encoded ≡ some request)
          × IsConfinedFor request plan
      IsAllowed encoded (DecodedCommandRequest.npm_package_install plan) =
          (is_ok (decode_request json encoded) ≡ false)
          × (request : WireNpmPackageInstallRequest) × (npm_json.from_slice encoded ≡ some request)
          × IsAskableFor request plan

      refused_first :
          (encoded : List ℕ) (e : CommandHelperProtocolError)
          → decode_request json encoded ≡ err e
          → (decode_command_request json parse_version npm_json encoded ≡ err request_too_large)
            ⊎ (decode_command_request json parse_version npm_json encoded
                ≡ decode_npm json parse_version npm_json encoded)
      unfolding decode_command_request
      refused_first encoded request_too_large f = inl (ground (arith, f))
      refused_first encoded _ f = inr (ground (arith, f))

      decode_npm-IsAllowed :
          (encoded : List ℕ) {decoded : DecodedCommandRequest}
          → is_ok (decode_request json encoded) ≡ false
          → decode_npm json parse_version npm_json encoded ≡ ok decoded
          → IsAllowed encoded decoded
      decode_npm-IsAllowed encoded {decoded} first e =
          elim (Result-cases (decode_npm_package_install_request parse_version npm_json encoded)) [
            | inl (_, refused) ↦ absurd (ground (arith, e, refused))
            | inr (plan, made) ↦
                let same : DecodedCommandRequest.npm_package_install plan ≡ decoded =
                  ground (arith, e, made) in
                let (request, read, asked) = decode_install-IsAskableFor encoded made in
                subst (IsAllowed encoded) same (first, request, read, asked)
          ]

      decode_command_request-IsAllowed :
          (encoded : List ℕ) {decoded : DecodedCommandRequest}
          → decode_command_request json parse_version npm_json encoded ≡ ok decoded
          → IsAllowed encoded decoded
      unfolding decode_command_request
      decode_command_request-IsAllowed encoded {decoded} e =
          elim (Result-cases (decode_request json encoded)) [
            | inr (plan, made) ↦
                let same : DecodedCommandRequest.baseline plan ≡ decoded =
                  ground (arith, e, made) in
                subst (IsAllowed encoded) same (decode_request-IsConfinedFor json encoded made)
            | inl (f, refused) ↦ elim (refused_first encoded f refused) [
              | inl large ↦ absurd (ground (arith, e, large))
              | inr second ↦ decode_npm-IsAllowed encoded (ground (arith, refused)) (sym second ∙ e)
            ]
          ]

      decode_command_request-too_large_iff :
          (encoded : List ℕ)
          → (decode_command_request json parse_version npm_json encoded ≡ err request_too_large)
            ↔ (maximum_command_helper_request_bytes < length encoded)
      unfolding decode_command_request
      decode_command_request-too_large_iff encoded =
          ground
            (arith, decode_request-too_large_iff json encoded, decode_install-too_large_iff encoded)

      length-take_iff : (n : ℕ) (s : List ℕ) → (n < length (take (suc n) s)) ↔ (n < length s)
      length-take_iff zero [] = ground arith
      length-take_iff zero (c ∷ s) = ground arith
      length-take_iff (suc n) [] = ground arith
      length-take_iff (suc n) (c ∷ s) = ground (arith, length-take_iff n s)

      take_whole : (n : ℕ) (s : List ℕ) → length s ≤ n → take n s ≡ s
      take_whole zero [] h = refl
      take_whole zero (c ∷ s) h = absurd (omega arith)
      take_whole (suc n) [] h = refl
      take_whole (suc n) (c ∷ s) h = ap (λ l. c ∷ l) (take_whole n s (omega arith))

      -- Whatever bytes the helper reads, it accepts them only if they are not too long, and only
      -- for what the request in them asks. They are read as a command of this protocol version,
      -- and the plan is for the directory and the command of that request, and confined for the
      -- access that the request states; or they are no such command that is let through, they are
      -- read as an installation of this protocol version, which states read and write access, and
      -- the plan is for its package, with a valid name and an exact version, and for its
      -- directory, which is inside the workspace. Paths are read as they are outside Windows.
      pub decode_from_reader-IsAllowed :
          (input : List ℕ) {decoded : DecodedCommandRequest}
          → decode_command_request_from_reader json parse_version npm_json (some input) ≡ ok decoded
          → (length input ≤ maximum_command_helper_request_bytes) × IsAllowed input decoded
      unfolding decode_command_request_from_reader
      decode_from_reader-IsAllowed input {decoded} e =
          let read = take (suc maximum_command_helper_request_bytes) input in
          let large = (decode_command_request-too_large_iff read).1 in
          let long = (length-take_iff maximum_command_helper_request_bytes input).1 in
          let fits : length input ≤ maximum_command_helper_request_bytes =
            ground (arith, e, large, long) in
          let whole = take_whole (suc maximum_command_helper_request_bytes) input (omega arith) in
          (
            fits,
            subst (λ l. IsAllowed l decoded) whole
                (decode_command_request-IsAllowed read {decoded = decoded} e),
          )

      -- The helper reads one byte more than a request may have, and this is enough: it reports a
      -- request as too large exactly if the whole input is longer than that.
      pub decode_from_reader-too_large_iff :
          (input : List ℕ)
          → (decode_command_request_from_reader json parse_version npm_json (some input)
              ≡ err request_too_large)
            ↔ (maximum_command_helper_request_bytes < length input)
      unfolding decode_command_request_from_reader
      decode_from_reader-too_large_iff input =
          let read =
            decode_command_request-too_large_iff
              (take (suc maximum_command_helper_request_bytes) input) in
          let long = length-take_iff maximum_command_helper_request_bytes input in
          (λ e. long.0 (read.0 e), λ h. read.1 (long.1 h))
