-- ===== src/Command/Confirmation.antt =====
-- The types of the confirmations that the owner gives or refuses, and what their constructors
-- check (crates/moe-command-broker/src/confirmation.rs).
use m_i_o.Prelude.{
  ℕ, ◌≡◌, ◌↔◌, Bool, true, not, ◌&&◌, ◌||◌, arith, length, is_empty, all, leb, between,
  if◌then◌else◌, Result, ok, err, PartialEq, ◌==◌, eq_iff, list_eq, nat_eq,
}
use m_i_o.Text.{Str, bytes, len}
use m_i_o.Command.Policy.{ActionTimeCommand, command_eq}

abbrev pub maximum_confirmation_id_bytes : ℕ
maximum_confirmation_id_bytes = 128

abbrev pub maximum_scope_id_bytes : ℕ
maximum_scope_id_bytes = 256

abbrev pub maximum_target_characters : ℕ
maximum_target_characters = 256

abbrev pub maximum_pending_confirmations : ℕ
maximum_pending_confirmations = 32

abbrev pub maximum_terminal_confirmations : ℕ
maximum_terminal_confirmations = 1024

unfoldable pub valid_identifier : Str → ℕ → Bool
valid_identifier value maximum_bytes =
    not (is_empty value)
    && leb (len value) maximum_bytes
    && all (λ byte. between b'!' b'~' byte) (bytes value)

unfoldable pub valid_target_label : Str → Bool
valid_target_label value =
    not (is_empty value)
    && leb (length value) maximum_target_characters
    && all (λ character. not (leb character 0x1f || between 0x7f 0x9f character)) value

pub record CommandConfirmationScope : Type 0 where
  pub room_id : Str
  pub session_id : Str
  pub workspace_key : Str
  pub command : ActionTimeCommand
  pub target_label : Str

abbrev pub scope_beq : CommandConfirmationScope → CommandConfirmationScope → Bool
scope_beq a b =
    a.room_id == b.room_id
    && a.session_id == b.session_id
    && a.workspace_key == b.workspace_key
    && a.command == b.command
    && a.target_label == b.target_label

pub scope_beq_iff : (a b : CommandConfirmationScope) → (scope_beq a b ≡ true) ↔ (a ≡ b)
scope_beq_iff a b = ground (
  arith,
  eq_iff a.room_id b.room_id,
  eq_iff a.session_id b.session_id,
  eq_iff a.workspace_key b.workspace_key,
  eq_iff a.command b.command,
  eq_iff a.target_label b.target_label,
)

instance abbrev pub scope_eq : PartialEq CommandConfirmationScope
scope_eq = record { test = scope_beq; law = scope_beq_iff }

pub data ConfirmationContractError : Type 0 where
  invalid_request_id invalid_scope request_id_conflict : ConfirmationContractError
  request_already_resolved unknown_request too_many_pending : ConfirmationContractError
  terminal_registry_full scope_mismatch : ConfirmationContractError

-- `CommandConfirmationScope::new`.
unfoldable pub new_scope :
    CommandConfirmationScope → Result ConfirmationContractError CommandConfirmationScope
new_scope scope =
    if not (valid_identifier scope.room_id maximum_scope_id_bytes)
      || not (valid_identifier scope.session_id maximum_scope_id_bytes)
      || not (valid_identifier scope.workspace_key maximum_scope_id_bytes)
      || not (valid_target_label scope.target_label)
    then err invalid_scope
    else ok scope

pub record CommandConfirmationRequest : Type 0 where
  pub request_id : Str
  pub scope : CommandConfirmationScope

-- `CommandConfirmationRequest::new`.
unfoldable pub new_request :
    Str → CommandConfirmationScope → Result ConfirmationContractError CommandConfirmationRequest
new_request request_id scope =
    if not (valid_identifier request_id maximum_confirmation_id_bytes)
    then err invalid_request_id
    else ok (record { request_id = request_id; scope = scope })

pub data ConfirmationDecision : Type 0 where
  allow_once allow_room_session deny dismissed timed_out : ConfirmationDecision

pub data ConfirmationDenial : Type 0 where
  owner_denied dismissed timed_out session_lifetime_not_allowed : ConfirmationDenial

pub data AuthorizationLifetime : Type 0 where
  once room_session : AuthorizationLifetime

pub record CommandAuthorization : Type 0 where
  pub request_id : Str
  pub scope : CommandConfirmationScope
  pub lifetime : AuthorizationLifetime

pub data ConfirmationRegisterOutcome : Type 0 where
  pending already_pending authorized_by_room_session : ConfirmationRegisterOutcome

pub data ConfirmationResolveOutcome : Type 0 where
  authorization_ready : ConfirmationResolveOutcome
  denied : ConfirmationDenial → ConfirmationResolveOutcome

pub record ReadyAuthorization : Type 0 where
  pub scope : CommandConfirmationScope
  pub lifetime : AuthorizationLifetime
