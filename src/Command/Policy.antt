-- ===== src/Command/Policy.antt =====
-- The commands that ask the owner each time (crates/moe-command-broker/src/lib.rs).
use m_i_o.Prelude.{Bool, true, false, ◌≡◌, ◌↔◌, arith, PartialEq}

pub data ActionTimeCommand : Type 0 where
  git_push package_install cargo_fetch unregistered_tool credential_use : ActionTimeCommand
  administrator_operation destructive_operation : ActionTimeCommand

pub data ConfirmationReason : Type 0 where
  external_mutation network_download unregistered_tool credential_use : ConfirmationReason
  privilege_expansion destructive_change : ConfirmationReason

unfoldable pub reason : ActionTimeCommand → ConfirmationReason
reason git_push = external_mutation
reason package_install = network_download
reason cargo_fetch = network_download
reason ActionTimeCommand.unregistered_tool = ConfirmationReason.unregistered_tool
reason ActionTimeCommand.credential_use = ConfirmationReason.credential_use
reason administrator_operation = privilege_expansion
reason destructive_operation = destructive_change

unfoldable pub writes_workspace : ActionTimeCommand → Bool
writes_workspace git_push = true
writes_workspace package_install = true
writes_workspace cargo_fetch = true
writes_workspace destructive_operation = true
writes_workspace _ = false

unfoldable pub allows_room_session : ActionTimeCommand → Bool
allows_room_session git_push = true
allows_room_session package_install = true
allows_room_session cargo_fetch = true
allows_room_session _ = false

abbrev pub command_beq : ActionTimeCommand → ActionTimeCommand → Bool
command_beq git_push git_push = true
command_beq package_install package_install = true
command_beq cargo_fetch cargo_fetch = true
command_beq ActionTimeCommand.unregistered_tool ActionTimeCommand.unregistered_tool = true
command_beq ActionTimeCommand.credential_use ActionTimeCommand.credential_use = true
command_beq administrator_operation administrator_operation = true
command_beq destructive_operation destructive_operation = true
command_beq _ _ = false

pub command_beq_iff : (a b : ActionTimeCommand) → (command_beq a b ≡ true) ↔ (a ≡ b)
command_beq_iff a b = ground arith

instance abbrev pub command_eq : PartialEq ActionTimeCommand
command_eq = record { test = command_beq; law = command_beq_iff }
