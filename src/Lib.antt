-- ===== src/Lib.antt =====
-- The Rust core of M.I.O, a desktop program in which an owner and several AI participants share
-- rooms, one AI may conduct the others, commands wait for the owner's confirmation, and a relay
-- connects devices. Commands are passed to an isolated helper, and the desktop program keeps ledgers
-- of the provider calls and the conducted operations, which outlive it.
--
-- The parts, and the files that model them:
--
-- * Room (crates/moe-core/src/room.rs). `Room/Types`: the structs and enums, and
--   `InMemoryRoomSource` with its lock as the flag `poisoned`. `Room/Snapshot`: `validate_snapshot`
--   loop by loop, `new`, `snapshot`, `replace_snapshot`. `Room/Draft`: the checked requests,
--   `RoomCreateDraft::try_new` as `create_draft`, `RoomMessageDraft::try_new` as `message_draft`,
--   `RoomReadQuery::try_new` as `read_query`. `Room/Read`: `read_room`, `find_message`,
--   `list_rooms`. `Room/Store`: the six mutations of `RoomStore`. A method that writes returns the
--   source as the call leaves it, and its result. The field `ok`, always true or always false, is
--   left out, and a read failure is its code.
-- * Conductor (crates/moe-core/src/conductor.rs). `Conductor/Plan`: `parse_conductor_plan_v1` and
--   the validation of delegations. `Conductor/Ids`: `derive`, `delegation` and `stable_identifier`
--   with its 64-bit multiplications modulo `2 ^ 64`. `Conductor/State`: the operation and
--   `next_action`. `Conductor/Operation`: the methods that change the operation. The room checks
--   the identifiers that the conductor derives, and a parsed plan is the argument of `accept_plan`.
-- * Relay (crates/moe-relay-client/src/lifecycle.rs, and the error codes of
--   crates/moe-relay-client/src/lib.rs). `Relay/Status` has the types, `Relay/Lifecycle` the methods.
--   The attempts are a `u8`, written out as a remainder by 256.
-- * Command (crates/moe-command-broker/src/lib.rs and confirmation.rs). `Command/Policy`: the
--   commands that ask each time. `Command/Confirmation`: scopes, requests and outcomes.
--   `Command/Registry`: `CommandConfirmationRegistry`. `Command/Maps`: a `BTreeMap` with text keys as
--   the list of its entries in order. `Command/Classification`: `classify_command` and
--   `classify_npm_package_install`. `Command/Paths`: `std::path` on Unix, where a path is its bytes,
--   and `workspace_relative_directory` in a build outside Windows. `Command/Paths/Windows`: what the
--   code checks of a name in a Windows build.
-- * Helper (crates/moe-command-helper-protocol/src/lib.rs). `Helper`: the requests on the wire, encoded
--   by the host and decoded by the helper, which asks `Command/Classification` again. A reader is
--   what it yields before its end, or a failure.
-- * Ledger (apps/desktop/src-tauri/src/ai_dispatch_ledger.rs and room_orchestration_ledger.rs).
--   `Ledger`: how a full ledger makes room. `Ledger/Dispatch` and `Ledger/Orchestration`: the records
--   and the methods of each ledger, which take what writing the file reports as an argument. `File`
--   below each: loading and writing. `Ledger/Storage`: the ledger's file and its backup; a write gives
--   the two files after each change, so that each prefix is a place where the program can stop. The
--   operations of one ledger use the derived identifiers of `Conductor/Ids`.
-- * Cancellation (apps/desktop/src-tauri/src/turn_cancellation.rs, and the flag of
--   crates/moe-adapter-sdk/src/lib.rs). `Cancellation`: the turns, each with the address of its flag in a
--   store, which the holder of a turn shares.
-- * `Prelude` (lists, options, results and equality over the native numbers), `Text` (Rust's `str`
--   as a list of Unicode scalar values, with its UTF-8 bytes) and `Identifier` (the tests on
--   identifiers and texts that the room and the conductor share) serve all parts. Each part has its
--   theorems in the modules below its definitions, and small runs of it in `Samples`.
--
-- What stands outside the code is a parameter: `serde_json::from_slice` is `from_slice`, any function
-- from bytes to a decoded value, and `serde_json::to_vec` is `to_vec`; a theorem that needs what was
-- written to be read back has this as a hypothesis. The semver crate's parser is `parse_version`. What
-- the operating system answers to each operation on a file is `Answers`. A `HashSet` is the list of what was
-- inserted, a `BTreeSet` a list that holds nothing twice, and a loop that returns early is a
-- recursion over its list. Lengths are unbounded numbers: the code's `usize` does not wrap, since
-- each list is in memory.
--
-- Fuel: `decimal` of Conductor/Ids has one more than the number itself, which has fewer digits than
-- that; `read_on` of Room/Read/Paging, a client that reads page after page, has one unit for each
-- read, and the theorem on it says how many are enough.
--
-- Not modelled: JSON encoding and the derived formatting, the getters, the provider processes, the
-- files of the rooms, the relay's network input and output, the Windows launcher, the credential
-- store, the desktop glue and its front end, which are input and output; the relay client's pairing,
-- the MCP dispatch and the desktop orchestration, which are program logic that this library does not
-- yet have.
--
-- Paths on Windows: there `std::path` also separates at a backslash and takes `C:` and `\\server` as a
-- prefix, which `Command/Paths` does not model. What is shown of working directories holds of a
-- build outside Windows, where `C:\outside` is the name of one directory and is accepted.
-- `Command/Paths/Windows` has the check of one name alone, with no path around it.
pub mod Prelude
pub mod Text
pub mod Identifier
pub mod Room
pub mod Conductor
pub mod Relay
pub mod Command
pub mod Helper
pub mod Ledger
pub mod Cancellation
