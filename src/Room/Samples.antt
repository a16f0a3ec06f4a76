-- ===== src/Room/Samples.antt =====
-- A small room (crates/moe-core/src/room.rs), at which the theorems are applied.
use m_i_o.Prelude.{
  ◌≡◌, ◌↔◌, refl, true, false, none, some, List, [], ◌∷◌, arith, drop, all, any, find, position,
  contains, list_beq, option_beq, map, ok, err, IsDistinct, occurrences, eq_iff, list_eq, nat_eq,
}
use m_i_o.Text.{Str, lit}
use m_i_o.Identifier.{valid_identifier, valid_text}
use m_i_o.Room.Types.{
  protocol_version, human, ai, RoomMessage, Room, RoomSnapshot, InMemoryRoomSource,
  participant_not_found, RoomMutationStatus, RoomWriteError,
}
use m_i_o.Room.Snapshot.{
  room_summary, valid_message_shape, valid_participants, valid_rooms, valid_room, collect_set,
  insert_messages, valid_message_in, unique_valid_identifiers, unique_valid_identifiers_from,
  validate_snapshot, new, message_id_of, same_idempotent_payload, all_messages,
}
use m_i_o.Room.Snapshot.Validity.{IsValidSnapshot}
use m_i_o.Room.Snapshot.Validity.Rooms.{validate_snapshot_iff}
use m_i_o.Room.Draft.{RoomMessageDraft, RoomReadQuery}
use m_i_o.Room.Read.{is_room, is_message, find_message}
use m_i_o.Room.Store.{
  append_message, append_new, remove_room_participant, rename_room, mutation_success,
}
use m_i_o.Room.Store.Validity.Calls.{
  StoreCall, appends, removes, renames, deletes, after_calls, after_calls-validate_snapshot,
}
use m_i_o.Room.Store.Replay.{
  appended_reply, duplicate_reply, find_message-append, append_replay, append_error_unchanged,
}
use m_i_o.Room.Store.Refusals.{Mutation, mutate, mutate_error_unchanged, mutate_duplicate_unchanged}
use m_i_o.Room.Read.Paging.{read_on, read_on_complete}

abbrev message_of : Str → RoomMessage
message_of id = record {
  id = id;
  room_id = lit "room-1";
  author_id = lit "owner";
  recipients = lit "codex" ∷ [];
  body = lit "hello";
  created_at = lit "t1";
  artifact_ids = [];
  provenance = none;
}

abbrev room_1 : Room
room_1 = record {
  id = lit "room-1";
  name = lit "Room";
  participant_ids = lit "owner" ∷ lit "codex" ∷ [];
  messages = message_of (lit "m1") ∷ message_of (lit "m2") ∷ message_of (lit "m3") ∷ [];
}

abbrev sample : RoomSnapshot
sample = record {
  schema_version = protocol_version;
  generated_at = lit "t0";
  participants =
      record { id = lit "owner"; display_name = lit "Owner"; kind = human }
      ∷ record { id = lit "codex"; display_name = lit "Codex"; kind = ai }
      ∷ [];
  rooms = room_1 ∷ [];
}

abbrev sample_source : InMemoryRoomSource
sample_source = record { poisoned = false; snapshot = sample }

made : new sample ≡ ok sample_source
unfolding new validate_snapshot list_beq valid_text valid_participants valid_identifier contains
    valid_rooms valid_room collect_set all insert_messages valid_message_in valid_message_shape
    unique_valid_identifiers unique_valid_identifiers_from
made = refl

abbrev calls : List StoreCall
calls =
    appends (message_of (lit "m4"))
    ∷ renames (lit "room-1") (lit "Other") (lit "t2")
    ∷ removes (lit "room-1") (lit "codex") (lit "t3")
    ∷ deletes (lit "room-1") (lit "t4")
    ∷ []

after_calls-validate_snapshot_example :
    validate_snapshot (after_calls sample_source calls).snapshot ≡ ok tt
after_calls-validate_snapshot_example = after_calls-validate_snapshot sample calls made

validate_snapshot_iff_example : (validate_snapshot sample ≡ ok tt) ↔ IsValidSnapshot sample
validate_snapshot_iff_example = validate_snapshot_iff sample

abbrev fourth : RoomMessageDraft
fourth = record { message = message_of (lit "m4") }

abbrev retried : RoomMessageDraft
retried = record { message = record (message_of (lit "m4")) { created_at = lit "t9" } }

written : (append_message sample_source fourth).1 ≡ appended_reply fourth.message
unfolding append_message append_new find all_messages list_beq contains any
written = refl

room_named : valid_identifier (lit "room-1") ≡ true
unfolding valid_identifier
room_named = refl

message_named : valid_identifier (lit "m4") ≡ true
unfolding valid_identifier
message_named = refl

find_message-append_example :
    find_message (append_message sample_source fourth).0 (lit "room-1") (lit "m4")
    ≡ ok fourth.message
find_message-append_example =
    find_message-append sample_source fourth room_named message_named written

same_content : same_idempotent_payload fourth.message retried.message ≡ true
unfolding same_idempotent_payload list_beq option_beq
same_content = refl

append_replay_example :
    append_message (append_message sample_source fourth).0 retried
    ≡ ((append_message sample_source fourth).0, duplicate_reply fourth.message)
append_replay_example = append_replay sample_source fourth retried written same_content

abbrev misplaced : RoomMessageDraft
misplaced = record { message = record (message_of (lit "m4")) { room_id = lit "room-9" } }

refused : (append_message sample_source misplaced).1 ≡ err RoomWriteError.room_not_found
unfolding append_message append_new find all_messages list_beq
refused = refl

append_error_unchanged_example : (append_message sample_source misplaced).0 ≡ sample_source
append_error_unchanged_example = append_error_unchanged sample_source misplaced refused

abbrev query : RoomReadQuery
query = record { room_id = lit "room-1"; after_message_id = some (lit "m1"); limit = 1 }

room_found : find (is_room (lit "room-1")) sample.rooms ≡ some room_1
unfolding find list_beq
room_found = refl

distinct : IsDistinct (map message_id_of room_1.messages)
unfolding occurrences list_beq
distinct = λ a. ground (arith, eq_iff (lit "m1") a, eq_iff (lit "m2") a, eq_iff (lit "m3") a)

at_first : position (is_message (lit "m1")) room_1.messages ≡ some 0
unfolding position list_beq
at_first = refl

read_on_complete_example : read_on 3 sample_source query ≡ some (drop 1 room_1.messages)
read_on_complete_example =
    read_on_complete 3 sample_source query room_1 (lit "m1") 0 refl room_found distinct refl
      at_first (omega arith) (omega arith)

nobody_known :
    (mutate sample_source (Mutation.removes (lit "room-1") (lit "nobody") (lit "t2"))).1
    ≡ err participant_not_found
unfolding mutate remove_room_participant valid_identifier valid_text any list_beq
nobody_known = refl

mutate_error_unchanged_example :
    (mutate sample_source (Mutation.removes (lit "room-1") (lit "nobody") (lit "t2"))).0
    ≡ sample_source
mutate_error_unchanged_example =
    mutate_error_unchanged sample_source (Mutation.removes (lit "room-1") (lit "nobody") (lit "t2"))
      nobody_known

same_name :
    (mutate sample_source (Mutation.renames (lit "room-1") (lit "Room") (lit "t2"))).1
    ≡ ok (record { status = RoomMutationStatus.duplicate; room = room_summary room_1 })
unfolding mutate rename_room valid_identifier valid_text find list_beq mutation_success
same_name = refl

mutate_duplicate_unchanged_example :
    (mutate sample_source (Mutation.renames (lit "room-1") (lit "Room") (lit "t2"))).0
    ≡ sample_source
mutate_duplicate_unchanged_example =
    mutate_duplicate_unchanged sample_source
      (Mutation.renames (lit "room-1") (lit "Room") (lit "t2")) same_name
