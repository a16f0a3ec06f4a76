-- ===== src/Room/Store.antt =====
-- The mutations of a Room source (crates/moe-core/src/room.rs): a method returns the source as the
-- call leaves it, and its result.
pub mod Rewriting
pub mod Validity
pub mod Replay
pub mod Refusals
use m_i_o.Prelude.{
  ℕ, Bool, true, false, ◌&&◌, ◌||◌, not, Option, none, some, List, [], ◌∷◌, ◌++◌, ltb, leb,
  if◌then◌else◌, length, any, find, position, get_elem?, modify, remove_at, Result, ok, err, ◌==◌,
  contains, list_eq, nat_eq,
}
use m_i_o.Text.{Str}
use m_i_o.Identifier.{valid_identifier, valid_text}
use m_i_o.Room.Types.{
  RoomMessage, Room, RoomSnapshot, InMemoryRoomSource, RoomMutationStatus, created, added, renamed,
  removed, deleted, RoomMutationSuccess, RoomMutationError, invalid_mutation, participant_not_found,
  participant_in_use, required_participant, required_room, capacity_reached, RoomWriteStatus,
  appended, RoomWriteSuccess, RoomWriteError, author_not_participant, recipient_not_participant,
  room_capacity_reached, maximum_rooms, maximum_room_participants, maximum_room_messages,
  maximum_display_name_bytes,
}
use m_i_o.Room.Snapshot.{all_messages, room_summary, same_idempotent_payload}
use m_i_o.Room.Draft.{RoomCreateDraft, RoomMessageDraft}
use m_i_o.Room.Read.{is_room, is_message, is_participant}

abbrev pub WriteStep : Type 0
WriteStep = InMemoryRoomSource × Result RoomWriteError RoomWriteSuccess

abbrev pub MutationStep : Type 0
MutationStep = InMemoryRoomSource × Result RoomMutationError RoomMutationSuccess

-- `RoomMutationSuccess::new`.
unfoldable pub mutation_success : RoomMutationStatus → Room → RoomMutationSuccess
mutation_success status room = record { status = status; room = room_summary room }

abbrev pub push_message : RoomMessage → Room → Room
push_message message room = record room { messages = room.messages ++ message ∷ [] }

abbrev pub push_participant : Str → Room → Room
push_participant participant_id room = record room {
  participant_ids = room.participant_ids ++ participant_id ∷ [];
}

abbrev pub set_name : Str → Room → Room
set_name name room = record room { name = name }

abbrev pub drop_participant : ℕ → Room → Room
drop_participant index room = record room { participant_ids = remove_at index room.participant_ids }

-- The source after the first room with an identifier is rewritten and the time is set.
abbrev pub rewrite : InMemoryRoomSource → Str → (Room → Room) → Str → InMemoryRoomSource
rewrite source room_id f updated_at = record source {
  snapshot = record source.snapshot {
    generated_at = updated_at;
    rooms = modify (is_room room_id) f source.snapshot.rooms;
  };
}

-- `append_message` once no message has the identifier.
unfoldable pub append_new : InMemoryRoomSource → RoomMessage → WriteStep
append_new source message = elim (find (is_room message.room_id) source.snapshot.rooms) [
  | none ↦ (source, err RoomWriteError.room_not_found)
  | some room ↦
      if leb maximum_room_messages (length room.messages)
      then (source, err room_capacity_reached)
      else if not (contains room.participant_ids message.author_id)
      then (source, err author_not_participant)
      else if any (λ recipient. not (contains room.participant_ids recipient)) message.recipients
      then (source, err recipient_not_participant)
      else (
        rewrite source message.room_id (push_message message) message.created_at,
        ok (record { status = appended; message = message }),
      )
]

unfoldable pub append_message : InMemoryRoomSource → RoomMessageDraft → WriteStep
append_message source draft =
    if source.poisoned
    then (source, err RoomWriteError.source_unavailable)
    else elim (find (is_message draft.message.id) (all_messages source.snapshot.rooms)) [
      | some existing ↦
          if same_idempotent_payload existing draft.message
          then (source, ok (record { status = RoomWriteStatus.duplicate; message = existing }))
          else (source, err RoomWriteError.idempotency_conflict)
      | none ↦ append_new source draft.message
    ]

unfoldable pub create_room : InMemoryRoomSource → RoomCreateDraft → MutationStep
create_room source draft =
    if source.poisoned
    then (source, err RoomMutationError.source_unavailable)
    else elim (find (is_room draft.room.id) source.snapshot.rooms) [
      | some existing ↦
          if existing.name == draft.room.name
            && existing.participant_ids == draft.room.participant_ids
          then (source, ok (mutation_success RoomMutationStatus.duplicate existing))
          else (source, err RoomMutationError.idempotency_conflict)
      | none ↦
          if leb maximum_rooms (length source.snapshot.rooms)
          then (source, err capacity_reached)
          else if any
              (λ participant_id.
                not (any (is_participant participant_id) source.snapshot.participants))
              draft.room.participant_ids
          then (source, err participant_not_found)
          else (
            record source {
              snapshot = record source.snapshot {
                generated_at = draft.created_at;
                rooms = source.snapshot.rooms ++ draft.room ∷ [];
              };
            },
            ok (mutation_success created draft.room),
          )
    ]

unfoldable pub add_room_participant : InMemoryRoomSource → Str → Str → Str → MutationStep
add_room_participant source room_id participant_id updated_at =
    if not (valid_identifier room_id)
      || not (valid_identifier participant_id)
      || not (valid_text updated_at 64)
    then (source, err invalid_mutation)
    else if source.poisoned
    then (source, err RoomMutationError.source_unavailable)
    else if not (any (is_participant participant_id) source.snapshot.participants)
    then (source, err participant_not_found)
    else elim (find (is_room room_id) source.snapshot.rooms) [
      | none ↦ (source, err RoomMutationError.room_not_found)
      | some room ↦
          if contains room.participant_ids participant_id
          then (source, ok (mutation_success RoomMutationStatus.duplicate room))
          else if leb maximum_room_participants (length room.participant_ids)
          then (source, err capacity_reached)
          else (
            rewrite source room_id (push_participant participant_id) updated_at,
            ok (mutation_success added (push_participant participant_id room)),
          )
    ]

unfoldable pub rename_room : InMemoryRoomSource → Str → Str → Str → MutationStep
rename_room source room_id name updated_at =
    if not (valid_identifier room_id)
      || not (valid_text name maximum_display_name_bytes)
      || not (valid_text updated_at 64)
    then (source, err invalid_mutation)
    else if source.poisoned
    then (source, err RoomMutationError.source_unavailable)
    else elim (find (is_room room_id) source.snapshot.rooms) [
      | none ↦ (source, err RoomMutationError.room_not_found)
      | some room ↦
          if room.name == name
          then (source, ok (mutation_success RoomMutationStatus.duplicate room))
          else (
            rewrite source room_id (set_name name) updated_at,
            ok (mutation_success renamed (set_name name room)),
          )
    ]

-- Whether a message is by, or to, a participant.
abbrev pub involves : Str → RoomMessage → Bool
involves participant_id message =
    message.author_id == participant_id || contains message.recipients participant_id

unfoldable pub remove_room_participant : InMemoryRoomSource → Str → Str → Str → MutationStep
remove_room_participant source room_id participant_id updated_at =
    if not (valid_identifier room_id)
      || not (valid_identifier participant_id)
      || not (valid_text updated_at 64)
    then (source, err invalid_mutation)
    else if source.poisoned
    then (source, err RoomMutationError.source_unavailable)
    else if not (any (is_participant participant_id) source.snapshot.participants)
    then (source, err participant_not_found)
    else elim (find (is_room room_id) source.snapshot.rooms) [
      | none ↦ (source, err RoomMutationError.room_not_found)
      | some room ↦ elim (position (λ existing. existing == participant_id) room.participant_ids) [
        | none ↦ (source, ok (mutation_success RoomMutationStatus.duplicate room))
        | some index ↦
            if leb (length room.participant_ids) 2
            then (source, err required_participant)
            else if any (involves participant_id) room.messages
            then (source, err participant_in_use)
            else (
              rewrite source room_id (drop_participant index) updated_at,
              ok (mutation_success removed (drop_participant index room)),
            )
      ]
    ]

-- The code indexes the rooms by the position found, which is in range: the inner `none` is dead.
unfoldable pub delete_room : InMemoryRoomSource → Str → Str → MutationStep
delete_room source room_id updated_at =
    if not (valid_identifier room_id) || not (valid_text updated_at 64)
    then (source, err invalid_mutation)
    else if source.poisoned
    then (source, err RoomMutationError.source_unavailable)
    else if leb (length source.snapshot.rooms) 1
    then (source, err required_room)
    else elim (position (is_room room_id) source.snapshot.rooms) [
      | none ↦ (source, err RoomMutationError.room_not_found)
      | some index ↦ elim (get_elem? source.snapshot.rooms index) [
        | none ↦ (source, err RoomMutationError.room_not_found)
        | some room ↦ (
          record source {
            snapshot = record source.snapshot {
              generated_at = updated_at;
              rooms = remove_at index source.snapshot.rooms;
            };
          },
          ok (mutation_success deleted room),
        )
      ]
    ]
