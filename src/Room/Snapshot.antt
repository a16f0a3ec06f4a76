-- ===== src/Room/Snapshot.antt =====
-- What a Room snapshot must satisfy: `validate_snapshot` and its helpers
-- (crates/moe-core/src/room.rs). A `HashSet` of identifiers is the list of its elements.
pub mod Sets
pub mod Validity
use m_i_o.Prelude.{
  ℕ, Bool, true, false, ◌&&◌, ◌||◌, not, Option, none, some, List, [], ◌∷◌, ◌++◌, map, ltb, leb,
  nat_beq, if◌then◌else◌, length, any, all, Result, ok, err, PartialEq, ◌==◌, contains,
  all_inserted, nat_eq, list_eq, option_eq, last,
}
use m_i_o.Text.{Str}
use m_i_o.Identifier.{valid_identifier, valid_text}
use m_i_o.Room.Types.{
  RoomParticipant, RoomMessage, Room, RoomSnapshot, RoomSnapshotError, invalid_snapshot,
  source_unavailable, InMemoryRoomSource, RoomSummary, protocol_version, maximum_display_name_bytes,
  maximum_message_body_bytes, maximum_participants, maximum_rooms, maximum_room_participants,
  maximum_room_messages, maximum_message_links, provenance_eq,
}

unfoldable pub unique_valid_identifiers_from : List Str → List Str → Bool
unique_valid_identifiers_from unique [] = true
unique_valid_identifiers_from unique (value ∷ rest) =
    valid_identifier value
    && not (contains unique value)
    && unique_valid_identifiers_from (value ∷ unique) rest

unfoldable pub unique_valid_identifiers : List Str → Bool
unique_valid_identifiers values = unique_valid_identifiers_from [] values

unfoldable pub valid_message_shape : RoomMessage → ℕ → Bool
valid_message_shape message maximum_body_bytes =
    valid_identifier message.id
    && valid_identifier message.room_id
    && valid_identifier message.author_id
    && leb (length message.recipients) maximum_message_links
    && unique_valid_identifiers message.recipients
    && valid_text message.body maximum_body_bytes
    && valid_text message.created_at 64
    && leb (length message.artifact_ids) maximum_message_links
    && unique_valid_identifiers message.artifact_ids

-- The loop over the participants, with the identifiers inserted so far.
unfoldable pub valid_participants : List Str → List RoomParticipant → Bool
valid_participants participant_ids [] = true
valid_participants participant_ids (participant ∷ rest) =
    valid_identifier participant.id
    && valid_text participant.display_name maximum_display_name_bytes
    && not (contains participant_ids participant.id)
    && valid_participants (participant.id ∷ participant_ids) rest

-- `iter().collect::<HashSet<_>>()`.
unfoldable pub collect_set : List Str → List Str
collect_set [] = []
collect_set (x ∷ xs) = let rest = collect_set xs in if contains rest x then rest else x ∷ rest

-- The tests on one message of a room, but for the uniqueness of its identifier.
unfoldable pub valid_message_in : Room → List Str → RoomMessage → Bool
valid_message_in room room_participants message =
    valid_message_shape message maximum_message_body_bytes
    && message.room_id == room.id
    && contains room_participants message.author_id
    && all (λ recipient. contains room_participants recipient) message.recipients

-- The loop over a room's messages: the identifiers inserted by its end, if every message passes.
unfoldable pub insert_messages : Room → List Str → List Str → List RoomMessage → Option (List Str)
insert_messages room room_participants message_ids [] = some message_ids
insert_messages room room_participants message_ids (message ∷ rest) =
    if valid_message_in room room_participants message && not (contains message_ids message.id)
    then insert_messages room room_participants (message.id ∷ message_ids) rest
    else none

-- The tests on one room, but for its messages.
unfoldable pub valid_room : List Str → List Str → Room → Bool
valid_room participant_ids room_ids room =
    valid_identifier room.id
    && valid_text room.name maximum_display_name_bytes
    && leb (length room.participant_ids) maximum_room_participants
    && leb (length room.messages) maximum_room_messages
    && not (contains room_ids room.id)
    && nat_beq (length (collect_set room.participant_ids)) (length room.participant_ids)
    && all (λ participant_id. contains participant_ids participant_id)
        (collect_set room.participant_ids)

-- The loop over the rooms, with the room and message identifiers inserted so far.
unfoldable pub valid_rooms : List Str → List Str → List Str → List Room → Bool
valid_rooms participant_ids room_ids message_ids [] = true
valid_rooms participant_ids room_ids message_ids (room ∷ rest) =
    valid_room participant_ids room_ids room
    && elim (insert_messages room (collect_set room.participant_ids) message_ids room.messages) [
      | none ↦ false
      | some message_ids' ↦ valid_rooms participant_ids (room.id ∷ room_ids) message_ids' rest
    ]

abbrev pub participant_id_of : RoomParticipant → Str
participant_id_of participant = participant.id

unfoldable pub validate_snapshot : RoomSnapshot → Result RoomSnapshotError (Unit {0})
validate_snapshot snapshot =
    if not (snapshot.schema_version == protocol_version)
      || not (valid_text snapshot.generated_at 64)
      || ltb maximum_participants (length snapshot.participants)
      || ltb maximum_rooms (length snapshot.rooms)
    then err invalid_snapshot
    else if not (valid_participants [] snapshot.participants)
    then err invalid_snapshot
    else if not (valid_rooms (map participant_id_of snapshot.participants) [] [] snapshot.rooms)
    then err invalid_snapshot
    else ok tt

-- `InMemoryRoomSource::new`, `snapshot` and `replace_snapshot`.
unfoldable pub new : RoomSnapshot → Result RoomSnapshotError InMemoryRoomSource
new snapshot = elim (validate_snapshot snapshot) [
  | err e ↦ err e
  | ok _ ↦ ok (record { poisoned = false; snapshot = snapshot })
]

unfoldable pub snapshot : InMemoryRoomSource → Result RoomSnapshotError RoomSnapshot
snapshot source = if source.poisoned then err source_unavailable else ok source.snapshot

unfoldable pub replace_snapshot :
    InMemoryRoomSource → RoomSnapshot → InMemoryRoomSource × Result RoomSnapshotError (Unit {0})
replace_snapshot source replacement = elim (validate_snapshot replacement) [
  | err e ↦ (source, err e)
  | ok _ ↦
      if source.poisoned
      then (source, err source_unavailable)
      else (record source { snapshot = replacement }, ok tt)
]

unfoldable pub room_summary : Room → RoomSummary
room_summary room = record {
  id = room.id;
  name = room.name;
  participant_ids = room.participant_ids;
  latest_message_at = elim (last room.messages) [
    | none ↦ none
    | some message ↦ some message.created_at
  ];
}

-- `rooms.iter().flat_map(|room| room.messages.iter())`.
unfoldable pub all_messages : List Room → List RoomMessage
all_messages [] = []
all_messages (room ∷ rest) = room.messages ++ all_messages rest

abbrev pub message_id_of : RoomMessage → Str
message_id_of message = message.id

abbrev pub room_id_of : Room → Str
room_id_of room = room.id

unfoldable pub same_idempotent_payload : RoomMessage → RoomMessage → Bool
same_idempotent_payload existing retried =
    existing.id == retried.id
    && existing.room_id == retried.room_id
    && existing.author_id == retried.author_id
    && existing.recipients == retried.recipients
    && existing.body == retried.body
    && existing.artifact_ids == retried.artifact_ids
    && existing.provenance == retried.provenance
