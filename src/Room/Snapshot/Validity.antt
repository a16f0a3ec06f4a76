-- ===== src/Room/Snapshot/Validity.antt =====
-- What it means for a Room snapshot to be valid, independently of the loops of
-- `validate_snapshot` (crates/moe-core/src/room.rs), and that the loops decide it.
pub mod Messages
pub mod Rooms
use m_i_o.Prelude.{
  ℕ, ◌≤◌, ◌≡◌, true, List, length, map, All, IsDistinct, IsIn, list_eq, nat_eq, [], ◌∷◌,
}
use m_i_o.Text.{Str}
use m_i_o.Identifier.{valid_identifier, valid_text}
use m_i_o.Room.Types.{
  RoomParticipant, RoomMessage, Room, RoomSnapshot, protocol_version, maximum_display_name_bytes,
  maximum_message_body_bytes, maximum_participants, maximum_rooms, maximum_room_participants,
  maximum_room_messages,
}
use m_i_o.Room.Snapshot.{
  valid_message_shape, participant_id_of, message_id_of, room_id_of, all_messages,
}

-- A message fits a room: it is well formed, and the room has its author and its recipients.
pub record FitsRoom (room_id : Str) (members : List Str) (message : RoomMessage) : Type 0 where
  pub shape : valid_message_shape message maximum_message_body_bytes ≡ true
  pub in_room : message.room_id ≡ room_id
  pub author_in : IsIn message.author_id members
  pub recipients_in : (p : Str) → IsIn p message.recipients → IsIn p members

-- A room is valid among the known participants.
pub record IsValidRoom (known : List Str) (room : Room) : Type 0 where
  pub id_valid : valid_identifier room.id ≡ true
  pub name_valid : valid_text room.name maximum_display_name_bytes ≡ true
  pub few_participants : length room.participant_ids ≤ maximum_room_participants
  pub few_messages : length room.messages ≤ maximum_room_messages
  pub distinct_participants : IsDistinct room.participant_ids
  pub known_participants : (p : Str) → IsIn p room.participant_ids → IsIn p known
  pub messages_fit : All (FitsRoom room.id room.participant_ids) room.messages

pub record IsValidParticipant (participant : RoomParticipant) : Type 0 where
  pub id_valid : valid_identifier participant.id ≡ true
  pub name_valid : valid_text participant.display_name maximum_display_name_bytes ≡ true

-- The identifiers of participants, of rooms and of the messages of all rooms are distinct, all of
-- them are well formed and within their bounds, and rooms and messages refer to what is there.
pub record IsValidSnapshot (s : RoomSnapshot) : Type 0 where
  pub version : s.schema_version ≡ protocol_version
  pub time_valid : valid_text s.generated_at 64 ≡ true
  pub few_participants : length s.participants ≤ maximum_participants
  pub few_rooms : length s.rooms ≤ maximum_rooms
  pub participants_valid : All IsValidParticipant s.participants
  pub distinct_participants : IsDistinct (map participant_id_of s.participants)
  pub rooms_valid : All (IsValidRoom (map participant_id_of s.participants)) s.rooms
  pub distinct_rooms : IsDistinct (map room_id_of s.rooms)
  pub distinct_messages : IsDistinct (map message_id_of (all_messages s.rooms))
