-- ===== src/Room/Read.antt =====
-- Reading a Room source (crates/moe-core/src/room.rs).
pub mod Paging
use m_i_o.Prelude.{
  ℕ, ◌+◌, ◌-◌, Bool, ◌&&◌, ◌||◌, not, Option, none, some, List, [], ◌∷◌, map, ltb, if◌then◌else◌,
  length, take, drop, find, position, last, is_none, Result, ok, err, ◌>>=◌, ok_or, ◌==◌, list_eq,
  nat_eq,
}
use Prim.Native.Nat.{min}
use m_i_o.Text.{Str}
use m_i_o.Identifier.{valid_identifier}
use m_i_o.Room.Types.{
  RoomParticipant, RoomMessage, Room, RoomSnapshot, InMemoryRoomSource, RoomSummary,
  RoomMessageFindError,
}
use m_i_o.Room.Snapshot.{room_summary}
use m_i_o.Room.Draft.{RoomReadQuery}

-- The three failures, which the source tells apart by their code.
pub data RoomReadFailure : Type 0 where
  room_unavailable room_not_found cursor_not_found : RoomReadFailure

pub record RoomReadView : Type 0 where
  pub id : Str
  pub name : Str
  pub participants : List RoomParticipant
  pub messages : List RoomMessage

pub record RoomReadPage : Type 0 where
  pub after_message_id : Option Str
  pub limit : ℕ
  pub returned : ℕ
  pub has_more_before : Bool
  pub has_more_after : Bool
  pub next_after_message_id : Option Str

pub record RoomReadSuccess : Type 0 where
  pub snapshot_generated_at : Str
  pub room : RoomReadView
  pub page : RoomReadPage

pub data RoomCatalogError : Type 0 where
  source_unavailable : RoomCatalogError

abbrev pub is_room : Str → Room → Bool
is_room room_id room = room.id == room_id

abbrev pub is_message : Str → RoomMessage → Bool
is_message message_id message = message.id == message_id

abbrev pub is_participant : Str → RoomParticipant → Bool
is_participant participant_id participant = participant.id == participant_id

-- `filter_map` with the lookup of a participant.
unfoldable pub participants_of : List RoomParticipant → List Str → List RoomParticipant
participants_of participants [] = []
participants_of participants (participant_id ∷ rest) =
    let later = participants_of participants rest in
    elim (find (is_participant participant_id) participants) [
      | none ↦ later
      | some participant ↦ participant ∷ later
    ]

-- Where the page begins; without a cursor it is the last page.
unfoldable pub start_index : Room → Option Str → ℕ → Result RoomReadFailure ℕ
start_index room none limit = ok (length room.messages - limit)
start_index room (some cursor) limit = elim (position (is_message cursor) room.messages) [
  | none ↦ err cursor_not_found
  | some cursor_index ↦ ok (cursor_index + 1)
]

-- `next.or_else(|| after)`.
abbrev pub next_cursor : Option RoomMessage → Option Str → Option Str
next_cursor none after_message_id = after_message_id
next_cursor (some message) after_message_id = some message.id

unfoldable pub page_of : RoomSnapshot → Room → RoomReadQuery → ℕ → RoomReadSuccess
page_of snapshot room query start =
    let messages = take query.limit (drop start room.messages) in
    record {
      snapshot_generated_at = snapshot.generated_at;
      room = record {
        id = room.id;
        name = room.name;
        participants = participants_of snapshot.participants room.participant_ids;
        messages = messages;
      };
      page = record {
        after_message_id = query.after_message_id;
        limit = query.limit;
        returned = min (length room.messages - start) query.limit;
        has_more_before = is_none query.after_message_id && ltb 0 start;
        has_more_after = ltb (start + query.limit) (length room.messages);
        next_after_message_id = next_cursor (last messages) query.after_message_id;
      };
    }

unfoldable pub read_room :
    InMemoryRoomSource → RoomReadQuery → Result RoomReadFailure RoomReadSuccess
read_room source query =
    if source.poisoned
    then err room_unavailable
    else elim (find (is_room query.room_id) source.snapshot.rooms) [
      | none ↦ err RoomReadFailure.room_not_found
      | some room ↦ start_index room query.after_message_id query.limit >>= λ start.
          ok (page_of source.snapshot room query start)
    ]

unfoldable pub find_message :
    InMemoryRoomSource → Str → Str → Result RoomMessageFindError RoomMessage
find_message source room_id message_id =
    if not (valid_identifier room_id) || not (valid_identifier message_id)
    then err RoomMessageFindError.invalid_lookup
    else if source.poisoned
    then err RoomMessageFindError.source_unavailable
    else ok_or (find (is_room room_id) source.snapshot.rooms) RoomMessageFindError.room_not_found
      >>= λ room.
          ok_or (find (is_message message_id) room.messages) RoomMessageFindError.message_not_found

unfoldable pub list_rooms : InMemoryRoomSource → Result RoomCatalogError (List RoomSummary)
list_rooms source =
    if source.poisoned
    then err RoomCatalogError.source_unavailable
    else ok (map room_summary source.snapshot.rooms)
