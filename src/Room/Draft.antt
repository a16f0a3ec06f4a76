-- ===== src/Room/Draft.antt =====
-- The checked requests to a Room store (crates/moe-core/src/room.rs).
use m_i_o.Prelude.{
  ℕ, ◌||◌, not, Option, none, List, [], ltb, between, if◌then◌else◌, length, is_empty, is_some_and,
  Result, ok, err,
}
use m_i_o.Text.{Str, is_blank}
use m_i_o.Identifier.{valid_identifier, valid_text}
use m_i_o.Room.Types.{
  Room, RoomMessage, maximum_display_name_bytes, maximum_room_participants,
  maximum_room_write_body_bytes,
}
use m_i_o.Room.Snapshot.{unique_valid_identifiers, valid_message_shape}

pub record RoomCreateDraft : Type 0 where
  pub room : Room
  pub created_at : Str

pub data RoomCreateDraftError : Type 0 where
  invalid_room : RoomCreateDraftError

pub record RoomMessageDraft : Type 0 where
  pub message : RoomMessage

pub data RoomMessageDraftError : Type 0 where
  invalid_message : RoomMessageDraftError

pub record RoomReadQuery : Type 0 where
  pub room_id : Str
  pub after_message_id : Option Str
  pub limit : ℕ

pub data RoomReadQueryError : Type 0 where
  invalid_query : RoomReadQueryError

-- `RoomCreateDraft::try_new`.
unfoldable pub create_draft :
    Str → Str → List Str → Str → Result RoomCreateDraftError RoomCreateDraft
create_draft id name participant_ids created_at =
    if not (valid_identifier id)
      || not (valid_text name maximum_display_name_bytes)
      || is_empty participant_ids
      || ltb maximum_room_participants (length participant_ids)
      || not (unique_valid_identifiers participant_ids)
      || not (valid_text created_at 64)
    then err invalid_room
    else ok (record {
      room = record { id = id; name = name; participant_ids = participant_ids; messages = [] };
      created_at = created_at;
    })

-- `RoomMessageDraft::try_new_with_provenance`, which takes the fields of the message in order.
unfoldable pub message_draft_with_provenance :
    RoomMessage → Result RoomMessageDraftError RoomMessageDraft
message_draft_with_provenance message =
    if not (valid_message_shape message maximum_room_write_body_bytes)
      || is_blank message.body
      || is_empty message.recipients
    then err invalid_message
    else ok (record { message = message })

-- `RoomMessageDraft::try_new`.
unfoldable pub message_draft :
    (id room_id author_id : Str) (recipients : List Str) (body created_at : Str)
    (artifact_ids : List Str)
    → Result RoomMessageDraftError RoomMessageDraft
message_draft id room_id author_id recipients body created_at artifact_ids =
    message_draft_with_provenance (record {
      id = id;
      room_id = room_id;
      author_id = author_id;
      recipients = recipients;
      body = body;
      created_at = created_at;
      artifact_ids = artifact_ids;
      provenance = none;
    })

-- `RoomReadQuery::try_new`.
unfoldable pub read_query : Str → Option Str → ℕ → Result RoomReadQueryError RoomReadQuery
read_query room_id after_message_id limit =
    if not (valid_identifier room_id)
      || is_some_and after_message_id (λ value. not (valid_identifier value))
      || not (between 1 30 limit)
    then err invalid_query
    else ok (record { room_id = room_id; after_message_id = after_message_id; limit = limit })
