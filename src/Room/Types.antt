-- ===== src/Room/Types.antt =====
-- The data of crates/moe-core/src/room.rs.
use m_i_o.Prelude.{ℕ, Bool, true, false, ◌≡◌, ◌↔◌, Option, List, arith, PartialEq}
use m_i_o.Text.{Str, lit}

-- `PROTOCOL_VERSION` of crates/moe-protocol/src/lib.rs.
abbrev pub protocol_version : Str
protocol_version = lit "0.1.0"

abbrev pub maximum_display_name_bytes : ℕ
maximum_display_name_bytes = 200

abbrev pub maximum_message_body_bytes : ℕ
maximum_message_body_bytes = 100000

abbrev pub maximum_room_write_body_bytes : ℕ
maximum_room_write_body_bytes = 4000

abbrev pub maximum_participants : ℕ
maximum_participants = 1000

abbrev pub maximum_rooms : ℕ
maximum_rooms = 1000

abbrev pub maximum_room_participants : ℕ
maximum_room_participants = 100

abbrev pub maximum_room_messages : ℕ
maximum_room_messages = 10000

abbrev pub maximum_message_links : ℕ
maximum_message_links = 100

pub data RoomParticipantKind : Type 0 where
  human ai : RoomParticipantKind

abbrev pub kind_beq : RoomParticipantKind → RoomParticipantKind → Bool
kind_beq human human = true
kind_beq ai ai = true
kind_beq _ _ = false

pub kind_beq_iff : (a b : RoomParticipantKind) → (kind_beq a b ≡ true) ↔ (a ≡ b)
kind_beq_iff a b = ground arith

instance abbrev pub kind_eq : PartialEq RoomParticipantKind
kind_eq = record { test = kind_beq; law = kind_beq_iff }

pub record RoomParticipant : Type 0 where
  pub id : Str
  pub display_name : Str
  pub kind : RoomParticipantKind

pub data RoomMessageProvenance : Type 0 where
  codex_owner_proxy : RoomMessageProvenance

abbrev pub provenance_beq : RoomMessageProvenance → RoomMessageProvenance → Bool
provenance_beq codex_owner_proxy codex_owner_proxy = true

pub provenance_beq_iff : (a b : RoomMessageProvenance) → (provenance_beq a b ≡ true) ↔ (a ≡ b)
provenance_beq_iff codex_owner_proxy codex_owner_proxy = ground arith

instance abbrev pub provenance_eq : PartialEq RoomMessageProvenance
provenance_eq = record { test = provenance_beq; law = provenance_beq_iff }

pub record RoomMessage : Type 0 where
  pub id : Str
  pub room_id : Str
  pub author_id : Str
  pub recipients : List Str
  pub body : Str
  pub created_at : Str
  pub artifact_ids : List Str
  pub provenance : Option RoomMessageProvenance

pub record Room : Type 0 where
  pub id : Str
  pub name : Str
  pub participant_ids : List Str
  pub messages : List RoomMessage

pub record RoomSnapshot : Type 0 where
  pub schema_version : Str
  pub generated_at : Str
  pub participants : List RoomParticipant
  pub rooms : List Room

pub data RoomSnapshotError : Type 0 where
  invalid_snapshot source_unavailable : RoomSnapshotError

pub record RoomSummary : Type 0 where
  pub id : Str
  pub name : Str
  pub participant_ids : List Str
  pub latest_message_at : Option Str

pub data RoomMutationStatus : Type 0 where
  created added renamed removed deleted duplicate : RoomMutationStatus

-- The field `ok`, always true, is left out.
pub record RoomMutationSuccess : Type 0 where
  pub status : RoomMutationStatus
  pub room : RoomSummary

pub data RoomMutationError : Type 0 where
  invalid_mutation room_not_found participant_not_found participant_in_use : RoomMutationError
  required_participant required_room idempotency_conflict capacity_reached : RoomMutationError
  source_unavailable : RoomMutationError

pub data RoomWriteStatus : Type 0 where
  appended duplicate : RoomWriteStatus

pub record RoomWriteSuccess : Type 0 where
  pub status : RoomWriteStatus
  pub message : RoomMessage

pub data RoomWriteError : Type 0 where
  room_not_found author_not_participant recipient_not_participant : RoomWriteError
  idempotency_conflict room_capacity_reached source_unavailable : RoomWriteError

pub data RoomMessageFindError : Type 0 where
  invalid_lookup room_not_found message_not_found source_unavailable : RoomMessageFindError

-- The snapshot behind its lock. A lock is poisoned once a writer has panicked in it.
pub record InMemoryRoomSource : Type 0 where
  pub poisoned : Bool
  pub snapshot : RoomSnapshot
