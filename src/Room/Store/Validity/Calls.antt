-- ===== src/Room/Store/Validity/Calls.antt =====
-- All the calls of the Room store (crates/moe-core/src/room.rs) keep the snapshot valid.
use m_i_o.Prelude.{
  ◌≡◌, true, List, [], ◌∷◌, arith, list_eq, nat_eq, inl, inr, ◌⊎◌, Result-cases, ok, err,
}
use m_i_o.Text.{Str}
use m_i_o.Room.Types.{RoomMessage, RoomSnapshot, InMemoryRoomSource, maximum_room_write_body_bytes}
use m_i_o.Room.Snapshot.{valid_message_shape, validate_snapshot, new, replace_snapshot}
use m_i_o.Room.Snapshot.Validity.{IsValidSnapshot}
use m_i_o.Room.Snapshot.Validity.Rooms.{validate_snapshot_iff}
use m_i_o.Room.Draft.{RoomMessageDraft, create_draft, message_draft_with_provenance}
use m_i_o.Room.Store.{
  append_message, create_room, add_room_participant, rename_room, remove_room_participant,
  delete_room,
}
use m_i_o.Room.Store.Validity.Append.{append_message-IsValidSnapshot}
use m_i_o.Room.Store.Validity.Mutations.{
  add_room_participant-IsValidSnapshot, rename_room-IsValidSnapshot,
  remove_room_participant-IsValidSnapshot, delete_room-IsValidSnapshot,
}
use m_i_o.Room.Store.Validity.Creation.{create_room-IsValidSnapshot, create_draft-IsNewRoom}

-- A client's call: the checked request is built first, as the commands of the desktop app do.
pub data StoreCall : Type 0 where
  appends : RoomMessage → StoreCall
  creates : (id name : Str) (participant_ids : List Str) (created_at : Str) → StoreCall
  adds renames removes : (room_id value updated_at : Str) → StoreCall
  deletes : (room_id updated_at : Str) → StoreCall
  replaces : RoomSnapshot → StoreCall

pub after_call : InMemoryRoomSource → StoreCall → InMemoryRoomSource
after_call source (appends m) = elim (message_draft_with_provenance m) [
  | err e ↦ source
  | ok draft ↦ (append_message source draft).0
]
after_call source (creates id name ids t) = elim (create_draft id name ids t) [
  | err e ↦ source
  | ok draft ↦ (create_room source draft).0
]
after_call source (adds room_id p t) = (add_room_participant source room_id p t).0
after_call source (renames room_id name t) = (rename_room source room_id name t).0
after_call source (removes room_id p t) = (remove_room_participant source room_id p t).0
after_call source (deletes room_id t) = (delete_room source room_id t).0
after_call source (replaces s) = (replace_snapshot source s).0

pub after_calls : InMemoryRoomSource → List StoreCall → InMemoryRoomSource
after_calls source [] = source
after_calls source (c ∷ cs) = after_calls (after_call source c) cs

drafted :
    (m : RoomMessage) {draft : RoomMessageDraft}
    → message_draft_with_provenance m ≡ ok draft
    → valid_message_shape draft.message maximum_room_write_body_bytes ≡ true
unfolding message_draft_with_provenance
drafted m h = ground arith

replaced_cases :
    (source : InMemoryRoomSource) (s : RoomSnapshot)
    → ((replace_snapshot source s).0 ≡ source)
      ⊎ ((validate_snapshot s ≡ ok tt)
          × ((replace_snapshot source s).0 ≡ record source { snapshot = s }))
unfolding replace_snapshot
replaced_cases source s = ground arith

replaced-IsValidSnapshot :
    (source : InMemoryRoomSource) (s : RoomSnapshot)
    → IsValidSnapshot source.snapshot
    → IsValidSnapshot (replace_snapshot source s).0.snapshot
unfolding replace_snapshot
replaced-IsValidSnapshot source s v = elim (replaced_cases source s) [
  | inl same ↦ rw same v
  | inr (valid, done) ↦ rw done ((validate_snapshot_iff s).0 valid)
]

after_call-IsValidSnapshot :
    (source : InMemoryRoomSource) (c : StoreCall)
    → IsValidSnapshot source.snapshot
    → IsValidSnapshot (after_call source c).snapshot
unfolding after_call
after_call-IsValidSnapshot source (appends m) v =
    elim (Result-cases (message_draft_with_provenance m)) [
      | inl (e, h) ↦ rw (h, after_call) v
      | inr (draft, h) ↦
          rw (h, after_call) (append_message-IsValidSnapshot source draft (drafted m h) v)
    ]
after_call-IsValidSnapshot source (creates id name ids t) v =
    elim (Result-cases (create_draft id name ids t)) [
      | inl (e, h) ↦ rw (h, after_call) v
      | inr (draft, h) ↦
          rw (h, after_call)
            (create_room-IsValidSnapshot source draft (create_draft-IsNewRoom id name ids t h) v)
    ]
after_call-IsValidSnapshot source (adds room_id p t) v =
    add_room_participant-IsValidSnapshot source room_id p t v
after_call-IsValidSnapshot source (renames room_id name t) v =
    rename_room-IsValidSnapshot source room_id name t v
after_call-IsValidSnapshot source (removes room_id p t) v =
    remove_room_participant-IsValidSnapshot source room_id p t v
after_call-IsValidSnapshot source (deletes room_id t) v =
    delete_room-IsValidSnapshot source room_id t v
after_call-IsValidSnapshot source (replaces s) v = replaced-IsValidSnapshot source s v

after_calls-IsValidSnapshot :
    (source : InMemoryRoomSource) (cs : List StoreCall)
    → IsValidSnapshot source.snapshot
    → IsValidSnapshot (after_calls source cs).snapshot
unfolding after_calls
after_calls-IsValidSnapshot source [] v = v
after_calls-IsValidSnapshot source (c ∷ cs) v =
    after_calls-IsValidSnapshot (after_call source c) cs (after_call-IsValidSnapshot source c v)

-- A source that was made from a snapshot holds, after any sequence of calls, failed ones
-- included, a snapshot that `validate_snapshot` accepts.
pub after_calls-validate_snapshot :
    (s : RoomSnapshot) (cs : List StoreCall) {source : InMemoryRoomSource}
    → new s ≡ ok source
    → validate_snapshot (after_calls source cs).snapshot ≡ ok tt
unfolding new
after_calls-validate_snapshot s cs {source} h =
    let valid : validate_snapshot source.snapshot ≡ ok tt = ground arith in
    (validate_snapshot_iff _).1
      (after_calls-IsValidSnapshot source cs ((validate_snapshot_iff source.snapshot).0 valid))
