-- ===== src/Room/Store/Refusals.antt =====
-- The mutations of rooms that are refused or have nothing to do (crates/moe-core/src/room.rs).
use m_i_o.Prelude.{◌≡◌, arith, err, ok}
use m_i_o.Text.{Str}
use m_i_o.Room.Types.{InMemoryRoomSource, RoomMutationError, RoomMutationStatus, RoomSummary}
use m_i_o.Room.Draft.{RoomCreateDraft}
use m_i_o.Room.Store.{
  MutationStep, create_room, add_room_participant, rename_room, remove_room_participant,
  delete_room, mutation_success,
}

-- A call of one of the mutations of rooms.
pub data Mutation : Type 0 where
  creates : RoomCreateDraft → Mutation
  adds renames removes : (room_id value updated_at : Str) → Mutation
  deletes : (room_id updated_at : Str) → Mutation

unfoldable pub mutate : InMemoryRoomSource → Mutation → MutationStep
mutate source (creates draft) = create_room source draft
mutate source (adds room_id p t) = add_room_participant source room_id p t
mutate source (renames room_id name t) = rename_room source room_id name t
mutate source (removes room_id p t) = remove_room_participant source room_id p t
mutate source (deletes room_id t) = delete_room source room_id t

-- A mutation that is refused leaves the source as it was, whichever guard refused it.
pub mutate_error_unchanged :
    (source : InMemoryRoomSource) (m : Mutation) {e : RoomMutationError}
    → (mutate source m).1 ≡ err e
    → (mutate source m).0 ≡ source
unfolding mutate create_room add_room_participant rename_room remove_room_participant delete_room
mutate_error_unchanged source (creates draft) h = ground arith
mutate_error_unchanged source (adds room_id p t) h = ground arith
mutate_error_unchanged source (renames room_id name t) h = ground arith
mutate_error_unchanged source (removes room_id p t) h = ground arith
mutate_error_unchanged source (deletes room_id t) h = ground arith

-- A mutation that is answered as a duplicate leaves the source as it was too, with the time at
-- which the snapshot was made.
pub mutate_duplicate_unchanged :
    (source : InMemoryRoomSource) (m : Mutation) {room : RoomSummary}
    → (mutate source m).1 ≡ ok (record { status = RoomMutationStatus.duplicate; room = room })
    → (mutate source m).0 ≡ source
unfolding mutate create_room add_room_participant rename_room remove_room_participant delete_room
    mutation_success
mutate_duplicate_unchanged source (creates draft) h = ground arith
mutate_duplicate_unchanged source (adds room_id p t) h = ground arith
mutate_duplicate_unchanged source (renames room_id name t) h = ground arith
mutate_duplicate_unchanged source (removes room_id p t) h = ground arith
mutate_duplicate_unchanged source (deletes room_id t) h = ground arith
