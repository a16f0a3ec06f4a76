-- ===== src/Room/Store/Validity/Append.antt =====
-- `append_message` (crates/moe-core/src/room.rs) keeps the snapshot valid.
use m_i_o.Prelude.{
  ℕ, ◌≡◌, refl, true, false, not, none, some, map, arith, any, length, find, contains, eq_iff,
  list_eq, nat_eq, All-find, find_holds, Option-cases, inl, inr, sym, leb, ◌⊎◌,
}
use m_i_o.Identifier.{valid_text}
use m_i_o.Room.Types.{
  Room, RoomMessage, InMemoryRoomSource, maximum_room_write_body_bytes, maximum_room_messages,
}
use m_i_o.Room.Snapshot.{valid_message_shape, participant_id_of, all_messages}
use m_i_o.Room.Snapshot.Validity.{IsValidRoom, IsValidSnapshot}
use m_i_o.Room.Draft.{RoomMessageDraft}
use m_i_o.Room.Read.{is_room, is_message}
use m_i_o.Room.Store.{rewrite, append_message, append_new, push_message}
use m_i_o.Room.Store.Rewriting.{message_count-push, message_absent}
use m_i_o.Room.Store.Validity.Rooms.{
  shape_of_write, push_message-IsValidRoom, rewrite-IsValidSnapshot,
}

time_of_shape :
    (m : RoomMessage) (n : ℕ) → valid_message_shape m n ≡ true → valid_text m.created_at 64 ≡ true
unfolding valid_message_shape
time_of_shape m n h = ground arith

-- What the tests of `append_message` make sure of.
pushed-IsValidSnapshot :
    (source : InMemoryRoomSource) (m : RoomMessage) {room : Room}
    → valid_message_shape m maximum_room_write_body_bytes ≡ true
    → find (is_message m.id) (all_messages source.snapshot.rooms) ≡ none
    → IsValidSnapshot source.snapshot
    → find (is_room m.room_id) source.snapshot.rooms ≡ some room
    → leb maximum_room_messages (length room.messages) ≡ false
    → contains room.participant_ids m.author_id ≡ true
    → any (λ r. not (contains room.participant_ids r)) m.recipients ≡ false
    → IsValidSnapshot (rewrite source m.room_id (push_message m) m.created_at).snapshot
pushed-IsValidSnapshot source m {room} shape fresh v found few author recipients =
    let known = map participant_id_of source.snapshot.participants in
    let here : room.id ≡ m.room_id =
      (eq_iff room.id m.room_id).0 (find_holds (is_room m.room_id) source.snapshot.rooms found) in
    let valid =
      All-find (IsValidRoom known) (is_room m.room_id) source.snapshot.rooms v.rooms_valid found in
    rewrite-IsValidSnapshot source.snapshot m.room_id (push_message m) m.created_at v found
      (λ r. refl)
      (push_message-IsValidRoom known room m valid (shape_of_write m shape) (sym here) author
        recipients (ground arith))
      (time_of_shape m maximum_room_write_body_bytes shape)
      (λ a. ground (
        arith,
        message_count-push a m.room_id m source.snapshot.rooms {room = room} found,
        v.distinct_messages a,
        message_absent m.id (all_messages source.snapshot.rooms) fresh,
        eq_iff m.id a,
      ))

-- Nothing changes, or a message that has passed every test is pushed.
abbrev AppendCases : InMemoryRoomSource → RoomMessageDraft → Type 0
AppendCases source draft =
    ((append_message source draft).0 ≡ source)
    ⊎ ((find (is_message draft.message.id) (all_messages source.snapshot.rooms) ≡ none)
        × (room : Room) × (find (is_room draft.message.room_id) source.snapshot.rooms ≡ some room)
        × (leb maximum_room_messages (length room.messages) ≡ false)
        × (contains room.participant_ids draft.message.author_id ≡ true)
        × (any (λ r. not (contains room.participant_ids r)) draft.message.recipients ≡ false)
        × ((append_message source draft).0
            ≡ rewrite source draft.message.room_id (push_message draft.message)
                draft.message.created_at))

pushed_cases :
    (source : InMemoryRoomSource) (draft : RoomMessageDraft) (room : Room)
    → find (is_message draft.message.id) (all_messages source.snapshot.rooms) ≡ none
    → find (is_room draft.message.room_id) source.snapshot.rooms ≡ some room
    → AppendCases source draft
unfolding append_message append_new
pushed_cases source draft room e f = ground arith

-- `append_message` changes nothing, or pushes a message that has passed every test.
append_message_cases :
    (source : InMemoryRoomSource) (draft : RoomMessageDraft) → AppendCases source draft
unfolding append_message append_new
append_message_cases source draft =
    elim (Option-cases (find (is_message draft.message.id) (all_messages source.snapshot.rooms))) [
      | inr (existing, e) ↦ inl (ground arith)
      | inl e ↦ elim (Option-cases (find (is_room draft.message.room_id) source.snapshot.rooms)) [
        | inl f ↦ inl (ground arith)
        | inr (room, f) ↦ pushed_cases source draft room e f
      ]
    ]

pub append_message-IsValidSnapshot :
    (source : InMemoryRoomSource) (draft : RoomMessageDraft)
    → valid_message_shape draft.message maximum_room_write_body_bytes ≡ true
    → IsValidSnapshot source.snapshot
    → IsValidSnapshot (append_message source draft).0.snapshot
append_message-IsValidSnapshot source draft shape v = elim (append_message_cases source draft) [
  | inl same ↦ rw same v
  | inr (fresh, room, found, few, author, recipients, pushed) ↦
      rw pushed
        (pushed-IsValidSnapshot source draft.message shape fresh v found few author recipients)
]
