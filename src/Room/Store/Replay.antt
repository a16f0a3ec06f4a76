-- ===== src/Room/Store/Replay.antt =====
-- A repeated append, and reading back what was appended (crates/moe-core/src/room.rs).
use m_i_o.Prelude.{
  ◌≡◌, refl, ◌∙◌, true, false, none, some, List, [], ◌∷◌, ◌++◌, arith, find, modify, eq_iff,
  eq_refl, list_eq, nat_eq, Result, ok, err, inl, inr, Option-cases, Bool-cases,
}
use m_i_o.Text.{Str}
use m_i_o.Identifier.{valid_identifier}
use m_i_o.Room.Types.{
  Room, RoomMessage, InMemoryRoomSource, RoomWriteStatus, appended, RoomWriteSuccess,
  RoomWriteError,
}
use m_i_o.Room.Snapshot.{all_messages, same_idempotent_payload}
use m_i_o.Room.Draft.{RoomMessageDraft}
use m_i_o.Room.Read.{is_room, is_message, find_message}
use m_i_o.Room.Store.{append_message, append_new, push_message, rewrite}

find-append :
    (id : Str) (xs ys : List RoomMessage)
    → find (is_message id) xs ≡ none
    → find (is_message id) (xs ++ ys) ≡ find (is_message id) ys
unfolding find
find-append id [] ys h = refl
find-append id (x ∷ xs) ys h = ground (arith, find-append id xs ys)

find_in_first :
    (id : Str) (xs ys : List RoomMessage) {m : RoomMessage}
    → find (is_message id) xs ≡ some m
    → find (is_message id) (xs ++ ys) ≡ some m
unfolding find
find_in_first id [] ys h = cc
find_in_first id (x ∷ xs) ys {m} h = ground (arith, find_in_first id xs ys {m = m})

absent_in_first :
    (id : Str) (xs ys : List RoomMessage)
    → find (is_message id) (xs ++ ys) ≡ none
    → (find (is_message id) xs ≡ none) × (find (is_message id) ys ≡ none)
unfolding find
absent_in_first id [] ys h = (refl, h)
absent_in_first id (x ∷ xs) ys h = ground (arith, absent_in_first id xs ys)

find_pushed :
    (m : RoomMessage) (xs : List RoomMessage)
    → find (is_message m.id) xs ≡ none
    → find (is_message m.id) (xs ++ m ∷ []) ≡ some m
unfolding find
find_pushed m xs h = find-append m.id xs (m ∷ []) h ∙ ground (arith, eq_refl m.id)

-- A message that was absent is found after it was pushed to a room.
find_in_all :
    (room_id : Str) (m : RoomMessage) (rooms : List Room) {room : Room}
    → find (is_message m.id) (all_messages rooms) ≡ none
    → find (is_room room_id) rooms ≡ some room
    → find (is_message m.id) (all_messages (modify (is_room room_id) (push_message m) rooms))
      ≡ some m
unfolding all_messages modify
find_in_all room_id m [] fresh found = unfold find in cc
find_in_all room_id m (r ∷ rest) {room} fresh found = elim (Bool-cases (is_room room_id r)) [
  | inl hit ↦ rw hit (
      find_in_first m.id (r.messages ++ m ∷ []) (all_messages rest)
        (find_pushed m r.messages (absent_in_first m.id r.messages (all_messages rest) fresh).0))
  | inr miss ↦ rw miss (
      find-append m.id r.messages _ (absent_in_first m.id r.messages (all_messages rest) fresh).0
      ∙ find_in_all room_id m rest {room = room}
          (absent_in_first m.id r.messages (all_messages rest) fresh).1
          (unfold find in ground arith))
]

find_modified :
    (room_id : Str) (m : RoomMessage) (rooms : List Room) {room : Room}
    → find (is_room room_id) rooms ≡ some room
    → find (is_room room_id) (modify (is_room room_id) (push_message m) rooms)
      ≡ some (push_message m room)
unfolding find modify
find_modified room_id m [] found = cc
find_modified room_id m (r ∷ rest) {room} found =
    ground (arith, find_modified room_id m rest {room = room})

absent_in_room :
    (room_id id : Str) (rooms : List Room) {room : Room}
    → find (is_message id) (all_messages rooms) ≡ none
    → find (is_room room_id) rooms ≡ some room
    → find (is_message id) room.messages ≡ none
unfolding all_messages
absent_in_room room_id id [] fresh found = unfold find in cc
absent_in_room room_id id (r ∷ rest) {room} fresh found =
    let (here, later) = absent_in_first id r.messages (all_messages rest) fresh in
    elim (Bool-cases (is_room room_id r)) [
      | inl hit ↦ unfold find in ground arith
      | inr miss ↦ absent_in_room room_id id rest {room = room} later (unfold find in ground arith)
    ]

-- What a call that has appended went by and left.
abbrev Appended : InMemoryRoomSource → RoomMessage → InMemoryRoomSource → Type 0
Appended source m after =
    (source.poisoned ≡ false)
    × (find (is_message m.id) (all_messages source.snapshot.rooms) ≡ none)
    × (room : Room) × (find (is_room m.room_id) source.snapshot.rooms ≡ some room)
    × (after ≡ rewrite source m.room_id (push_message m) m.created_at)

abbrev pub appended_reply : RoomMessage → Result RoomWriteError RoomWriteSuccess
appended_reply m = ok (record { status = appended; message = m })

abbrev pub duplicate_reply : RoomMessage → Result RoomWriteError RoomWriteSuccess
duplicate_reply m = ok (record { status = RoomWriteStatus.duplicate; message = m })

append-Appended :
    (source : InMemoryRoomSource) (draft : RoomMessageDraft)
    → (append_message source draft).1 ≡ appended_reply draft.message
    → Appended source draft.message (append_message source draft).0
unfolding append_message append_new
append-Appended source draft h =
    elim (Option-cases (find (is_message draft.message.id) (all_messages source.snapshot.rooms))) [
      | inr (existing, e) ↦ ground arith
      | inl e ↦ elim (Option-cases (find (is_room draft.message.room_id) source.snapshot.rooms)) [
        | inl f ↦ ground arith
        | inr (room, f) ↦ (ground arith, e, room, f, ground arith)
      ]
    ]

-- The message that a call has appended is the one that a lookup then returns.
pub find_message-append :
    (source : InMemoryRoomSource) (draft : RoomMessageDraft)
    → valid_identifier draft.message.room_id ≡ true
    → valid_identifier draft.message.id ≡ true
    → (append_message source draft).1 ≡ appended_reply draft.message
    → find_message (append_message source draft).0 draft.message.room_id draft.message.id
      ≡ ok draft.message
unfolding find_message
find_message-append source draft valid_room valid_id h =
    let m = draft.message in
    let (sound, fresh, room, found, done) = append-Appended source draft h in
    let pushed = find_modified m.room_id m source.snapshot.rooms {room = room} found in
    let seen =
      find_pushed m room.messages
        (absent_in_room m.room_id m.id source.snapshot.rooms {room = room} fresh found) in
    rw done (rw (valid_room, valid_id, sound) (rw pushed (rw seen refl)))

retried_id :
    (m retried : RoomMessage) → same_idempotent_payload m retried ≡ true → retried.id ≡ m.id
unfolding same_idempotent_payload
retried_id m retried h = ground (arith, eq_iff m.id retried.id)

append_seen :
    (source : InMemoryRoomSource) (retried : RoomMessageDraft) (existing : RoomMessage)
    → source.poisoned ≡ false
    → find (is_message retried.message.id) (all_messages source.snapshot.rooms) ≡ some existing
    → same_idempotent_payload existing retried.message ≡ true
    → append_message source retried ≡ (source, duplicate_reply existing)
unfolding append_message
append_seen source retried existing sound seen same = ground arith

-- A retry of an appended message, with the same content at whatever time, is answered as a
-- duplicate with the message that was stored, and changes nothing.
pub append_replay :
    (source : InMemoryRoomSource) (draft retried : RoomMessageDraft)
    → (append_message source draft).1 ≡ appended_reply draft.message
    → same_idempotent_payload draft.message retried.message ≡ true
    → append_message (append_message source draft).0 retried
      ≡ ((append_message source draft).0, duplicate_reply draft.message)
append_replay source draft retried h same =
    let m = draft.message in
    let (sound, fresh, room, found, done) = append-Appended source draft h in
    let seen = find_in_all m.room_id m source.snapshot.rooms {room = room} fresh found in
    let name = retried_id m retried.message same in
    rw done (
      append_seen (rewrite source m.room_id (push_message m) m.created_at) retried m sound
        (rw name seen) same)

-- A write that is refused leaves the source as it was.
pub append_error_unchanged :
    (source : InMemoryRoomSource) (draft : RoomMessageDraft) {e : RoomWriteError}
    → (append_message source draft).1 ≡ err e
    → (append_message source draft).0 ≡ source
unfolding append_message append_new
append_error_unchanged source draft h = ground arith
