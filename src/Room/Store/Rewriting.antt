-- ===== src/Room/Store/Rewriting.antt =====
-- What rewriting one room does to the identifiers of a snapshot (crates/moe-core/src/room.rs).
use mathlib.Core.List.{map-append}
use m_i_o.Prelude.{
  ℕ, zero, suc, ◌+◌, ◌≤◌, ◌≡◌, refl, true, none, some, List, [], ◌∷◌, ◌++◌, map, arith, find,
  modify, remove_at, list_eq, nat_eq, occurrences, occurrences-append, if◌then◌else◌, ◌==◌,
  Bool-cases, inl, inr, IsIn, any,
}
use m_i_o.Text.{Str}
use m_i_o.Room.Types.{Room, RoomMessage, RoomParticipant}
use m_i_o.Room.Snapshot.{all_messages, message_id_of, room_id_of, participant_id_of}
use m_i_o.Room.Read.{is_room, is_message, is_participant}
use m_i_o.Room.Store.{push_message}

abbrev pub message_count : Str → List Room → ℕ
message_count a rooms = occurrences a (map message_id_of (all_messages rooms))

pub message_count-cons :
    (a : Str) (room : Room) (rest : List Room)
    → message_count a (room ∷ rest)
      ≡ occurrences a (map message_id_of room.messages) + message_count a rest
unfolding all_messages
message_count-cons a room rest =
    rw (map-append message_id_of room.messages (all_messages rest))
      (occurrences-append a (map message_id_of room.messages) _)

pub rooms-modify :
    (id : Str) (f : Room → Room) (rooms : List Room)
    → ((r : Room) → (f r).id ≡ r.id)
    → map room_id_of (modify (is_room id) f rooms) ≡ map room_id_of rooms
unfolding modify
rooms-modify id f [] same = refl
rooms-modify id f (r ∷ rest) same = ground (arith, same r, rooms-modify id f rest same)

pub messages-modify :
    (id : Str) (f : Room → Room) (rooms : List Room)
    → ((r : Room) → (f r).messages ≡ r.messages)
    → all_messages (modify (is_room id) f rooms) ≡ all_messages rooms
unfolding modify all_messages
messages-modify id f [] same = refl
messages-modify id f (r ∷ rest) same = ground (arith, same r, messages-modify id f rest same)

push_count :
    (a : Str) (m : RoomMessage) (ms : List RoomMessage)
    → occurrences a (map message_id_of (ms ++ m ∷ []))
      ≡ occurrences a (map message_id_of ms) + (if m.id == a then 1 else 0)
unfolding occurrences
push_count a m ms =
    rw (map-append message_id_of ms (m ∷ []))
      (ground (arith, occurrences-append a (map message_id_of ms) (m.id ∷ [])))

-- Pushing a message adds one occurrence of its identifier, and no other.
pub message_count-push :
    (a id : Str) (m : RoomMessage) (rooms : List Room) {room : Room}
    → find (is_room id) rooms ≡ some room
    → message_count a (modify (is_room id) (push_message m) rooms)
      ≡ message_count a rooms + (if m.id == a then 1 else 0)
unfolding find modify
message_count-push a id m [] e = cc
message_count-push a id m (r ∷ rest) {room} e = elim (Bool-cases (is_room id r)) [
  | inl hit ↦ rw hit (
      omega (
        arith,
        message_count-cons a (push_message m r) rest,
        message_count-cons a r rest,
        push_count a m r.messages,
      ))
  | inr miss ↦ rw miss (
      omega (
        arith,
        message_count-cons a r (modify (is_room id) (push_message m) rest),
        message_count-cons a r rest,
        message_count-push a id m rest {room = room} (ground arith),
      ))
]

pub room_absent :
    (id : Str) (rooms : List Room)
    → find (is_room id) rooms ≡ none
    → occurrences id (map room_id_of rooms) ≡ 0
unfolding find occurrences
room_absent id [] e = refl
room_absent id (r ∷ rest) e = ground (arith, room_absent id rest)

pub message_absent :
    (id : Str) (messages : List RoomMessage)
    → find (is_message id) messages ≡ none
    → occurrences id (map message_id_of messages) ≡ 0
unfolding find occurrences
message_absent id [] e = refl
message_absent id (m ∷ rest) e = ground (arith, message_absent id rest)

pub participant_known :
    (id : Str) (ps : List RoomParticipant)
    → any (is_participant id) ps ≡ true
    → IsIn id (map participant_id_of ps)
unfolding any occurrences
participant_known id [] e = cc
participant_known id (p ∷ rest) e = ground (arith, participant_known id rest)

-- Removing a room takes identifiers away and adds none.
pub rooms-remove_at-le :
    (a : Str) (i : ℕ) (rooms : List Room)
    → occurrences a (map room_id_of (remove_at i rooms)) ≤ occurrences a (map room_id_of rooms)
unfolding remove_at occurrences
rooms-remove_at-le a i [] = omega arith
rooms-remove_at-le a zero (r ∷ rest) = ground arith
rooms-remove_at-le a (suc i) (r ∷ rest) = ground (arith, rooms-remove_at-le a i rest)

pub message_count-remove_at-le :
    (a : Str) (i : ℕ) (rooms : List Room)
    → message_count a (remove_at i rooms) ≤ message_count a rooms
unfolding remove_at
message_count-remove_at-le a i [] = omega arith
message_count-remove_at-le a zero (r ∷ rest) = omega (arith, message_count-cons a r rest)
message_count-remove_at-le a (suc i) (r ∷ rest) = omega (
  arith,
  message_count-cons a r rest,
  message_count-cons a r (remove_at i rest),
  message_count-remove_at-le a i rest,
)

pub message_count-append_empty :
    (a : Str) (rooms : List Room) (room : Room)
    → room.messages ≡ []
    → message_count a (rooms ++ room ∷ []) ≡ message_count a rooms
unfolding all_messages
message_count-append_empty a [] room e = rw e refl
message_count-append_empty a (r ∷ rest) room e = omega (
  arith,
  message_count-cons a r rest,
  message_count-cons a r (rest ++ room ∷ []),
  message_count-append_empty a rest room e,
)
