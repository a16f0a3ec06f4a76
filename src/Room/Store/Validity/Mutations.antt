-- ===== src/Room/Store/Validity/Mutations.antt =====
-- The calls that change a Room's catalogue (crates/moe-core/src/room.rs) keep the snapshot valid.
use m_i_o.Prelude.{
  ℕ, ◌≡◌, refl, true, false, some, List, map, arith, any, length, length-remove_at-le, find,
  position, remove_at, contains, list_eq, nat_eq, All-find, All-remove_at, Option-cases, inl, inr,
  leb, ◌⊎◌, ◌==◌,
}
use m_i_o.Text.{Str}
use m_i_o.Identifier.{valid_text}
use m_i_o.Room.Types.{
  Room, InMemoryRoomSource, maximum_room_participants, maximum_display_name_bytes,
}
use m_i_o.Room.Snapshot.{participant_id_of}
use m_i_o.Room.Snapshot.Validity.{IsValidRoom, IsValidSnapshot}
use m_i_o.Room.Read.{is_room, is_participant}
use m_i_o.Room.Store.{
  rewrite, add_room_participant, rename_room, remove_room_participant, delete_room,
  push_participant, set_name, drop_participant, involves,
}
use m_i_o.Room.Store.Rewriting.{
  messages-modify, participant_known, rooms-remove_at-le, message_count-remove_at-le,
}
use m_i_o.Room.Store.Validity.Rooms.{
  push_participant-IsValidRoom, set_name-IsValidRoom, drop_participant-IsValidRoom,
  rewrite-IsValidSnapshot,
}

room_found :
    (source : InMemoryRoomSource) (room_id : Str) {room : Room}
    → IsValidSnapshot source.snapshot
    → find (is_room room_id) source.snapshot.rooms ≡ some room
    → IsValidRoom (map participant_id_of source.snapshot.participants) room
room_found source room_id v e =
    All-find (IsValidRoom (map participant_id_of source.snapshot.participants)) (is_room room_id)
      source.snapshot.rooms v.rooms_valid e

abbrev known_in : InMemoryRoomSource → List Str
known_in source = map participant_id_of source.snapshot.participants

add_cases :
    (source : InMemoryRoomSource) (room_id p t : Str)
    → ((add_room_participant source room_id p t).0 ≡ source)
      ⊎ ((room : Room) × (find (is_room room_id) source.snapshot.rooms ≡ some room)
          × (valid_text t 64 ≡ true)
          × (any (is_participant p) source.snapshot.participants ≡ true)
          × (contains room.participant_ids p ≡ false)
          × (leb maximum_room_participants (length room.participant_ids) ≡ false)
          × ((add_room_participant source room_id p t).0
              ≡ rewrite source room_id (push_participant p) t))
unfolding add_room_participant
add_cases source room_id p t =
    ground (arith, Option-cases (find (is_room room_id) source.snapshot.rooms))

pub add_room_participant-IsValidSnapshot :
    (source : InMemoryRoomSource) (room_id p t : Str)
    → IsValidSnapshot source.snapshot
    → IsValidSnapshot (add_room_participant source room_id p t).0.snapshot
add_room_participant-IsValidSnapshot source room_id p t v = elim (add_cases source room_id p t) [
  | inl same ↦ rw same v
  | inr (room, found, time, member, fresh, few, done) ↦ rw done (
      rewrite-IsValidSnapshot source.snapshot room_id (push_participant p) t v found (λ r. refl)
        (push_participant-IsValidRoom (known_in source) room p (room_found source room_id v found)
          (participant_known p source.snapshot.participants member) fresh (ground arith))
        time
        (rw (messages-modify room_id (push_participant p) source.snapshot.rooms (λ r. refl))
          v.distinct_messages))
]

rename_cases :
    (source : InMemoryRoomSource) (room_id name t : Str)
    → ((rename_room source room_id name t).0 ≡ source)
      ⊎ ((room : Room) × (find (is_room room_id) source.snapshot.rooms ≡ some room)
          × (valid_text t 64 ≡ true)
          × (valid_text name maximum_display_name_bytes ≡ true)
          × ((rename_room source room_id name t).0 ≡ rewrite source room_id (set_name name) t))
unfolding rename_room
rename_cases source room_id name t =
    ground (arith, Option-cases (find (is_room room_id) source.snapshot.rooms))

pub rename_room-IsValidSnapshot :
    (source : InMemoryRoomSource) (room_id name t : Str)
    → IsValidSnapshot source.snapshot
    → IsValidSnapshot (rename_room source room_id name t).0.snapshot
rename_room-IsValidSnapshot source room_id name t v = elim (rename_cases source room_id name t) [
  | inl same ↦ rw same v
  | inr (room, found, time, named, done) ↦ rw done (
      rewrite-IsValidSnapshot source.snapshot room_id (set_name name) t v found (λ r. refl)
        (set_name-IsValidRoom (known_in source) room name (room_found source room_id v found) named)
        time
        (rw (messages-modify room_id (set_name name) source.snapshot.rooms (λ r. refl))
          v.distinct_messages))
]

remove_cases :
    (source : InMemoryRoomSource) (room_id p t : Str)
    → ((remove_room_participant source room_id p t).0 ≡ source)
      ⊎ ((room : Room) × (find (is_room room_id) source.snapshot.rooms ≡ some room)
          × (index : ℕ) × (position (λ existing. existing == p) room.participant_ids ≡ some index)
          × (valid_text t 64 ≡ true)
          × (any (involves p) room.messages ≡ false)
          × ((remove_room_participant source room_id p t).0
              ≡ rewrite source room_id (drop_participant index) t))
unfolding remove_room_participant
remove_cases source room_id p t =
    elim (Option-cases (find (is_room room_id) source.snapshot.rooms)) [
      | inl e ↦ inl (ground arith)
      | inr (room, e) ↦
          elim (Option-cases (position (λ existing. existing == p) room.participant_ids)) [
            | inl f ↦ inl (ground arith)
            | inr (index, f) ↦ ground arith
          ]
    ]

pub remove_room_participant-IsValidSnapshot :
    (source : InMemoryRoomSource) (room_id p t : Str)
    → IsValidSnapshot source.snapshot
    → IsValidSnapshot (remove_room_participant source room_id p t).0.snapshot
remove_room_participant-IsValidSnapshot source room_id p t v =
    elim (remove_cases source room_id p t) [
      | inl same ↦ rw same v
      | inr (room, found, index, at, time, free, done) ↦ rw done (
          rewrite-IsValidSnapshot source.snapshot room_id (drop_participant index) t v found
            (λ r. refl)
            (drop_participant-IsValidRoom (known_in source) room p index
              (room_found source room_id v found) at free)
            time
            (rw (messages-modify room_id (drop_participant index) source.snapshot.rooms (λ r. refl))
              v.distinct_messages))
    ]

delete_cases :
    (source : InMemoryRoomSource) (room_id t : Str)
    → ((delete_room source room_id t).0 ≡ source)
      ⊎ ((index : ℕ) × (position (is_room room_id) source.snapshot.rooms ≡ some index)
          × (valid_text t 64 ≡ true)
          × ((delete_room source room_id t).0 ≡ record source {
            snapshot = record source.snapshot {
              generated_at = t;
              rooms = remove_at index source.snapshot.rooms;
            };
          }))
unfolding delete_room
delete_cases source room_id t =
    elim (Option-cases (position (is_room room_id) source.snapshot.rooms)) [
      | inl e ↦ inl (ground arith)
      | inr (index, e) ↦ ground arith
    ]

pub delete_room-IsValidSnapshot :
    (source : InMemoryRoomSource) (room_id t : Str)
    → IsValidSnapshot source.snapshot
    → IsValidSnapshot (delete_room source room_id t).0.snapshot
delete_room-IsValidSnapshot source room_id t v = elim (delete_cases source room_id t) [
  | inl same ↦ rw same v
  | inr (index, at, time, done) ↦ rw done (record {
    version = v.version;
    time_valid = time;
    few_participants = v.few_participants;
    few_rooms = omega (arith, length-remove_at-le index source.snapshot.rooms, v.few_rooms);
    participants_valid = v.participants_valid;
    distinct_participants = v.distinct_participants;
    rooms_valid =
        All-remove_at (IsValidRoom (known_in source)) index source.snapshot.rooms v.rooms_valid;
    distinct_rooms =
        λ a. omega (arith, rooms-remove_at-le a index source.snapshot.rooms, v.distinct_rooms a);
    distinct_messages = λ a.
        omega
          (arith, message_count-remove_at-le a index source.snapshot.rooms, v.distinct_messages a);
  })
]
