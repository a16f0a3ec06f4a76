-- ===== src/Room/Snapshot/Validity/Rooms.antt =====
-- The loops of `validate_snapshot` (crates/moe-core/src/room.rs) decide validity.
use m_i_o.Prelude.{
  ◌+◌, ◌≤◌, ◌≡◌, ◌↔◌, refl, true, false, some, List, [], ◌∷◌, map, arith, All, length, eq_iff,
  eq_refl, contains, contains_iff, list_eq, nat_eq, occurrences, IsDistinct, IsIn, all, ok,
  Option-cases, inl, inr, occurrences-append,
}
use mathlib.Core.List.{map-append}
use m_i_o.Text.{Str}
use m_i_o.Room.Types.{RoomParticipant, Room, RoomSnapshot, protocol_version}
use m_i_o.Room.Snapshot.{
  valid_participants, valid_room, valid_rooms, collect_set, insert_messages, validate_snapshot,
  participant_id_of, message_id_of, room_id_of, all_messages,
}
use m_i_o.Room.Snapshot.Sets.{
  IsIn-collect_set, collect_set-IsDistinct, collect_set_of_distinct, all-contains_iff,
}
use m_i_o.Room.Snapshot.Validity.{FitsRoom, IsValidRoom, IsValidParticipant, IsValidSnapshot}
use m_i_o.Room.Snapshot.Validity.Messages.{insert_messages_sound, insert_messages_complete}

valid_participants_sound :
    (seen : List Str) (ps : List RoomParticipant)
    → valid_participants seen ps ≡ true
    → IsDistinct seen
    → All IsValidParticipant ps
      × ((a : Str) → occurrences a seen + occurrences a (map participant_id_of ps) ≤ 1)
unfolding valid_participants occurrences
valid_participants_sound seen [] h d = (tt, λ a. ground (arith, d a))
valid_participants_sound seen (p ∷ rest) h d =
    let fresh : contains seen p.id ≡ false = ground arith in
    let (fit, once) =
      valid_participants_sound (p.id ∷ seen) rest (ground arith)
        (λ a. ground (arith, d a, contains_iff seen p.id, eq_iff p.id a)) in
    (
      (record { id_valid = ground arith; name_valid = ground arith }, fit),
      λ a. ground (arith, once a),
    )

valid_participants_complete :
    (seen : List Str) (ps : List RoomParticipant)
    → All IsValidParticipant ps
    → ((a : Str) → occurrences a seen + occurrences a (map participant_id_of ps) ≤ 1)
    → valid_participants seen ps ≡ true
unfolding valid_participants occurrences
valid_participants_complete seen [] f d = refl
valid_participants_complete seen (p ∷ rest) f d =
    let later = valid_participants_complete (p.id ∷ seen) rest f.1 (λ a. ground (arith, d a)) in
    ground (arith, later, d p.id, contains_iff seen p.id, eq_refl p.id)

-- What the rooms' loop finds out.
abbrev RoomsFit : List Str → List Str → List Str → List Room → Type 0
RoomsFit known room_ids message_ids rooms =
    All (IsValidRoom known) rooms
    × ((a : Str) → occurrences a room_ids + occurrences a (map room_id_of rooms) ≤ 1)
    × ((a : Str)
        → occurrences a message_ids + occurrences a (map message_id_of (all_messages rooms)) ≤ 1)

messages_of_rest :
    (a : Str) (room : Room) (rest : List Room)
    → occurrences a (map message_id_of (all_messages (room ∷ rest)))
      ≡ occurrences a (map message_id_of room.messages)
        + occurrences a (map message_id_of (all_messages rest))
unfolding all_messages
messages_of_rest a room rest =
    rw (map-append message_id_of room.messages (all_messages rest))
      (occurrences-append a (map message_id_of room.messages) _)

inserted_of_valid_rooms :
    (known room_ids message_ids : List Str) (room : Room) (rest : List Room)
    → valid_rooms known room_ids message_ids (room ∷ rest) ≡ true
    → (ids : List Str) × (insert_messages room
          (collect_set room.participant_ids)
          message_ids
          room.messages
        ≡ some ids)
unfolding valid_rooms
inserted_of_valid_rooms known rids mids room rest h =
    elim (Option-cases
      (insert_messages room (collect_set room.participant_ids) mids room.messages)) [
        | inl e ↦ ground arith
        | inr (ids, e) ↦ (ids, e)
      ]

known_of_valid_room :
    (known room_ids : List Str) (room : Room)
    → valid_room known room_ids room ≡ true
    → (p : Str) → IsIn p room.participant_ids
    → IsIn p known
unfolding valid_room
known_of_valid_room known rids room h p m =
    let spread : all (λ x. contains known x) (collect_set room.participant_ids) ≡ true =
      ground arith in
    (all-contains_iff known (collect_set room.participant_ids)).0 spread p
      ((IsIn-collect_set p room.participant_ids).1 m)

valid_rooms_sound :
    (known room_ids message_ids : List Str) (rooms : List Room)
    → valid_rooms known room_ids message_ids rooms ≡ true
    → IsDistinct room_ids
    → IsDistinct message_ids
    → RoomsFit known room_ids message_ids rooms
unfolding valid_rooms occurrences
valid_rooms_sound known rids mids [] h dr dm =
    (tt, (λ a. ground (arith, dr a)), (λ a. unfold all_messages in ground (arith, dm a)))
valid_rooms_sound known rids mids (room ∷ rest) h dr dm =
    let members = room.participant_ids in
    let set = collect_set members in
    let checked : valid_room known rids room ≡ true = ground arith in
    let fresh : contains rids room.id ≡ false = unfold valid_room in ground arith in
    let same : length set ≡ length members = unfold valid_room in ground arith in
    let distinct = collect_set-IsDistinct members same in
    let (mids', inserted) = inserted_of_valid_rooms known rids mids room rest h in
    let messages = insert_messages_sound room set mids room.messages inserted in
    let (fit, once, apart) =
      valid_rooms_sound known (room.id ∷ rids) mids' rest (ground arith)
        (λ a. ground (arith, dr a, contains_iff rids room.id, eq_iff room.id a))
        (messages.distinct dm) in
    (
      (
        record {
          id_valid = unfold valid_room in ground arith;
          name_valid = unfold valid_room in ground arith;
          few_participants = unfold valid_room in ground arith;
          few_messages = unfold valid_room in ground arith;
          distinct_participants = distinct;
          known_participants = λ p m. (known_of_valid_room known rids room checked) p m;
          messages_fit = rw (← (collect_set_of_distinct members distinct)) (messages.fit);
        },
        fit,
      ),
      (λ a. ground (arith, once a)),
      (λ a. ground (arith, apart a, messages.holds a, messages_of_rest a room rest)),
    )

valid_room_complete :
    (known room_ids : List Str) (room : Room)
    → IsValidRoom known room
    → contains room_ids room.id ≡ false
    → valid_room known room_ids room ≡ true
unfolding valid_room
valid_room_complete known rids room v fresh =
    let same = collect_set_of_distinct room.participant_ids v.distinct_participants in
    let spread = (all-contains_iff known room.participant_ids).1 v.known_participants in
    rw same (ground (arith, spread))

valid_rooms_complete :
    (known room_ids message_ids : List Str) (rooms : List Room)
    → RoomsFit known room_ids message_ids rooms
    → valid_rooms known room_ids message_ids rooms ≡ true
unfolding valid_rooms occurrences
valid_rooms_complete known rids mids [] f = refl
valid_rooms_complete known rids mids (room ∷ rest) (valid, once, apart) =
    let set = collect_set room.participant_ids in
    let same = collect_set_of_distinct room.participant_ids valid.0.distinct_participants in
    let fresh : contains rids room.id ≡ false =
      ground (arith, once room.id, contains_iff rids room.id, eq_refl room.id) in
    let fit : All (FitsRoom room.id set) room.messages = rw same valid.0.messages_fit in
    let (ids, inserted) =
      insert_messages_complete room set mids room.messages fit
        (λ a. ground (arith, apart a, messages_of_rest a room rest)) in
    let messages = insert_messages_sound room set mids room.messages inserted in
    let later = valid_rooms_complete known (room.id ∷ rids) ids rest (
      valid.1,
      (λ a. ground (arith, once a)),
      (λ a. ground (arith, apart a, messages.holds a, messages_of_rest a room rest)),
    ) in
    ground (arith, valid_room_complete known rids room valid.0 fresh, inserted, later)

validate_snapshot_sound : (s : RoomSnapshot) → validate_snapshot s ≡ ok tt → IsValidSnapshot s
unfolding validate_snapshot occurrences
validate_snapshot_sound s h =
    let people = valid_participants_sound [] s.participants (ground arith) (λ a. omega arith) in
    let rooms =
      valid_rooms_sound (map participant_id_of s.participants) [] [] s.rooms (ground arith)
        (λ a. omega arith) (λ a. omega arith) in
    record {
      version = ground (arith, eq_iff s.schema_version protocol_version);
      time_valid = ground arith;
      few_participants = ground arith;
      few_rooms = ground arith;
      participants_valid = people.0;
      distinct_participants = λ a. omega (arith, people.1 a);
      rooms_valid = rooms.0;
      distinct_rooms = λ a. omega (arith, rooms.1 a);
      distinct_messages = λ a. omega (arith, rooms.2 a);
    }

validate_snapshot_complete : (s : RoomSnapshot) → IsValidSnapshot s → validate_snapshot s ≡ ok tt
unfolding validate_snapshot occurrences
validate_snapshot_complete s v =
    let people =
      valid_participants_complete [] s.participants v.participants_valid
        (λ a. omega (arith, v.distinct_participants a)) in
    let rooms = valid_rooms_complete (map participant_id_of s.participants) [] [] s.rooms (
      v.rooms_valid,
      (λ a. omega (arith, v.distinct_rooms a)),
      (λ a. omega (arith, v.distinct_messages a)),
    ) in
    ground (arith, people, rooms, v.version, v.time_valid, eq_iff s.schema_version protocol_version)

-- `validate_snapshot` accepts a snapshot exactly if it is valid.
pub validate_snapshot_iff : (s : RoomSnapshot) → (validate_snapshot s ≡ ok tt) ↔ IsValidSnapshot s
validate_snapshot_iff s = (validate_snapshot_sound s, validate_snapshot_complete s)
