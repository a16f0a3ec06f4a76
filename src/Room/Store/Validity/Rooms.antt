-- ===== src/Room/Store/Validity/Rooms.antt =====
-- How each rewriting of one room keeps the room, and the snapshot around it, valid
-- (crates/moe-core/src/room.rs).
use m_i_o.Prelude.{
  ℕ, ◌+◌, ◌≤◌, ◌<◌, ◌≡◌, true, false, not, some, List, [], ◌∷◌, ◌++◌, map, arith, length,
  length-append, length-modify, length-remove_at-le, find, position, modify, remove_at, any,
  contains, contains_iff, eq_iff, list_eq, nat_eq, occurrences, occurrences-append,
  occurrences-single, occurrences-remove_at, IsIn, All, All-modify, All-append, All-mono,
  if◌then◌else◌, ◌==◌,
}
use m_i_o.Text.{Str}
use m_i_o.Identifier.{valid_text}
use m_i_o.Room.Types.{
  Room, RoomMessage, RoomSnapshot, maximum_room_participants, maximum_room_messages,
  maximum_display_name_bytes, maximum_room_write_body_bytes, maximum_message_body_bytes,
}
use m_i_o.Room.Snapshot.{valid_message_shape, participant_id_of}
use m_i_o.Room.Snapshot.Validity.{FitsRoom, IsValidRoom, IsValidSnapshot}
use m_i_o.Room.Read.{is_room}
use m_i_o.Room.Store.{push_message, push_participant, set_name, drop_participant, involves}
use m_i_o.Room.Store.Rewriting.{message_count, rooms-modify}

-- The participants of a message that a room's checks have let through.
any-not-contains :
    (members xs : List Str) (a : Str)
    → any (λ x. not (contains members x)) xs ≡ false
    → IsIn a xs
    → IsIn a members
unfolding any occurrences
any-not-contains members [] a h m = absurd (omega arith)
any-not-contains members (x ∷ xs) a h m =
    ground (arith, any-not-contains members xs a, contains_iff members x, eq_iff x a)

pub shape_of_write :
    (m : RoomMessage)
    → valid_message_shape m maximum_room_write_body_bytes ≡ true
    → valid_message_shape m maximum_message_body_bytes ≡ true
unfolding valid_message_shape valid_text
shape_of_write m h = ground arith

pub push_message-IsValidRoom :
    (known : List Str) (room : Room) (m : RoomMessage)
    → IsValidRoom known room
    → valid_message_shape m maximum_message_body_bytes ≡ true
    → m.room_id ≡ room.id
    → contains room.participant_ids m.author_id ≡ true
    → any (λ r. not (contains room.participant_ids r)) m.recipients ≡ false
    → length room.messages < maximum_room_messages
    → IsValidRoom known (push_message m room)
push_message-IsValidRoom known room m v shape here author recipients few = record {
  id_valid = v.id_valid;
  name_valid = v.name_valid;
  few_participants = v.few_participants;
  few_messages = omega (arith, length-append room.messages (m ∷ []));
  distinct_participants = v.distinct_participants;
  known_participants = v.known_participants;
  messages_fit =
      All-append (FitsRoom room.id room.participant_ids) room.messages (m ∷ []) v.messages_fit (
        record {
          shape = shape;
          in_room = here;
          author_in = (contains_iff room.participant_ids m.author_id).0 author;
          recipients_in = λ p. any-not-contains room.participant_ids m.recipients p recipients;
        },
        tt,
      );
}

FitsRoom-mono :
    (id : Str) (members more : List Str) (m : RoomMessage)
    → ((p : Str) → IsIn p members → IsIn p more)
    → FitsRoom id members m
    → FitsRoom id more m
FitsRoom-mono id members more m grow f = record {
  shape = f.shape;
  in_room = f.in_room;
  author_in = grow m.author_id f.author_in;
  recipients_in = λ p h. grow p (f.recipients_in p h);
}

pub push_participant-IsValidRoom :
    (known : List Str) (room : Room) (id : Str)
    → IsValidRoom known room
    → IsIn id known
    → contains room.participant_ids id ≡ false
    → length room.participant_ids < maximum_room_participants
    → IsValidRoom known (push_participant id room)
push_participant-IsValidRoom known room id v member fresh few = record {
  id_valid = v.id_valid;
  name_valid = v.name_valid;
  few_participants = omega (arith, length-append room.participant_ids (id ∷ []));
  few_messages = v.few_messages;
  distinct_participants = λ a. ground (
    arith,
    count a,
    v.distinct_participants a,
    contains_iff room.participant_ids id,
    eq_iff id a,
  );
  known_participants = λ a h. ground (arith, count a, v.known_participants a, eq_iff id a);
  messages_fit =
      All-mono room.messages
        (λ m.
          FitsRoom-mono room.id room.participant_ids (room.participant_ids ++ id ∷ []) m
            (λ p h. ground (arith, count p)))
        v.messages_fit;
}
  where
    count :
        (a : Str)
        → occurrences a (room.participant_ids ++ id ∷ [])
          ≡ occurrences a room.participant_ids + (if id == a then 1 else 0)
    count a =
        ground (arith, occurrences-append a room.participant_ids (id ∷ []), occurrences-single a id)

pub set_name-IsValidRoom :
    (known : List Str) (room : Room) (name : Str)
    → IsValidRoom known room
    → valid_text name maximum_display_name_bytes ≡ true
    → IsValidRoom known (set_name name room)
set_name-IsValidRoom known room name v valid = record {
  id_valid = v.id_valid;
  name_valid = valid;
  few_participants = v.few_participants;
  few_messages = v.few_messages;
  distinct_participants = v.distinct_participants;
  known_participants = v.known_participants;
  messages_fit = v.messages_fit;
}

-- Messages that do not involve a participant still fit once the participant is gone.
FitsRoom-drop :
    (id p : Str) (members fewer : List Str) (messages : List RoomMessage)
    → ((a : Str) → occurrences a fewer + (if p == a then 1 else 0) ≡ occurrences a members)
    → any (involves p) messages ≡ false
    → All (FitsRoom id members) messages
    → All (FitsRoom id fewer) messages
unfolding any
FitsRoom-drop id p members fewer [] count free f = tt
FitsRoom-drop id p members fewer (m ∷ rest) count free f = (
  record {
    shape = f.0.shape;
    in_room = f.0.in_room;
    author_in =
        ground
          (arith, count m.author_id, f.0.author_in, eq_iff p m.author_id, eq_iff m.author_id p);
    recipients_in = λ a h.
        ground (arith, count a, f.0.recipients_in a h, eq_iff p a, contains_iff m.recipients p);
  },
  FitsRoom-drop id p members fewer rest count (ground arith) f.1,
)

pub drop_participant-IsValidRoom :
    (known : List Str) (room : Room) (p : Str) (index : ℕ)
    → IsValidRoom known room
    → position (λ existing. existing == p) room.participant_ids ≡ some index
    → any (involves p) room.messages ≡ false
    → IsValidRoom known (drop_participant index room)
drop_participant-IsValidRoom known room p index v found free = record {
  id_valid = v.id_valid;
  name_valid = v.name_valid;
  few_participants =
      omega (arith, length-remove_at-le index room.participant_ids, v.few_participants);
  few_messages = v.few_messages;
  distinct_participants = λ a. ground (arith, count a, v.distinct_participants a);
  known_participants = λ a h. ground (arith, count a, v.known_participants a);
  messages_fit =
      FitsRoom-drop room.id p room.participant_ids (remove_at index room.participant_ids)
        room.messages count free v.messages_fit;
}
  where
    count :
        (a : Str)
        → occurrences a (remove_at index room.participant_ids) + (if p == a then 1 else 0)
          ≡ occurrences a room.participant_ids
    count a = occurrences-remove_at a p room.participant_ids index found

-- A valid snapshot with one room rewritten into a valid room, under the same identifier and with
-- no message identifier twice, is valid.
pub rewrite-IsValidSnapshot :
    (s : RoomSnapshot) (id : Str) (f : Room → Room) (t : Str) {room : Room}
    → IsValidSnapshot s
    → find (is_room id) s.rooms ≡ some room
    → ((r : Room) → (f r).id ≡ r.id)
    → IsValidRoom (map participant_id_of s.participants) (f room)
    → valid_text t 64 ≡ true
    → ((a : Str) → message_count a (modify (is_room id) f s.rooms) ≤ 1)
    → IsValidSnapshot (record s { generated_at = t; rooms = modify (is_room id) f s.rooms })
rewrite-IsValidSnapshot s id f t v found same valid time once = record {
  version = v.version;
  time_valid = time;
  few_participants = v.few_participants;
  few_rooms = omega (arith, length-modify (is_room id) f s.rooms, v.few_rooms);
  participants_valid = v.participants_valid;
  distinct_participants = v.distinct_participants;
  rooms_valid =
      All-modify (IsValidRoom (map participant_id_of s.participants)) (is_room id) f s.rooms
        v.rooms_valid found valid;
  distinct_rooms = rw (rooms-modify id f s.rooms same) v.distinct_rooms;
  distinct_messages = once;
}
