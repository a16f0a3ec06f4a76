-- ===== src/Room/Snapshot/Validity/Messages.antt =====
-- The loop over a room's messages in `validate_snapshot` (crates/moe-core/src/room.rs).
use m_i_o.Prelude.{
  ◌+◌, ◌≤◌, ◌≡◌, refl, true, false, some, List, [], ◌∷◌, map, arith, All, eq_iff, eq_refl, contains,
  contains_iff, list_eq, nat_eq, occurrences, IsDistinct, all,
}
use m_i_o.Text.{Str}
use m_i_o.Room.Types.{RoomMessage, Room}
use m_i_o.Room.Snapshot.{valid_message_in, insert_messages, message_id_of}
use m_i_o.Room.Snapshot.Sets.{all-contains_iff}
use m_i_o.Room.Snapshot.Validity.{FitsRoom}

pub valid_message_in_sound :
    (room : Room) (members : List Str) (m : RoomMessage)
    → valid_message_in room members m ≡ true
    → FitsRoom room.id members m
unfolding valid_message_in
valid_message_in_sound room members m h =
    let spread : all (λ recipient. contains members recipient) m.recipients ≡ true = ground arith in
    record {
      shape = ground arith;
      in_room = ground (arith, eq_iff m.room_id room.id);
      author_in = ground (arith, contains_iff members m.author_id);
      recipients_in = (all-contains_iff members m.recipients).0 spread;
    }

pub valid_message_in_complete :
    (room : Room) (members : List Str) (m : RoomMessage)
    → FitsRoom room.id members m
    → valid_message_in room members m ≡ true
unfolding valid_message_in
valid_message_in_complete room members m f = ground (
  arith,
  eq_iff m.room_id room.id,
  contains_iff members m.author_id,
  (all-contains_iff members m.recipients).1 f.recipients_in,
)

-- The messages fit, and the set holds their identifiers on top of the earlier ones.
pub record Inserted (room : Room) (members ids : List Str) (messages : List RoomMessage)
    (ids' : List Str) : Type 0 where
  pub fit : All (FitsRoom room.id members) messages
  pub holds :
      (a : Str)
      → occurrences a ids' ≡ occurrences a ids + occurrences a (map message_id_of messages)
  pub distinct : IsDistinct ids → IsDistinct ids'

pub insert_messages_sound :
    (room : Room) (members ids : List Str) (messages : List RoomMessage) {ids' : List Str}
    → insert_messages room members ids messages ≡ some ids'
    → Inserted room members ids messages ids'
unfolding insert_messages occurrences
insert_messages_sound room members ids [] h = record {
  fit = tt;
  holds = λ a. ground arith;
  distinct = λ d a. ground (arith, d a);
}
insert_messages_sound room members ids (m ∷ rest) {ids'} h =
    let fits : valid_message_in room members m ≡ true = ground arith in
    let fresh : contains ids m.id ≡ false = ground arith in
    let later = insert_messages_sound room members (m.id ∷ ids) rest {ids' = ids'} (ground arith) in
    record {
      fit = (valid_message_in_sound room members m fits, later.fit);
      holds = λ a. ground (arith, later.holds a);
      distinct =
          λ d. later.distinct (λ a. ground (arith, d a, contains_iff ids m.id, eq_iff m.id a));
    }

pub insert_messages_complete :
    (room : Room) (members ids : List Str) (messages : List RoomMessage)
    → All (FitsRoom room.id members) messages
    → ((a : Str) → occurrences a ids + occurrences a (map message_id_of messages) ≤ 1)
    → (ids' : List Str) × (insert_messages room members ids messages ≡ some ids')
unfolding insert_messages occurrences
insert_messages_complete room members ids [] f d = (ids, refl)
insert_messages_complete room members ids (m ∷ rest) f d =
    let (ids', e) =
      insert_messages_complete room members (m.id ∷ ids) rest f.1 (λ a. ground (arith, d a)) in
    (
      ids',
      ground (
        arith,
        e,
        valid_message_in_complete room members m f.0,
        d m.id,
        contains_iff ids m.id,
        eq_refl m.id,
      ),
    )
