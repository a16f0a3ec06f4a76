-- ===== src/Room/Store/Validity/Creation.antt =====
-- `create_room` (crates/moe-core/src/room.rs) keeps the snapshot valid.
use m_i_o.Prelude.{
  ◌+◌, ◌≤◌, ◌≡◌, refl, true, false, not, none, List, [], ◌∷◌, ◌++◌, map, arith, any, length,
  length-append, find, eq_iff, list_eq, nat_eq, occurrences, occurrences-append, IsDistinct, IsIn,
  All-append, if◌then◌else◌, Option-cases, inl, inr, leb, ◌⊎◌, ok, ◌==◌, all_inserted_sound,
  all_inserted,
}
use mathlib.Core.List.{map-append}
use m_i_o.Text.{Str}
use m_i_o.Identifier.{valid_identifier, valid_text}
use m_i_o.Room.Types.{
  Room, InMemoryRoomSource, maximum_room_participants, maximum_rooms, maximum_display_name_bytes,
}
use m_i_o.Room.Snapshot.{
  participant_id_of, room_id_of, unique_valid_identifiers, unique_valid_identifiers_from,
}
use m_i_o.Room.Snapshot.Validity.{IsValidRoom, IsValidSnapshot}
use m_i_o.Room.Draft.{RoomCreateDraft, create_draft}
use m_i_o.Room.Read.{is_room, is_participant}
use m_i_o.Room.Store.{create_room}
use m_i_o.Room.Store.Rewriting.{room_absent, participant_known, message_count-append_empty}

inserted_of_unique :
    (seen xs : List Str)
    → unique_valid_identifiers_from seen xs ≡ true
    → all_inserted seen xs ≡ true
unfolding unique_valid_identifiers_from all_inserted
inserted_of_unique seen [] h = refl
inserted_of_unique seen (x ∷ xs) h = ground (arith, inserted_of_unique (x ∷ seen) xs)

pub unique-IsDistinct : (xs : List Str) → unique_valid_identifiers xs ≡ true → IsDistinct xs
unfolding unique_valid_identifiers occurrences
unique-IsDistinct xs h a =
    omega (arith, all_inserted_sound [] xs (inserted_of_unique [] xs h) (λ b. omega arith) a)

-- What `RoomCreateDraft::try_new` makes sure of.
pub record IsNewRoom (draft : RoomCreateDraft) : Type 0 where
  pub id_valid : valid_identifier draft.room.id ≡ true
  pub name_valid : valid_text draft.room.name maximum_display_name_bytes ≡ true
  pub few : length draft.room.participant_ids ≤ maximum_room_participants
  pub unique : unique_valid_identifiers draft.room.participant_ids ≡ true
  pub time_valid : valid_text draft.created_at 64 ≡ true
  pub empty : draft.room.messages ≡ []

pub create_draft-IsNewRoom :
    (id name : Str) (ids : List Str) (t : Str) {draft : RoomCreateDraft}
    → create_draft id name ids t ≡ ok draft
    → IsNewRoom draft
unfolding create_draft
create_draft-IsNewRoom id name ids t h = ground arith

create_cases :
    (source : InMemoryRoomSource) (draft : RoomCreateDraft)
    → ((create_room source draft).0 ≡ source)
      ⊎ ((find (is_room draft.room.id) source.snapshot.rooms ≡ none)
          × (leb maximum_rooms (length source.snapshot.rooms) ≡ false)
          × (any
                (λ p. not (any (is_participant p) source.snapshot.participants))
                draft.room.participant_ids
              ≡ false)
          × ((create_room source draft).0 ≡ record source {
            snapshot = record source.snapshot {
              generated_at = draft.created_at;
              rooms = source.snapshot.rooms ++ draft.room ∷ [];
            };
          }))
unfolding create_room
create_cases source draft =
    ground (arith, Option-cases (find (is_room draft.room.id) source.snapshot.rooms))

known_of_any :
    (source : InMemoryRoomSource) (xs : List Str) (a : Str)
    → any (λ p. not (any (is_participant p) source.snapshot.participants)) xs ≡ false
    → IsIn a xs
    → IsIn a (map participant_id_of source.snapshot.participants)
unfolding any occurrences
known_of_any source [] a h m = absurd (omega arith)
known_of_any source (x ∷ xs) a h m =
    ground (
      arith,
      known_of_any source xs a,
      participant_known x source.snapshot.participants,
      eq_iff x a,
    )

room_count :
    (a : Str) (rooms : List Room) (room : Room)
    → occurrences a (map room_id_of (rooms ++ room ∷ []))
      ≡ occurrences a (map room_id_of rooms) + (if room.id == a then 1 else 0)
unfolding occurrences
room_count a rooms room =
    rw (map-append room_id_of rooms (room ∷ []))
      (ground (arith, occurrences-append a (map room_id_of rooms) (room.id ∷ [])))

new_room-IsValidRoom :
    (source : InMemoryRoomSource) (draft : RoomCreateDraft)
    → IsNewRoom draft
    → any
        (λ p. not (any (is_participant p) source.snapshot.participants))
        draft.room.participant_ids
      ≡ false
    → IsValidRoom (map participant_id_of source.snapshot.participants) draft.room
new_room-IsValidRoom source draft n known = record {
  id_valid = n.id_valid;
  name_valid = n.name_valid;
  few_participants = n.few;
  few_messages = rw (n.empty) (omega arith);
  distinct_participants = unique-IsDistinct draft.room.participant_ids n.unique;
  known_participants = λ a. known_of_any source draft.room.participant_ids a known;
  messages_fit = rw (n.empty) tt;
}

pub create_room-IsValidSnapshot :
    (source : InMemoryRoomSource) (draft : RoomCreateDraft)
    → IsNewRoom draft
    → IsValidSnapshot source.snapshot
    → IsValidSnapshot (create_room source draft).0.snapshot
create_room-IsValidSnapshot source draft n v = elim (create_cases source draft) [
  | inl same ↦ rw same v
  | inr (fresh, few, known, done) ↦ rw done (record {
    version = v.version;
    time_valid = n.time_valid;
    few_participants = v.few_participants;
    few_rooms = ground (arith, length-append source.snapshot.rooms (draft.room ∷ []));
    participants_valid = v.participants_valid;
    distinct_participants = v.distinct_participants;
    rooms_valid =
        All-append (IsValidRoom (map participant_id_of source.snapshot.participants))
          source.snapshot.rooms (draft.room ∷ []) v.rooms_valid
          (new_room-IsValidRoom source draft n known, tt);
    distinct_rooms = λ a. ground (
      arith,
      room_count a source.snapshot.rooms draft.room,
      v.distinct_rooms a,
      room_absent draft.room.id source.snapshot.rooms fresh,
      eq_iff draft.room.id a,
    );
    distinct_messages = λ a. omega (
      arith,
      message_count-append_empty a source.snapshot.rooms draft.room n.empty,
      v.distinct_messages a,
    );
  })
]
