-- ===== src/Room/Read/Paging.antt =====
-- Reading a Room page by page (crates/moe-core/src/room.rs).
use m_i_o.Prelude.{
  ℕ, zero, suc, ◌+◌, ◌-◌, ◌≤◌, ◌<◌, ◌≡◌, refl, sym, ◌∙◌, ap, Bool, true, false, Option, none, some,
  List, [], ◌∷◌, ◌++◌, map, arith, length, take, drop, get_elem?, position, find, last, eq_iff,
  eq_refl, list_eq, nat_eq, occurrences, IsDistinct, IsIn, ok, err, if◌then◌else◌, inl, inr,
  Bool-cases, ltb,
}
use m_i_o.Text.{Str}
use m_i_o.Room.Types.{Room, RoomMessage, InMemoryRoomSource}
use m_i_o.Room.Snapshot.{message_id_of}
use m_i_o.Room.Draft.{RoomReadQuery}
use m_i_o.Room.Read.{RoomReadSuccess, is_room, is_message, start_index, page_of, read_room}

module _ {ℓ} {A : Type ℓ} where
  take-append-drop : (l : ℕ) (xs : List A) → take l xs ++ drop l xs ≡ xs
  take-append-drop zero xs = refl
  take-append-drop (suc l) [] = refl
  take-append-drop (suc l) (x ∷ xs) = ap (◌∷◌ x) (take-append-drop l xs)

  -- A page and what follows it.
  page-append-rest :
      (n l k : ℕ) (xs : List A) → k ≡ n + l → take l (drop n xs) ++ drop k xs ≡ drop n xs
  page-append-rest zero l k xs h =
      ap (λ i. take l xs ++ drop i xs) (omega arith) ∙ take-append-drop l xs
  page-append-rest (suc n) l zero xs h = absurd (omega arith)
  page-append-rest (suc n) zero (suc k) [] h = refl
  page-append-rest (suc n) (suc l) (suc k) [] h = refl
  page-append-rest (suc n) l (suc k) (x ∷ xs) h = page-append-rest n l k xs (omega arith)

  take_all : (l : ℕ) (xs : List A) → length xs ≤ l → take l xs ≡ xs
  take_all zero [] h = refl
  take_all zero (x ∷ xs) h = absurd (omega arith)
  take_all (suc l) [] h = refl
  take_all (suc l) (x ∷ xs) h = ap (◌∷◌ x) (take_all l xs (omega arith))

  length-drop : (n : ℕ) (xs : List A) → length (drop n xs) ≡ length xs - n
  length-drop zero xs = omega arith
  length-drop (suc n) [] = omega arith
  length-drop (suc n) (x ∷ xs) = omega (arith, length-drop n xs)

  get_elem?-drop : (n j k : ℕ) (xs : List A) → k ≡ n + j → get_elem? (drop n xs) j ≡ get_elem? xs k
  get_elem?-drop zero j k xs h = ap (get_elem? xs) (omega arith)
  get_elem?-drop (suc n) j zero xs h = absurd (omega arith)
  get_elem?-drop (suc n) zero (suc k) [] h = refl
  get_elem?-drop (suc n) (suc j) (suc k) [] h = refl
  get_elem?-drop (suc n) j (suc k) (x ∷ xs) h = get_elem?-drop n j k xs (omega arith)

  last-take :
      (l : ℕ) (xs : List A)
      → suc l ≤ length xs
      → (x : A) × (last (take (suc l) xs) ≡ some x) × (get_elem? xs l ≡ some x)
  unfolding last
  last-take l [] h = absurd (omega arith)
  last-take zero (x ∷ xs) h = (x, refl, refl)
  last-take (suc l) (x ∷ []) h = absurd (omega arith)
  last-take (suc l) (x ∷ y ∷ ys) h = last-take l (y ∷ ys) (omega arith)

get_elem?-IsIn :
    (ms : List RoomMessage) (k : ℕ) (m : RoomMessage)
    → get_elem? ms k ≡ some m
    → IsIn m.id (map message_id_of ms)
unfolding occurrences
get_elem?-IsIn [] k m h = cc
get_elem?-IsIn (x ∷ xs) zero m h = ground (arith, eq_refl m.id)
get_elem?-IsIn (x ∷ xs) (suc k) m h = ground (arith, get_elem?-IsIn xs k m)

-- With distinct identifiers a message's position is where it stands.
position_of_get_elem? :
    (ms : List RoomMessage) (k : ℕ) (m : RoomMessage)
    → IsDistinct (map message_id_of ms)
    → get_elem? ms k ≡ some m
    → position (is_message m.id) ms ≡ some k
unfolding occurrences position
position_of_get_elem? [] k m d h = cc
position_of_get_elem? (x ∷ xs) zero m d h = ground (arith, eq_refl m.id)
position_of_get_elem? (x ∷ xs) (suc k) m d h =
    let tail : IsDistinct (map message_id_of xs) = λ a. ground (arith, d a) in
    ground
      (arith, position_of_get_elem? xs k m tail, d m.id, get_elem?-IsIn xs k m, eq_iff x.id m.id)

-- A client that asks for page after page, from the cursor of each to the next, until the source
-- says that no message follows; `none` is a failed read, or no read left.
pub read_on : ℕ → InMemoryRoomSource → RoomReadQuery → Option (List RoomMessage)
read_on zero source query = none
read_on (suc fuel) source query = elim (read_room source query) [
  | err e ↦ none
  | ok success ↦
      let next = record query { after_message_id = success.page.next_after_message_id } in
      let rest = read_on fuel source next in
      if success.page.has_more_after
      then elim rest [ none ↦ none | some later ↦ some (success.room.messages ++ later) ]
      else some success.room.messages
]

-- One read behind a cursor that stands at a position.
read_room_at :
    (source : InMemoryRoomSource) (query : RoomReadQuery) (room : Room) (cursor : Str) (i : ℕ)
    → source.poisoned ≡ false
    → find (is_room query.room_id) source.snapshot.rooms ≡ some room
    → query.after_message_id ≡ some cursor
    → position (is_message cursor) room.messages ≡ some i
    → read_room source query ≡ ok (page_of source.snapshot room query (i + 1))
unfolding read_room start_index
read_room_at source query room cursor i sound found after at = ground arith

-- The cursor that a full page hands out stands at the page's end.
next_position :
    (ms : List RoomMessage) (i l : ℕ)
    → IsDistinct (map message_id_of ms)
    → i + 1 + suc l < length ms
    → (m : RoomMessage) × (last (take (suc l) (drop (i + 1) ms)) ≡ some m)
      × (position (is_message m.id) ms ≡ some (i + suc l))
next_position ms i l d more =
    let (m, ends, at) = last-take l (drop (i + 1) ms) (omega (arith, length-drop (i + 1) ms)) in
    let stands = sym (get_elem?-drop (i + 1) l (i + suc l) ms (omega arith)) ∙ at in
    (m, ends, position_of_get_elem? ms (i + suc l) m d stands)

read_on_last :
    (fuel : ℕ) (source : InMemoryRoomSource) (query : RoomReadQuery) (r : RoomReadSuccess)
    → read_room source query ≡ ok r
    → r.page.has_more_after ≡ false
    → read_on (suc fuel) source query ≡ some r.room.messages
unfolding read_on
read_on_last fuel source query r read done = rw (read, read_on) (rw done refl)

read_on_more :
    (fuel : ℕ) (source : InMemoryRoomSource) (query : RoomReadQuery) (r : RoomReadSuccess)
    (later : List RoomMessage)
    → read_room source query ≡ ok r
    → r.page.has_more_after ≡ true
    → read_on fuel source (record query { after_message_id = r.page.next_after_message_id })
      ≡ some later
    → read_on (suc fuel) source query ≡ some (r.room.messages ++ later)
unfolding read_on
read_on_more fuel source query r later read more rest = rw (read, read_on) (rw more (rw rest refl))

position-lt :
    (p : RoomMessage → Bool) (ms : List RoomMessage) {i : ℕ}
    → position p ms ≡ some i
    → i < length ms
unfolding position
position-lt p [] h = cc
position-lt p (x ∷ xs) {i} h = ground (arith, position-lt p xs {i = i - 1})

read_on_from :
    (fuel : ℕ) (source : InMemoryRoomSource) (query : RoomReadQuery) (room : Room) (cursor : Str)
    (i l : ℕ)
    → source.poisoned ≡ false
    → find (is_room query.room_id) source.snapshot.rooms ≡ some room
    → IsDistinct (map message_id_of room.messages)
    → query.after_message_id ≡ some cursor
    → position (is_message cursor) room.messages ≡ some i
    → query.limit ≡ suc l
    → length room.messages ≤ suc fuel + i
    → read_on (suc fuel) source query ≡ some (drop (i + 1) room.messages)
unfolding page_of
read_on_from zero source query room cursor i l sound found d after at size enough =
    let ms = room.messages in
    let page = page_of source.snapshot room query (i + 1) in
    let now = read_room_at source query room cursor i sound found after at in
    read_on_last zero source query page now (ground arith)
    ∙ ap some (take_all query.limit (drop (i + 1) ms) (omega (arith, length-drop (i + 1) ms)))
read_on_from (suc fuel) source query room cursor i l sound found d after at size enough =
    let ms = room.messages in
    let page = page_of source.snapshot room query (i + 1) in
    let now = read_room_at source query room cursor i sound found after at in
    elim (Bool-cases (ltb (i + 1 + query.limit) (length ms))) [
      | inr done ↦
          read_on_last (suc fuel) source query page now done
          ∙ ap some
              (take_all query.limit (drop (i + 1) ms) (ground (arith, length-drop (i + 1) ms)))
      | inl more ↦
          let (m, ends, stands) = next_position ms i l d (ground arith) in
          let next = record query { after_message_id = page.page.next_after_message_id } in
          let moved : next.after_message_id ≡ some m.id = rw size (rw ends refl) in
          let rest =
            read_on_from fuel source next room m.id (i + suc l) l sound found d moved stands size
              (omega arith) in
          read_on_more (suc fuel) source query page (drop (i + suc l + 1) ms) now more rest
          ∙ ap some (page-append-rest (i + 1) query.limit (i + suc l + 1) ms (omega arith))
    ]

-- Reading page after page behind a message yields every later message of the room, once and in
-- order, whatever the page size: with distinct message identifiers and with as many reads as there
-- are messages from the cursor's on, and so with as many as the room has messages.
pub read_on_complete :
    (reads : ℕ) (source : InMemoryRoomSource) (query : RoomReadQuery) (room : Room) (cursor : Str)
    (i : ℕ)
    → source.poisoned ≡ false
    → find (is_room query.room_id) source.snapshot.rooms ≡ some room
    → IsDistinct (map message_id_of room.messages)
    → query.after_message_id ≡ some cursor
    → position (is_message cursor) room.messages ≡ some i
    → 1 ≤ query.limit
    → length room.messages ≤ reads + i
    → read_on reads source query ≡ some (drop (i + 1) room.messages)
read_on_complete zero source query room cursor i sound found d after at some_limit enough =
    absurd (omega (arith, enough, position-lt (is_message cursor) room.messages at))
read_on_complete (suc fuel) source query room cursor i sound found d after at some_limit enough =
    read_on_from fuel source query room cursor i (query.limit - 1) sound found d after at
      (omega arith) enough
