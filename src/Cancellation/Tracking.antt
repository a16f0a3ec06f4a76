-- ===== src/Cancellation/Tracking.antt =====
-- What the holder of a registered turn sees (apps/desktop/src-tauri/src/turn_cancellation.rs).
use m_i_o.Prelude.{
  ℕ, suc, ◌≡◌, ◌≢◌, ◌<◌, refl, sym, subst, ◌∙◌, inl, inr, Bool, true, false, ◌&&◌, ◌||◌, none, List,
  [], ◌∷◌, arith, nat_beq, filter, any, ◌==◌, list_eq, nat_eq, eq_iff, Bool-cases,
}
use m_i_o.Text.{Str}
use m_i_o.Command.Maps.{
  lookup, insert, remove, contains_key, AllEntries, AllEntries-insert, AllEntries-remove, IsMap,
  lookup-insert, lookup-remove, IsMap-insert, IsMap-remove,
}
use m_i_o.Ledger.{values}
use m_i_o.Cancellation.{
  Flags, cancel, new_flag, ActiveTurn, Turns, RegisteredTurn, register, cancel_turns, cancel_room,
  drop_turn,
}

shared :
    (flags : Flags) (address other : ℕ)
    → flags.cancelled other ≡ true
    → nat_beq address other ≡ true
    → flags.cancelled address ≡ true
shared flags address other set same =
    let here : other ≡ address = ground (arith, same) in
    subst (λ a. flags.cancelled a ≡ true) here set

-- After the loop a flag is set if it was, or if one of the turns has it.
pub cancel_turns-cancelled :
    (flags : Flags) (count : ℕ) (turns : List ActiveTurn) (address : ℕ)
    → (cancel_turns flags count turns).0.cancelled address
      ≡ (flags.cancelled address || any (λ turn. nat_beq address turn.cancellation) turns)
unfolding cancel_turns cancel any
cancel_turns-cancelled flags count [] address = ground arith
cancel_turns-cancelled flags count (turn ∷ turns) address =
    elim (Bool-cases (flags.cancelled turn.cancellation)) [
      | inl set ↦
          rw (set, cancel_turns)
            (cancel_turns-cancelled flags count turns address
              ∙ ground (arith, shared flags address turn.cancellation set))
      | inr unset ↦
          rw (unset, cancel_turns)
            (cancel_turns-cancelled (cancel flags turn.cancellation) (suc count) turns address
              ∙ ground arith)
    ]

pub cancel_turns-next :
    (flags : Flags) (count : ℕ) (turns : List ActiveTurn)
    → (cancel_turns flags count turns).0.next ≡ flags.next
unfolding cancel_turns cancel
cancel_turns-next flags count [] = refl
cancel_turns-next flags count (turn ∷ turns) = ground (
  arith,
  cancel_turns-next flags count turns,
  cancel_turns-next (cancel flags turn.cancellation) (suc count) turns,
)

-- The entry of a turn: in its room, and alone with its flag.
abbrev pub IsEntryOf : Str → Str → ℕ → Str → ActiveTurn → Type 0
IsEntryOf id room_id address key turn =
    (key ≡ id → (turn.room_id ≡ room_id) × (turn.cancellation ≡ address))
    × (key ≢ id → turn.cancellation ≢ address)

-- The turn is registered, and no other turn has its flag, nor will get it.
pub record Tracks (id room_id : Str) (address : ℕ) (d : Turns) : Type 0 where
  pub unlocked : d.poisoned ≡ false
  pub known : address < d.flags.next
  pub keys : IsMap d.active
  pub entries : AllEntries (IsEntryOf id room_id address) d.active
  pub present : contains_key id d.active ≡ true

pub data Call : Type 0 where
  registers : (room_id dispatch_id : Str) → Call
  cancels : Str → Call
  drops : RegisteredTurn → Call

unfoldable pub after_call : Turns → Call → Turns
after_call d (registers room_id id) = (register d room_id id).0
after_call d (cancels room_id) = (cancel_room d room_id).0
after_call d (drops turn) = drop_turn d turn

unfoldable pub after_calls : Turns → List Call → Turns
after_calls d [] = d
after_calls d (call ∷ calls) = after_calls (after_call d call) calls

abbrev pub is_cancel_of : Str → Call → Bool
is_cancel_of room_id (cancels other) = other == room_id
is_cancel_of room_id _ = false

abbrev pub is_drop_of : Str → Call → Bool
is_drop_of id (drops turn) = turn.dispatch_id == id
is_drop_of id _ = false

-- Among the turns of a room, the flag is that of the tracked turn, if this is its room.
flag_in_room :
    (id room_id wanted : Str) (address : ℕ) (active : List (Str × ActiveTurn))
    → AllEntries (IsEntryOf id room_id address) active
    → IsMap active
    → any
        (λ turn. nat_beq address turn.cancellation)
        (filter (λ turn. turn.room_id == wanted) (values active))
      ≡ (contains_key id active && room_id == wanted)
unfolding any filter lookup
flag_in_room id room_id wanted address [] h m = refl
flag_in_room id room_id wanted address ((key, turn) ∷ active) h m = elim (Bool-cases (key == id)) [
  | inl hit ↦
      let same = (eq_iff key id).0 hit in
      let (room, flag) = h.0.0 same in
      let alone : lookup id active ≡ none = subst (λ k. lookup k active ≡ none) same m.0 in
      let rest = flag_in_room id room_id wanted address active h.1 m.1 in
      rw room (ground (arith, hit, flag, alone, rest))
  | inr miss ↦
      let apart = h.0.1 (λ same. ground (arith, miss, (eq_iff key id).1 same)) in
      let rest = flag_in_room id room_id wanted address active h.1 m.1 in
      ground (arith, miss, apart, rest)
]

-- A turn that the calls keep, with the flag that it has afterwards.
abbrev pub Keeps : Str → Str → ℕ → Turns → Bool → Type 0
Keeps id room address d set = Tracks id room address d × (d.flags.cancelled address ≡ set)

new_flag-other :
    (flags : Flags) (address : ℕ)
    → address < flags.next
    → (new_flag flags).cancelled address ≡ flags.cancelled address
unfolding new_flag
new_flag-other flags address known = ground (arith, known)

module _ (id room : Str) (address : ℕ) where
  register-Keeps :
      (d : Turns) (room_id dispatch_id : Str)
      → Tracks id room address d
      → Keeps id room address (register d room_id dispatch_id).0 (d.flags.cancelled address)
  unfolding register new_flag lookup
  register-Keeps d room_id dispatch_id t = elim (Bool-cases (contains_key dispatch_id d.active)) [
    | inl taken ↦
        let after : (register d room_id dispatch_id).0 ≡ record d { flags = new_flag d.flags } =
          ground (arith, t.unlocked, taken) in
        subst (λ x. Keeps id room address x (d.flags.cancelled address)) (sym after)
          (
            record {
              unlocked = t.unlocked;
              known = ground (arith, t.known);
              keys = t.keys;
              entries = t.entries;
              present = t.present;
            },
            new_flag-other d.flags address t.known,
          )
    | inr free ↦
        let turn : ActiveTurn = record { room_id = room_id; cancellation = d.flags.next } in
        let absent : lookup dispatch_id d.active ≡ none = ground (arith, free) in
        let after : (register d room_id dispatch_id).0
            ≡ record d { flags = new_flag d.flags; active = insert dispatch_id turn d.active } =
          ground (arith, t.unlocked, free) in
        subst (λ x. Keeps id room address x (d.flags.cancelled address)) (sym after)
          (
            record {
              unlocked = t.unlocked;
              known = ground (arith, t.known);
              keys = IsMap-insert dispatch_id turn d.active absent t.keys;
              entries =
                  AllEntries-insert (IsEntryOf id room address) dispatch_id turn d.active
                    (
                      (λ same. absurd (ground (arith, absent, same, t.present))),
                      (λ apart. ground (arith, t.known)),
                    )
                    t.entries;
              present = ground (arith, lookup-insert dispatch_id id turn d.active, t.present);
            },
            new_flag-other d.flags address t.known,
          )
  ]

  cancel_room-Keeps :
      (d : Turns) (room_id : Str)
      → Tracks id room address d
      → Keeps id room address
          (cancel_room d room_id).0
          (d.flags.cancelled address || room == room_id)
  unfolding cancel_room
  cancel_room-Keeps d room_id t =
      let turns = filter (λ turn. turn.room_id == room_id) (values d.active) in
      let flags = (cancel_turns d.flags 0 turns).0 in
      let set = cancel_turns-cancelled d.flags 0 turns address in
      let same = cancel_turns-next d.flags 0 turns in
      let here = flag_in_room id room room_id address d.active t.entries t.keys in
      let after : (cancel_room d room_id).0 ≡ record d { flags = flags } =
        ground (arith, t.unlocked) in
      subst (λ x. Keeps id room address x (d.flags.cancelled address || room == room_id))
        (sym after)
        (
          record {
            unlocked = t.unlocked;
            known = ground (arith, t.known, same);
            keys = t.keys;
            entries = t.entries;
            present = t.present;
          },
          ground (arith, set, here, t.present),
        )

  drop_turn-Keeps :
      (d : Turns) (turn : RegisteredTurn)
      → (turn.dispatch_id == id) ≡ false
      → Tracks id room address d
      → Keeps id room address (drop_turn d turn) (d.flags.cancelled address)
  unfolding drop_turn
  drop_turn-Keeps d turn apart t =
      let after : drop_turn d turn ≡ record d { active = remove turn.dispatch_id d.active } =
        ground (arith, t.unlocked) in
      subst (λ x. Keeps id room address x (d.flags.cancelled address)) (sym after)
        (
          record {
            unlocked = t.unlocked;
            known = t.known;
            keys = IsMap-remove turn.dispatch_id d.active t.keys;
            entries =
                AllEntries-remove (IsEntryOf id room address) turn.dispatch_id d.active t.entries;
            present = ground (arith, lookup-remove turn.dispatch_id id d.active, apart, t.present);
          },
          refl,
        )

  call-Keeps :
      (d : Turns) (call : Call)
      → is_drop_of id call ≡ false
      → Tracks id room address d
      → Keeps id room address
          (after_call d call)
          (d.flags.cancelled address || is_cancel_of room call)
  unfolding after_call
  call-Keeps d (registers room_id dispatch_id) apart t =
      let (tracked, set) = register-Keeps d room_id dispatch_id t in (tracked, ground (arith, set))
  call-Keeps d (cancels room_id) apart t =
      let (tracked, set) = cancel_room-Keeps d room_id t in
      (tracked, ground (arith, set, eq_iff room room_id, eq_iff room_id room))
  call-Keeps d (drops turn) apart t =
      let (tracked, set) = drop_turn-Keeps d turn apart t in (tracked, ground (arith, set))

  pub calls-Keeps :
      (d : Turns) (calls : List Call)
      → any (is_drop_of id) calls ≡ false
      → Tracks id room address d
      → (after_calls d calls).flags.cancelled address
        ≡ (d.flags.cancelled address || any (is_cancel_of room) calls)
  unfolding after_calls any
  calls-Keeps d [] apart t = ground arith
  calls-Keeps d (call ∷ calls) apart t =
      let (tracked, set) = call-Keeps d call (ground (arith, apart)) t in
      calls-Keeps (after_call d call) calls (ground (arith, apart)) tracked ∙ ground (arith, set)
