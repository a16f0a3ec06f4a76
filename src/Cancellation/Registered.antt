-- ===== src/Cancellation/Registered.antt =====
-- Which turns a cancellation reaches (apps/desktop/src-tauri/src/turn_cancellation.rs).
use m_i_o.Prelude.{
  ℕ, suc, ◌≡◌, ◌<◌, refl, sym, subst, ◌∙◌, inl, inr, false, none, List, [], ◌∷◌, arith, filter, any,
  ok, ◌==◌, list_eq, nat_eq, eq_iff, Bool-cases,
}
use m_i_o.Text.{Str}
use m_i_o.Command.Maps.{
  apart_keys, AllEntries-and, lookup, insert, remove, contains_key, AllEntries, AllEntries-insert,
  AllEntries-remove, AllEntries-mono, IsMap, lookup-insert, IsMap-insert, IsMap-remove,
}
use m_i_o.Ledger.{values}
use m_i_o.Cancellation.{
  new_flag, ActiveTurn, Turns, RegisteredTurn, register, cancel_turns, cancel_room, drop_turn,
  default,
}
use m_i_o.Cancellation.Tracking.{
  cancel_turns-next, IsEntryOf, Tracks, Call, registers, cancels, drops, after_call, after_calls,
  is_cancel_of, is_drop_of, calls-Keeps,
}

-- Each turn has a flag that was allocated.
abbrev pub IsAllocated : Turns → Type 0
IsAllocated d =
    IsMap d.active × AllEntries (λ key. λ turn. turn.cancellation < d.flags.next) d.active

grown :
    (active : List (Str × ActiveTurn)) (next : ℕ)
    → AllEntries (λ key. λ turn. turn.cancellation < next) active
    → AllEntries (λ key. λ turn. turn.cancellation < suc next) active
grown active next h = AllEntries-mono (λ key. λ turn. λ known. omega (arith, known)) active h

register-IsAllocated :
    (d : Turns) (room_id dispatch_id : Str)
    → IsAllocated d
    → IsAllocated (register d room_id dispatch_id).0
unfolding register new_flag
register-IsAllocated d room_id dispatch_id (m, h) = elim (Bool-cases d.poisoned) [
  | inl p ↦
      let after : (register d room_id dispatch_id).0 ≡ record d { flags = new_flag d.flags } =
        ground (arith, p) in
      subst IsAllocated (sym after) (m, grown d.active d.flags.next h)
  | inr unlocked ↦ elim (Bool-cases (contains_key dispatch_id d.active)) [
    | inl taken ↦
        let after : (register d room_id dispatch_id).0 ≡ record d { flags = new_flag d.flags } =
          ground (arith, unlocked, taken) in
        subst IsAllocated (sym after) (m, grown d.active d.flags.next h)
    | inr free ↦
        let turn : ActiveTurn = record { room_id = room_id; cancellation = d.flags.next } in
        let after : (register d room_id dispatch_id).0
            ≡ record d { flags = new_flag d.flags; active = insert dispatch_id turn d.active } =
          ground (arith, unlocked, free) in
        subst IsAllocated (sym after) (
          IsMap-insert dispatch_id turn d.active (ground (arith, free)) m,
          AllEntries-insert (λ key. λ t. t.cancellation < suc d.flags.next) dispatch_id turn
              d.active (omega arith) (grown d.active d.flags.next h),
        )
  ]
]

call-IsAllocated : (d : Turns) (call : Call) → IsAllocated d → IsAllocated (after_call d call)
unfolding after_call cancel_room drop_turn
call-IsAllocated d (registers room_id dispatch_id) h = register-IsAllocated d room_id dispatch_id h
call-IsAllocated d (cancels room_id) h = elim (Bool-cases d.poisoned) [
  | inl p ↦
      let after : (cancel_room d room_id).0 ≡ d = ground (arith, p) in
      subst IsAllocated (sym after) h
  | inr unlocked ↦
      let turns = filter (λ turn. turn.room_id == room_id) (values d.active) in
      let after : (cancel_room d room_id).0
          ≡ record d { flags = (cancel_turns d.flags 0 turns).0 } =
        ground (arith, unlocked) in
      let same = cancel_turns-next d.flags 0 turns in
      subst IsAllocated (sym after) (
        h.0,
        subst (λ n. AllEntries (λ key. λ turn. turn.cancellation < n) d.active) (sym same) h.1,
      )
]
call-IsAllocated d (drops turn) h = elim (Bool-cases d.poisoned) [
  | inl p ↦ let after : drop_turn d turn ≡ d = ground (arith, p) in subst IsAllocated (sym after) h
  | inr unlocked ↦
      let after : drop_turn d turn ≡ record d { active = remove turn.dispatch_id d.active } =
        ground (arith, unlocked) in
      subst IsAllocated (sym after) (
        IsMap-remove turn.dispatch_id d.active h.0,
        AllEntries-remove (λ key. λ t. t.cancellation < d.flags.next) turn.dispatch_id d.active h.1,
      )
]

calls-IsAllocated :
    (d : Turns) (calls : List Call) → IsAllocated d → IsAllocated (after_calls d calls)
unfolding after_calls
calls-IsAllocated d [] h = h
calls-IsAllocated d (call ∷ calls) h =
    calls-IsAllocated (after_call d call) calls (call-IsAllocated d call h)

others :
    (d : Turns) (id room_id : Str)
    → lookup id d.active ≡ none
    → AllEntries (λ key. λ turn. turn.cancellation < d.flags.next) d.active
    → AllEntries (IsEntryOf id room_id d.flags.next) d.active
others d id room_id absent h =
    AllEntries-mono
      (λ key. λ turn. λ both. (
        (λ same. absurd (ground (arith, both.1, same, eq_iff id key))),
        (λ apart. ground (arith, both.0)),
      ))
      d.active
      (AllEntries-and (λ key. λ turn. turn.cancellation < d.flags.next)
        (λ key. λ turn. (id == key) ≡ false) d.active h (apart_keys id d.active absent))

-- A turn that was registered is tracked, and its flag is new.
registered-Tracks :
    (d : Turns) (room_id dispatch_id : Str) {next : Turns} {turn : RegisteredTurn}
    → IsAllocated d
    → register d room_id dispatch_id ≡ (next, ok turn)
    → Tracks dispatch_id room_id turn.cancellation next
      × (next.flags.cancelled turn.cancellation ≡ false)
unfolding register new_flag
registered-Tracks d room_id dispatch_id {next} {turn} (m, h) e = elim (Bool-cases d.poisoned) [
  | inl p ↦ absurd (ground (arith, e, p))
  | inr unlocked ↦ elim (Bool-cases (contains_key dispatch_id d.active)) [
    | inl taken ↦ absurd (ground (arith, e, unlocked, taken))
    | inr free ↦
        let entry : ActiveTurn = record { room_id = room_id; cancellation = d.flags.next } in
        let holder : RegisteredTurn = record {
          dispatch_id = dispatch_id;
          cancellation = d.flags.next;
        } in
        let made : Turns = record d {
          flags = new_flag d.flags;
          active = insert dispatch_id entry d.active;
        } in
        let after : made ≡ next = ground (arith, e, unlocked, free) in
        let given : holder ≡ turn = ground (arith, e, unlocked, free) in
        subst
          (λ x.
            Tracks dispatch_id room_id turn.cancellation x
            × (x.flags.cancelled turn.cancellation ≡ false))
          after
          (subst
            (λ y.
              Tracks dispatch_id room_id y.cancellation made
              × (made.flags.cancelled y.cancellation ≡ false))
            given
            (
              record {
                unlocked = unlocked;
                known = omega arith;
                keys = IsMap-insert dispatch_id entry d.active (ground (arith, free)) m;
                entries =
                    AllEntries-insert (IsEntryOf dispatch_id room_id d.flags.next) dispatch_id entry
                      d.active ((λ same. (refl, refl)), (λ apart. absurd (apart refl)))
                      (others d dispatch_id room_id (ground (arith, free)) h);
                present = ground (
                  arith,
                  lookup-insert dispatch_id dispatch_id entry d.active,
                  eq_iff dispatch_id dispatch_id,
                );
              },
              ground arith,
            ))
  ]
]

-- Whatever calls were made on an empty registry before a turn was registered, and whatever calls
-- follow that do not drop a turn of this dispatch: the flag that its holder shares is set exactly if
-- one of the calls since then has cancelled its room.
pub registered_turn_cancelled :
    (earlier calls : List Call) (room_id dispatch_id : Str) {next : Turns} {turn : RegisteredTurn}
    → register (after_calls default earlier) room_id dispatch_id ≡ (next, ok turn)
    → any (is_drop_of dispatch_id) calls ≡ false
    → (after_calls next calls).flags.cancelled turn.cancellation ≡ any (is_cancel_of room_id) calls
registered_turn_cancelled earlier calls room_id dispatch_id {next} {turn} e kept =
    let allocated = calls-IsAllocated default earlier (tt, tt) in
    let (tracked, unset) =
      registered-Tracks (after_calls default earlier) room_id dispatch_id {next = next}
        {turn = turn} allocated e in
    calls-Keeps dispatch_id room_id turn.cancellation next calls kept tracked
    ∙ ground (arith, unset)
