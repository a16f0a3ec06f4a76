-- ===== src/Cancellation.antt =====
-- The turns that may be cancelled (apps/desktop/src-tauri/src/turn_cancellation.rs), each with a flag
-- that its holder shares (crates/moe-adapter-sdk/src/lib.rs). The flags are a store with addresses,
-- a clone of a flag is its address, and the lock is the flag `poisoned`.
pub mod Tracking
pub mod Registered
mod Samples
use m_i_o.Prelude.{
  ℕ, suc, Bool, true, false, not, Option, none, some, List, [], ◌∷◌, nat_beq, filter, if◌then◌else◌,
  Result, ok, err, ◌==◌, list_eq, nat_eq,
}
use m_i_o.Text.{Str}
use m_i_o.Command.Maps.{contains_key, insert, remove}
use m_i_o.Ledger.{values}

-- The shared flags, and the first address that no flag has.
pub record Flags : Type 0 where
  pub cancelled : ℕ → Bool
  pub next : ℕ

-- `TextTurnCancellation::cancel`.
unfoldable pub cancel : Flags → ℕ → Flags
cancel flags address = record flags {
  cancelled = λ other. if nat_beq other address then true else flags.cancelled other;
}

-- `TextTurnCancellation::default`: the new flag is at the address that was next.
unfoldable pub new_flag : Flags → Flags
new_flag flags = record {
  cancelled = λ other. if nat_beq other flags.next then false else flags.cancelled other;
  next = suc flags.next;
}

pub record ActiveTurn : Type 0 where
  pub room_id : Str
  pub cancellation : ℕ

-- `DesktopTurnCancellations`, with the flags.
pub record Turns : Type 0 where
  pub active : List (Str × ActiveTurn)
  pub flags : Flags
  pub poisoned : Bool

pub record RegisteredTurn : Type 0 where
  pub dispatch_id : Str
  pub cancellation : ℕ

unfoldable pub register : Turns → Str → Str → Turns × Result (Unit {0}) RegisteredTurn
register d room_id dispatch_id =
    let flags = new_flag d.flags in
    let address = d.flags.next in
    if d.poisoned
    then (record d { flags = flags }, err tt)
    else if contains_key dispatch_id d.active
    then (record d { flags = flags }, err tt)
    else (
      record d {
        flags = flags;
        active = insert dispatch_id (record { room_id = room_id; cancellation = address }) d.active;
      },
      ok (record { dispatch_id = dispatch_id; cancellation = address }),
    )

-- The loop of `cancel_room`, with the number of turns cancelled so far.
unfoldable pub cancel_turns : Flags → ℕ → List ActiveTurn → Flags × ℕ
cancel_turns flags count [] = (flags, count)
cancel_turns flags count (turn ∷ turns) =
    if flags.cancelled turn.cancellation
    then cancel_turns flags count turns
    else cancel_turns (cancel flags turn.cancellation) (suc count) turns

unfoldable pub cancel_room : Turns → Str → Turns × ℕ
cancel_room d room_id =
    if d.poisoned
    then (d, 0)
    else let (flags, count) =
        cancel_turns d.flags 0 (filter (λ turn. turn.room_id == room_id) (values d.active)) in
      (record d { flags = flags }, count)

-- The drop of a `RegisteredTurn`, which removes it.
unfoldable pub drop_turn : Turns → RegisteredTurn → Turns
drop_turn d turn = if d.poisoned then d else record d { active = remove turn.dispatch_id d.active }

abbrev pub default : Turns
default = record {
  active = [];
  flags = record { cancelled = λ address. false; next = 0 };
  poisoned = false;
}
