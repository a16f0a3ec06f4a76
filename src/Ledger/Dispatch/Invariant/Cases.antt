-- ===== src/Ledger/Dispatch/Invariant/Cases.antt =====
-- What `begin` and a transition do (apps/desktop/src-tauri/src/ai_dispatch_ledger.rs), branch by
-- branch.
use m_i_o.Prelude.{
  ◌≡◌, ◌≢◌, ◌⊎◌, inl, inr, refl, Bool, true, false, not, ◌&&◌, ◌<◌, none, some, ◌∷◌, leb,
  if◌then◌else◌, arith, length, contains, ok, err, list_eq, nat_eq, Bool-cases, Option-cases,
  Result-cases,
}
use m_i_o.Text.{Str}
use m_i_o.Identifier.{valid_timestamp}
use m_i_o.Command.Maps.{lookup, insert, adjust}
use m_i_o.Ledger.{maximum_records}
use m_i_o.Ledger.Dispatch.{
  AiDispatchState, prepared, state_beq, AiDispatchRecord, reserved, AiDispatchLedgerError, invalid,
  io, DispatchLedger, valid_dispatch_id, valid_record, prune_terminal_records, without, reserve,
  begin, transition,
}
use m_i_o.Ledger.Dispatch.Invariant.{Persist}

-- The record as `begin` writes it.
abbrev pub fresh : AiDispatchRecord → AiDispatchRecord
fresh r = record r { state = prepared }

pub fresh-valid : (r : AiDispatchRecord) → valid_record r ≡ true → valid_record (fresh r) ≡ true
unfolding valid_record
fresh-valid r v = v

-- The record as a transition leaves it.
abbrev pub moved : AiDispatchState → Str → AiDispatchRecord → AiDispatchRecord
moved next_state updated_at r = record r { state = next_state; updated_at = updated_at }

abbrev pub after_move : DispatchLedger → Str → AiDispatchState → Str → Bool → DispatchLedger
after_move d id next_state updated_at finish = record d {
  records = adjust id (moved next_state updated_at) d.records;
  active = if finish then without id d.active else d.active;
}

module _ (persist : Persist) where
  -- A reservation: the record is valid and new, and there is room for it.
  abbrev pub IsReservation : DispatchLedger → AiDispatchRecord → Type 0
  IsReservation d given =
      let pruned = prune_terminal_records d.records in
      (valid_record given ≡ true)
      × (contains d.active given.dispatch_id ≡ false)
      × (lookup given.dispatch_id d.records ≡ none)
      × (length pruned < maximum_records)
      × (begin persist d given ≡ (
        record d {
          records = insert given.dispatch_id (fresh given) pruned;
          active = given.dispatch_id ∷ d.active;
        },
        ok reserved,
      ))

  reserve-cases :
      (d : DispatchLedger) (r : AiDispatchRecord)
      → ((reserve persist d r).0 ≡ record d { records = prune_terminal_records d.records }
          × ((e : AiDispatchLedgerError) × ((reserve persist d r).1 ≡ err e)))
        ⊎ ((length (prune_terminal_records d.records) < maximum_records)
            × (reserve persist d r ≡ (
              record d {
                records = insert r.dispatch_id r (prune_terminal_records d.records);
                active = r.dispatch_id ∷ d.active;
              },
              ok reserved,
            )))
  reserve-cases d r =
      elim (Bool-cases (leb maximum_records (length (prune_terminal_records d.records)))) [
        | inl full ↦ inl (rw full (refl, (invalid, refl)))
        | inr room_left ↦
            elim (Result-cases
              (persist (insert r.dispatch_id r (prune_terminal_records d.records)))) [
                | inl (e, broken) ↦
                    inl (ground (arith, room_left, broken), (e, ground (arith, room_left, broken)))
                | inr (_, written) ↦
                    inr (ground (arith, room_left), ground (arith, room_left, written))
              ]
      ]

  -- What `begin` does: nothing to the ledger, or pruning only, or a reservation.
  pub begin-cases :
      (d : DispatchLedger) (given : AiDispatchRecord)
      → ((begin persist d given).0 ≡ d × ((begin persist d given).1 ≢ ok reserved))
        ⊎ ((begin persist d given).0 ≡ record d { records = prune_terminal_records d.records }
            × ((e : AiDispatchLedgerError) × ((begin persist d given).1 ≡ err e)))
        ⊎ IsReservation d given
  unfolding begin
  begin-cases d given =
      elim (Bool-cases
        (valid_record given && not d.poisoned && not (contains d.active given.dispatch_id))) [
          | inr early ↦ inl (ground (arith, early))
          | inl go ↦ elim (Option-cases (lookup given.dispatch_id d.records)) [
            | inr (found, held) ↦ inl (ground (arith, go, held))
            | inl fresh_one ↦ elim (reserve-cases d (fresh given)) [
              | inl pruned ↦ inr (
                  inl (
                    ground (arith, go, fresh_one, pruned.0),
                    (pruned.1.0, ground (arith, go, fresh_one, pruned.1.1)),
                  ))
              | inr (room_left, made) ↦ inr (
                  inr (
                    ground (arith, go),
                    ground (arith, go),
                    fresh_one,
                    room_left,
                    ground (arith, go, fresh_one, made),
                  ))
            ]
          ]
        ]

  -- What a transition does: it fails and leaves the ledger, or moves the record on.
  pub transition-cases :
      (d : DispatchLedger) (id : Str) (expected next_state : AiDispatchState) (updated_at : Str)
      (finish : Bool)
      → ((e : AiDispatchLedgerError) × (transition persist d id expected next_state updated_at
              finish
            ≡ (d, err e)))
        ⊎ ((r : AiDispatchRecord) × (lookup id d.records ≡ some r)
            × (state_beq r.state expected ≡ true)
            × (valid_timestamp updated_at ≡ true)
            × (contains d.active id ≡ true)
            × (transition persist d id expected next_state updated_at finish
                ≡ (after_move d id next_state updated_at finish, ok tt)))
  unfolding transition
  transition-cases d id expected next_state updated_at finish =
      elim (Bool-cases (
        valid_dispatch_id id
        && valid_timestamp updated_at
        && not d.poisoned
        && contains d.active id)) [
          | inr early ↦ inl (early_error early)
          | inl go ↦ elim (Option-cases (lookup id d.records)) [
            | inl missing ↦ inl (invalid, ground (arith, go, missing))
            | inr (r, held) ↦ elim (Bool-cases (state_beq r.state expected)) [
              | inr other ↦ inl (invalid, ground (arith, go, held, other))
              | inl right ↦
                  elim (Result-cases
                    (persist (adjust id (moved next_state updated_at) d.records))) [
                      | inl (e, broken) ↦ inl (e, ground (arith, go, held, right, broken))
                      | inr (_, written) ↦ inr (
                        r,
                        held,
                        right,
                        ground (arith, go),
                        ground (arith, go),
                        ground (arith, go, held, right, written),
                      )
                    ]
            ]
          ]
        ]
    where
      early_error :
          (valid_dispatch_id id
              && valid_timestamp updated_at
              && not d.poisoned
              && contains d.active id)
            ≡ false
          → (e : AiDispatchLedgerError) × (transition persist d id expected next_state updated_at
                finish
              ≡ (d, err e))
      early_error early = elim (Bool-cases (valid_dispatch_id id && valid_timestamp updated_at)) [
        | inr malformed ↦ (invalid, ground (arith, malformed))
        | inl fine ↦ elim (Bool-cases d.poisoned) [
          | inl p ↦ (io, ground (arith, fine, p))
          | inr unlocked ↦ (invalid, ground (arith, fine, unlocked, early))
        ]
      ]
