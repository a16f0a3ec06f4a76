-- ===== src/Ledger/Dispatch/Invariant/Steps.antt =====
-- `begin` and a transition keep the invariant (apps/desktop/src-tauri/src/ai_dispatch_ledger.rs).
use m_i_o.Prelude.{
  ◌≡◌, ◌≢◌, inl, inr, refl, ◌∙◌, Bool, true, false, ◌||◌, ◌<◌, none, ◌∷◌, arith, length, contains,
  ◌==◌, list_eq, nat_eq, eq_iff, Bool-cases,
}
use m_i_o.Text.{Str}
use m_i_o.Command.Maps.{
  lookup, insert, adjust, AllEntries-lookup, AllEntries-insert, AllEntries-adjust, lookup-insert,
  lookup-adjust, length-insert, length-adjust, IsMap-insert, IsMap-adjust,
}
use m_i_o.Ledger.{maximum_records}
use m_i_o.Ledger.Dispatch.{
  AiDispatchState, completed, failed, state_beq, AiDispatchRecord, DispatchRecords, DispatchLedger,
  valid_record, prune_terminal_records, begin, transition,
}
use m_i_o.Ledger.Dispatch.Invariant.{
  Persist, IsRecordAt, IsUnfinished, IsConsistent, prune-IsLedger, prune-IsUnfinished, prune-absent,
  without-contains,
}
use m_i_o.Ledger.Dispatch.Invariant.Cases.{
  fresh, fresh-valid, begin-cases, moved, after_move, transition-cases,
}

module _ (persist : Persist) where
  IsUnfinished-insert :
      (records : DispatchRecords) (k id : Str) (r : AiDispatchRecord)
      → lookup k records ≡ none
      → IsUnfinished records id
      → IsUnfinished (insert k r records) id
  IsUnfinished-insert records k id r absent (held, e, u) =
      (held, lookup-insert k id r records ∙ ground (arith, e, absent, eq_iff k id), u)

  prune-IsConsistent :
      (d : DispatchLedger)
      → IsConsistent d
      → IsConsistent (record d { records = prune_terminal_records d.records })
  prune-IsConsistent d c = record {
    ledger = prune-IsLedger d.records c.ledger;
    active = λ id.
        λ a. let (r, e, u) = c.active id a in (r, prune-IsUnfinished d.records id c.ledger e u, u);
  }

  reservation-IsConsistent :
      (d : DispatchLedger) (given : AiDispatchRecord)
      → valid_record given ≡ true
      → lookup given.dispatch_id d.records ≡ none
      → length (prune_terminal_records d.records) < maximum_records
      → IsConsistent d
      → IsConsistent (record d {
        records = insert given.dispatch_id (fresh given) (prune_terminal_records d.records);
        active = given.dispatch_id ∷ d.active;
      })
  unfolding contains
  reservation-IsConsistent d given v absent room_left c =
      let pruned = prune_terminal_records d.records in
      let (m, k, n) = prune-IsLedger d.records c.ledger in
      let still : lookup given.dispatch_id pruned ≡ none =
        prune-absent d.records given.dispatch_id c.ledger absent in
      let longer = length-insert given.dispatch_id (fresh given) pruned still in
      record {
        ledger = (
          IsMap-insert given.dispatch_id (fresh given) pruned still m,
          AllEntries-insert IsRecordAt given.dispatch_id (fresh given) pruned
              (refl, fresh-valid given v) k,
          omega (arith, longer, room_left),
        );
        active = λ id. λ a. elim (Bool-cases (given.dispatch_id == id)) [
          | inl hit ↦ (
            fresh given,
            lookup-insert given.dispatch_id id (fresh given) pruned ∙ ground (arith, hit),
            refl,
          )
          | inr miss ↦
              let (r, e, u) = c.active id (ground (arith, a, miss)) in
              IsUnfinished-insert pruned given.dispatch_id id (fresh given) still
                (r, prune-IsUnfinished d.records id c.ledger e u, u)
        ];
      }

  pub begin-IsConsistent :
      (d : DispatchLedger) (given : AiDispatchRecord)
      → IsConsistent d
      → IsConsistent (begin persist d given).0
  begin-IsConsistent d given c = elim (begin-cases persist d given) [
    | inl (same, _) ↦ rw same c
    | inr (inl (pruned, _)) ↦ rw pruned (prune-IsConsistent d c)
    | inr (inr (v, inactive, absent, room_left, made)) ↦
        rw made (reservation-IsConsistent d given v absent room_left c)
  ]

  still_active :
      (d : DispatchLedger) (id : Str) (next_state : AiDispatchState) (updated_at : Str)
      (finish : Bool) (other : Str)
      → contains (after_move d id next_state updated_at finish).active other ≡ true
      → (contains d.active other ≡ true) × (finish ≡ true → id ≢ other)
  still_active d id next_state updated_at true other a =
      let (was, apart) = without-contains id other d.active a in (was, λ done. apart)
  still_active d id next_state updated_at false other a = (a, λ done. cc)

  adjust-IsUnfinished :
      (records : DispatchRecords) (id : Str) (next_state : AiDispatchState) (updated_at : Str)
      (other : Str)
      → (id ≡ other → (state_beq next_state completed || state_beq next_state failed) ≡ false)
      → IsUnfinished records other
      → IsUnfinished (adjust id (moved next_state updated_at) records) other
  adjust-IsUnfinished records id next_state updated_at other f (r, e, u) =
      let there = lookup-adjust id other (moved next_state updated_at) records in
      elim (Bool-cases (id == other)) [
        | inl hit ↦ (
          moved next_state updated_at r,
          there ∙ ground (arith, hit, e),
          f ((eq_iff id other).0 hit),
        )
        | inr miss ↦ (r, there ∙ ground (arith, miss, e), u)
      ]

  pub transition-IsConsistent :
      (d : DispatchLedger) (id : Str) (expected next_state : AiDispatchState) (updated_at : Str)
      (finish : Bool)
      → (state_beq next_state completed || state_beq next_state failed) ≡ finish
      → IsConsistent d
      → IsConsistent (transition persist d id expected next_state updated_at finish).0
  unfolding valid_record
  transition-IsConsistent d id expected next_state updated_at finish f c =
      elim (transition-cases persist d id expected next_state updated_at finish) [
        | inl (e, same) ↦ rw same c
        | inr (r, held, right, stamped, busy, made) ↦
            let (m, k, n) = c.ledger in
            let at = AllEntries-lookup IsRecordAt id d.records k held in
            let size = length-adjust id (moved next_state updated_at) d.records in
            rw made (record {
              ledger = (
                IsMap-adjust id (moved next_state updated_at) d.records m,
                AllEntries-adjust IsRecordAt id (moved next_state updated_at) d.records
                    (λ v. λ e.
                      let there = AllEntries-lookup IsRecordAt id d.records k e in
                      (there.0, ground (arith, there.1, stamped)))
                    k,
                omega (arith, size, n),
              );
              active = λ other. λ a.
                  let (was, kept) = still_active d id next_state updated_at finish other a in
                  adjust-IsUnfinished d.records id next_state updated_at other
                    (λ same. elim (Bool-cases finish) [
                      | inl done ↦ absurd (kept done same)
                      | inr open_still ↦ f ∙ open_still
                    ])
                    (c.active other was);
            })
      ]
