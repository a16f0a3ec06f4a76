-- ===== src/Ledger/Orchestration/Steps.antt =====
-- What each method of the ledger of operations does, branch by branch
-- (apps/desktop/src-tauri/src/room_orchestration_ledger.rs).
use m_i_o.Prelude.{
  ◌≡◌, ◌⊎◌, ◌<◌, inl, inr, true, ◌&&◌, none, some, List, any, leb, between, arith, length, Result,
  ok, err, ◌==◌, list_eq, nat_eq, option_eq, Bool-cases, Option-cases, Result-cases,
}
use m_i_o.Text.{Str}
use m_i_o.Identifier.{valid_identifier, valid_timestamp}
use m_i_o.Command.Maps.{lookup, insert, adjust}
use m_i_o.Conductor.State.{ConductorOperationStage, planning, delegating}
use m_i_o.Ledger.{maximum_records}
use m_i_o.Ledger.Orchestration.{
  maximum_workers, OrchestrationDelegationLink, link_eq, RoomOrchestrationRecord, reserved,
  existing, RoomOrchestrationLedgerError, invalid, conflict, io, OrchestrationRecords,
  OrchestrationLedger, Outcome, stage_beq, valid_session_id, valid_record, validate_delegations,
  same_identity, prune_terminal_record, begin_record, transition, mark_delegating,
}

abbrev pub Persist : Type 0
Persist = OrchestrationRecords → Result RoomOrchestrationLedgerError (Unit {0})

abbrev pub Fails : {A : Type 0} → OrchestrationLedger → Outcome A → Type 0
Fails d outcome = (e : RoomOrchestrationLedgerError) × (outcome ≡ (d, err e))

abbrev pub moved : ConductorOperationStage → Str → RoomOrchestrationRecord → RoomOrchestrationRecord
moved next_stage updated_at r = record r { stage = next_stage; updated_at = updated_at }

abbrev pub delegated :
    Str → List OrchestrationDelegationLink → Str → RoomOrchestrationRecord → RoomOrchestrationRecord
delegated session_id links updated_at r = record r {
  conductor_session_id = some session_id;
  delegations = links;
  stage = delegating;
  updated_at = updated_at;
}

module _ (persist : Persist) (d : OrchestrationLedger) where
  abbrev pub IsReservation : RoomOrchestrationRecord → Type 0
  IsReservation r =
      (valid_record r ≡ true)
      × (lookup r.operation_id d.records ≡ none)
      × (length (prune_terminal_record d.records) < maximum_records)
      × (begin_record persist d r ≡ (
        record d { records = insert r.operation_id r (prune_terminal_record d.records) },
        ok (reserved r),
      ))

  abbrev pub IsKnown : RoomOrchestrationRecord → Type 0
  IsKnown r =
      (found : RoomOrchestrationRecord) × (lookup r.operation_id d.records ≡ some found)
      × (same_identity found r ≡ true)
      × (begin_record persist d r ≡ (d, ok (existing found)))

  pub begin_record-cases :
      (r : RoomOrchestrationRecord)
      → Fails d (begin_record persist d r) ⊎ IsKnown r ⊎ IsReservation r
  unfolding begin_record
  begin_record-cases r = elim (Bool-cases (valid_record r)) [
    | inr bad ↦ inl (invalid, ground (arith, bad))
    | inl v ↦ elim (Bool-cases d.poisoned) [
      | inl p ↦ inl (io, ground (arith, v, p))
      | inr unlocked ↦ elim (Option-cases (lookup r.operation_id d.records)) [
        | inr (found, held) ↦ elim (Bool-cases (same_identity found r)) [
          | inl same ↦ inr (inl (found, held, same, ground (arith, v, unlocked, held, same)))
          | inr other ↦ inl (conflict, ground (arith, v, unlocked, held, other))
        ]
        | inl new ↦
            elim (Bool-cases (leb maximum_records (length (prune_terminal_record d.records)))) [
              | inl full ↦ inl (invalid, ground (arith, v, unlocked, new, full))
              | inr room_left ↦
                  elim (Result-cases
                    (persist (insert r.operation_id r (prune_terminal_record d.records)))) [
                      | inl (e, broken) ↦
                          inl (e, ground (arith, v, unlocked, new, room_left, broken))
                      | inr (_, written) ↦ inr (
                          inr (
                            v,
                            new,
                            ground (arith, room_left),
                            ground (arith, v, unlocked, new, room_left, written),
                          ))
                    ]
            ]
      ]
    ]
  ]

  abbrev pub IsMove : Str → List ConductorOperationStage → ConductorOperationStage → Str → Type 0
  IsMove id expected next_stage updated_at =
      (r : RoomOrchestrationRecord) × (lookup id d.records ≡ some r)
      × (any (stage_beq r.stage) expected ≡ true)
      × (valid_timestamp updated_at ≡ true)
      × (transition persist d id expected next_stage updated_at
          ≡ (record d { records = adjust id (moved next_stage updated_at) d.records }, ok tt))

  pub transition-cases :
      (id : Str) (expected : List ConductorOperationStage) (next_stage : ConductorOperationStage)
      (updated_at : Str)
      → Fails d (transition persist d id expected next_stage updated_at)
        ⊎ (transition persist d id expected next_stage updated_at ≡ (d, ok tt))
        ⊎ IsMove id expected next_stage updated_at
  unfolding transition
  transition-cases id expected next_stage updated_at =
      elim (Bool-cases (valid_identifier id && valid_timestamp updated_at)) [
        | inr bad ↦ inl (invalid, ground (arith, bad))
        | inl v ↦ elim (Bool-cases d.poisoned) [
          | inl p ↦ inl (io, ground (arith, v, p))
          | inr unlocked ↦ elim (Option-cases (lookup id d.records)) [
            | inl missing ↦ inl (invalid, ground (arith, v, unlocked, missing))
            | inr (r, held) ↦ elim (Bool-cases (stage_beq r.stage next_stage)) [
              | inl there ↦ inr (inl (ground (arith, v, unlocked, held, there)))
              | inr elsewhere ↦ elim (Bool-cases (any (stage_beq r.stage) expected)) [
                | inr wrong ↦ inl (conflict, ground (arith, v, unlocked, held, elsewhere, wrong))
                | inl right ↦
                    elim (Result-cases
                      (persist (adjust id (moved next_stage updated_at) d.records))) [
                        | inl (e, broken) ↦
                            inl (e, ground (arith, v, unlocked, held, elsewhere, right, broken))
                        | inr (_, written) ↦ inr (
                            inr (
                              r,
                              held,
                              right,
                              ground (arith, v),
                              ground (arith, v, unlocked, held, elsewhere, right, written),
                            ))
                      ]
              ]
            ]
          ]
        ]
      ]

  abbrev pub IsDelegation : Str → Str → List OrchestrationDelegationLink → Str → Type 0
  IsDelegation id session_id links updated_at =
      (r : RoomOrchestrationRecord) × (lookup id d.records ≡ some r)
      × (stage_beq r.stage planning ≡ true)
      × (valid_timestamp updated_at ≡ true)
      × (valid_session_id session_id ≡ true)
      × (between 1 maximum_workers (length links) ≡ true)
      × (validate_delegations r links ≡ true)
      × (mark_delegating persist d id session_id links updated_at ≡ (
        record d { records = adjust id (delegated session_id links updated_at) d.records },
        ok tt,
      ))

  pub mark_delegating-cases :
      (id session_id : Str) (links : List OrchestrationDelegationLink) (updated_at : Str)
      → Fails d (mark_delegating persist d id session_id links updated_at)
        ⊎ (mark_delegating persist d id session_id links updated_at ≡ (d, ok tt))
        ⊎ IsDelegation id session_id links updated_at
  unfolding mark_delegating
  mark_delegating-cases id session_id links updated_at =
      elim (Bool-cases (valid_session_id session_id && between 1 maximum_workers (length links))) [
        | inr bad ↦ inl (invalid, ground (arith, bad))
        | inl v ↦ elim (Bool-cases d.poisoned) [
          | inl p ↦ inl (io, ground (arith, v, p))
          | inr unlocked ↦ elim (Option-cases (lookup id d.records)) [
            | inl missing ↦ inl (invalid, ground (arith, v, unlocked, missing))
            | inr (r, held) ↦ elim (Bool-cases (stage_beq r.stage delegating)) [
              | inl there ↦
                  elim (Bool-cases
                    (r.conductor_session_id == some session_id && r.delegations == links)) [
                      | inl same ↦ inr (inl (ground (arith, v, unlocked, held, there, same)))
                      | inr other ↦ inl (conflict, ground (arith, v, unlocked, held, there, other))
                    ]
              | inr elsewhere ↦
                  elim (Bool-cases (stage_beq r.stage planning && valid_timestamp updated_at)) [
                    | inr wrong ↦
                        inl (conflict, ground (arith, v, unlocked, held, elsewhere, wrong))
                    | inl right ↦ elim (Bool-cases (validate_delegations r links)) [
                      | inr refused ↦
                          inl
                            (invalid, ground (arith, v, unlocked, held, elsewhere, right, refused))
                      | inl fine ↦
                          elim (Result-cases (
                            persist
                              (adjust id (delegated session_id links updated_at) d.records))) [
                                | inl (e, broken) ↦ inl (
                                  e,
                                  ground (arith, v, unlocked, held, elsewhere, right, fine, broken),
                                )
                                | inr (_, written) ↦ inr (
                                    inr (
                                      r,
                                      held,
                                      ground (arith, right),
                                      ground (arith, right),
                                      ground (arith, v),
                                      ground (arith, v),
                                      fine,
                                      ground (
                                        arith, v, unlocked, held, elsewhere, right, fine, written,
                                      ),
                                    ))
                              ]
                    ]
                  ]
            ]
          ]
        ]
      ]
