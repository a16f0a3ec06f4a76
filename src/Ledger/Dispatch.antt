-- ===== src/Ledger/Dispatch.antt =====
-- The ledger of the calls of AI providers (apps/desktop/src-tauri/src/ai_dispatch_ledger.rs). What
-- writing the file reports is a function of the records. The lock is the flag `poisoned`.
pub mod Invariant
pub mod Started
pub mod File
use m_i_o.Prelude.{
  ℕ, ◌≡◌, Bool, true, false, not, ◌&&◌, ◌||◌, Option, none, some, List, [], ◌∷◌, ◌++◌, leb, ltb,
  between, nat_beq, if◌then◌else◌, length, is_empty, all, filter, contains, Result, ok, err, ok_or,
  ◌>>=◌, ◌==◌, list_eq, nat_eq,
}
use m_i_o.Text.{Str, lit, len, bytes}
use m_i_o.Identifier.{is_alphanumeric, valid_timestamp}
use m_i_o.Command.Maps.{lookup, insert, adjust}
use m_i_o.Ledger.{maximum_records, prune, values}

pub data AiDispatchState : Type 0 where
  prepared external_started completed failed : AiDispatchState

abbrev pub state_beq : AiDispatchState → AiDispatchState → Bool
state_beq prepared prepared = true
state_beq external_started external_started = true
state_beq completed completed = true
state_beq failed failed = true
state_beq _ _ = false

pub record AiDispatchRecord : Type 0 where
  pub dispatch_id : Str
  pub room_id : Str
  pub source_message_id : Str
  pub recipient_id : Str
  pub reply_message_id : Str
  pub state : AiDispatchState
  pub updated_at : Str

pub data AiDispatchBegin : Type 0 where
  reserved active : AiDispatchBegin
  existing : AiDispatchRecord → AiDispatchBegin

pub data AiDispatchLedgerError : Type 0 where
  invalid io : AiDispatchLedgerError

abbrev pub DispatchRecords : Type 0
DispatchRecords = List (Str × AiDispatchRecord)

-- `DesktopAiDispatchLedger` with its `DispatchLedgerData`.
pub record DispatchLedger : Type 0 where
  pub records : DispatchRecords
  pub active : List Str
  pub poisoned : Bool

-- What a call leaves, and what it reports.
abbrev pub Outcome : Type 0 → Type 0
Outcome A = DispatchLedger × Result AiDispatchLedgerError A

unfoldable pub valid_dispatch_id : Str → Bool
valid_dispatch_id value =
    not (is_empty value)
    && leb (len value) 384
    && all
        (λ byte.
          is_alphanumeric byte || nat_beq byte b'-' || nat_beq byte b'_' || nat_beq byte b':')
        (bytes value)

unfoldable pub valid_entity_id : Str → Bool
valid_entity_id value =
    not (is_empty value)
    && leb (len value) 128
    && all (λ byte. is_alphanumeric byte || nat_beq byte b'-' || nat_beq byte b'_') (bytes value)

-- `format!("room-message:{}:{}", ..)`.
abbrev pub dispatch_id_for : Str → Str → Str
dispatch_id_for source_message_id recipient_id =
    lit "room-message:" ++ source_message_id ++ lit ":" ++ recipient_id

-- `validate_record` succeeds.
unfoldable pub valid_record : AiDispatchRecord → Bool
valid_record r =
    valid_dispatch_id r.dispatch_id
    && valid_entity_id r.room_id
    && valid_entity_id r.source_message_id
    && valid_entity_id r.recipient_id
    && valid_entity_id r.reply_message_id
    && valid_timestamp r.updated_at
    && r.dispatch_id == dispatch_id_for r.source_message_id r.recipient_id

unfoldable pub same_dispatch : AiDispatchRecord → AiDispatchRecord → Bool
same_dispatch left right =
    left.dispatch_id == right.dispatch_id
    && left.room_id == right.room_id
    && left.source_message_id == right.source_message_id
    && left.recipient_id == right.recipient_id
    && left.reply_message_id == right.reply_message_id

abbrev pub is_terminal : AiDispatchRecord → Bool
is_terminal r = state_beq r.state completed || state_beq r.state failed

unfoldable pub prune_terminal_records : DispatchRecords → DispatchRecords
prune_terminal_records records = prune (λ r. r.updated_at) (λ r. r.dispatch_id) is_terminal records

-- `HashSet::remove`.
abbrev pub without : Str → List Str → List Str
without key keys = filter (λ other. not (other == key)) keys

module _ (persist : DispatchRecords → Result AiDispatchLedgerError (Unit {0})) where
  -- The last part of `begin`: the records are pruned, with whatever follows.
  abbrev pub reserve : DispatchLedger → AiDispatchRecord → Outcome AiDispatchBegin
  reserve d r =
      let pruned = prune_terminal_records d.records in
      if leb maximum_records (length pruned)
      then (record d { records = pruned }, err invalid)
      else let next = insert r.dispatch_id r pruned in
        elim (persist next) [
          | err e ↦ (record d { records = pruned }, err e)
          | ok _ ↦ (record d { records = next; active = r.dispatch_id ∷ d.active }, ok reserved)
        ]

  unfoldable pub begin : DispatchLedger → AiDispatchRecord → Outcome AiDispatchBegin
  begin d given =
      let r = record given { state = prepared } in
      if not (valid_record given)
      then (d, err invalid)
      else if d.poisoned
      then (d, err io)
      else if contains d.active r.dispatch_id
      then (d, ok active)
      else elim (lookup r.dispatch_id d.records) [
        | some found ↦ if same_dispatch found r then (d, ok (existing found)) else (d, err invalid)
        | none ↦ reserve d r
      ]

  unfoldable pub transition :
      DispatchLedger → Str → AiDispatchState → AiDispatchState → Str → Bool → Outcome (Unit {0})
  transition d id expected next_state updated_at finish =
      if not (valid_dispatch_id id) || not (valid_timestamp updated_at)
      then (d, err invalid)
      else if d.poisoned
      then (d, err io)
      else if not (contains d.active id)
      then (d, err invalid)
      else elim (lookup id d.records) [
        | none ↦ (d, err invalid)
        | some current ↦
            if not (state_beq current.state expected)
            then (d, err invalid)
            else let next =
                adjust id (λ r. record r { state = next_state; updated_at = updated_at })
                  d.records in
              elim (persist next) [
                | err e ↦ (d, err e)
                | ok _ ↦ (
                  record d {
                    records = next;
                    active = if finish then without id d.active else d.active;
                  },
                  ok tt,
                )
              ]
      ]

  unfoldable pub mark_external_started : DispatchLedger → Str → Str → Outcome (Unit {0})
  mark_external_started d id updated_at = transition d id prepared external_started updated_at false

  unfoldable pub mark_failed : DispatchLedger → Str → Str → Outcome (Unit {0})
  mark_failed d id updated_at = transition d id prepared failed updated_at true

  unfoldable pub mark_external_preflight_failed : DispatchLedger → Str → Str → Outcome (Unit {0})
  mark_external_preflight_failed d id updated_at =
      transition d id external_started failed updated_at true

  unfoldable pub mark_completed : DispatchLedger → Str → Str → Outcome (Unit {0})
  mark_completed d id updated_at = transition d id external_started completed updated_at true

unfoldable pub finish_unknown : DispatchLedger → Str → DispatchLedger
finish_unknown d id = if d.poisoned then d else record d { active = without id d.active }

unfoldable pub unresolved_for_room :
    DispatchLedger → Str → Result AiDispatchLedgerError (List AiDispatchRecord)
unresolved_for_room d room_id =
    if not (valid_entity_id room_id)
    then err invalid
    else if d.poisoned
    then err io
    else ok (
        filter
          (λ r.
            r.room_id == room_id
            && (state_beq r.state external_started || state_beq r.state completed))
          (values d.records))

-- The loop of `DispatchLedgerPersistence::load` over the records of the file.
unfoldable pub load_records :
    DispatchRecords → List AiDispatchRecord → Result AiDispatchLedgerError DispatchRecords
load_records records [] = ok records
load_records records (r ∷ rest) =
    let further = load_records (insert r.dispatch_id r records) rest in
    if not (valid_record r)
    then err invalid
    else elim (lookup r.dispatch_id records) [ some _ ↦ err invalid | none ↦ further ]

-- What is decoded from the file.
pub record PersistedDispatchLedger : Type 0 where
  pub file_version : ℕ
  pub records : List AiDispatchRecord

-- `DispatchLedgerPersistence::load`, once the file is decoded.
unfoldable pub load_ledger : PersistedDispatchLedger → Result AiDispatchLedgerError DispatchRecords
load_ledger persisted =
    if not (nat_beq persisted.file_version 1) || ltb maximum_records (length persisted.records)
    then err invalid
    else load_records [] persisted.records
