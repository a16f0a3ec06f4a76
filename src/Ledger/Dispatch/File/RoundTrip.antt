-- ===== src/Ledger/Dispatch/File/RoundTrip.antt =====
-- The ledger of dispatches that was written is the one that is loaded
-- (apps/desktop/src-tauri/src/ai_dispatch_ledger.rs).
use m_i_o.Prelude.{
  ℕ, ◌≡◌, inl, inr, refl, sym, subst, ◌∙◌, true, false, Option, none, some, List, [], ◌∷◌, length,
  last, is_empty, ltb, arith, Result-cases, ok, ◌==◌, list_eq, nat_eq, eq_iff,
}
use m_i_o.Text.{Str}
use m_i_o.Command.Maps.{
  apart_keys, AllEntries-and, lookup, insert, IsMap, AllEntries, AllEntries-mono, lookup-insert,
}
use m_i_o.Ledger.{values}
use m_i_o.Ledger.Storage.{Entry, absent, directory, file, Files, Answers, source, replace}
use m_i_o.Ledger.Dispatch.{DispatchRecords, load_records, load_ledger, PersistedDispatchLedger}
use m_i_o.Ledger.Dispatch.Invariant.{IsRecordAt, IsLedger}
use m_i_o.Ledger.Dispatch.File.{
  prepare_temp, replace_without_backup, persist_ledger, persisted_ledger, load_file,
  maximum_dispatch_ledger_bytes,
}
use m_i_o.Ledger.Dispatch.File.Recovery.{persist_prepared, persist_refused, prepared_body}

abbrev pub first_of : {V : Type 0} → Option V → Option V → Option V
first_of (some v) other = some v
first_of none other = other

first_of-none : {V : Type 0} (o : Option V) → first_of o none ≡ o
first_of-none none = refl
first_of-none (some v) = refl

length-values : (m : DispatchRecords) → length (values m) ≡ length m
length-values [] = refl
length-values ((k, v) ∷ m) = ground (arith, length-values m)

loads_again :
    (before m : DispatchRecords)
    → IsMap m
    → AllEntries IsRecordAt m
    → AllEntries (λ k. λ v. lookup k before ≡ none) m
    → (out : DispatchRecords) × (load_records before (values m) ≡ ok out)
      × ((k : Str) → lookup k out ≡ first_of (lookup k m) (lookup k before))
unfolding load_records lookup
loads_again before [] d v new = (before, refl, λ k. refl)
loads_again before ((j, r) ∷ m) d v new =
    let key : r.dispatch_id ≡ j = v.0.0 in
    let absent_yet : lookup r.dispatch_id before ≡ none =
      subst (λ k. lookup k before ≡ none) (sym key) new.0 in
    let alone : lookup r.dispatch_id m ≡ none = subst (λ k. lookup k m ≡ none) (sym key) d.0 in
    let later =
      AllEntries-mono (λ k. λ w. λ h. lookup-insert r.dispatch_id k r before ∙ ground (arith, h)) m
        (AllEntries-and (λ k. λ w. lookup k before ≡ none) (λ k. λ w. (r.dispatch_id == k) ≡ false)
          m new.1 (apart_keys r.dispatch_id m alone)) in
    let (out, e, same) = loads_again (insert r.dispatch_id r before) m d.1 v.1 later in
    (
      out,
      ground (arith, v.0.1, absent_yet, e),
      λ k.
          same k
          ∙ ground (
            arith,
            lookup-insert r.dispatch_id k r before,
            eq_iff j k,
            eq_iff r.dispatch_id k,
            key,
            d.0,
          ),
    )

settled :
    (answers : Answers) (primary backup : Entry) (body : List ℕ) {log : List Files}
    → replace_without_backup answers (record { primary = primary; backup = backup }) body
      ≡ (log, ok tt)
    → last log ≡ some (record { primary = file body; backup = primary })
unfolding replace_without_backup replace last
settled answers absent absent body {log} e = ground (arith, e)
settled answers absent (file old) body {log} e = ground (arith, e)
settled answers absent directory body {log} e = ground (arith, e)
settled answers directory absent body {log} e = ground (arith, e)
settled answers directory (file old) body {log} e = ground (arith, e)
settled answers directory directory body {log} e = ground (arith, e)
settled answers (file old) absent body {log} e = ground (arith, e)
settled answers (file old) (file older) body {log} e = ground (arith, e)
settled answers (file old) directory body {log} e = ground (arith, e)

short_body :
    (to_vec : PersistedDispatchLedger → Option (List ℕ)) (answers : Answers) (f : Files)
    (records : DispatchRecords) {body : List ℕ}
    → prepare_temp to_vec answers f records ≡ ok body
    → ltb maximum_dispatch_ledger_bytes (length body) ≡ false
unfolding prepare_temp
short_body to_vec answers f records {body} e = ground (arith, e)

-- After a write that succeeds, the file is loaded again, and gives a ledger in which every lookup
-- finds what it found before, provided that serde reads back what it writes, which is not nothing.
pub load-persist_ledger :
    (to_vec : PersistedDispatchLedger → Option (List ℕ))
    (from_slice : List ℕ → Option PersistedDispatchLedger) (answers : Answers) (f : Files)
    (records : DispatchRecords) {body : List ℕ} {log : List Files}
    → IsLedger records
    → to_vec (persisted_ledger records) ≡ some body
    → from_slice body ≡ some (persisted_ledger records)
    → is_empty body ≡ false
    → persist_ledger to_vec answers f records ≡ (log, ok tt)
    → (g : Files) × (out : DispatchRecords) × (last log ≡ some g)
      × (load_file from_slice true g ≡ ok out)
      × ((id : Str) → lookup id out ≡ lookup id records)
unfolding load_file source load_ledger lookup
load-persist_ledger to_vec from_slice answers f records {body} {log} (m, k, n) e reads full p =
    elim (Result-cases (prepare_temp to_vec answers f records)) [
      | inl (_, refused) ↦
          absurd (ground (arith, p, persist_refused to_vec answers f records refused))
      | inr (made, prepared) ↦
          let same : made ≡ body = prepared_body to_vec answers f records e prepared in
          let short : ltb maximum_dispatch_ledger_bytes (length body) ≡ false =
            subst (λ b. ltb maximum_dispatch_ledger_bytes (length b) ≡ false) same
              (short_body to_vec answers f records prepared) in
          let replaced : replace_without_backup answers f body ≡ (log, ok tt) =
            subst (λ b. replace_without_backup answers f b ≡ (log, ok tt)) same
              (sym (persist_prepared to_vec answers f records prepared) ∙ p) in
          let (out, loaded, found) =
            loads_again [] records m k (AllEntries-mono (λ key. λ r. λ at. refl) records k) in
          (
            record { primary = file body; backup = f.primary },
            out,
            settled answers f.primary f.backup body replaced,
            ground (arith, full, short, reads, loaded, n, length-values records),
            λ id. found id ∙ first_of-none (lookup id records),
          )
    ]
