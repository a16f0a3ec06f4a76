-- ===== src/Ledger/Pruning.antt =====
-- What pruning keeps, in both ledgers (apps/desktop/src-tauri/src/ai_dispatch_ledger.rs and
-- room_orchestration_ledger.rs): the form of the ledger, and what is not finished.
use m_i_o.Prelude.{
  refl, subst, Bool-cases, ◌==◌, ◌≤◌, ◌≡◌, ◌⊎◌, inl, inr, ◌∙◌, Bool, true, false, none, some, List,
  arith, length, eq_iff, list_eq, nat_eq,
}
use m_i_o.Text.{Str}
use m_i_o.Command.Maps.{
  lookup, remove, IsMap, AllEntries, AllEntries-mono, AllEntries-remove, IsMap-remove,
  length-remove-le, lookup-remove,
}
use m_i_o.Ledger.{maximum_records, prune, prune-cases}

-- At most 512 entries, each key once, and each as `P` says.
abbrev pub IsLedgerOf : {V : Type 0} → (Str → V → Type 0) → List (Str × V) → Type 0
IsLedgerOf P entries = IsMap entries × AllEntries P entries × (length entries ≤ maximum_records)

module _ {V : Type 0} (stamp identity : V → Str) (is_terminal : V → Bool) (P : Str → V → Type 0)
    (keyed : (key : Str) → (v : V) → P key v → identity v ≡ key) where
  pruned_cases :
      (entries : List (Str × V))
      → IsMap entries
      → AllEntries P entries
      → (prune stamp identity is_terminal entries ≡ entries)
        ⊎ ((v : V) × (lookup (identity v) entries ≡ some v)
            × (is_terminal v ≡ true)
            × (prune stamp identity is_terminal entries ≡ remove (identity v) entries))
  pruned_cases entries m k =
      prune-cases stamp identity is_terminal entries m (AllEntries-mono keyed entries k)

  pub prune-IsLedgerOf :
      (entries : List (Str × V))
      → IsLedgerOf P entries
      → IsLedgerOf P (prune stamp identity is_terminal entries)
  prune-IsLedgerOf entries (m, k, n) = elim (pruned_cases entries m k) [
    | inl same ↦ rw same (m, k, n)
    | inr (v, held, done, less) ↦
        let short = length-remove-le (identity v) entries in
        rw less (
          IsMap-remove (identity v) entries m,
          AllEntries-remove P (identity v) entries k,
          omega (arith, n, short),
        )
  ]

  pub prune-lookup-some :
      (entries : List (Str × V)) (key : Str) {v : V}
      → IsLedgerOf P entries
      → lookup key entries ≡ some v
      → is_terminal v ≡ false
      → lookup key (prune stamp identity is_terminal entries) ≡ some v
  prune-lookup-some entries key {v} (m, k, n) e u = elim (pruned_cases entries m k) [
    | inl same ↦ rw same e
    | inr (w, held, done, less) ↦ rw less (
        lookup-remove (identity w) key entries
        ∙ ground (arith, e, u, held, done, eq_iff (identity w) key))
  ]

  pub prune-lookup-none :
      (entries : List (Str × V)) (key : Str)
      → IsLedgerOf P entries
      → lookup key entries ≡ none
      → lookup key (prune stamp identity is_terminal entries) ≡ none
  prune-lookup-none entries key (m, k, n) e = elim (pruned_cases entries m k) [
    | inl same ↦ rw same e
    | inr (w, held, done, less) ↦
        rw less (lookup-remove (identity w) key entries ∙ ground (arith, e))
  ]

  -- Pruning leaves what is at a key, or drops it if it is finished.
  pub prune-lookup :
      (entries : List (Str × V)) (key : Str)
      → IsLedgerOf P entries
      → (lookup key (prune stamp identity is_terminal entries) ≡ lookup key entries)
        ⊎ ((v : V) × (lookup key entries ≡ some v)
            × (is_terminal v ≡ true)
            × (lookup key (prune stamp identity is_terminal entries) ≡ none))
  prune-lookup entries key (m, k, n) = elim (pruned_cases entries m k) [
    | inl same ↦ inl (rw same refl)
    | inr (w, held, done, less) ↦
        let removed = lookup-remove (identity w) key entries in
        elim (Bool-cases (identity w == key)) [
          | inl hit ↦
              let here : identity w ≡ key = (eq_iff (identity w) key).0 hit in
              inr (
                w,
                subst (λ j. lookup j entries ≡ some w) here held,
                done,
                rw less (removed ∙ ground (arith, hit)),
              )
          | inr miss ↦ inl (rw less (removed ∙ ground (arith, miss)))
        ]
  ]
