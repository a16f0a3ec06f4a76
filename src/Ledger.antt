-- ===== src/Ledger.antt =====
-- What the two ledgers of the desktop program share
-- (apps/desktop/src-tauri/src/ai_dispatch_ledger.rs and room_orchestration_ledger.rs): at most 512
-- records, of which the oldest that is finished gives way.
pub mod Pruning
pub mod Storage
pub mod Dispatch
pub mod Orchestration
mod Samples
use m_i_o.Prelude.{
  ℕ, suc, ◌≤◌, ◌≡◌, ◌≢◌, ◌⊎◌, inl, inr, refl, subst, Bool, true, false, ◌&&◌, ◌||◌, Option, none,
  some, List, [], ◌∷◌, ltb, map, arith, if◌then◌else◌, length, filter, ◌==◌, list_eq, nat_eq,
  eq_iff, Option-cases, Bool-cases, All, All-mono,
}
use m_i_o.Text.{Str}
use m_i_o.Command.Maps.{str_ltb, lookup, remove, IsMap, AllEntries}

abbrev pub maximum_records : ℕ
maximum_records = 512

abbrev pub values : {V : Type 0} → List (Str × V) → List V
values [] = []
values ((k, v) ∷ entries) = v ∷ values entries

module _ {V : Type 0} (stamp identity : V → Str) where
  -- By the time stamp, then by the identifier.
  unfoldable pub earlier : V → V → Bool
  earlier v w =
      str_ltb (stamp v) (stamp w) || (stamp v == stamp w && str_ltb (identity v) (identity w))

  -- `min_by`, which gives the first of several that are least.
  unfoldable pub oldest : List V → Option V
  unfolding earlier
  oldest [] = none
  oldest (v ∷ vs) = elim (oldest vs) [
    | none ↦ some v
    | some w ↦ if earlier w v then some w else some v
  ]

  module _ (is_terminal : V → Bool) where
    -- `prune_terminal_records` and `prune_terminal_record`.
    unfoldable pub prune : List (Str × V) → List (Str × V)
    unfolding oldest
    prune entries =
        if ltb (length entries) maximum_records
        then entries
        else elim (oldest (filter is_terminal (values entries))) [
          | none ↦ entries
          | some v ↦ remove (identity v) entries
        ]

    oldest-All :
        (P : V → Type 0) (vs : List V) {found : V}
        → All P vs
        → oldest (filter is_terminal vs) ≡ some found
        → P found × (is_terminal found ≡ true)
    unfolding oldest filter
    oldest-All P [] h e = cc
    oldest-All P (v ∷ vs) {found} h e = elim (Bool-cases (is_terminal v)) [
      | inr open_one ↦ oldest-All P vs h.1 (ground (arith, e, open_one))
      | inl done ↦ elim (Option-cases (oldest (filter is_terminal vs))) [
        | inl nothing ↦
            let same : v ≡ found = ground (arith, e, done, nothing) in
            subst (λ x. P x × (is_terminal x ≡ true)) same (h.0, done)
        | inr (w, later) ↦ elim (Bool-cases (earlier w v)) [
          | inl first ↦
              let same : w ≡ found = ground (arith, e, done, later, first) in
              subst (λ x. P x × (is_terminal x ≡ true)) same (oldest-All P vs h.1 later)
          | inr second ↦
              let same : v ≡ found = ground (arith, e, done, later, second) in
              subst (λ x. P x × (is_terminal x ≡ true)) same (h.0, done)
        ]
      ]
    ]

    -- Every value stands under its identifier.
    abbrev pub IsKeyed : List (Str × V) → Type 0
    IsKeyed entries = AllEntries (λ key. λ v. identity v ≡ key) entries

    values_found :
        (entries : List (Str × V))
        → IsMap entries
        → IsKeyed entries
        → All (λ v. lookup (identity v) entries ≡ some v) (values entries)
    unfolding lookup
    values_found [] m k = tt
    values_found ((key, v) ∷ entries) m k = (
      rw k.0 (ground (arith, eq_iff key key)),
      All-mono (values entries) (λ w. λ found. ground (arith, found, m.0, eq_iff key (identity w)))
          (values_found entries m.1 k.1),
    )

    -- What pruning leaves: all but at most one record, which is finished.
    pub prune-cases :
        (entries : List (Str × V))
        → IsMap entries
        → IsKeyed entries
        → (prune entries ≡ entries)
          ⊎ ((v : V) × (lookup (identity v) entries ≡ some v)
              × (is_terminal v ≡ true)
              × (prune entries ≡ remove (identity v) entries))
    unfolding prune
    prune-cases entries m k = elim (Bool-cases (ltb (length entries) maximum_records)) [
      | inl room_left ↦ inl (ground (arith, room_left))
      | inr full ↦ elim (Option-cases (oldest (filter is_terminal (values entries)))) [
        | inl nothing ↦ inl (ground (arith, nothing))
        | inr (v, found) ↦
            let (held, done) =
              oldest-All (λ w. lookup (identity w) entries ≡ some w) (values entries)
                (values_found entries m k) found in
            inr (v, held, done, ground (arith, found, full))
      ]
    ]
