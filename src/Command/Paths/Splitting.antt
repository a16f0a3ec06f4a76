-- ===== src/Command/Paths/Splitting.antt =====
-- The pieces that a path is split into, and the normal components that they are (crates/moe-command-broker/src/lib.rs).
use m_i_o.Prelude.{
  ℕ, suc, ◌+◌, ◌≤◌, ◌≡◌, ◌∙◌, sym, ap, refl, Bool, true, false, not, ◌&&◌, ◌||◌, List, [], ◌∷◌, map,
  arith, nat_beq, length, is_empty, contains, nat_eq, list_eq, option_eq, ◌==◌, All, Bool-cases,
  inl, inr,
}
use m_i_o.Command.Paths.{
  PathBuf, split, cons_first, Component, normal, parent_dir, components_of, component_eq,
}

-- A piece that is a component of its own.
abbrev pub is_plain : PathBuf → Bool
is_plain piece =
    not (is_empty piece)
    && not (contains piece b'/')
    && not (piece == b'.' ∷ [])
    && not (piece == b'.' ∷ b'.' ∷ [])

abbrev pub IsUnsplit : PathBuf → Type 0
IsUnsplit piece = contains piece b'/' ≡ false

pub cons_first-IsUnsplit :
    (c : ℕ) (pieces : List PathBuf)
    → nat_beq c b'/' ≡ false
    → All IsUnsplit pieces
    → All IsUnsplit (cons_first c pieces)
unfolding contains
cons_first-IsUnsplit c [] n h = (ground arith, tt)
cons_first-IsUnsplit c (piece ∷ pieces) n h = (ground (arith, h.0), h.1)

pub split-IsUnsplit : (path : PathBuf) → All IsUnsplit (split b'/' path)
unfolding split contains
split-IsUnsplit [] = (refl, tt)
split-IsUnsplit (c ∷ path) = elim (Bool-cases (nat_beq c b'/')) [
  | inl slash ↦ rw slash (refl, split-IsUnsplit path)
  | inr other ↦ rw other (cons_first-IsUnsplit c (split b'/' path) other (split-IsUnsplit path))
]

-- The number of bytes in the pieces, with one for each of them.
abbrev pub total : List PathBuf → ℕ
total [] = 0
total (piece ∷ pieces) = suc (length piece) + total pieces

pub total-cons_first :
    (c : ℕ) (piece : PathBuf) (pieces : List PathBuf)
    → total (cons_first c (piece ∷ pieces)) ≡ suc (total (piece ∷ pieces))
total-cons_first c piece pieces = omega arith

pub split_nonempty :
    (path : PathBuf)
    → (piece : PathBuf) × (pieces : List PathBuf) × (split b'/' path ≡ piece ∷ pieces)
unfolding split
split_nonempty [] = ([], [], refl)
split_nonempty (c ∷ path) = elim (Bool-cases (nat_beq c b'/')) [
  | inl slash ↦ rw slash ([], split b'/' path, refl)
  | inr other ↦
      let (piece, pieces, e) = split_nonempty path in rw (other, e) (c ∷ piece, pieces, refl)
]

pub total-split : (path : PathBuf) → total (split b'/' path) ≡ suc (length path)
unfolding split
total-split [] = refl
total-split (c ∷ path) = elim (Bool-cases (nat_beq c b'/')) [
  | inl slash ↦ rw slash (omega (arith, total-split path))
  | inr other ↦
      let (piece, pieces, e) = split_nonempty path in
      rw (other, e) (omega (arith, ap total (sym e) ∙ total-split path))
]

-- The normal components of pieces are plain, and hold no more bytes than the pieces.
unfoldable pub AreFrom : List PathBuf → List PathBuf → Type 0
AreFrom pieces found = All (λ piece. is_plain piece ≡ true) found × (total found ≤ total pieces)

-- A kept piece is the first that is found.
pub map-normal_first :
    (piece : PathBuf) (comps : List Component) (found : List PathBuf)
    → normal piece ∷ comps ≡ map normal found
    → (rest : List PathBuf) × (found ≡ piece ∷ rest) × (comps ≡ map normal rest)
map-normal_first piece comps [] e = cc
map-normal_first piece comps (f ∷ found) e = (found, ground (arith, e), ground (arith, e))

pub no_parent_found :
    (comps : List Component) (found : List PathBuf) → parent_dir ∷ comps ≡ map normal found → ⊥
no_parent_found comps [] e = cc
no_parent_found comps (f ∷ found) e = cc

pub components_of-AreFrom :
    (pieces found : List PathBuf)
    → All IsUnsplit pieces
    → components_of pieces ≡ map normal found
    → AreFrom pieces found
unfolding components_of AreFrom
components_of-AreFrom [] [] u e = (tt, omega arith)
components_of-AreFrom [] (f ∷ found) u e = cc
components_of-AreFrom (piece ∷ pieces) found u e =
    elim (Bool-cases (is_empty piece || piece == b'.' ∷ [])) [
      | inl skipped ↦
          let (plain, few) = components_of-AreFrom pieces found u.1 (ground (arith, e, skipped)) in
          (plain, omega (arith, few))
      | inr kept ↦ elim (Bool-cases (piece == b'.' ∷ b'.' ∷ [])) [
        | inl up ↦
            absurd (no_parent_found (components_of pieces) found (ground (arith, e, kept, up)))
        | inr down ↦
            let (rest, first, later) =
              map-normal_first piece (components_of pieces) found (ground (arith, e, kept, down)) in
            let (plain, few) = components_of-AreFrom pieces rest u.1 later in
            rw first ((ground (arith, u.0, kept, down), plain), omega (arith, few))
      ]
    ]
