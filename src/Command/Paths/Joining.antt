-- ===== src/Command/Paths/Joining.antt =====
-- What `workspace_relative_directory` (crates/moe-command-broker/src/lib.rs) makes of a path has
-- the same components, and is left as it is by a second call.
use m_i_o.Prelude.{
  suc, ◌≤◌, ◌≡◌, ◌⊎◌, ◌∙◌, sym, refl, true, false, List, [], ◌∷◌, ◌++◌, map, arith, length,
  is_empty, contains, nat_eq, list_eq, option_eq, ok, All, Bool-cases, Result-cases, list_beq, inl,
  inr,
}
use m_i_o.Command.Paths.{
  PathBuf, split, normal, components_of, leading, components, is_absolute, path_beq, component_eq,
  push, relative_from, workspace_relative_directory, maximum_relative_path_bytes,
}
use m_i_o.Command.Paths.Splitting.{
  is_plain, split-IsUnsplit, total, total-split, AreFrom, components_of-AreFrom,
}
use m_i_o.Command.Paths.Pushing.{
  push_all, relative_from-ok, tails, split-tails, plain_relative, push_all-tails,
  components_of-plain, length-tails, head_relative,
}

leading-normal :
    (pieces found : List PathBuf)
    → leading pieces ≡ map normal found
    → components_of pieces ≡ map normal found
unfolding leading
leading-normal [] found e = e
leading-normal (piece ∷ pieces) [] e = ground (arith, e)
leading-normal (piece ∷ pieces) (f ∷ found) e = ground (arith, e)

push-nil : (piece : PathBuf) → is_plain piece ≡ true → push [] piece ≡ piece
unfolding push
push-nil piece p = ground (arith, plain_relative piece p)

-- A path that plain pieces were pushed into.
joined-components :
    (pieces : List PathBuf)
    → All (λ piece. is_plain piece ≡ true) pieces
    → is_empty (push_all [] pieces) ≡ false
    → (components (push_all [] pieces) ≡ map normal pieces)
      × (suc (length (push_all [] pieces)) ≡ total pieces)
      × (is_absolute (push_all [] pieces) ≡ false)
unfolding components leading push_all
joined-components [] h n = absurd (ground (arith, n))
joined-components (piece ∷ pieces) h n =
    let first : push [] piece ≡ piece = push-nil piece h.0 in
    let whole : push_all piece pieces ≡ piece ++ tails pieces =
      push_all-tails [] piece pieces h.0 h.1 in
    let unsplit : contains piece b'/' ≡ false = ground (arith, h.0) in
    rw (first, whole)
      (
        rw (head_relative piece (tails pieces) h.0, split-tails piece pieces unsplit h.1)
            (ground (arith, h.0, components_of-plain pieces h.1)),
        length-tails piece pieces,
        head_relative piece (tails pieces) h.0,
      )

-- What the loop makes of the components of a relative path: a path with the same components, not
-- longer than the first.
relative_from-components :
    (path q : PathBuf)
    → is_absolute path ≡ false
    → relative_from 0 [] (components path) ≡ ok q
    → is_empty q ≡ false
    → (components q ≡ components path) × (length q ≤ length path) × (is_absolute q ≡ false)
unfolding components AreFrom
relative_from-components path q a e n =
    let (pieces, c, j) = relative_from-ok 0 [] (components path) {q = q} e in
    let found : components_of (split b'/' path) ≡ map normal pieces =
      leading-normal (split b'/' path) pieces (ground (arith, a, c)) in
    let from = components_of-AreFrom (split b'/' path) pieces (split-IsUnsplit path) found in
    let plain : All (λ piece. is_plain piece ≡ true) pieces = from.0 in
    let few : total pieces ≤ total (split b'/' path) = from.1 in
    let (same, long, relative) = joined-components pieces plain (ground (arith, n, j)) in
    rw j (same ∙ sym c, omega (arith, few, long, total-split path), relative)

-- A path that is not `.` and has a directory.
abbrev IsMade : PathBuf → PathBuf → Type 0
IsMade path q =
    (path_beq path (b'.' ∷ []) ≡ false)
    × (is_absolute path ≡ false)
    × (length path ≤ maximum_relative_path_bytes)
    × (relative_from 0 [] (components path) ≡ ok q)
    × (is_empty q ≡ false)

directory_cases :
    (path : PathBuf) {q : PathBuf}
    → workspace_relative_directory path ≡ ok q
    → (q ≡ b'.' ∷ []) ⊎ IsMade path q
unfolding workspace_relative_directory
directory_cases path {q} e = elim (Bool-cases (path_beq path (b'.' ∷ []))) [
  | inl dot ↦ inl (ground (arith, e, dot))
  | inr other ↦ inr (elim (Result-cases (relative_from 0 [] (components path))) [
    | inl (f, failed) ↦ absurd (ground (arith, e, other, failed))
    | inr (r, made) ↦ (
      other,
      ground (arith, e, other),
      ground (arith, e, other),
      ground (arith, e, other, made),
      ground (arith, e, other, made),
    )
  ])
]

made-ok :
    (path q : PathBuf)
    → IsMade path q
    → is_empty path ≡ false
    → workspace_relative_directory path ≡ ok q
unfolding workspace_relative_directory
made-ok path q (other, relative, short, made, full) n =
    rw (other, n, made, full) (ground (arith, relative, short))

dot_made : workspace_relative_directory (b'.' ∷ []) ≡ ok (b'.' ∷ [])
unfolding workspace_relative_directory path_beq components split leading list_beq
dot_made = refl

-- The directory that is made of a path is made of itself too.
pub workspace_relative_directory_idem :
    (path : PathBuf) {q : PathBuf}
    → workspace_relative_directory path ≡ ok q
    → workspace_relative_directory q ≡ ok q
unfolding path_beq
workspace_relative_directory_idem path {q} e = elim (directory_cases path e) [
  | inl dot ↦ rw dot (dot_made)
  | inr (other, relative, short, made, full) ↦
      let (same, long, still) = relative_from-components path q relative made full in
      made-ok q q (rw same other, still, omega (arith, long, short), rw same made, full) full
]

-- `.`, or a relative path of bounded length whose components are all names.
abbrev pub IsWithin : PathBuf → Type 0
IsWithin path =
    (path ≡ b'.' ∷ [])
    ⊎ ((is_absolute path ≡ false)
        × (length path ≤ maximum_relative_path_bytes)
        × ((names : List PathBuf) × (components path ≡ map normal names)))

pub workspace_relative_directory-IsWithin :
    (path : PathBuf) {q : PathBuf} → workspace_relative_directory path ≡ ok q → IsWithin q
workspace_relative_directory-IsWithin path {q} e = elim (directory_cases path e) [
  | inl dot ↦ inl dot
  | inr (other, relative, short, made, full) ↦
      let (same, long, still) = relative_from-components path q relative made full in
      let (names, c, j) = relative_from-ok 0 [] (components path) {q = q} made in
      inr (still, omega (arith, long, short), (names, same ∙ c))
]
