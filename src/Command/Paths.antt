-- ===== src/Command/Paths.antt =====
-- `std::path` on Unix, where a path is its bytes, and the relative directory that
-- crates/moe-command-broker/src/lib.rs makes of one in a build outside Windows: a backslash and a
-- drive such as `C:` are ordinary bytes of a name here.
pub mod Splitting
pub mod Pushing
pub mod Joining
pub mod Windows
use m_i_o.Prelude.{
  ℕ, suc, Bool, true, false, not, ◌&&◌, ◌||◌, List, [], ◌∷◌, ◌++◌, ltb, nat_beq, if◌then◌else◌,
  length, is_empty, contains, nat_eq, list_eq, option_eq, ◌==◌, PartialEq, ◌≡◌, ◌↔◌, arith, eq_iff,
  Result, ok, err, last, Option, none, some,
}

abbrev pub PathBuf : Type 0
PathBuf = List ℕ

abbrev pub maximum_relative_path_bytes : ℕ
maximum_relative_path_bytes = 4096

abbrev pub maximum_relative_path_components : ℕ
maximum_relative_path_components = 256

-- A byte in front of the first piece.
abbrev pub cons_first : ℕ → List (List ℕ) → List (List ℕ)
cons_first c [] = (c ∷ []) ∷ []
cons_first c (piece ∷ pieces) = (c ∷ piece) ∷ pieces

-- The pieces between the separators; there is one more than there are separators.
unfoldable pub split : ℕ → List ℕ → List (List ℕ)
split separator [] = [] ∷ []
split separator (c ∷ s) =
    let pieces = split separator s in
    if nat_beq c separator then [] ∷ pieces else cons_first c pieces

-- The components that a Unix path has.
pub data Component : Type 0 where
  root_dir cur_dir parent_dir : Component
  normal : PathBuf → Component

-- Empty pieces and `.` are no components.
unfoldable pub components_of : List PathBuf → List Component
components_of [] = []
components_of (piece ∷ pieces) =
    let later = components_of pieces in
    if is_empty piece || piece == b'.' ∷ []
    then later
    else if piece == b'.' ∷ b'.' ∷ []
    then parent_dir ∷ later
    else normal piece ∷ later

-- A leading `.` is one.
unfoldable pub leading : List PathBuf → List Component
unfolding components_of
leading [] = []
leading (piece ∷ pieces) =
    if piece == b'.' ∷ [] then cur_dir ∷ components_of pieces else components_of (piece ∷ pieces)

abbrev pub starts_with_slash : PathBuf → Bool
starts_with_slash [] = false
starts_with_slash (c ∷ path) = nat_beq c b'/'

unfoldable pub components : PathBuf → List Component
unfolding leading split
components path =
    if starts_with_slash path
    then root_dir ∷ components_of (split b'/' path)
    else leading (split b'/' path)

abbrev pub is_absolute : PathBuf → Bool
is_absolute path = starts_with_slash path

abbrev pub component_beq : Component → Component → Bool
component_beq root_dir root_dir = true
component_beq cur_dir cur_dir = true
component_beq parent_dir parent_dir = true
component_beq (normal a) (normal b) = a == b
component_beq _ _ = false

pub component_beq_iff : (a b : Component) → (component_beq a b ≡ true) ↔ (a ≡ b)
component_beq_iff (normal a) (normal b) = ground (arith, eq_iff a b)
component_beq_iff a b = ground arith

instance abbrev pub component_eq : PartialEq Component
component_eq = record { test = component_beq; law = component_beq_iff }

-- Paths are equal when their components are.
unfoldable pub path_beq : PathBuf → PathBuf → Bool
unfolding components
path_beq a b = components a == components b

abbrev pub ends_with_slash : PathBuf → Bool
ends_with_slash path = last path == some b'/'

-- `PathBuf::push`.
unfoldable pub push : PathBuf → PathBuf → PathBuf
push path segment =
    if is_absolute segment
    then segment
    else if is_empty path || ends_with_slash path
    then path ++ segment
    else path ++ b'/' ∷ segment

-- The code outside Windows (`cfg(not(windows))`); `Windows` has the other.
unfoldable pub valid_path_segment : PathBuf → Bool
valid_path_segment segment = not (contains segment 0)

-- The loop over the components, with their number and the path built so far.
unfoldable pub relative_from : ℕ → PathBuf → List Component → Result (Unit {0}) PathBuf
unfolding push valid_path_segment
relative_from component_count relative [] = ok relative
relative_from component_count relative (normal segment ∷ rest) =
    let further = relative_from (suc component_count) (push relative segment) rest in
    if not (valid_path_segment segment)
    then err tt
    else if ltb maximum_relative_path_components (suc component_count)
    then err tt
    else further
relative_from component_count relative (_ ∷ rest) = err tt

unfoldable pub workspace_relative_directory : PathBuf → Result (Unit {0}) PathBuf
workspace_relative_directory path =
    if path_beq path (b'.' ∷ [])
    then ok (b'.' ∷ [])
    else if is_empty path || ltb maximum_relative_path_bytes (length path) || is_absolute path
    then err tt
    else elim (relative_from 0 [] (components path)) [
      | err _ ↦ err tt
      | ok relative ↦ if is_empty relative then err tt else ok relative
    ]
