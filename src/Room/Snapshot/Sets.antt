-- ===== src/Room/Snapshot/Sets.antt =====
-- The identifier sets that `validate_snapshot` of crates/moe-core/src/room.rs builds.
use m_i_o.Prelude.{
  ◌≤◌, ◌≡◌, ◌↔◌, refl, true, false, List, [], ◌∷◌, arith, length, all, eq_iff, eq_refl, contains,
  contains_iff, list_eq, nat_eq, occurrences, IsDistinct, IsIn,
}
use m_i_o.Text.{Str}
use m_i_o.Room.Snapshot.{collect_set}

pub IsIn-collect_set : (a : Str) (xs : List Str) → IsIn a (collect_set xs) ↔ IsIn a xs
unfolding collect_set occurrences
IsIn-collect_set a [] = ground arith
IsIn-collect_set a (x ∷ xs) =
    ground (arith, IsIn-collect_set a xs, contains_iff (collect_set xs) x, eq_iff x a)

pub length-collect_set-le : (xs : List Str) → length (collect_set xs) ≤ length xs
unfolding collect_set
length-collect_set-le [] = omega arith
length-collect_set-le (x ∷ xs) = ground (arith, length-collect_set-le xs)

pub collect_set-IsDistinct : (xs : List Str) → length (collect_set xs) ≡ length xs → IsDistinct xs
unfolding collect_set occurrences
collect_set-IsDistinct [] h a = omega arith
collect_set-IsDistinct (x ∷ xs) h a =
    let fresh : contains (collect_set xs) x ≡ false = ground (arith, length-collect_set-le xs) in
    let same : length (collect_set xs) ≡ length xs = ground arith in
    ground (
      arith,
      collect_set-IsDistinct xs same a,
      IsIn-collect_set x xs,
      contains_iff (collect_set xs) x,
      eq_iff x a,
    )

pub collect_set_of_distinct : (xs : List Str) → IsDistinct xs → collect_set xs ≡ xs
unfolding collect_set occurrences
collect_set_of_distinct [] h = refl
collect_set_of_distinct (x ∷ xs) h =
    let tail : IsDistinct xs = λ a. ground (arith, h a) in
    ground (arith, collect_set_of_distinct xs tail, h x, contains_iff xs x, eq_refl x)

all-contains_sound :
    (members xs : List Str) (a : Str)
    → all (λ x. contains members x) xs ≡ true
    → IsIn a xs
    → IsIn a members
unfolding all occurrences
all-contains_sound members [] a h m = absurd (omega arith)
all-contains_sound members (x ∷ xs) a h m =
    ground (arith, all-contains_sound members xs a, contains_iff members x, eq_iff x a)

all-contains_complete :
    (members xs : List Str)
    → ((a : Str) → IsIn a xs → IsIn a members)
    → all (λ x. contains members x) xs ≡ true
unfolding all occurrences
all-contains_complete members [] h = refl
all-contains_complete members (x ∷ xs) h =
    let rest = all-contains_complete members xs (λ a m. h a (ground arith)) in
    ground (arith, rest, h x, contains_iff members x, eq_refl x)

pub all-contains_iff :
    (members xs : List Str)
    → (all (λ x. contains members x) xs ≡ true) ↔ ((a : Str) → IsIn a xs → IsIn a members)
all-contains_iff members xs =
    ((λ h a m. all-contains_sound members xs a h m), all-contains_complete members xs)
