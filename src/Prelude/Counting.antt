-- ===== src/Prelude/Counting.antt =====
-- How often a value stands in a list, and lists without duplicates.
use Prim.Native.Nat.{ℕ, zero, suc, ◌+◌, ◌≤◌, ◌<◌}
use mathlib.Core.Path.{◌≡◌, refl}
use mathlib.Core.Logic.{◌↔◌}
use mathlib.Core.Bool.{Bool, true, false, ◌&&◌, not}
use mathlib.Core.Option.{some}
use mathlib.Core.List.{List, [], ◌∷◌, ◌++◌}
use native.Mathlib.Omega.{arith}
use m_i_o.Prelude.Tests.{if◌then◌else◌}
use m_i_o.Prelude.Lists.{position, remove_at}
use m_i_o.Prelude.Equality.{PartialEq, ◌==◌, eq_refl, contains}

module _ {ℓ} {A : Type ℓ} ⦃e : PartialEq A⦄ where
  unfoldable pub occurrences : A → List A → ℕ
  occurrences a [] = 0
  occurrences a (x ∷ xs) = if x == a then suc (occurrences a xs) else occurrences a xs

  -- No value stands in the list twice.
  abbrev pub IsDistinct : List A → Type ℓ
  IsDistinct xs = (a : A) → occurrences a xs ≤ 1

  abbrev pub IsIn : A → List A → Type 0
  IsIn a xs = 0 < occurrences a xs

  -- `all(|x| set.insert(x))`, from the values already in the set.
  unfoldable pub all_inserted : List A → List A → Bool
  all_inserted seen [] = true
  all_inserted seen (x ∷ xs) = not (contains seen x) && all_inserted (x ∷ seen) xs

  pub contains_iff : (xs : List A) (a : A) → (contains xs a ≡ true) ↔ IsIn a xs
  unfolding contains occurrences
  contains_iff [] a = ground arith
  contains_iff (x ∷ xs) a = ground (arith, contains_iff xs a)

  pub occurrences-append :
      (a : A) (xs ys : List A) → occurrences a (xs ++ ys) ≡ occurrences a xs + occurrences a ys
  unfolding occurrences
  occurrences-append a [] ys = omega arith
  occurrences-append a (x ∷ xs) ys = ground (arith, occurrences-append a xs ys)

  pub occurrences-single : (a x : A) → occurrences a (x ∷ []) ≡ (if x == a then 1 else 0)
  unfolding occurrences
  occurrences-single a x = ground arith

  -- What `remove(position)` takes away is one occurrence of the value looked for.
  pub occurrences-remove_at :
      (a p : A) (xs : List A) (i : ℕ)
      → position (λ x. x == p) xs ≡ some i
      → occurrences a (remove_at i xs) + (if p == a then 1 else 0) ≡ occurrences a xs
  unfolding position remove_at occurrences
  occurrences-remove_at a p [] i h = ground arith
  occurrences-remove_at a p (x ∷ xs) zero h = ground (arith, e.law x p)
  occurrences-remove_at a p (x ∷ xs) (suc i) h =
      ground (arith, e.law x p, occurrences-remove_at a p xs i)

  pub all_inserted_sound :
      (seen xs : List A)
      → all_inserted seen xs ≡ true
      → IsDistinct seen
      → (a : A) → occurrences a seen + occurrences a xs ≤ 1
  unfolding all_inserted occurrences
  all_inserted_sound seen [] h d a = ground (arith, d a)
  all_inserted_sound seen (x ∷ xs) h d a =
      let fresh : contains seen x ≡ false = ground arith in
      let later : all_inserted (x ∷ seen) xs ≡ true = ground arith in
      ground (
        arith,
        all_inserted_sound (x ∷ seen) xs later
            (λ b. ground (arith, d b, contains_iff seen x, e.law x b)) a,
      )

  pub all_inserted_complete :
      (seen xs : List A)
      → ((a : A) → occurrences a seen + occurrences a xs ≤ 1)
      → all_inserted seen xs ≡ true
  unfolding all_inserted occurrences
  all_inserted_complete seen [] h = refl
  all_inserted_complete seen (x ∷ xs) h =
      let later = all_inserted_complete (x ∷ seen) xs (λ b. ground (arith, h b)) in
      ground (arith, later, h x, contains_iff seen x, eq_refl x)
