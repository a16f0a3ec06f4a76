-- ===== src/Prelude/Lists.antt =====
-- Lists measured by native numbers, and the iterator methods that the code uses.
use Prim.Native.Nat.{ℕ, zero, suc, ◌+◌, ◌≤◌}
use mathlib.Core.Path.{◌≡◌, refl, subst}
use mathlib.Core.Logic.{inl, inr}
use mathlib.Core.Bool.{Bool, true, false, ◌&&◌, ◌||◌}
use mathlib.Core.List.{List, [], ◌∷◌, ◌++◌}
use mathlib.Core.Option.{Option, none, some}
use native.Mathlib.Omega.{arith}
use m_i_o.Prelude.Tests.{if◌then◌else◌, Bool-cases}

abbrev pub succ? : Option ℕ → Option ℕ
succ? none = none
succ? (some n) = some (suc n)

module _ {ℓ} {A : Type ℓ} where
  abbrev pub length : List A → ℕ
  length [] = 0
  length (x ∷ xs) = suc (length xs)

  abbrev pub is_empty : List A → Bool
  is_empty [] = true
  is_empty (x ∷ xs) = false

  abbrev pub take : ℕ → List A → List A
  take zero xs = []
  take (suc n) [] = []
  take (suc n) (x ∷ xs) = x ∷ take n xs

  abbrev pub drop : ℕ → List A → List A
  drop zero xs = xs
  drop (suc n) [] = []
  drop (suc n) (x ∷ xs) = drop n xs

  abbrev pub get_elem? : List A → ℕ → Option A
  get_elem? [] i = none
  get_elem? (x ∷ xs) zero = some x
  get_elem? (x ∷ xs) (suc i) = get_elem? xs i

  -- `iter().all`, `iter().any`, `iter().find` and `iter().position`.
  unfoldable pub all : (A → Bool) → List A → Bool
  all p [] = true
  all p (x ∷ xs) = p x && all p xs

  unfoldable pub any : (A → Bool) → List A → Bool
  any p [] = false
  any p (x ∷ xs) = p x || any p xs

  unfoldable pub find : (A → Bool) → List A → Option A
  find p [] = none
  find p (x ∷ xs) = if p x then some x else find p xs

  unfoldable pub position : (A → Bool) → List A → Option ℕ
  position p [] = none
  position p (x ∷ xs) = if p x then some 0 else succ? (position p xs)

  -- What a write through `iter_mut().find(p)` leaves: the first element that passes is rewritten.
  unfoldable pub modify : (A → Bool) → (A → A) → List A → List A
  modify p f [] = []
  modify p f (x ∷ xs) = if p x then f x ∷ xs else x ∷ modify p f xs

  -- `Vec::remove(index)`; out of range nothing is removed (the callers pass a position).
  unfoldable pub remove_at : ℕ → List A → List A
  remove_at i [] = []
  remove_at zero (x ∷ xs) = xs
  remove_at (suc i) (x ∷ xs) = x ∷ remove_at i xs

  unfoldable pub last : List A → Option A
  last [] = none
  last (x ∷ []) = some x
  last (x ∷ y ∷ ys) = last (y ∷ ys)

  unfoldable pub filter : (A → Bool) → List A → List A
  filter p [] = []
  filter p (x ∷ xs) = if p x then x ∷ filter p xs else filter p xs

  pub length-append : (xs ys : List A) → length (xs ++ ys) ≡ length xs + length ys
  length-append [] ys = omega arith
  length-append (x ∷ xs) ys = omega (arith, length-append xs ys)

  pub length-modify : (p : A → Bool) (f : A → A) (xs : List A) → length (modify p f xs) ≡ length xs
  unfolding modify
  length-modify p f [] = refl
  length-modify p f (x ∷ xs) = ground (arith, length-modify p f xs)

  pub length-filter-le : (p : A → Bool) (xs : List A) → length (filter p xs) ≤ length xs
  unfolding filter
  length-filter-le p [] = omega arith
  length-filter-le p (x ∷ xs) = ground (arith, length-filter-le p xs)

  pub length-remove_at-le : (i : ℕ) (xs : List A) → length (remove_at i xs) ≤ length xs
  unfolding remove_at
  length-remove_at-le i [] = omega arith
  length-remove_at-le zero (x ∷ xs) = omega arith
  length-remove_at-le (suc i) (x ∷ xs) = omega (arith, length-remove_at-le i xs)

  -- Every element satisfies a predicate, as nested pairs.
  abbrev pub All {κ} : (A → Type κ) → List A → Type κ
  All P [] = Unit
  All P (x ∷ xs) = P x × All P xs

module _ {ℓ κ} {A : Type ℓ} (P : A → Type κ) (p : A → Bool) where
  pub All-find : (xs : List A) {x : A} → All P xs → find p xs ≡ some x → P x
  unfolding find
  All-find [] h e = cc
  All-find (y ∷ ys) {x} h e = elim (Bool-cases (p y)) [
    | inl hit ↦ subst P (ground arith) h.0
    | inr miss ↦ All-find ys h.1 (ground arith)
  ]

  pub All-modify :
      (f : A → A) (xs : List A) {x : A}
      → All P xs
      → find p xs ≡ some x
      → P (f x)
      → All P (modify p f xs)
  unfolding find modify
  All-modify f [] h e q = tt
  All-modify f (y ∷ ys) {x} h e q = elim (Bool-cases (p y)) [
    | inl hit ↦ rw hit (subst (λ z. P (f z)) (ground arith) q, h.1)
    | inr miss ↦ rw miss (h.0, All-modify f ys h.1 (ground arith) q)
  ]

module _ {ℓ} {A : Type ℓ} (p : A → Bool) where
  pub find_holds : (xs : List A) {x : A} → find p xs ≡ some x → p x ≡ true
  unfolding find
  find_holds [] e = cc
  find_holds (y ∷ ys) {x} e = elim (Bool-cases (p y)) [
    | inl hit ↦ subst (λ z. p z ≡ true) (ground arith) hit
    | inr miss ↦ find_holds ys (ground arith)
  ]

module _ {ℓ κ} {A : Type ℓ} {P Q : A → Type κ} where
  pub All-mono : (xs : List A) → ((x : A) → P x → Q x) → All P xs → All Q xs
  All-mono [] f h = tt
  All-mono (x ∷ xs) f h = (f x h.0, All-mono xs f h.1)

module _ {ℓ κ} {A : Type ℓ} (P : A → Type κ) where
  pub All-append : (xs ys : List A) → All P xs → All P ys → All P (xs ++ ys)
  All-append [] ys hx hy = hy
  All-append (x ∷ xs) ys hx hy = (hx.0, All-append xs ys hx.1 hy)

  pub All-remove_at : (i : ℕ) (xs : List A) → All P xs → All P (remove_at i xs)
  unfolding remove_at
  All-remove_at i [] h = tt
  All-remove_at zero (x ∷ xs) h = h.1
  All-remove_at (suc i) (x ∷ xs) h = (h.0, All-remove_at i xs h.1)
