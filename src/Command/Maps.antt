-- ===== src/Command/Maps.antt =====
-- A `BTreeMap` with text keys, as the list of its entries in order, and the laws that its clients
-- go by. Texts are ordered by their scalar values, which is the order of their bytes.
use m_i_o.Prelude.{
  suc, ◌≤◌, ◌≡◌, refl, Bool, true, false, Option, none, some, List, [], ◌∷◌, arith, length, ltb,
  nat_beq, if◌then◌else◌, ◌==◌, eq_iff, list_eq, nat_eq, is_some, subst, sym, Bool-cases, inl, inr,
}
use m_i_o.Text.{Str}

unfoldable pub str_ltb : Str → Str → Bool
str_ltb [] [] = false
str_ltb [] (d ∷ t) = true
str_ltb (c ∷ s) [] = false
str_ltb (c ∷ s) (d ∷ t) = if nat_beq c d then str_ltb s t else ltb c d

module _ {V : Type 0} where
  unfoldable pub lookup : Str → List (Str × V) → Option V
  lookup key [] = none
  lookup key ((other, value) ∷ rest) = if other == key then some value else lookup key rest

  abbrev pub contains_key : Str → List (Str × V) → Bool
  contains_key key entries = is_some (lookup key entries)

  unfoldable pub insert : Str → V → List (Str × V) → List (Str × V)
  insert key value [] = (key, value) ∷ []
  insert key value ((other, old) ∷ rest) =
      if other == key
      then (key, value) ∷ rest
      else if str_ltb key other
      then (key, value) ∷ (other, old) ∷ rest
      else (other, old) ∷ insert key value rest

  unfoldable pub remove : Str → List (Str × V) → List (Str × V)
  remove key [] = []
  remove key ((other, value) ∷ rest) =
      if other == key then remove key rest else (other, value) ∷ remove key rest

  -- A write through `get_mut`.
  unfoldable pub adjust : Str → (V → V) → List (Str × V) → List (Str × V)
  adjust key f [] = []
  adjust key f ((other, value) ∷ rest) =
      if other == key then (other, f value) ∷ rest else (other, value) ∷ adjust key f rest

  unfoldable pub retain : (V → Bool) → List (Str × V) → List (Str × V)
  retain keeps [] = []
  retain keeps ((key, value) ∷ rest) =
      if keeps value then (key, value) ∷ retain keeps rest else retain keeps rest

  -- Each key once.
  abbrev pub IsMap : List (Str × V) → Type 0
  IsMap [] = Unit
  IsMap ((j, v) ∷ m) = (lookup j m ≡ none) × IsMap m

  pub lookup-insert :
      (key wanted : Str) (value : V) (entries : List (Str × V))
      → lookup wanted (insert key value entries)
        ≡ (if key == wanted then some value else lookup wanted entries)
  unfolding lookup insert
  lookup-insert key wanted value [] = refl
  lookup-insert key wanted value ((other, old) ∷ rest) = ground (
    arith,
    eq_iff key wanted,
    eq_iff other key,
    eq_iff other wanted,
    lookup-insert key wanted value rest,
  )

  pub lookup-remove :
      (k j : Str) (m : List (Str × V))
      → lookup j (remove k m) ≡ (if k == j then none else lookup j m)
  unfolding lookup remove
  lookup-remove k j [] = ground arith
  lookup-remove k j ((i, w) ∷ m) =
      ground (arith, eq_iff k j, eq_iff i k, eq_iff i j, lookup-remove k j m)

  abbrev pub map_option : (V → V) → Option V → Option V
  map_option f none = none
  map_option f (some v) = some (f v)

  pub lookup-adjust :
      (k j : Str) (f : V → V) (m : List (Str × V))
      → lookup j (adjust k f m) ≡ (if k == j then map_option f (lookup j m) else lookup j m)
  unfolding lookup adjust
  lookup-adjust k j f [] = ground arith
  lookup-adjust k j f ((i, w) ∷ m) =
      ground (arith, eq_iff k j, eq_iff i k, eq_iff i j, lookup-adjust k j f m)

  pub length-adjust : (k : Str) (f : V → V) (m : List (Str × V)) → length (adjust k f m) ≡ length m
  unfolding adjust
  length-adjust k f [] = refl
  length-adjust k f ((i, w) ∷ m) = ground (arith, length-adjust k f m)

  pub length-insert :
      (k : Str) (v : V) (m : List (Str × V))
      → lookup k m ≡ none
      → length (insert k v m) ≡ suc (length m)
  unfolding lookup insert
  length-insert k v [] h = refl
  length-insert k v ((i, w) ∷ m) h = ground (arith, length-insert k v m)

  pub length-remove-le : (k : Str) (m : List (Str × V)) → length (remove k m) ≤ length m
  unfolding remove
  length-remove-le k [] = omega arith
  length-remove-le k ((i, w) ∷ m) = ground (arith, length-remove-le k m)

  pub length-remove :
      (k : Str) (m : List (Str × V)) {v : V}
      → lookup k m ≡ some v
      → suc (length (remove k m)) ≤ length m
  unfolding lookup remove
  length-remove k [] h = cc
  length-remove k ((i, w) ∷ m) {v} h =
      ground (arith, length-remove k m {v = v}, length-remove-le k m)

  pub length-retain-le : (p : V → Bool) (m : List (Str × V)) → length (retain p m) ≤ length m
  unfolding retain
  length-retain-le p [] = omega arith
  length-retain-le p ((i, w) ∷ m) = ground (arith, length-retain-le p m)

  pub lookup-retain-none :
      (p : V → Bool) (k : Str) (m : List (Str × V))
      → lookup k m ≡ none
      → lookup k (retain p m) ≡ none
  unfolding lookup retain
  lookup-retain-none p k [] h = refl
  lookup-retain-none p k ((i, w) ∷ m) h = ground (arith, lookup-retain-none p k m)

  abbrev pub keep_if : (V → Bool) → Option V → Option V
  keep_if p none = none
  keep_if p (some v) = if p v then some v else none

  pub lookup-retain :
      (p : V → Bool) (k : Str) (m : List (Str × V))
      → IsMap m
      → lookup k (retain p m) ≡ keep_if p (lookup k m)
  unfolding lookup retain
  lookup-retain p k [] h = refl
  lookup-retain p k ((i, w) ∷ m) h =
      ground (arith, eq_iff i k, lookup-retain p k m, lookup-retain-none p k m)

  pub IsMap-insert :
      (k : Str) (v : V) (m : List (Str × V)) → lookup k m ≡ none → IsMap m → IsMap (insert k v m)
  unfolding lookup insert
  IsMap-insert k v [] h d = (refl, tt)
  IsMap-insert k v ((i, w) ∷ m) h d =
      ground (arith, IsMap-insert k v m, lookup-insert k i v m, eq_iff i k, eq_iff k i)

  pub IsMap-adjust : (k : Str) (f : V → V) (m : List (Str × V)) → IsMap m → IsMap (adjust k f m)
  unfolding lookup adjust
  IsMap-adjust k f [] d = tt
  IsMap-adjust k f ((i, w) ∷ m) d =
      ground (arith, IsMap-adjust k f m, lookup-adjust k i f m, eq_iff k i, eq_iff i k)

  pub IsMap-remove : (k : Str) (m : List (Str × V)) → IsMap m → IsMap (remove k m)
  unfolding remove
  IsMap-remove k [] d = tt
  IsMap-remove k ((i, w) ∷ m) d = ground (arith, IsMap-remove k m, lookup-remove k i m)

  pub IsMap-retain : (p : V → Bool) (m : List (Str × V)) → IsMap m → IsMap (retain p m)
  unfolding retain
  IsMap-retain p [] d = tt
  IsMap-retain p ((i, w) ∷ m) d = ground (arith, IsMap-retain p m, lookup-retain-none p i m)

module _ {V : Type 0} (P : Str → V → Type 0) where
  -- Every entry satisfies a predicate on its key and its value.
  abbrev pub AllEntries : List (Str × V) → Type 0
  AllEntries [] = Unit
  AllEntries ((j, v) ∷ m) = P j v × AllEntries m

  pub AllEntries-lookup :
      (k : Str) (m : List (Str × V)) {v : V} → AllEntries m → lookup k m ≡ some v → P k v
  unfolding lookup
  AllEntries-lookup k [] h e = cc
  AllEntries-lookup k ((j, w) ∷ m) {v} h e = elim (Bool-cases (j == k)) [
    | inl hit ↦
        let same : j ≡ k = (eq_iff j k).0 hit in
        let found : w ≡ v = ground (arith, hit, e) in
        subst (P k) found (subst (λ i. P i w) same h.0)
    | inr miss ↦ AllEntries-lookup k m h.1 (ground (arith, miss, e))
  ]

  pub AllEntries-insert :
      (k : Str) (v : V) (m : List (Str × V)) → P k v → AllEntries m → AllEntries (insert k v m)
  unfolding insert
  AllEntries-insert k v [] p h = (p, tt)
  AllEntries-insert k v ((j, w) ∷ m) p h = elim (Bool-cases (j == k)) [
    | inl hit ↦ rw hit (p, h.1)
    | inr miss ↦ elim (Bool-cases (str_ltb k j)) [
      | inl before ↦ rw (miss, before) (p, h)
      | inr after ↦ rw (miss, after) (h.0, AllEntries-insert k v m p h.1)
    ]
  ]

  pub AllEntries-remove : (k : Str) (m : List (Str × V)) → AllEntries m → AllEntries (remove k m)
  unfolding remove
  AllEntries-remove k [] h = tt
  AllEntries-remove k ((j, w) ∷ m) h = elim (Bool-cases (j == k)) [
    | inl hit ↦ rw hit (AllEntries-remove k m h.1)
    | inr miss ↦ rw miss (h.0, AllEntries-remove k m h.1)
  ]

  pub AllEntries-adjust :
      (k : Str) (f : V → V) (m : List (Str × V))
      → ((v : V) → lookup k m ≡ some v → P k (f v))
      → AllEntries m
      → AllEntries (adjust k f m)
  unfolding adjust lookup
  AllEntries-adjust k f [] p h = tt
  AllEntries-adjust k f ((j, w) ∷ m) p h = elim (Bool-cases (j == k)) [
    | inl hit ↦
        rw hit (subst (λ i. P i (f w)) (sym ((eq_iff j k).0 hit)) (p w (ground (arith, hit))), h.1)
    | inr miss ↦
        rw miss (h.0, AllEntries-adjust k f m (λ v. λ e. p v (ground (arith, miss, e))) h.1)
  ]

module _ {V : Type 0} {P Q : Str → V → Type 0} where
  pub AllEntries-mono :
      ((k : Str) → (v : V) → P k v → Q k v) → (m : List (Str × V)) → AllEntries P m → AllEntries Q m
  AllEntries-mono f [] h = tt
  AllEntries-mono f ((k, v) ∷ m) h = (f k v h.0, AllEntries-mono f m h.1)

module _ {V : Type 0} where
  -- The keys of a map without a key are others.
  pub apart_keys :
      (j : Str) (m : List (Str × V)) → lookup j m ≡ none → AllEntries (λ k. λ v. (j == k) ≡ false) m
  unfolding lookup
  apart_keys j [] e = tt
  apart_keys j ((k, v) ∷ m) e =
      (ground (arith, e, eq_iff j k, eq_iff k j), apart_keys j m (ground (arith, e)))

  pub AllEntries-and :
      (P Q : Str → V → Type 0) (m : List (Str × V))
      → AllEntries P m
      → AllEntries Q m
      → AllEntries (λ k. λ v. P k v × Q k v) m
  AllEntries-and P Q [] p q = tt
  AllEntries-and P Q ((k, v) ∷ m) p q = ((p.0, q.0), AllEntries-and P Q m p.1 q.1)
