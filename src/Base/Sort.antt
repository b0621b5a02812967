-- ===== src/Base/Sort.antt =====
-- Stable sorting, as `sorted` and `order by` do it, and the limit of a query.
use Prim.Native.Nat.{ℕ, zero, suc, ◌≤◌, Ordering}
use Prim.Native.String.{String, compare as compare_text}
use mathlib.Core.Path.{◌≡◌, refl, subst}
use mathlib.Core.Logic.{inl, inr, ◌⊎◌}
use mathlib.Core.Bool.{Bool, true, false}
use mathlib.Core.List.{List, [], ◌∷◌}
use native.Mathlib.Omega.{arith}
use shigure_edr.Base.Tests.{if◌then◌else◌, leb, Bool-cases}
use shigure_edr.Base.Lists.{length, take, contains, All, In, here, there, In-cons, length-take-le}
use shigure_edr.Base.Int.{ℤ, pos, negsuc}

module _ {ℓ} {R : Type ℓ} where
  unfoldable pub insert_by : (R → R → Bool) → R → List R → List R
  insert_by le x [] = x ∷ []
  insert_by le x (y ∷ ys) = let rest = insert_by le x ys in if le x y then x ∷ y ∷ ys else y ∷ rest

  unfoldable pub sort_by : (R → R → Bool) → List R → List R
  unfolding insert_by
  sort_by le [] = []
  sort_by le (x ∷ xs) = insert_by le x (sort_by le xs)

  -- `order by key` and `order by key desc`; rows of one key stay in their order.
  abbrev pub ascending : (R → ℕ) → List R → List R
  ascending key = sort_by (λ x y. leb (key x) (key y))

  abbrev pub descending : (R → ℕ) → List R → List R
  descending key = sort_by (λ x y. leb (key y) (key x))

  -- `limit n`: a negative limit is none.
  abbrev pub limit : ℤ → List R → List R
  limit (pos n) xs = take n xs
  limit (negsuc n) xs = xs

  In-insert_by :
      (le : R → R → Bool) (x : R) (ys : List R) (r : R)
      → In r (insert_by le x ys)
      → (x ≡ r) ⊎ In r ys
  unfolding insert_by
  In-insert_by le x [] r m = In-cons m
  In-insert_by le x (y ∷ ys) r m = elim (Bool-cases (le x y)) [
    | inl e ↦ In-cons (rw e at m)
    | inr e ↦ elim (In-cons {x = y} (rw e at m)) [
      | inl same ↦ inr (subst (λ z. In z (y ∷ ys)) same here)
      | inr later ↦ elim (In-insert_by le x ys r later) [ inl p ↦ inl p | inr n ↦ inr (there n) ]
    ]
  ]

  -- Sorting adds no element.
  pub In-sort_by : (le : R → R → Bool) (xs : List R) (r : R) → In r (sort_by le xs) → In r xs
  unfolding sort_by
  In-sort_by le [] r m = m
  In-sort_by le (x ∷ xs) r m = elim (In-insert_by le x (sort_by le xs) r m) [
    | inl same ↦ subst (λ z. In z (x ∷ xs)) same here
    | inr later ↦ there (In-sort_by le xs r later)
  ]

  insert_by-In :
      (le : R → R → Bool) (x : R) (ys : List R) (r : R)
      → (x ≡ r) ⊎ In r ys
      → In r (insert_by le x ys)
  unfolding insert_by
  insert_by-In le x [] r (inl same) = subst (λ z. In z (x ∷ [])) same here
  insert_by-In le x [] r (inr m) = elim m [ ]
  insert_by-In le x (y ∷ ys) r m = elim (Bool-cases (le x y)) [
    | inl e ↦
        rw e
          (elim m [ inl same ↦ subst (λ z. In z (x ∷ y ∷ ys)) same here | inr later ↦ there later ])
    | inr e ↦ rw e (elim m [
      | inl same ↦ there (insert_by-In le x ys r (inl same))
      | inr later ↦ elim (In-cons later) [
        | inl first ↦ subst (λ z. In z (y ∷ insert_by le x ys)) first here
        | inr rest ↦ there (insert_by-In le x ys r (inr rest))
      ]
    ])
  ]

  -- Sorting loses no element.
  pub sort_by-In : (le : R → R → Bool) (xs : List R) (r : R) → In r xs → In r (sort_by le xs)
  unfolding sort_by
  sort_by-In le [] r m = m
  sort_by-In le (x ∷ xs) r m =
      insert_by-In le x (sort_by le xs) r
        (elim (In-cons m) [ inl same ↦ inl same | inr later ↦ inr (sort_by-In le xs r later) ])

  length-insert_by :
      (le : R → R → Bool) (x : R) (ys : List R) → length (insert_by le x ys) ≡ suc (length ys)
  unfolding insert_by
  length-insert_by le x [] = refl
  length-insert_by le x (y ∷ ys) = ground (arith, length-insert_by le x ys)

  pub length-sort_by : (le : R → R → Bool) (xs : List R) → length (sort_by le xs) ≡ length xs
  unfolding sort_by
  length-sort_by le [] = refl
  length-sort_by le (x ∷ xs) =
      ground (arith, length-insert_by le x (sort_by le xs), length-sort_by le xs)

  pub In-take : (n : ℕ) (xs : List R) (r : R) → In r (take n xs) → In r xs
  In-take zero xs r m = elim m [ ]
  In-take (suc n) [] r m = m
  In-take (suc n) (x ∷ xs) r m = elim (In-cons m) [
    | inl same ↦ subst (λ z. In z (x ∷ xs)) same here
    | inr later ↦ there (In-take n xs r later)
  ]

  pub In-limit : (n : ℤ) (xs : List R) (r : R) → In r (limit n xs) → In r xs
  In-limit (pos n) xs r m = In-take n xs r m
  In-limit (negsuc n) xs r m = m

  -- A limit that is not negative bounds the result.
  pub length-limit-le : (n : ℕ) (xs : List R) → length (limit (pos n) xs) ≤ n
  length-limit-le n xs = length-take-le n xs

  -- In order by a test that is total: each element passes the test against all that follow it.
  abbrev pub IsSorted : (R → R → Bool) → List R → Type ℓ
  IsSorted le [] = Unit
  IsSorted le (x ∷ xs) = All (λ y. le x y ≡ true) xs × IsSorted le xs

-- The order of texts, by their characters.
abbrev pub text_le : String → String → Bool
text_le a b = elim (compare_text a b) [ Ordering.gt ↦ false | _ ↦ true ]

-- A text with those before it, once.
unfoldable pub add_text : String → List String → List String
add_text x xs = if contains xs x then xs else x ∷ xs

unfoldable pub distinct : List String → List String
unfolding add_text
distinct [] = []
distinct (x ∷ xs) = add_text x (distinct xs)

-- `sorted(set(texts))`
unfoldable pub sorted_set : List String → List String
unfolding distinct sort_by
sorted_set xs = sort_by text_le (distinct xs)
