-- ===== src/Base/Order.antt =====
-- Sorting puts a list in order, so that its first elements come before all others.
use Prim.Native.Nat.{ℕ, zero, suc}
use mathlib.Core.Path.{◌≡◌, subst}
use mathlib.Core.Logic.{inl, inr, ◌⊎◌}
use mathlib.Core.Bool.{Bool, true, false}
use mathlib.Core.List.{List, [], ◌∷◌}
use native.Mathlib.Omega.{arith}
use shigure_edr.Base.Tests.{leb, Bool-cases}
use shigure_edr.Base.Lists.{take, All, In, here, there, In-cons}
use shigure_edr.Base.Sort.{insert_by, sort_by, IsSorted}

All-lookup {ℓ κ} : {R : Type ℓ} (P : R → Type κ) (xs : List R) (r : R) → All P xs → In r xs → P r
All-lookup P [] r h m = elim m [ ]
All-lookup P (x ∷ xs) r h here = h.0
All-lookup P (x ∷ xs) r h (there m) = All-lookup P xs r h.1 m

All-take {ℓ κ} : {R : Type ℓ} (P : R → Type κ) (n : ℕ) (xs : List R) → All P xs → All P (take n xs)
All-take P zero xs h = tt
All-take P (suc n) [] h = tt
All-take P (suc n) (x ∷ xs) h = (h.0, All-take P n xs h.1)

-- A test that is total and passes on.
pub record IsOrder {ℓ} {R : Type ℓ} (le : R → R → Bool) : Type ℓ where
  pub total : (x y : R) → le x y ≡ false → le y x ≡ true
  pub trans : (x y z : R) → le x y ≡ true → le y z ≡ true → le x z ≡ true

module _ {ℓ} {R : Type ℓ} (le : R → R → Bool) (order : IsOrder le) where
  All-insert_by :
      (w x : R) (ys : List R)
      → le w x ≡ true
      → All (λ y. le w y ≡ true) ys
      → All (λ y. le w y ≡ true) (insert_by le x ys)
  unfolding insert_by
  All-insert_by w x [] h hs = (h, tt)
  All-insert_by w x (y ∷ ys) h hs = elim (Bool-cases (le x y)) [
    | inl e ↦ rw e (h, hs)
    | inr e ↦ rw e (hs.0, All-insert_by w x ys h hs.1)
  ]

  All-trans :
      (x y : R) (ys : List R)
      → le x y ≡ true
      → All (λ z. le y z ≡ true) ys
      → All (λ z. le x z ≡ true) ys
  All-trans x y [] h hs = tt
  All-trans x y (z ∷ ys) h hs = (order.trans x y z h hs.0, All-trans x y ys h hs.1)

  insert_by-IsSorted : (x : R) (ys : List R) → IsSorted le ys → IsSorted le (insert_by le x ys)
  unfolding insert_by
  insert_by-IsSorted x [] s = (tt, tt)
  insert_by-IsSorted x (y ∷ ys) s = elim (Bool-cases (le x y)) [
    | inl e ↦ rw e ((e, All-trans x y ys e s.0), s)
    | inr e ↦ rw e (All-insert_by y x ys (order.total x y e) s.0, insert_by-IsSorted x ys s.1)
  ]

  pub sort_by-IsSorted : (xs : List R) → IsSorted le (sort_by le xs)
  unfolding sort_by
  sort_by-IsSorted [] = tt
  sort_by-IsSorted (x ∷ xs) = insert_by-IsSorted x (sort_by le xs) (sort_by-IsSorted xs)

pub take-IsSorted {ℓ} :
    {R : Type ℓ} (le : R → R → Bool) (n : ℕ) (xs : List R)
    → IsSorted le xs
    → IsSorted le (take n xs)
take-IsSorted le zero xs s = tt
take-IsSorted le (suc n) [] s = tt
take-IsSorted le (suc n) (x ∷ xs) s =
    (All-take (λ r. le x r ≡ true) n xs s.0, take-IsSorted le n xs s.1)

-- An element of a sorted list is among the first n, or comes after all of those.
pub taken_or_after {ℓ} :
    {R : Type ℓ} (le : R → R → Bool) (n : ℕ) (xs : List R) (y : R)
    → IsSorted le xs
    → In y xs
    → In y (take n xs) ⊎ ((x : R) → In x (take n xs) → le x y ≡ true)
taken_or_after le zero xs y s m = inr (λ x n. elim n [ ])
taken_or_after le (suc n) [] y s m = elim m [ ]
taken_or_after le (suc n) (w ∷ xs) y s m = elim (In-cons m) [
  | inl same ↦ inl (subst (λ z. In z (w ∷ take n xs)) same here)
  | inr later ↦ elim (taken_or_after le n xs y s.1 later) [
    | inl among ↦ inl (there among)
    | inr after ↦ inr (λ x k. elim (In-cons k) [
      | inl first ↦
          subst (λ z. le z y ≡ true) first (All-lookup (λ r. le w r ≡ true) xs y s.0 later)
      | inr rest ↦ after x rest
    ])
  ]
]

module _ {ℓ} {R : Type ℓ} (key : R → ℕ) where
  pub ascending-IsOrder : IsOrder (λ (x y : R). leb (key x) (key y))
  ascending-IsOrder = record {
    total = λ x y h. ground (arith, h);
    trans = λ x y z h k. ground (arith, h, k);
  }

  pub descending-IsOrder : IsOrder (λ (x y : R). leb (key y) (key x))
  descending-IsOrder = record {
    total = λ x y h. ground (arith, h);
    trans = λ x y z h k. ground (arith, h, k);
  }
