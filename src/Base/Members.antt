-- ===== src/Base/Members.antt =====
-- Membership in a list that is mapped or appended, and the Boolean test of it.
use Prim.Native.String.{String}
use mathlib.Core.Path.{◌≡◌, subst}
use mathlib.Core.Logic.{inl, inr, ◌⊎◌}
use mathlib.Core.Bool.{true}
use mathlib.Core.List.{List, [], ◌∷◌, ◌++◌, map}
use native.Mathlib.Omega.{arith}
use text.Mathlib.Text.{◌==◌}
use text.Mathlib.TextEquality.{eq_iff}
use shigure_edr.Base.Tests.{Bool-cases}
use shigure_edr.Base.Lists.{contains, In, here, there, In-cons}

pub contains-map-In {ℓ} :
    {R : Type ℓ} (f : R → String) (rows : List R) (r : R)
    → In r rows
    → contains (map f rows) (f r) ≡ true
contains-map-In f [] r m = elim m [ ]
contains-map-In f (x ∷ rows) r here = ground (arith, eq_iff (f r) (f r))
contains-map-In f (x ∷ rows) r (there m) = ground (arith, contains-map-In f rows r m)

pub In-contains-map {ℓ} :
    {R : Type ℓ} (f : R → String) (rows : List R) (k : String)
    → contains (map f rows) k ≡ true
    → (r : R) × In r rows × (f r ≡ k)
In-contains-map f [] k h = absurd (cc)
In-contains-map f (x ∷ rows) k h = elim (Bool-cases (f x == k)) [
  | inl e ↦ (x, here, (eq_iff (f x) k).0 e)
  | inr e ↦ let (r, m, same) = In-contains-map f rows k (ground (arith, e, h)) in (r, there m, same)
]

pub In-map {ℓ κ} :
    {R : Type ℓ} {S : Type κ} (f : R → S) (rows : List R) (r : R)
    → In r rows
    → In (f r) (map f rows)
In-map f [] r m = elim m [ ]
In-map f (x ∷ rows) r here = here
In-map f (x ∷ rows) r (there m) = there (In-map f rows r m)

pub In-append {ℓ} : {R : Type ℓ} (xs ys : List R) (r : R) → In r (xs ++ ys) → In r xs ⊎ In r ys
In-append [] ys r m = inr m
In-append (x ∷ xs) ys r m = elim (In-cons m) [
  | inl same ↦ inl (subst (λ z. In z (x ∷ xs)) same here)
  | inr later ↦ elim (In-append xs ys r later) [ inl among ↦ inl (there among) | inr n ↦ inr n ]
]

pub In-append_left {ℓ} : {R : Type ℓ} (xs ys : List R) (r : R) → In r xs → In r (xs ++ ys)
In-append_left [] ys r m = elim m [ ]
In-append_left (x ∷ xs) ys r here = here
In-append_left (x ∷ xs) ys r (there m) = there (In-append_left xs ys r m)

pub In-append_right {ℓ} : {R : Type ℓ} (xs ys : List R) (r : R) → In r ys → In r (xs ++ ys)
In-append_right [] ys r m = m
In-append_right (x ∷ xs) ys r m = there (In-append_right xs ys r m)
