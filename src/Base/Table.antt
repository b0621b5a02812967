-- ===== src/Base/Table.antt =====
-- A table as the list of its rows in the order of their insertion, and the statements that the
-- stores run on it. A `where` clause is a Boolean test of a row.
use Prim.Native.Nat.{ℕ, suc}
use Prim.Native.String.{String}
use mathlib.Core.Path.{◌≡◌, refl, sym, subst}
use mathlib.Core.Logic.{inl, inr}
use mathlib.Core.Bool.{Bool, true, false}
use mathlib.Core.Option
use mathlib.Core.Option.{Option, none, some, some-injective}
use mathlib.Core.List.{List, [], ◌∷◌, ◌++◌, map}
use native.Mathlib.Omega.{arith}
use text.Mathlib.Text.{◌==◌}
use shigure_edr.Base.Tests.{if◌then◌else◌, is_some, Bool-cases}
use shigure_edr.Base.Lists.{All, In, here, there, In-cons}
use shigure_edr.Base.Results.{Result, ok, err, integrity_error}

module _ {ℓ} {R : Type ℓ} where
  -- `select * from t where p`, all rows.
  unfoldable pub select : (R → Bool) → List R → List R
  select p [] = []
  select p (r ∷ rows) = let rest = select p rows in if p r then r ∷ rest else rest

  -- `select * from t where p`, then `fetchone`.
  unfoldable pub fetchone : (R → Bool) → List R → Option R
  fetchone p [] = none
  fetchone p (r ∷ rows) = let rest = fetchone p rows in if p r then some r else rest

  -- `update t set f where p`.
  unfoldable pub update : (R → Bool) → (R → R) → List R → List R
  update p f [] = []
  update p f (r ∷ rows) = (if p r then f r else r) ∷ update p f rows

  -- `cur.rowcount` of that update, and `select count(*) from t where p`.
  unfoldable pub rowcount : (R → Bool) → List R → ℕ
  rowcount p [] = 0
  rowcount p (r ∷ rows) = let n = rowcount p rows in if p r then suc n else n

  -- `delete from t where p`, as `insert or replace` does it.
  unfoldable pub remove : (R → Bool) → List R → List R
  remove p [] = []
  remove p (r ∷ rows) = let rest = remove p rows in if p r then rest else r ∷ rest

module _ {ℓ} {R : Type ℓ} (key : R → String) where
  abbrev pub has_key : String → R → Bool
  has_key k r = key r == k

  -- `insert into t`: a primary key that exists is an error.
  unfoldable pub insert : R → List R → Result (List R)
  insert r rows =
      if is_some (fetchone (has_key (key r)) rows)
      then err (integrity_error "UNIQUE constraint failed")
      else ok (rows ++ r ∷ [])

  -- `insert or ignore into t`.
  unfoldable pub insert_or_ignore : R → List R → List R
  insert_or_ignore r rows =
      if is_some (fetchone (has_key (key r)) rows) then rows else rows ++ r ∷ []

  -- `insert or replace into t`.
  unfoldable pub insert_or_replace : R → List R → List R
  insert_or_replace r rows = remove (has_key (key r)) rows ++ r ∷ []

module _ {ℓ} {R : Type ℓ} where
  pub fetchone-append :
      (p : R → Bool) (r : R) (rows : List R)
      → fetchone p (rows ++ r ∷ [])
        ≡ (if is_some (fetchone p rows) then fetchone p rows else if p r then some r else none)
  unfolding fetchone
  fetchone-append p r [] = refl
  fetchone-append p r (x ∷ rows) = ground (arith, fetchone-append p r rows)

  -- A test that the update leaves alone finds the same row, as updated.
  pub fetchone-update :
      (q p : R → Bool) (f : R → R) (rows : List R)
      → ((r : R) → q (f r) ≡ q r)
      → fetchone q (update p f rows) ≡ Option.map (λ r. if p r then f r else r) (fetchone q rows)
  unfolding fetchone update
  fetchone-update q p f [] same = refl
  fetchone-update q p f (x ∷ rows) same = ground (arith, same x, fetchone-update q p f rows same)

  -- The row that is found passes the test.
  pub fetchone_test : (p : R → Bool) (rows : List R) (r : R) → fetchone p rows ≡ some r → p r ≡ true
  unfolding fetchone
  fetchone_test p [] r h = cc
  fetchone_test p (x ∷ rows) r h = ground (arith, fetchone_test p rows r)

  -- Rows that the update does not touch, and that it does not make, are selected as before.
  pub select-update_disjoint :
      (q p : R → Bool) (f : R → R) (rows : List R)
      → ((r : R) → p r ≡ true → q r ≡ false)
      → ((r : R) → p r ≡ true → q (f r) ≡ false)
      → select q (update p f rows) ≡ select q rows
  unfolding select update
  select-update_disjoint q p f [] before after = refl
  select-update_disjoint q p f (x ∷ rows) before after =
      ground (arith, before x, after x, select-update_disjoint q p f rows before after)

  pub select-append :
      (q : R → Bool) (xs ys : List R) → select q (xs ++ ys) ≡ select q xs ++ select q ys
  unfolding select
  select-append q [] ys = refl
  select-append q (x ∷ xs) ys = ground (arith, select-append q xs ys)

module _ {ℓ κ} {R : Type ℓ} (P : R → Type κ) where
  pub All-append : (xs ys : List R) → All P xs → All P ys → All P (xs ++ ys)
  All-append [] ys hx hy = hy
  All-append (x ∷ xs) ys hx hy = (hx.0, All-append xs ys hx.1 hy)

  pub All-update :
      (p : R → Bool) (f : R → R) (rows : List R)
      → All P rows
      → ((r : R) → p r ≡ true → P r → P (f r))
      → All P (update p f rows)
  unfolding update
  All-update p f [] h keep = tt
  All-update p f (x ∷ rows) h keep = elim (Bool-cases (p x)) [
    | inl e ↦ rw e (keep x e h.0, All-update p f rows h.1 keep)
    | inr e ↦ rw e (h.0, All-update p f rows h.1 keep)
  ]

  pub All-remove : (p : R → Bool) (rows : List R) → All P rows → All P (remove p rows)
  unfolding remove
  All-remove p [] h = tt
  All-remove p (x ∷ rows) h = elim (Bool-cases (p x)) [
    | inl e ↦ rw e (All-remove p rows h.1)
    | inr e ↦ rw e (h.0, All-remove p rows h.1)
  ]

module _ {ℓ κ} {R : Type ℓ} (P : R → Type κ) where
  -- What holds of every row holds of the row that is found.
  pub All-fetchone :
      (p : R → Bool) (rows : List R) (r : R) → All P rows → fetchone p rows ≡ some r → P r
  unfolding fetchone
  All-fetchone p [] r h e = cc
  All-fetchone p (x ∷ rows) r h e = elim (Bool-cases (p x)) [
    | inl t ↦ subst P (some-injective x r (rw t at e)) h.0
    | inr t ↦ All-fetchone p rows r h.1 (rw t at e)
  ]

module _ {ℓ} {R : Type ℓ} where
  pub In-fetchone : (p : R → Bool) (rows : List R) {r : R} → fetchone p rows ≡ some r → In r rows
  unfolding fetchone
  In-fetchone p [] h = cc
  In-fetchone p (x ∷ rows) {r} h = elim (Bool-cases (p x)) [
    | inl e ↦ subst (λ y. In y (x ∷ rows)) (some-injective x r (rw e at h)) here
    | inr e ↦ there (In-fetchone p rows (rw e at h))
  ]

  -- A selected row is a row of the table that passes the test.
  pub In-select :
      (p : R → Bool) (rows : List R) (r : R) → In r (select p rows) → In r rows × (p r ≡ true)
  unfolding select
  In-select p [] r m = elim m [ ]
  In-select p (x ∷ rows) r m = elim (Bool-cases (p x)) [
    | inl e ↦ elim (In-cons {a = r} {x = x} (rw e at m)) [
      | inl same ↦ (subst (λ y. In y (x ∷ rows)) same here, subst (λ y. p y ≡ true) same e)
      | inr later ↦ let ih = In-select p rows r later in (there ih.0, ih.1)
    ]
    | inr e ↦ let ih = In-select p rows r (rw e at m) in (there ih.0, ih.1)
  ]

  -- Every row of the table that passes the test is selected.
  pub select-In :
      (p : R → Bool) (rows : List R) (r : R) → In r rows → p r ≡ true → In r (select p rows)
  unfolding select
  select-In p [] r m t = elim m [ ]
  select-In p (x ∷ rows) r here t = rw t here
  select-In p (x ∷ rows) r (there m) t = elim (Bool-cases (p x)) [
    | inl e ↦ rw e (there (select-In p rows r m t))
    | inr e ↦ rw e (select-In p rows r m t)
  ]

  -- The same for the rows of the table alone.
  pub select-update_of_In :
      (q p : R → Bool) (f : R → R) (rows : List R)
      → ((r : R) → In r rows → p r ≡ true → (q r ≡ false) × (q (f r) ≡ false))
      → select q (update p f rows) ≡ select q rows
  unfolding select update
  select-update_of_In q p f [] h = refl
  select-update_of_In q p f (x ∷ rows) h =
      let ih = select-update_of_In q p f rows (λ r m. h r (there m)) in
      elim (Bool-cases (p x)) [
        | inl e ↦ rw (e, (h x here e).0, (h x here e).1) ih
        | inr e ↦ rw e (ground (arith, ih))
      ]

  -- A row after an update is a row from before it, as updated.
  pub In-update :
      (p : R → Bool) (f : R → R) (rows : List R) (r : R)
      → In r (update p f rows)
      → (x : R) × In x rows × (r ≡ (if p x then f x else x))
  unfolding update
  In-update p f [] r m = elim m [ ]
  In-update p f (x ∷ rows) r m = elim (In-cons m) [
    | inl same ↦ (x, here, sym same)
    | inr later ↦ let (y, n, e) = In-update p f rows r later in (y, there n, e)
  ]

  -- And a row from before is there as updated.
  pub update-In :
      (p : R → Bool) (f : R → R) (rows : List R) (x : R)
      → In x rows
      → In (if p x then f x else x) (update p f rows)
  unfolding update
  update-In p f [] x m = elim m [ ]
  update-In p f (y ∷ rows) x here = here
  update-In p f (y ∷ rows) x (there m) = there (update-In p f rows x m)

  pub map-update {κ} :
      {K : Type κ} (key : R → K) (p : R → Bool) (f : R → R) (rows : List R)
      → ((r : R) → key (f r) ≡ key r)
      → map key (update p f rows) ≡ map key rows
  unfolding update
  map-update key p f [] same = refl
  map-update key p f (x ∷ rows) same =
      let rest = map-update key p f rows same in
      elim (Bool-cases (p x)) [
        | inl e ↦ rw e (λ i. same x i ∷ rest i)
        | inr e ↦ rw e (λ i. key x ∷ rest i)
      ]

  pub In-append_last : (rows : List R) (x : R) → In x (rows ++ x ∷ [])
  In-append_last [] x = here
  In-append_last (y ∷ rows) x = there (In-append_last rows x)

  -- Where no row is found, no row passes the test.
  pub fetchone_absent :
      (p : R → Bool) (rows : List R) (r : R) → fetchone p rows ≡ none → In r rows → p r ≡ false
  unfolding fetchone
  fetchone_absent p [] r h m = elim m [ ]
  fetchone_absent p (x ∷ rows) r h here = ground arith
  fetchone_absent p (x ∷ rows) r h (there m) = fetchone_absent p rows r (ground arith) m

  -- The row that is found, when the update touches it.
  pub fetchone-update_at :
      (q p : R → Bool) (f : R → R) (rows : List R) (r : R)
      → ((r : R) → q (f r) ≡ q r)
      → fetchone q rows ≡ some r
      → p r ≡ true
      → fetchone q (update p f rows) ≡ some (f r)
  fetchone-update_at q p f rows r same found test =
      rw (fetchone-update q p f rows same, found, test)

module _ {ℓ κ} {R : Type ℓ} (P : R → Type κ) where
  -- The same as `All-update`, where the test speaks of rows of the table alone.
  pub All-update-In :
      (p : R → Bool) (f : R → R) (rows : List R)
      → All P rows
      → ((r : R) → In r rows → p r ≡ true → P r → P (f r))
      → All P (update p f rows)
  unfolding update
  All-update-In p f [] h keep = tt
  All-update-In p f (x ∷ rows) h keep =
      let rest = All-update-In p f rows h.1 (λ r m. keep r (there m)) in
      elim (Bool-cases (p x)) [ inl e ↦ rw e (keep x here e h.0, rest) | inr e ↦ rw e (h.0, rest) ]
