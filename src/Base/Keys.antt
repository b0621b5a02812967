-- ===== src/Base/Keys.antt =====
-- Tables whose primary key is unique, and what the statements keep of that.
use Prim.Native.String.{String}
use mathlib.Core.Path.{◌≡◌, refl, sym, ◌∙◌, ap}
use mathlib.Core.Logic.{◌≢◌, inl, inr}
use mathlib.Core.Bool.{Bool, false}
use mathlib.Core.Option.{none, some}
use mathlib.Core.List.{List, [], ◌∷◌, ◌++◌}
use native.Mathlib.Omega.{arith}
use text.Mathlib.Text.{◌==◌}
use text.Mathlib.TextEquality.{eq_iff}
use text.Mathlib.TextPositions.{eq_refl}
use shigure_edr.Base.Tests.{Bool-cases, Option-cases}
use shigure_edr.Base.Lists.{In, here, there, In-cons}
use shigure_edr.Base.Results.{ok}
use shigure_edr.Base.Batch.{insert_new}
use shigure_edr.Base.Table.{
  fetchone, update, remove, insert, insert_or_replace, insert_or_ignore, has_key, fetchone-append,
  fetchone_test, In-fetchone,
}

module _ {ℓ} {R : Type ℓ} (key : R → String) where
  -- No later row has the key of an earlier one.
  abbrev pub IsKeyed : List R → Type ℓ
  IsKeyed [] = Unit
  IsKeyed (r ∷ rows) = (fetchone (has_key key (key r)) rows ≡ none) × IsKeyed rows

  absent_In :
      (k : String) (rows : List R) {r : R}
      → fetchone (has_key key k) rows ≡ none
      → In r rows
      → (key r == k) ≡ false
  unfolding fetchone
  absent_In k [] h m = elim m [ ]
  absent_In k (x ∷ rows) h here = ground arith
  absent_In k (x ∷ rows) h (there m) = absent_In k rows (ground arith) m

  -- Two rows of a keyed table with one key are the same row.
  pub IsKeyed-In :
      (rows : List R) (r x : R) → IsKeyed rows → In r rows → In x rows → key x ≡ key r → x ≡ r
  IsKeyed-In [] r x u m n e = elim m [ ]
  IsKeyed-In (y ∷ rows) r x u m n e = elim (In-cons m) [
    | inl p ↦ elim (In-cons n) [
      | inl q ↦ sym q ∙ p
      | inr q ↦
          let t = absent_In (key y) rows u.0 q in
          cc (t, (eq_iff (key x) (key y)).1 (e ∙ ap key (sym p)))
    ]
    | inr p ↦ elim (In-cons n) [
      | inl q ↦
          let t = absent_In (key y) rows u.0 p in
          cc (t, (eq_iff (key r) (key y)).1 (sym e ∙ ap key (sym q)))
      | inr q ↦ IsKeyed-In rows r x u.1 p q e
    ]
  ]

  found_of_In : (rows : List R) (r : R) → In r rows → fetchone (has_key key (key r)) rows ≢ none
  unfolding fetchone
  found_of_In [] r m e = elim m [ ]
  found_of_In (x ∷ rows) r m e = elim (In-cons m) [
    | inl same ↦ ground (arith, ap key same, eq_iff (key x) (key r))
    | inr later ↦ found_of_In rows r later (ground arith)
  ]

  -- A row of a keyed table is the one found under its key.
  pub fetchone-key :
      (rows : List R) (r : R) (k : String)
      → IsKeyed rows
      → In r rows
      → key r ≡ k
      → fetchone (has_key key k) rows ≡ some r
  fetchone-key rows r k u m at =
      rw (← at) (elim (Option-cases (fetchone (has_key key (key r)) rows)) [
        | inl e ↦ absurd (found_of_In rows r m e)
        | inr (x, e) ↦
            e
            ∙ ap some (
                IsKeyed-In rows r x u m (In-fetchone (has_key key (key r)) rows e)
                  ((eq_iff (key x) (key r)).0 (fetchone_test (has_key key (key r)) rows x e)))
      ])

  fetchone-update_key :
      (k : String) (p : R → Bool) (f : R → R) (rows : List R)
      → ((r : R) → key (f r) ≡ key r)
      → fetchone (has_key key k) rows ≡ none
      → fetchone (has_key key k) (update p f rows) ≡ none
  unfolding fetchone update
  fetchone-update_key k p f [] same h = refl
  fetchone-update_key k p f (x ∷ rows) same h =
      ground (arith, same x, fetchone-update_key k p f rows same)

  pub IsKeyed-update :
      (p : R → Bool) (f : R → R) (rows : List R)
      → ((r : R) → key (f r) ≡ key r)
      → IsKeyed rows
      → IsKeyed (update p f rows)
  unfolding update
  IsKeyed-update p f [] same u = tt
  IsKeyed-update p f (x ∷ rows) same u = (
    ground (arith, same x, fetchone-update_key (key x) p f rows same u.0),
    IsKeyed-update p f rows same u.1,
  )

  pub IsKeyed-append :
      (r : R) (rows : List R)
      → fetchone (has_key key (key r)) rows ≡ none
      → IsKeyed rows
      → IsKeyed (rows ++ r ∷ [])
  unfolding fetchone
  IsKeyed-append r [] h u = (refl, tt)
  IsKeyed-append r (x ∷ rows) h u = (
    ground (
      arith,
      fetchone-append (has_key key (key x)) r rows,
      u.0,
      eq_iff (key r) (key x),
      eq_iff (key x) (key r),
    ),
    IsKeyed-append r rows (ground arith) u.1,
  )

  -- An insert that succeeds found no row of its key, and appends.
  pub insert-eq-ok :
      (r : R) (rows rows' : List R)
      → insert key r rows ≡ ok rows'
      → (fetchone (has_key key (key r)) rows ≡ none) × (rows' ≡ rows ++ r ∷ [])
  unfolding insert
  insert-eq-ok r rows rows' h = ground arith

  pub insert-IsKeyed :
      (r : R) (rows rows' : List R) → insert key r rows ≡ ok rows' → IsKeyed rows → IsKeyed rows'
  insert-IsKeyed r rows rows' h u =
      let e = insert-eq-ok r rows rows' h in rw e.1 (IsKeyed-append r rows e.0 u)

  -- An insert of a new key succeeds.
  pub insert_fresh :
      (r : R) (rows : List R)
      → fetchone (has_key key (key r)) rows ≡ none
      → insert key r rows ≡ ok (rows ++ r ∷ [])
  unfolding insert
  insert_fresh r rows h = rw h

  remove_absent :
      (k j : String) (rows : List R)
      → fetchone (has_key key k) rows ≡ none
      → fetchone (has_key key k) (remove (has_key key j) rows) ≡ none
  unfolding fetchone remove
  remove_absent k j [] h = refl
  remove_absent k j (x ∷ rows) h = ground (arith, remove_absent k j rows)

  removed_key :
      (k : String) (rows : List R) → fetchone (has_key key k) (remove (has_key key k) rows) ≡ none
  unfolding fetchone remove
  removed_key k [] = refl
  removed_key k (x ∷ rows) = ground (arith, removed_key k rows)

  remove-IsKeyed :
      (k : String) (rows : List R) → IsKeyed rows → IsKeyed (remove (has_key key k) rows)
  unfolding remove
  remove-IsKeyed k [] u = tt
  remove-IsKeyed k (x ∷ rows) u = elim (Bool-cases (has_key key k x)) [
    | inl e ↦ rw e (remove-IsKeyed k rows u.1)
    | inr e ↦ rw e (remove_absent (key x) k rows u.0, remove-IsKeyed k rows u.1)
  ]

  pub insert_or_replace-IsKeyed :
      (r : R) (rows : List R) → IsKeyed rows → IsKeyed (insert_or_replace key r rows)
  unfolding insert_or_replace
  insert_or_replace-IsKeyed r rows u =
      IsKeyed-append r (remove (has_key key (key r)) rows) (removed_key (key r) rows)
        (remove-IsKeyed (key r) rows u)

  -- After `insert or replace` the key holds the new row.
  pub fetchone-insert_or_replace :
      (r : R) (rows : List R)
      → fetchone (has_key key (key r)) (insert_or_replace key r rows) ≡ some r
  unfolding insert_or_replace
  fetchone-insert_or_replace r rows =
      rw (fetchone-append, removed_key (key r) rows, eq_refl (key r))

  remove_other :
      (k j : String) (rows : List R)
      → (j == k) ≡ false
      → fetchone (has_key key k) (remove (has_key key j) rows) ≡ fetchone (has_key key k) rows
  unfolding fetchone remove
  remove_other k j [] h = refl
  remove_other k j (x ∷ rows) h =
      ground (arith, remove_other k j rows h, eq_iff (key x) j, eq_iff (key x) k, eq_iff j k)

  -- Every other key holds what it held.
  pub fetchone-insert_or_replace_other :
      (k : String) (r : R) (rows : List R)
      → (key r == k) ≡ false
      → fetchone (has_key key k) (insert_or_replace key r rows) ≡ fetchone (has_key key k) rows
  unfolding insert_or_replace
  fetchone-insert_or_replace_other k r rows h = ground (
    arith,
    fetchone-append (has_key key k) r (remove (has_key key (key r)) rows),
    remove_other k (key r) rows h,
    h,
  )

  -- A batch that leaves out the keys that are there keeps the keys unique.
  pub insert_new-IsKeyed :
      (rows table : List R) → IsKeyed table → IsKeyed (insert_new key rows table)
  unfolding insert_new insert_or_ignore
  insert_new-IsKeyed [] table u = u
  insert_new-IsKeyed (r ∷ rows) table u =
      insert_new-IsKeyed rows (insert_or_ignore key r table)
        (elim (Option-cases (fetchone (has_key key (key r)) table)) [
          | inl e ↦ rw e (IsKeyed-append r table e u)
          | inr (x, e) ↦ rw e u
        ])
