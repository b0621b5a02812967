-- ===== src/Base/Batch.antt =====
-- `executemany` of `insert or ignore`: which rows a batch adds to a table.
use Prim.Native.String.{String}
use mathlib.Core.Path.{◌≡◌, refl, sym, ◌∙◌, ap}
use mathlib.Core.Logic.{inl, inr}
use mathlib.Core.Bool.{Bool, true, false, ◌||◌}
use mathlib.Core.Option.{Option, none, some}
use mathlib.Core.List.{List, [], ◌∷◌, append-nil, map}
use native.Mathlib.Omega.{arith}
use text.Mathlib.Text.{◌==◌}
use text.Mathlib.TextEquality.{eq_iff}
use text.Mathlib.TextPositions.{eq_refl}
use shigure_edr.Base.Tests.{if◌then◌else◌, is_some, Bool-cases, Option-cases}
use shigure_edr.Base.Lists.{All, contains}
use shigure_edr.Base.Table.{
  select, fetchone, insert_or_ignore, has_key, fetchone-append, select-append,
}

-- The first of two values that is there.
abbrev pub or_else {ℓ} : {A : Type ℓ} → Option A → Option A → Option A
or_else none o = o
or_else (some a) o = some a

module _ {ℓ} {R : Type ℓ} (key : R → String) where
  unfoldable pub insert_new : List R → List R → List R
  unfolding insert_or_ignore
  insert_new [] table = table
  insert_new (r ∷ rows) table = insert_new rows (insert_or_ignore key r table)

  found-insert_or_ignore :
      (k : String) (r : R) (table : List R)
      → fetchone (has_key key k) (insert_or_ignore key r table)
        ≡ or_else (fetchone (has_key key k) table) (if key r == k then some r else none)
  unfolding insert_or_ignore
  found-insert_or_ignore k r table = elim (Bool-cases (key r == k)) [
    | inl e ↦
        let at = ap (λ (j : String). fetchone (has_key key j) table) ((eq_iff (key r) k).0 e) in
        ground (arith, e, at, fetchone-append (has_key key k) r table)
    | inr e ↦ ground (arith, e, fetchone-append (has_key key k) r table)
  ]

  -- A key holds what it held, or the first row of the batch that has it.
  pub found-insert_new :
      (k : String) (rows table : List R)
      → fetchone (has_key key k) (insert_new rows table)
        ≡ or_else (fetchone (has_key key k) table) (fetchone (has_key key k) rows)
  unfolding insert_new fetchone
  found-insert_new k [] table = ground (arith, Option-cases (fetchone (has_key key k) table))
  found-insert_new k (r ∷ rows) table = ground (
    arith,
    found-insert_new k rows (insert_or_ignore key r table),
    found-insert_or_ignore k r table,
  )

  -- Where every row of the batch is there under its key, nothing changes.
  pub insert_new_again :
      (rows table : List R)
      → ((k : String)
          → is_some (fetchone (has_key key k) rows) ≡ true
          → is_some (fetchone (has_key key k) table) ≡ true)
      → insert_new rows table ≡ table
  unfolding insert_new insert_or_ignore fetchone
  insert_new_again [] table h = refl
  insert_new_again (r ∷ rows) table h =
      let kept : insert_or_ignore key r table ≡ table =
        ground (arith, h (key r), eq_refl (key r)) in
      rw kept (insert_new_again rows table (λ k found. h k (found_later k found)))
    where
      found_later :
          (k : String)
          → is_some (fetchone (has_key key k) rows) ≡ true
          → is_some (fetchone (has_key key k) (r ∷ rows)) ≡ true
      found_later k found = ground (arith, found)

  -- Rows that fail a test are not among those that pass it.
  pub select-insert_or_ignore :
      (q : R → Bool) (r : R) (table : List R)
      → q r ≡ false
      → select q (insert_or_ignore key r table) ≡ select q table
  unfolding insert_or_ignore select
  select-insert_or_ignore q r table h =
      ground (arith, h, select-append q table (r ∷ []), append-nil (select q table))

  pub select-insert_new :
      (q : R → Bool) (rows table : List R)
      → All (λ r. q r ≡ false) rows
      → select q (insert_new rows table) ≡ select q table
  unfolding insert_new
  select-insert_new q [] table h = refl
  select-insert_new q (r ∷ rows) table h =
      select-insert_new q rows (insert_or_ignore key r table) h.1
      ∙ select-insert_or_ignore q r table h.0

  -- Whether a key is there, by the keys alone.
  pub is_some-fetchone :
      (k : String) (rows : List R)
      → is_some (fetchone (has_key key k) rows) ≡ contains (map key rows) k
  unfolding fetchone
  is_some-fetchone k [] = refl
  is_some-fetchone k (r ∷ rows) = ground (arith, is_some-fetchone k rows)

module _ {ℓ} {R : Type ℓ} (key : R → String) where
  -- A second batch with the keys of a first one adds nothing after it.
  pub insert_new_twice :
      (rows again table : List R)
      → map key again ≡ map key rows
      → insert_new key again (insert_new key rows table) ≡ insert_new key rows table
  insert_new_twice rows again table same =
      insert_new_again key again (insert_new key rows table) (λ k found. there k found)
    where
      there :
          (k : String)
          → is_some (fetchone (has_key key k) again) ≡ true
          → is_some (fetchone (has_key key k) (insert_new key rows table)) ≡ true
      there k found =
          let seen : is_some (fetchone (has_key key k) rows) ≡ true =
            is_some-fetchone key k rows
            ∙ sym (ap (λ ks. contains ks k) same)
            ∙ sym (is_some-fetchone key k again)
            ∙ found in
          rw (found-insert_new key k rows table) (
            ground (
              arith,
              seen,
              Option-cases (fetchone (has_key key k) table),
              Option-cases (fetchone (has_key key k) rows),
            ))

  -- The keys after a batch are those before it and those of the batch.
  pub contains-insert_new :
      (k : String) (rows table : List R)
      → contains (map key (insert_new key rows table)) k
        ≡ (contains (map key table) k || contains (map key rows) k)
  contains-insert_new k rows table = ground (
    arith,
    is_some-fetchone key k (insert_new key rows table),
    is_some-fetchone key k table,
    is_some-fetchone key k rows,
    found-insert_new key k rows table,
    Option-cases (fetchone (has_key key k) table),
    Option-cases (fetchone (has_key key k) rows),
  )
