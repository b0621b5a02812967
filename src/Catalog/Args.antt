-- ===== src/Catalog/Args.antt =====
-- When task arguments are accepted (api/task_catalog.py, ArgumentSpec.validate and
-- TaskDefinition.validate_args), against a description of the accepted values.
pub mod Whole
use mathlib.Core.Path.{subst}
use shigure_edr.Base.{
  String, ◌≡◌, refl, Bool, true, false, Option, none, some, List, [], ◌∷◌, arith, ◌==◌, eq_iff, ok,
  In, here, there, In-cons, Bool-cases, inl, inr, contains,
}
use shigure_edr.Base.Int.{ℤ, ◌≤ℤ◌}
use shigure_edr.Json.{is_str, is_bool, is_int, Json, bool, int, str}
use shigure_edr.Catalog.Spec.{ArgumentSpec, validate, below, above, enum_ok}

-- A value that the spec of its argument allows.
pub record Fits (spec : ArgumentSpec) (value : Json) : Type 0 where
  pub text : spec.type ≡ "string" → (s : String) × (value ≡ str s)
  pub boolean : spec.type ≡ "boolean" → (b : Bool) × (value ≡ bool b)
  pub integer :
      spec.type ≡ "integer"
      → (n : ℤ) × (value ≡ int n)
        × ((m : ℤ) → spec.minimum ≡ some m → m ≤ℤ n)
        × ((m : ℤ) → spec.maximum ≡ some m → n ≤ℤ m)
  pub listed :
      (names : List String) → spec.enum ≡ some names → (s : String) × (value ≡ str s) × In s names

In-contains : (names : List String) (s : String) → contains names s ≡ true → In s names
In-contains [] s h = cc
In-contains (x ∷ names) s h = elim (Bool-cases (x == s)) [
  | inl e ↦ subst (λ y. In y (x ∷ names)) ((eq_iff x s).0 e) here
  | inr e ↦ there (In-contains names s (rw e at h))
]

contains-In : (names : List String) (s : String) → In s names → contains names s ≡ true
contains-In [] s m = elim m [ ]
contains-In (x ∷ names) s m = elim (In-cons m) [
  | inl e ↦ ground (arith, eq_iff x s)
  | inr later ↦ ground (arith, contains-In names s later)
]

module _ (spec : ArgumentSpec) (name : String) where
  pub Fits-validate : (value : Json) → validate spec name value ≡ ok tt → Fits spec value
  unfolding validate
  Fits-validate (str s) h = record {
    text = λ e. (s, refl);
    boolean = λ e. absurd (ground (arith, eq_iff spec.type "boolean"));
    integer = λ e. absurd (ground (arith, eq_iff spec.type "integer"));
    listed = λ names e. (s, refl, In-contains names s (ground arith));
  }
  Fits-validate (bool b) h = record {
    text = λ e. absurd (ground (arith, eq_iff spec.type "string"));
    boolean = λ e. (b, refl);
    integer = λ e. absurd (ground (arith, eq_iff spec.type "integer"));
    listed = λ names e. absurd (ground arith);
  }
  Fits-validate (int n) h = record {
    text = λ e. absurd (ground (arith, eq_iff spec.type "string"));
    boolean = λ e. absurd (ground (arith, eq_iff spec.type "boolean"));
    integer = λ e. (
      n,
      refl,
      λ m at. ground (arith, eq_iff spec.type "integer"),
      λ m at. ground (arith, eq_iff spec.type "integer"),
    );
    listed = λ names e. absurd (ground arith);
  }
  Fits-validate value h = record {
    text = λ e. absurd (ground (arith, eq_iff spec.type "string"));
    boolean = λ e. absurd (ground (arith, eq_iff spec.type "boolean"));
    integer = λ e. absurd (ground (arith, eq_iff spec.type "integer"));
    listed = λ names e. absurd (ground arith);
  }

below_of_bound :
    (n : ℤ) (low : Option ℤ) → ((m : ℤ) → low ≡ some m → m ≤ℤ n) → below (int n) low ≡ false
below_of_bound n none h = refl
below_of_bound n (some m) h = ground (arith, h m refl)

above_of_bound :
    (n : ℤ) (high : Option ℤ) → ((m : ℤ) → high ≡ some m → n ≤ℤ m) → above (int n) high ≡ false
above_of_bound n none h = refl
above_of_bound n (some m) h = ground (arith, h m refl)

listed_of :
    (value : Json) (enum : Option (List String))
    → ((names : List String) → enum ≡ some names → (s : String) × (value ≡ str s) × In s names)
    → enum_ok value enum ≡ true
listed_of value none h = refl
listed_of value (some names) h = let (s, at, m) = h names refl in rw at (contains-In names s m)

module _ (spec : ArgumentSpec) (value : Json) (h : Fits spec value) where
  text_test : (spec.type == "string") ≡ true → is_str value ≡ true
  text_test e = let (s, at) = h.text ((eq_iff spec.type "string").0 e) in rw at

  boolean_test : (spec.type == "boolean") ≡ true → is_bool value ≡ true
  boolean_test e = let (b, at) = h.boolean ((eq_iff spec.type "boolean").0 e) in rw at

  integer_test :
      (spec.type == "integer") ≡ true
      → (is_int value ≡ true)
        × (is_bool value ≡ false)
        × (below value spec.minimum ≡ false)
        × (above value spec.maximum ≡ false)
  integer_test e =
      let (n, at, low, high) = h.integer ((eq_iff spec.type "integer").0 e) in
      (
        rw at,
        rw at,
        rw at (below_of_bound n spec.minimum low),
        rw at (above_of_bound n spec.maximum high),
      )

  listed_test : enum_ok value spec.enum ≡ true
  listed_test = listed_of value spec.enum h.listed

  pub validate-Fits : (name : String) → validate spec name value ≡ ok tt
  unfolding validate
  validate-Fits name = ground (arith, text_test, boolean_test, integer_test, listed_test)
