-- ===== src/Release/Failures.antt =====
-- Lists of failures, and the shapes of a value (api/release_validation.py).
use shigure_edr.Base.{
  ◌⊎◌, String, ◌≡◌, refl, Bool, true, false, not, Option, none, some, List, [], ◌∷◌, ◌++◌, In, here,
  there, In-cons, inl, inr,
}
use shigure_edr.Json.{Json, null, bool, int, float, str, arr, obj, Items, nil, cons, Fields}
use shigure_edr.Release.{mapping, listing, each, fail_unless, has_targets}

-- A list of failures is empty when its parts are.
pub nil_parts : (xs ys : List String) → xs ++ ys ≡ [] → (xs ≡ []) × (ys ≡ [])
nil_parts [] ys h = (refl, h)
nil_parts (x ∷ xs) ys h = cc

pub nil_whole : (xs ys : List String) → xs ≡ [] → ys ≡ [] → xs ++ ys ≡ []
nil_whole xs ys h k = rw (h, k) refl

pub each-nil :
    (f : String → List String) (xs : List String)
    → each f xs ≡ []
    → (x : String) → In x xs
    → f x ≡ []
unfolding each
each-nil f [] h x m = elim m [ ]
each-nil f (y ∷ ys) h x m =
    let (first, rest) = nil_parts (f y) (each f ys) h in
    elim (In-cons m) [ inl e ↦ rw (← e) first | inr later ↦ each-nil f ys rest x later ]

pub nil-each :
    (f : String → List String) (xs : List String)
    → ((x : String) → In x xs → f x ≡ [])
    → each f xs ≡ []
unfolding each
nil-each f [] h = refl
nil-each f (y ∷ ys) h =
    nil_whole (f y) (each f ys) (h y here) (nil-each f ys (λ x m. h x (there m)))

pub fail_unless-nil : (b : Bool) (message : String) → fail_unless b message ≡ [] → b ≡ true
fail_unless-nil true message h = refl
fail_unless-nil false message h = cc

pub nil-fail_unless : (b : Bool) (message : String) → b ≡ true → fail_unless b message ≡ []
nil-fail_unless b message h = rw h refl

pub cons-ne-nil : {x : String} {xs : List String} → x ∷ xs ≡ [] → ⊥
cons-ne-nil h = cc

pub not-true : (b : Bool) → not b ≡ true → b ≡ false
not-true true h = cc
not-true false h = refl

-- A value is an object, or nothing that the code takes for a mapping; likewise an array.
pub object_cases : (o : Option Json) → (mapping o ≡ none) ⊎ ((d : Fields) × (o ≡ some (obj d)))
object_cases none = inl refl
object_cases (some null) = inl refl
object_cases (some (bool b)) = inl refl
object_cases (some (int n)) = inl refl
object_cases (some (float r)) = inl refl
object_cases (some (str s)) = inl refl
object_cases (some (arr vs)) = inl refl
object_cases (some (obj d)) = inr (d, refl)

pub array_cases : (o : Option Json) → (listing o ≡ none) ⊎ ((vs : Items) × (o ≡ some (arr vs)))
array_cases none = inl refl
array_cases (some null) = inl refl
array_cases (some (bool b)) = inl refl
array_cases (some (int n)) = inl refl
array_cases (some (float r)) = inl refl
array_cases (some (str s)) = inl refl
array_cases (some (obj d)) = inl refl
array_cases (some (arr vs)) = inr (vs, refl)

pub target_cases :
    (o : Option Json)
    → has_targets o ≡ true
    → (v : Json) × (vs : Items) × (o ≡ some (arr (cons v vs)))
target_cases none h = cc
target_cases (some null) h = cc
target_cases (some (bool b)) h = cc
target_cases (some (int n)) h = cc
target_cases (some (float r)) h = cc
target_cases (some (str s)) h = cc
target_cases (some (obj d)) h = cc
target_cases (some (arr nil)) h = cc
target_cases (some (arr (cons v vs))) h = (v, vs, refl)
