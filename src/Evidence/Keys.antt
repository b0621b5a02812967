-- ===== src/Evidence/Keys.antt =====
-- The keys of stored objects and the references to them (api/object_storage.py, _object_key to
-- _safe_segment).
use Prim.Native.Char.{Char, code}
use Prim.Native.String.{[], ◌∷◌}
use text.Mathlib.TextLemmas.{nil-append, cons-append}
use shigure_edr.Base.{
  String, ◌<>◌, ◌≡◌, refl, Bool, true, false, not, ◌&&◌, ◌||◌, Option, some, arith, eqb, ◌==◌,
  if◌then◌else◌, Bool-cases, inl, inr,
}
use shigure_edr.Text.{lower, lstrip, rstrip, is_alnum, all_chars, drop_prefix, after_marker}

abbrev pub is_key_char : Char → Bool
is_key_char c = is_alnum c || eqb (code c) b'-' || eqb (code c) b'_' || eqb (code c) b'.'

-- The loop over the characters of a segment.
unfoldable pub safe_chars : String → String
safe_chars [] = []
safe_chars (c ∷ s) = (if is_key_char c then c else "_") ∷ safe_chars s

abbrev pub is_edge : Char → Bool
is_edge c = eqb (code c) b'.' || eqb (code c) b'_'

-- `"".join(safe).strip("._") or "object"`
unfoldable pub safe_segment : String → String
unfolding safe_chars lstrip rstrip
safe_segment value =
    let safe = rstrip is_edge (lstrip is_edge (safe_chars value)) in
    if safe == "" then "object" else safe

unfoldable pub object_key : String → String → String → String → String
unfolding safe_segment lower
object_key tenant_id kind object_id sha256 =
    safe_segment tenant_id
    <> ("/"
        <> (safe_segment kind
            <> ("/" <> (safe_segment object_id <> ("/" <> (lower sha256 <> ".json"))))))

abbrev pub marker_of : String → String
marker_of bucket = "://" <> (bucket <> "/")

-- `none` is the `KeyError` for a reference into another bucket.
unfoldable pub object_key_from_ref : String → String → Option String
unfolding after_marker
object_key_from_ref raw_ref bucket = after_marker (marker_of bucket) raw_ref

all_chars-safe_chars : (s : String) → all_chars is_key_char (safe_chars s) ≡ true
unfolding safe_chars
all_chars-safe_chars [] = refl
all_chars-safe_chars (c ∷ s) = elim (Bool-cases (is_key_char c)) [
  | inl e ↦ rw e (rw e (all_chars-safe_chars s))
  | inr e ↦ rw e (all_chars-safe_chars s)
]

module _ (p q : Char → Bool) where
  all_chars-lstrip : (s : String) → all_chars q s ≡ true → all_chars q (lstrip p s) ≡ true
  unfolding lstrip
  all_chars-lstrip [] h = refl
  all_chars-lstrip (c ∷ s) h = ground (arith, all_chars-lstrip s)

  all_chars-rstrip : (s : String) → all_chars q s ≡ true → all_chars q (rstrip p s) ≡ true
  unfolding rstrip
  all_chars-rstrip [] h = refl
  all_chars-rstrip (c ∷ s) h = elim (Bool-cases (rstrip p s == "" && p c)) [
    | inl e ↦ rw e
    | inr e ↦ rw e (ground (arith, all_chars-rstrip s))
  ]

-- The first character, if there is one, fails the test.
abbrev pub starts_outside : (Char → Bool) → String → Bool
starts_outside p [] = true
starts_outside p (c ∷ s) = not (p c)

module _ (p : Char → Bool) where
  starts_outside-lstrip : (s : String) → starts_outside p (lstrip p s) ≡ true
  unfolding lstrip
  starts_outside-lstrip [] = refl
  starts_outside-lstrip (c ∷ s) = ground (arith, starts_outside-lstrip s)

  starts_outside-rstrip :
      (s : String) → starts_outside p s ≡ true → starts_outside p (rstrip p s) ≡ true
  unfolding rstrip
  starts_outside-rstrip [] h = refl
  starts_outside-rstrip (c ∷ s) h = elim (Bool-cases (rstrip p s == "" && p c)) [
    | inl e ↦ rw e
    | inr e ↦ rw e h
  ]

-- A path segment that stays in its directory: it is not empty, holds no `/`, and is neither `.`
-- nor `..`.
pub record IsSegment (s : String) : Type 0 where
  pub chars : all_chars is_key_char s ≡ true
  pub edge : starts_outside is_edge s ≡ true
  pub filled : (s == "") ≡ false

-- Whatever the text, its segment is not empty, has only letters, digits and the characters -_. in
-- it, and starts with neither a dot nor an underscore.
pub safe_segment-IsSegment : (value : String) → IsSegment (safe_segment value)
unfolding safe_segment
safe_segment-IsSegment value =
    let safe = rstrip is_edge (lstrip is_edge (safe_chars value)) in
    elim (Bool-cases (safe == "")) [
      | inl e ↦ rw e (record { chars = refl; edge = refl; filled = refl })
      | inr e ↦ rw e (record {
        chars =
            all_chars-rstrip is_edge is_key_char (lstrip is_edge (safe_chars value)) (
              all_chars-lstrip is_edge is_key_char (safe_chars value) (all_chars-safe_chars value));
        edge =
            starts_outside-rstrip is_edge (lstrip is_edge (safe_chars value))
              (starts_outside-lstrip is_edge (safe_chars value));
        filled = e;
      })
    ]

drop_prefix-append : (p s : String) → drop_prefix p (p <> s) ≡ some s
unfolding drop_prefix
drop_prefix-append [] s = rw nil-append
drop_prefix-append (c ∷ p) s = rw cons-append (ground (arith, drop_prefix-append p s))

-- A marker is found behind a text that does not hold its first character.
after_marker_behind :
    (x : Char) (m pre s : String)
    → all_chars (λ c. not (eqb (code x) (code c))) pre ≡ true
    → after_marker (x ∷ m) (pre <> ((x ∷ m) <> s)) ≡ some s
unfolding after_marker
after_marker_behind x m [] s h =
    let found = rw cons-append at (drop_prefix-append (x ∷ m) s) in
    rw (nil-append, cons-append, after_marker, found)
after_marker_behind x m (c ∷ pre) s h =
    rw cons-append (unfold drop_prefix in ground (arith, after_marker_behind x m pre s))

marker-eq-cons : (bucket : String) → marker_of bucket ≡ ":" ∷ ("//" <> (bucket <> "/"))
marker-eq-cons bucket = cons-append ":" "//" (bucket <> "/")

-- The key is read back from the reference of an object, in a scheme without a colon.
pub object_key_from_ref_lem :
    (scheme bucket key : String)
    → all_chars (λ c. not (eqb (code ":") (code c))) scheme ≡ true
    → object_key_from_ref (scheme <> (marker_of bucket <> key)) bucket ≡ some key
unfolding object_key_from_ref
object_key_from_ref_lem scheme bucket key h =
    rw marker-eq-cons (after_marker_behind ":" ("//" <> (bucket <> "/")) scheme key h)
