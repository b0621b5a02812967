-- ===== src/Postgres/Scripts.antt =====
-- A script of statements and its statements (api/postgres_store.py, _split_sql_script).
use Prim.Native.Char.{Char}
use Prim.Native.String.{[], ◌∷◌}
use text.Mathlib.TextLemmas.{nil-append, cons-append}
use shigure_edr.Base.{
  String, ◌<>◌, ◌≡◌, refl, sym, subst, ◌∙◌, ap, Bool, true, false, not, List, [], ◌∷◌, All, map,
  eq_iff, ◌==◌, if◌then◌else◌, arith, Bool-cases, inl, inr,
}
use shigure_edr.Text.{is_char, is_space, all_chars, lstrip, rstrip, strip}
use shigure_edr.Postgres.{split_on, stripped, split_sql_script}

-- No character of the text is the separator.
abbrev pub Lacks : Char → String → Type 0
Lacks separator [] = Unit
Lacks separator (c ∷ s) = (is_char separator c ≡ false) × Lacks separator s

split_on-append :
    (separator : Char) (part s : String)
    → Lacks separator part
    → split_on separator (part <> (separator ∷ s)) ≡ part ∷ split_on separator s
unfolding split_on
split_on-append separator [] s h =
    ap (split_on separator) (nil-append (separator ∷ s))
    ∙ rw ((eq_iff (separator ∷ []) (separator ∷ [])).1 refl) refl
split_on-append separator (c ∷ part) s h =
    ap (split_on separator) (cons-append c part (separator ∷ s))
    ∙ rw (h.0, split_on-append separator part s h.1) refl

split_on-Lacks : (separator : Char) (s : String) → Lacks separator s → split_on separator s ≡ s ∷ []
unfolding split_on
split_on-Lacks separator [] h = refl
split_on-Lacks separator (c ∷ s) h = rw (h.0, split_on-Lacks separator s h.1) refl

Lacks-append :
    (separator : Char) (a b : String)
    → Lacks separator a
    → Lacks separator b
    → Lacks separator (a <> b)
Lacks-append separator [] b h k = subst (Lacks separator) (sym (nil-append b)) k
Lacks-append separator (c ∷ a) b h k =
    subst (Lacks separator) (sym (cons-append c a b)) (h.0, Lacks-append separator a b h.1 k)

-- White space, and a text whose last character is none.
abbrev pub AreSpaces : String → Type 0
AreSpaces [] = Unit
AreSpaces (c ∷ s) = (is_space c ≡ true) × AreSpaces s

abbrev pub ends_given : String → Bool
ends_given [] = false
ends_given (c ∷ s) = let later = ends_given s in if s == "" then not (is_space c) else later

-- A semicolon is no space.
no_separator : (c : Char) → is_space c ≡ true → is_char ";" c ≡ false
no_separator c h = elim (Bool-cases (is_char ";" c)) [
  | inr e ↦ e
  | inl e ↦
      let same = ap (all_chars is_space) ((eq_iff (";" ∷ []) (c ∷ [])).0 e) in
      absurd (ground (arith, same, h))
]

AreSpaces-Lacks : (s : String) → AreSpaces s → Lacks ";" s
AreSpaces-Lacks [] h = tt
AreSpaces-Lacks (c ∷ s) h = (no_separator c h.0, AreSpaces-Lacks s h.1)

lstrip-append : (lead s : String) → AreSpaces lead → lstrip is_space (lead <> s) ≡ lstrip is_space s
unfolding lstrip
lstrip-append [] s h = ap (lstrip is_space) (nil-append s)
lstrip-append (c ∷ lead) s h =
    ap (lstrip is_space) (cons-append c lead s) ∙ rw h.0 (lstrip-append lead s h.1)

rstrip-AreSpaces : (s : String) → AreSpaces s → rstrip is_space s ≡ ""
unfolding rstrip
rstrip-AreSpaces [] h = refl
rstrip-AreSpaces (c ∷ s) h = rw (rstrip-AreSpaces s h.1, h.0) refl

not-eq-true : (b : Bool) → not b ≡ true → b ≡ false
not-eq-true true h = cc
not-eq-true false h = refl

rstrip-append :
    (s trail : String) → ends_given s ≡ true → AreSpaces trail → rstrip is_space (s <> trail) ≡ s
unfolding rstrip
rstrip-append [] trail h k = cc
rstrip-append (c ∷ s) trail h k =
    ap (rstrip is_space) (cons-append c s trail) ∙ elim (Bool-cases (s == "")) [
      | inl e ↦
          let nothing = (eq_iff s "").0 e in
          let emptied =
            ap (λ x. rstrip is_space (x <> trail)) nothing
            ∙ ap (rstrip is_space) (nil-append trail)
            ∙ rstrip-AreSpaces trail k in
          rw (emptied, not-eq-true (is_space c) (rw e at h)) (ap (λ x. c ∷ x) (sym nothing))
      | inr e ↦ rw (rstrip-append s trail (rw e at h) k, e) refl
    ]

-- A statement as it stands in a script, with the space around it: it has no semicolon, and begins
-- and ends with other characters than white space.
pub record Written : Type 0 where
  pub lead : String
  pub statement : String
  pub trail : String

pub record IsWritten (w : Written) : Type 0 where
  pub lead_spaces : AreSpaces w.lead
  pub trail_spaces : AreSpaces w.trail
  pub lacks : Lacks ";" w.statement
  pub begins : (c : Char) × (s : String) × (w.statement ≡ (c ∷ s)) × (is_space c ≡ false)
  pub ends : ends_given w.statement ≡ true

abbrev pub text_of : Written → String
text_of w = w.lead <> (w.statement <> w.trail)

-- Each statement is ended by a semicolon; `final` is what follows the last one.
abbrev pub script_of : List Written → String → String
script_of [] final = final
script_of (w ∷ ws) final = text_of w <> (";" ∷ script_of ws final)

strip-text_of : (w : Written) → IsWritten w → strip (text_of w) ≡ w.statement
unfolding strip lstrip
strip-text_of w h =
    let (c, s, e, given) = h.begins in
    let inner : lstrip is_space (w.statement <> w.trail) ≡ w.statement <> w.trail =
      subst (λ part. lstrip is_space (part <> w.trail) ≡ part <> w.trail) (sym e)
        (subst (λ t. lstrip is_space t ≡ t) (sym (cons-append c s w.trail)) (rw given refl)) in
    ap (rstrip is_space) (lstrip-append w.lead (w.statement <> w.trail) h.lead_spaces ∙ inner)
    ∙ rstrip-append w.statement w.trail h.ends h.trail_spaces

given-ne : (s : String) → ends_given s ≡ true → (s == "") ≡ false
given-ne s h = elim (Bool-cases (s == "")) [
  | inl e ↦ absurd (no_end (subst (λ x. ends_given x ≡ true) ((eq_iff s "").0 e) h))
  | inr e ↦ e
]
  where
    no_end : false ≡ true → ⊥
    no_end h = cc

text_of-Lacks : (w : Written) → IsWritten w → Lacks ";" (text_of w)
text_of-Lacks w h =
    Lacks-append ";" w.lead (w.statement <> w.trail) (AreSpaces-Lacks w.lead h.lead_spaces)
      (Lacks-append ";" w.statement w.trail h.lacks (AreSpaces-Lacks w.trail h.trail_spaces))

only_spaces : (s : String) → AreSpaces s → strip s ≡ ""
unfolding strip lstrip rstrip
only_spaces [] h = refl
only_spaces (c ∷ s) h = rw h.0 (only_spaces s h.1)

-- The statements of a script are read back, all of them and in their order, without the white space
-- around them: where each is ended by a semicolon, has none in it, and begins and ends with other
-- characters than white space, and only white space follows the last semicolon.
pub split_sql_script_lem :
    (ws : List Written) (final : String)
    → All IsWritten ws
    → AreSpaces final
    → split_sql_script (script_of ws final) ≡ map (λ (w : Written). w.statement) ws
unfolding split_sql_script stripped
split_sql_script_lem [] final h k =
    ap stripped (split_on-Lacks ";" final (AreSpaces-Lacks final k)) ∙ rw (only_spaces final k) refl
split_sql_script_lem (w ∷ ws) final (h, hs) k =
    ap stripped (split_on-append ";" (text_of w) (script_of ws final) (text_of-Lacks w h))
    ∙ rw (strip-text_of w h, given-ne w.statement h.ends, split_sql_script_lem ws final hs k) refl
