-- ===== src/ClickHouse/Quote.antt =====
-- Texts inside of a query (api/clickhouse_store.py, _quote), and how ClickHouse reads them back.
use Prim.Native.Char.{Char}
use Prim.Native.String.{[], ◌∷◌}
use text.Mathlib.TextLemmas.{cons-append, nil-append, append_assoc}
use shigure_edr.Text.{is_char, replace_by}
use shigure_edr.Base.{
  String, ◌<>◌, ◌≡◌, refl, ◌∙◌, ap, Bool, true, false, Option, none, some, if◌then◌else◌, eq_iff,
  Bool-cases, inl, inr,
}

abbrev backslash : Char
backslash = "\\"

abbrev apostrophe : Char
apostrophe = "'"

unfoldable pub escaped : String → String
unfolding replace_by
escaped value = replace_by apostrophe "\\'" (replace_by backslash "\\\\" value)

unfoldable pub quote : String → String
unfolding escaped
quote value = "'" <> (escaped value <> "'")

abbrev pub starts_apostrophe : String → Bool
starts_apostrophe [] = false
starts_apostrophe (c ∷ s) = is_char apostrophe c

-- How a literal is read, from after its first apostrophe: a backslash comes before a backslash or
-- an apostrophe, two apostrophes are one, and one alone ends the literal. `none` is a literal that
-- does not end, or another character after a backslash.
abbrev onto : Char → Option (String × String) → Option (String × String)
onto c none = none
onto c (some (value, rest)) = some (c ∷ value, rest)

abbrev pair_read :
    Char
    → Char
    → Option (String × String)
    → Option (String × String)
    → String
    → Option (String × String)
pair_read c d after next rest =
    if is_char backslash c
    then (if is_char backslash d
        then onto d after
        else if is_char apostrophe d
        then onto d after
        else none)
    else if is_char apostrophe c
    then (if is_char apostrophe d then onto d after else some ([], rest))
    else onto c next

unfoldable pub read_body : String → Option (String × String)
read_body [] = none
read_body (c ∷ []) = if is_char apostrophe c then some ([], []) else none
read_body (c ∷ (d ∷ s)) =
    let after = read_body s in let next = read_body (d ∷ s) in pair_read c d after next (d ∷ s)

unfoldable pub read_literal : String → Option (String × String)
unfolding read_body
read_literal [] = none
read_literal (c ∷ s) = if is_char apostrophe c then read_body s else none

char_eq : (a b : Char) → is_char a b ≡ true → a ≡ b
char_eq a b h = cc ((eq_iff (a ∷ []) (b ∷ [])).0 h)

two : (a b : Char) (s : String) → (a ∷ (b ∷ [])) <> s ≡ a ∷ (b ∷ s)
two a b s = rw (cons-append a (b ∷ []) s, cons-append b [] s, nil-append s) refl

-- The two replacements as one pass.
escaped-cons :
    (c : Char) (v : String)
    → escaped (c ∷ v) ≡ (
        if is_char backslash c
        then backslash ∷ (backslash ∷ escaped v)
        else if is_char apostrophe c
        then backslash ∷ (apostrophe ∷ escaped v)
        else c ∷ escaped v)
unfolding escaped
escaped-cons c v = elim (Bool-cases (is_char backslash c)) [
  | inl b ↦ rw (b, two backslash backslash (replace_by backslash "\\\\" v)) refl
  | inr b ↦ elim (Bool-cases (is_char apostrophe c)) [
    | inl a ↦ rw (b, a, two backslash apostrophe (escaped v)) refl
    | inr a ↦ rw (b, a) refl
  ]
]

-- A character that is neither special is read as itself.
read_plain :
    (c : Char) (s : String)
    → is_char backslash c ≡ false
    → is_char apostrophe c ≡ false
    → read_body (c ∷ s) ≡ onto c (read_body s)
unfolding read_body
read_plain c [] b a = rw a refl
read_plain c (d ∷ s) b a = rw (b, a) refl

-- What follows the literal, from its closing apostrophe on.
read_end :
    (rest : String)
    → starts_apostrophe rest ≡ false
    → read_body (apostrophe ∷ rest) ≡ some ([], rest)
unfolding read_body
read_end [] h = refl
read_end (c ∷ s) h = rw h refl

opened : (s : String) → read_literal (apostrophe ∷ s) ≡ read_body s
unfolding read_literal
opened s = refl

-- Two characters that stand for one.
read_pair :
    (x : Char) (u tail : String)
    → read_body (backslash ∷ (x ∷ (u <> tail))) ≡ onto x (read_body (u <> tail))
    → (t : String) → t ≡ backslash ∷ (x ∷ u)
    → read_body (t <> tail) ≡ onto x (read_body (u <> tail))
read_pair x u tail step t e =
    ap read_body (
      ap (λ y. y <> tail) e
      ∙ cons-append backslash (x ∷ u) tail
      ∙ ap (λ y. backslash ∷ y) (cons-append x u tail))
    ∙ step

step_backslash :
    (s : String) → read_body (backslash ∷ (backslash ∷ s)) ≡ onto backslash (read_body s)
unfolding read_body
step_backslash s = refl

step_apostrophe :
    (s : String) → read_body (backslash ∷ (apostrophe ∷ s)) ≡ onto apostrophe (read_body s)
unfolding read_body
step_apostrophe s = refl

read_escaped :
    (v rest : String)
    → starts_apostrophe rest ≡ false
    → read_body (escaped v <> (apostrophe ∷ rest)) ≡ some (v, rest)
unfolding escaped
read_escaped [] rest h = ap read_body (nil-append (apostrophe ∷ rest)) ∙ read_end rest h
read_escaped (c ∷ v) rest h =
    let tail = apostrophe ∷ rest in
    let ih = read_escaped v rest h in
    let back : (x : Char)
        → is_char x c ≡ true
        → ◌≡◌ {A = Option (String × String)} (some (x ∷ v, rest)) (some (c ∷ v, rest)) =
      λ x same. ap (λ y. some (y ∷ v, rest)) (char_eq x c same) in
    elim (Bool-cases (is_char backslash c)) [
      | inl b ↦
          read_pair backslash (escaped v) tail (step_backslash (escaped v <> tail))
            (escaped (c ∷ v)) (rw (escaped-cons c v, b) refl)
          ∙ ap (onto backslash) ih
          ∙ back backslash b
      | inr b ↦ elim (Bool-cases (is_char apostrophe c)) [
        | inl a ↦
            read_pair apostrophe (escaped v) tail (step_apostrophe (escaped v <> tail))
              (escaped (c ∷ v)) (rw (escaped-cons c v, b, a) refl)
            ∙ ap (onto apostrophe) ih
            ∙ back apostrophe a
        | inr a ↦
            ap (λ t. read_body (t <> tail)) (rw (escaped-cons c v, b, a) refl)
            ∙ ap read_body (cons-append c (escaped v) tail)
            ∙ read_plain c (escaped v <> tail) b a
            ∙ ap (onto c) ih
      ]
    ]

-- ClickHouse reads a text in a query back as the text that was given, and the query goes on behind
-- it, whatever is in the text, where no apostrophe follows the literal.
pub read_literal-quote :
    (value rest : String)
    → starts_apostrophe rest ≡ false
    → read_literal (quote value <> rest) ≡ some (value, rest)
unfolding quote
read_literal-quote value rest h =
    ap read_literal (
      ap (λ t. t <> rest)
        (cons-append apostrophe [] (escaped value <> "'")
          ∙ ap (λ t. apostrophe ∷ t) (nil-append (escaped value <> "'")))
      ∙ cons-append apostrophe (escaped value <> "'") rest
      ∙ ap (λ t. apostrophe ∷ t)
          (append_assoc (escaped value) "'" rest
            ∙ ap (λ t. escaped value <> t)
                (cons-append apostrophe [] rest ∙ ap (λ t. apostrophe ∷ t) (nil-append rest))))
    ∙ opened (escaped value <> (apostrophe ∷ rest))
    ∙ read_escaped value rest h
