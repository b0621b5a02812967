-- ===== src/Text.antt =====
-- The methods of Python's `str` that the program calls. Letters are those of ASCII: other
-- characters have no case here, and are no letters, digits or spaces.
use Prim.Native.Char.{Char, code}
use Prim.Native.Nat.{◌*◌}
use Prim.Native.String.{[], ◌∷◌}
use shigure_edr.Base.{
  ℕ, zero, suc, String, Bool, true, false, is_some, ◌&&◌, ◌||◌, Option, none, some, leb, eqb, ◌==◌,
  ◌<>◌, ◌+◌, ◌-◌, not, if◌then◌else◌,
}

-- The character of `to` at the place where `c` stands in `from`.
abbrev pub translate : String → String → Char → Char
translate [] to c = c
translate (x ∷ from) [] c = c
translate (x ∷ from) (y ∷ to) c =
    let rest = translate from to c in if eqb (code x) (code c) then y else rest

abbrev pub lower_char : Char → Char
lower_char = translate "ABCDEFGHIJKLMNOPQRSTUVWXYZ" "abcdefghijklmnopqrstuvwxyz"

-- `s.lower()`
unfoldable pub lower : String → String
lower [] = []
lower (c ∷ s) = lower_char c ∷ lower s

abbrev pub upper_char : Char → Char
upper_char = translate "abcdefghijklmnopqrstuvwxyz" "ABCDEFGHIJKLMNOPQRSTUVWXYZ"

-- `s.upper()`
unfoldable pub upper : String → String
upper [] = []
upper (c ∷ s) = upper_char c ∷ upper s

-- `s.split(marker)[-1]` for a single character; `last` is what came since the last marker.
split_last : Char → String → String → String
split_last marker last [] = last
split_last marker last (c ∷ s) =
    split_last marker (if eqb (code marker) (code c) then s else last) s

unfoldable pub last_part : Char → String → String
unfolding split_last
last_part marker s = split_last marker s s

-- `s.replace(old, new)` for single characters.
unfoldable pub replace_char : Char → Char → String → String
replace_char old new [] = []
replace_char old new (c ∷ s) = (if eqb (code old) (code c) then new else c) ∷ replace_char old new s

abbrev pub is_char : Char → Char → Bool
is_char a b = (a ∷ []) == (b ∷ [])

-- `s.replace(old, new)` for a single character and a text.
unfoldable pub replace_by : Char → String → String → String
replace_by old new [] = []
replace_by old new (c ∷ s) =
    let rest = replace_by old new s in if is_char old c then new <> rest else c ∷ rest

-- `s.lstrip()` and `s.rstrip()` of the characters that pass a test.
unfoldable pub lstrip : (Char → Bool) → String → String
lstrip p [] = []
lstrip p (c ∷ s) = let rest = lstrip p s in if p c then rest else c ∷ s

unfoldable pub rstrip : (Char → Bool) → String → String
rstrip p [] = []
rstrip p (c ∷ s) = let rest = rstrip p s in if rest == "" && p c then [] else c ∷ rest

abbrev pub is_space : Char → Bool
is_space c = leb 9 (code c) && leb (code c) 13 || leb 28 (code c) && leb (code c) 32

-- `s.strip()`
unfoldable pub strip : String → String
unfolding lstrip rstrip
strip s = rstrip is_space (lstrip is_space s)

abbrev pub is_digit : Char → Bool
is_digit c = leb 48 (code c) && leb (code c) 57

-- `c.isalnum()`
abbrev pub is_alnum : Char → Bool
is_alnum c = is_digit c || leb 65 (code c) && leb (code c) 90 || leb 97 (code c) && leb (code c) 122

-- Every character passes a test.
abbrev pub all_chars : (Char → Bool) → String → Bool
all_chars p [] = true
all_chars p (c ∷ s) = p c && all_chars p s

-- `s[len(p):]` where `s` starts with `p`.
unfoldable pub drop_prefix : String → String → Option String
drop_prefix [] s = some s
drop_prefix (c ∷ p) [] = none
drop_prefix (c ∷ p) (d ∷ s) =
    let rest = drop_prefix p s in if eqb (code c) (code d) then rest else none

-- `s.split(marker, 1)[1]` where the marker is in `s`.
unfoldable pub after_marker : String → String → Option String
unfolding drop_prefix
after_marker marker [] = drop_prefix marker []
after_marker marker (c ∷ s) =
    let later = after_marker marker s in
    elim (drop_prefix marker (c ∷ s)) [ none ↦ later | some rest ↦ some rest ]

-- A test of some rest of the text.
unfoldable pub any_suffix : (String → Bool) → String → Bool
any_suffix p [] = p []
any_suffix p (c ∷ s) = p (c ∷ s) || any_suffix p s

-- `needle in s`
unfoldable pub has_text : String → String → Bool
unfolding any_suffix drop_prefix
has_text needle s = any_suffix (λ rest. is_some (drop_prefix needle rest)) s

-- One character of a pattern of SQL's `like`, and the rest of the pattern.
abbrev like_one : Char → (String → Bool) → String → Bool
like_one x rest [] = false
like_one x rest (c ∷ s) =
    (eqb (code x) (code "_") || eqb (code (lower_char x)) (code (lower_char c))) && rest s

-- `s like pattern`, as SQLite does it: the case of letters does not count.
unfoldable pub like : String → String → Bool
unfolding any_suffix
like [] [] = true
like [] (c ∷ s) = false
like (x ∷ p) s =
    let rest = like p in if eqb (code x) (code "%") then any_suffix rest s else like_one x rest s

-- `s[:n]`
unfoldable pub clip : ℕ → String → String
clip zero s = []
clip (suc n) [] = []
clip (suc n) (c ∷ s) = c ∷ clip n s

-- `s.isdigit()`, and `int(s)` of such a text.
unfoldable pub is_number : String → Bool
is_number s = not (s == "") && all_chars is_digit s

number_from : ℕ → String → ℕ
number_from n [] = n
number_from n (c ∷ s) = number_from (10 * n + (code c - 48)) s

unfoldable pub number : String → ℕ
unfolding number_from
number s = number_from 0 s
