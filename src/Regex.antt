-- ===== src/Regex.antt =====
-- The regular expressions of core/detection.py, as matchers that go on with what follows them. A
-- matcher is given the character before its place and the rest of the text; letters match without
-- their case, and are those of ASCII.
use Prim.Native.Char.{Char, code}
use Prim.Native.String.{[], ◌∷◌}
use mathlib.Core.List.{List}
use shigure_edr.Base.{
  String, Bool, true, false, not, ◌&&◌, ◌||◌, Option, none, some, eqb, if◌then◌else◌,
}
use shigure_edr.Text.{lower_char, is_alnum, is_space}

abbrev pub Matcher : Type 0
Matcher = (Option Char → String → Bool) → Option Char → String → Bool

-- A literal text.
unfoldable pub lit : String → Matcher
lit [] k before s = k before s
lit (x ∷ p) k before [] = false
lit (x ∷ p) k before (c ∷ s) = eqb (code (lower_char x)) (code (lower_char c)) && lit p k (some c) s

-- `m n`
abbrev pub then_ : Matcher → Matcher → Matcher
then_ m n k = m (n k)

-- `(m|n|...)`
unfoldable pub one_of : List Matcher → Matcher
one_of List.[] k before s = false
one_of (List.◌∷◌ m ms) k before s = m k before s || one_of ms k before s

abbrev is_word : Char → Bool
is_word c = is_alnum c || eqb (code c) (code "_")

abbrev pub word_before : Option Char → Bool
word_before none = false
word_before (some c) = is_word c

abbrev pub word_after : String → Bool
word_after [] = false
word_after (c ∷ s) = is_word c

-- `\b`
unfoldable pub boundary : Matcher
boundary k before s =
    (if word_before before then not (word_after s) else word_after s) && k before s

-- `\s+`
unfoldable pub spaces : Matcher
spaces k before [] = false
spaces k before (c ∷ s) = is_space c && (k (some c) s || spaces k (some c) s)

matched : Option Char → String → Bool
matched before s = true

search_from : Matcher → Option Char → String → Bool
unfolding matched
search_from m before [] = m matched before []
search_from m before (c ∷ s) = m matched before (c ∷ s) || search_from m (some c) s

-- `pattern.search(s)` finds a match.
unfoldable pub search : Matcher → String → Bool
unfolding search_from
search m s = search_from m none s
