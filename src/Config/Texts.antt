-- ===== src/Config/Texts.antt =====
-- The part of strings, unicode and regexp that internal/core/config/validate/validate.go uses. A
-- string is the list of its characters.
use Prim.Native.Char.{code}
use Prim.Native.String.{String}
use bgscan.Base.{
  ℕ, ◌+◌, Bool, true, false, ◌&&◌, ◌||◌, not, List, [], ◌∷◌, leb, ◌==◌, if◌then◌else◌,
}

abbrev pub Text : Type 0
Text = List ℕ

-- The characters of a literal.
abbrev pub codes : String → Text
codes String.[] = []
codes (String.◌∷◌ c s) = code c ∷ codes s

abbrev pub any_char : (ℕ → Bool) → Text → Bool
any_char p [] = false
any_char p (c ∷ s) = p c || any_char p s

-- unicode.IsSpace.
abbrev pub is_space : ℕ → Bool
is_space c =
    (leb 9 c && leb c 13)
    || (c == 0x20)
    || (c == 0x85)
    || (c == 0xa0)
    || (c == 0x1680)
    || (leb 0x2000 c && leb c 0x200a)
    || (c == 0x2028)
    || (c == 0x2029)
    || (c == 0x202f)
    || (c == 0x205f)
    || (c == 0x3000)

-- strings.TrimSpace(s) == "".
abbrev pub blank : Text → Bool
blank s = not (any_char (λ c. not (is_space c)) s)

-- illegalFilenameRegex.
unfoldable pub illegal_filename_char : ℕ → Bool
illegal_filename_char c =
    leb c 0x1f
    || any_char (λ d. d == c) (b'\\' ∷ b'/' ∷ b':' ∷ b'*' ∷ b'?' ∷ b'"' ∷ b'<' ∷ b'>' ∷ b'|' ∷ [])

abbrev pub starts_with : ℕ → Text → Bool
starts_with d [] = false
starts_with d (c ∷ s) = c == d

abbrev pub ends_with : ℕ → Text → Bool
ends_with d [] = false
ends_with d (c ∷ []) = c == d
ends_with d (c ∷ e ∷ s) = ends_with d (e ∷ s)

abbrev pub has_dot_dot : Text → Bool
has_dot_dot [] = false
has_dot_dot (c ∷ []) = false
has_dot_dot (c ∷ d ∷ s) = (c == b'.' && d == b'.') || has_dot_dot (d ∷ s)

abbrev pub same_text : Text → Text → Bool
same_text [] [] = true
same_text (c ∷ s) (d ∷ t) = c == d && same_text s t
same_text _ _ = false

-- unicode.ToLower as far as its result is an ASCII character; a character with another result is
-- left as it is, which does not change a comparison with an ASCII word.
abbrev pub to_lower : ℕ → ℕ
to_lower c =
    if leb b'A' c && leb c b'Z'
    then c + 32
    else if c == 0x212a
    then b'k'
    else if c == 0x130
    then b'i'
    else c

abbrev pub lower : Text → Text
lower [] = []
lower (c ∷ s) = to_lower c ∷ lower s

abbrev pub one_of : Text → List Text → Bool
one_of s [] = false
one_of s (t ∷ ts) = same_text s t || one_of s ts
