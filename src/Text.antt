-- ===== src/Text.antt =====
-- What the code uses of Go's `strings` and `strconv` on the texts of a definition.
use Prim.Native.Char.{Char, code}
use packtrail.Prelude.{
  ℕ, zero, suc, ◌+◌, ◌-◌, ◌*◌, ℤ, pos, negsuc, String, Bool, true, false, ◌&&◌, ◌||◌, Option, none,
  some, ltb, leb, ◌==◌, if◌then◌else◌,
}

-- unicode.IsSpace
is_space : ℕ → Bool
is_space c =
    leb 9 c && leb c 13
    || c == 32
    || c == 0x85
    || c == 0xa0
    || c == 0x1680
    || leb 0x2000 c && leb c 0x200a
    || c == 0x2028
    || c == 0x2029
    || c == 0x202f
    || c == 0x205f
    || c == 0x3000

trim_left : String → String
trim_left String.[] = String.[]
trim_left (String.◌∷◌ c s) =
    let rest = trim_left s in if is_space (code c) then rest else String.◌∷◌ c s

-- a character in front of a text whose end is trimmed
trimmed : Char → String → String
trimmed c String.[] = if is_space (code c) then String.[] else String.◌∷◌ c String.[]
trimmed c (String.◌∷◌ d s) = String.◌∷◌ c (String.◌∷◌ d s)

trim_right : String → String
unfolding trimmed
trim_right String.[] = String.[]
trim_right (String.◌∷◌ c s) = trimmed c (trim_right s)

-- strings.TrimSpace
unfoldable pub trim_space : String → String
unfolding is_space trim_left trim_right
trim_space s = trim_right (trim_left s)

-- strings.TrimSpace(s) == ""
unfoldable pub is_blank : String → Bool
unfolding is_space
is_blank String.[] = true
is_blank (String.◌∷◌ c s) = is_space (code c) && is_blank s

-- strings.ContainsAny(s, " \t\r\n")
unfoldable pub has_white : String → Bool
has_white String.[] = false
has_white (String.◌∷◌ c s) =
    code c == 32 || code c == 9 || code c == 13 || code c == 10 || has_white s

-- strings.TrimPrefix, where the text has the prefix
unfoldable pub strip_prefix : String → String → Option String
strip_prefix String.[] s = some s
strip_prefix (String.◌∷◌ c p) String.[] = none
strip_prefix (String.◌∷◌ c p) (String.◌∷◌ d s) =
    let rest = strip_prefix p s in if code c == code d then rest else none

-- the decimal digits of a text, after those of `n`
digits : ℕ → String → Option ℕ
digits n String.[] = some n
digits n (String.◌∷◌ c s) =
    let rest = digits (n * 10 + (code c - b'0')) s in
    if leb b'0' (code c) && leb (code c) b'9' then rest else none

some_digits : String → Option ℕ
unfolding digits
some_digits String.[] = none
some_digits (String.◌∷◌ c s) = digits 0 (String.◌∷◌ c s)

abbrev int64_limit : ℕ
int64_limit = 9223372036854775808

-- A value that int64 does not hold is an error.
positive : Option ℕ → Option ℤ
positive none = none
positive (some n) = if ltb n int64_limit then some (pos n) else none

negative : Option ℕ → Option ℤ
negative none = none
negative (some zero) = some (pos 0)
negative (some (suc n)) = if ltb n int64_limit then some (negsuc n) else none

-- strconv.Atoi
unfoldable pub atoi : String → Option ℤ
unfolding some_digits positive negative
atoi String.[] = none
atoi (String.◌∷◌ c s) =
    if code c == b'-'
    then negative (some_digits s)
    else if code c == b'+'
    then positive (some_digits s)
    else positive (some_digits (String.◌∷◌ c s))
