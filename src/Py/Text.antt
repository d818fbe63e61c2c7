-- ===== src/Py/Text.antt =====
-- Python's `str` methods that the program calls, over ASCII where case and digits are concerned.
pub mod Laws
use Prim.Native.String
use Prim.Native.String.{[], ◌∷◌, char_at}
use mathlib.Core.List.{[], ◌∷◌}
use text.Mathlib.Text.{starts_with as has_prefix}
use network_renderer_contain.Prelude.{
  ℕ, zero, suc, ◌+◌, ◌-◌, ◌*◌, ◌/◌, ◌%◌, String, Char, code, Bool, true, false, ◌&&◌, ◌||◌, Option,
  none, some, List, ◌==◌, nat_eq, string_eq, leb, ltb, if◌then◌else◌, is_nil,
}
use network_renderer_contain.Py.Value.{ℤ, pos, negsuc}

-- "".join(parts), an f-string
unfoldable pub concat : List String → String
concat [] = ""
concat (s ∷ ss) = String.◌++◌ s (concat ss)

-- sep.join(parts)
unfoldable pub join : String → List String → String
join sep [] = ""
join sep (s ∷ []) = s
join sep (s ∷ (t ∷ ss)) = String.◌++◌ s (String.◌++◌ sep (join sep (t ∷ ss)))

abbrev pub codes : String → List ℕ
codes [] = []
codes (c ∷ s) = code c ∷ codes s

abbrev push_head : Char → List String → List String
push_head c [] = (c ∷ []) ∷ []
push_head c (w ∷ ws) = (c ∷ w) ∷ ws

-- s.split(sep) for one character
unfoldable pub split_on : ℕ → String → List String
split_on sep [] = "" ∷ []
split_on sep (c ∷ s) =
    let rest = split_on sep s in if code c == sep then "" ∷ rest else push_head c rest

-- s.split(sep, 1): the text before the first separator, and the one behind it if there is one
unfoldable pub split_once : ℕ → String → String × Option String
split_once sep [] = ("", none)
split_once sep (c ∷ s) =
    let rest = split_once sep s in if code c == sep then ("", some s) else (c ∷ rest.0, rest.1)

abbrev lower_char : Char → Char
lower_char c =
    if leb 65 (code c) && leb (code c) 90
    then char_at "abcdefghijklmnopqrstuvwxyz" (code c - 65)
    else c

-- s.lower()
unfoldable pub lower : String → String
lower [] = ""
lower (c ∷ s) = lower_char c ∷ lower s

-- s.rstrip(c)
unfoldable pub rstrip : ℕ → String → String
rstrip d [] = ""
rstrip d (c ∷ s) = let rest = rstrip d s in if (code c == d) && (rest == "") then "" else c ∷ rest

-- s.replace(c, t) for one character c
unfoldable pub replace : ℕ → String → String → String
replace d t [] = ""
replace d t (c ∷ s) =
    let rest = replace d t s in if code c == d then String.◌++◌ t rest else c ∷ rest

abbrev pub is_space : ℕ → Bool
is_space c = c == 32 || (leb 9 c && leb c 13) || (leb 28 c && leb c 31)

-- s.lstrip(), s.strip()
unfoldable pub lstrip : String → String
lstrip [] = ""
lstrip (c ∷ s) = if is_space (code c) then lstrip s else c ∷ s

unfoldable pub rstrip_space : String → String
rstrip_space [] = ""
rstrip_space (c ∷ s) =
    let rest = rstrip_space s in if is_space (code c) && (rest == "") then "" else c ∷ rest

unfoldable pub strip : String → String
unfolding lstrip rstrip_space
strip s = rstrip_space (lstrip s)

-- t in s
unfoldable pub has_sub : String → String → Bool
has_sub t [] = t == ""
has_sub t (c ∷ s) = has_prefix (c ∷ s) t || has_sub t s

-- s.endswith(t)
unfoldable pub ends_with : String → String → Bool
ends_with [] t = "" == t
ends_with (c ∷ s) t = (c ∷ s) == t || ends_with s t

abbrev digit : ℕ → String
digit d = char_at "0123456789abcdef" d ∷ []

unfoldable pub digits : ℕ → ℕ → ℕ → String → String
digits base zero n out = out
digits base (suc f) n out =
    let more = digits base f (n / base) (String.◌++◌ (digit (n % base)) out) in
    if n == 0 then out else more

-- str(n), and f"{n:x}"
unfoldable pub dec : ℕ → String
unfolding digits
dec n = if n == 0 then "0" else digits 10 n n ""

unfoldable pub hex : ℕ → String
unfolding digits
hex n = if n == 0 then "0" else digits 16 n n ""

unfoldable pub dec_int : ℤ → String
unfolding dec
dec_int (pos n) = dec n
dec_int (negsuc n) = String.◌++◌ "-" (dec (n + 1))

-- The value of a hexadecimal digit.
unfoldable pub hex_value : ℕ → Option ℕ
hex_value c =
    if leb 48 c && leb c 57
    then some (c - 48)
    else if leb 97 c && leb c 102
    then some (c - 87)
    else if leb 65 c && leb c 70
    then some (c - 55)
    else none

unfoldable pub number_from : ℕ → ℕ → List ℕ → Option ℕ
number_from base n [] = some n
number_from base n (c ∷ cs) = elim (hex_value c) [
  | none ↦ none
  | some d ↦ if ltb d base then number_from base (n * base + d) cs else none
]

-- int(s, base) for a text of digits alone
unfoldable pub number : ℕ → String → Option ℕ
unfolding number_from hex_value
number base s = if is_nil (codes s) then none else number_from base 0 (codes s)

-- The digits of `int(s)`, which may be grouped by single underscores. `after` holds behind a digit.
unfoldable pub grouped : Bool → ℕ → List ℕ → Option ℕ
grouped after n [] = if after then some n else none
grouped after n (c ∷ cs) =
    let next = grouped true (n * 10 + (c - 48)) cs in
    let skip = grouped false n cs in
    if leb 48 c && leb c 57 then next else if (c == b'_') && after then skip else none

abbrev negated : Option ℕ → Option ℤ
negated none = none
negated (some zero) = some (pos 0)
negated (some (suc n)) = some (negsuc n)

abbrev positive : Option ℕ → Option ℤ
positive none = none
positive (some n) = some (pos n)

abbrev signed : List ℕ → Option ℤ
signed [] = none
signed (c ∷ cs) =
    if c == b'-'
    then negated (grouped false 0 cs)
    else if c == b'+'
    then positive (grouped false 0 cs)
    else positive (grouped false 0 (c ∷ cs))

-- int(s)
unfoldable pub int_of : String → Option ℤ
unfolding strip grouped
int_of s = signed (codes (strip s))
