-- ===== src/Py/Repr.antt =====
-- `repr` and `str` of values, `json.dumps` of texts and `shlex.quote`, for the program's f-strings.
use Prim.Native.String
use Prim.Native.String.{[], ◌∷◌}
use network_renderer_contain.Prelude.{
  ℕ, ◌+◌, ◌-◌, ◌/◌, ◌%◌, String, Char, code, Bool, true, false, ◌&&◌, ◌||◌, not, ◌==◌, nat_eq,
  string_eq, leb, ltb, if◌then◌else◌, ◌≡◌, refl,
}
use network_renderer_contain.Py.Value.{
  Value, null, bool, int, str, arr, obj, Items, nil, cons, Fields, end, field,
}
use network_renderer_contain.Py.Text.{dec_int, hex, has_sub, replace}

infixr 65 ◌++◌
abbrev ◌++◌ : String → String → String
s ++ t = String.◌++◌ s t

-- A character of a text in quotes `q`, as `repr` writes it: a control character by its number.
abbrev repr_char : ℕ → Char → String
repr_char q c =
    if code c == q || code c == b'\\'
    then "\\" ++ (c ∷ [])
    else if code c == 10
    then "\\n"
    else if code c == 13
    then "\\r"
    else if code c == 9
    then "\\t"
    else if ltb (code c) 16
    then "\\x0" ++ hex (code c)
    else if ltb (code c) 32 || code c == 127
    then "\\x" ++ hex (code c)
    else c ∷ []

unfoldable pub repr_chars : ℕ → String → String
repr_chars q [] = ""
repr_chars q (c ∷ s) = repr_char q c ++ repr_chars q s

-- Double quotes only round a text that holds single and no double quotes.
unfoldable pub repr_str : String → String
unfolding repr_chars has_sub hex
repr_str s =
    if has_sub "'" s && not (has_sub "\"" s)
    then "\"" ++ repr_chars b'"' s ++ "\""
    else "'" ++ repr_chars b'\'' s ++ "'"

unfoldable mutual
  pub repr : Value → String
  repr null = "None"
  repr (bool true) = "True"
  repr (bool false) = "False"
  repr (int n) = dec_int n
  repr (str s) = repr_str s
  repr (arr xs) = "[" ++ repr_items "" xs ++ "]"
  repr (obj fs) = "{" ++ repr_fields "" fs ++ "}"

  pub repr_items : String → Items → String
  repr_items sep nil = ""
  repr_items sep (cons v vs) = sep ++ repr v ++ repr_items ", " vs

  pub repr_fields : String → Fields → String
  repr_fields sep end = ""
  repr_fields sep (field k v fs) = sep ++ repr_str k ++ ": " ++ repr v ++ repr_fields ", " fs

-- str(v)
unfoldable pub show : Value → String
unfolding repr repr_str dec_int
show (str s) = s
show v = repr v

-- A character as `json.dumps` writes it: ASCII only, an escape for all else.
abbrev json_hex : ℕ → String
json_hex n =
    if ltb n 16
    then "\\u000" ++ hex n
    else if ltb n 256
    then "\\u00" ++ hex n
    else if ltb n 4096
    then "\\u0" ++ hex n
    else "\\u" ++ hex n

-- Above the basic plane, a pair of surrogates.
abbrev json_pair : ℕ → String
json_pair n = json_hex (55296 + n / 1024) ++ json_hex (56320 + n % 1024)

abbrev json_char : Char → String
json_char c =
    if code c == b'"'
    then "\\\""
    else if code c == b'\\'
    then "\\\\"
    else if code c == 10
    then "\\n"
    else if code c == 13
    then "\\r"
    else if code c == 9
    then "\\t"
    else if code c == 8
    then "\\b"
    else if code c == 12
    then "\\f"
    else if leb 32 (code c) && ltb (code c) 127
    then c ∷ []
    else if ltb (code c) 65536
    then json_hex (code c)
    else json_pair (code c - 65536)

unfoldable pub json_chars : String → String
json_chars [] = ""
json_chars (c ∷ s) = json_char c ++ json_chars s

-- json.dumps(s)
unfoldable pub json_str : String → String
unfolding json_chars hex
json_str s = "\"" ++ json_chars s ++ "\""

abbrev pub is_safe_char : ℕ → Bool
is_safe_char c =
    (leb 97 c && leb c 122)
    || (leb 65 c && leb c 90)
    || (leb 48 c && leb c 57)
    || c == b'_'
    || c == b'@'
    || c == b'%'
    || c == b'+'
    || c == b'='
    || c == b':'
    || c == b','
    || c == b'.'
    || c == b'/'
    || c == b'-'

unfoldable pub all_safe : String → Bool
all_safe [] = true
all_safe (c ∷ s) = is_safe_char (code c) && all_safe s

-- shlex.quote(s)
unfoldable pub quote : String → String
unfolding all_safe replace
quote s =
    if s == "" then "''" else if all_safe s then s else "'" ++ replace b'\'' "'\"'\"'" s ++ "'"

quote_tests :
    (quote "eth0" ≡ "eth0")
    × (quote "a b" ≡ "'a b'")
    × (quote "it's" ≡ "'it'\"'\"'s'")
    × (json_str "p\"q" ≡ "\"p\\\"q\"")
    × (show (arr (cons (str "a") (cons null nil))) ≡ "['a', None]")
unfolding quote json_str show
quote_tests = (refl, refl, refl, refl, refl)
