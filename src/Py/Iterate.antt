-- ===== src/Py/Iterate.antt =====
-- What a `for` loop runs over: the members of an array, the characters of a text, the keys of an
-- object.
use network_renderer_contain.Prelude.{String, List, [], ◌∷◌, map}
use network_renderer_contain.Py.Value.{Value, str, arr, obj, elems, entries}
use network_renderer_contain.Py.Result.{Result, ok, err, type_error}

abbrev pub texts : List String → List Value
texts [] = []
texts (s ∷ ss) = str s ∷ texts ss

abbrev pub characters : String → List Value
characters String.[] = []
characters (String.◌∷◌ c s) = str (String.◌∷◌ c "") ∷ characters s

abbrev pub iterate : Value → Result (List Value)
iterate (arr vs) = ok (elems vs)
iterate (str s) = ok (characters s)
iterate (obj fs) = ok (texts (map (λ e. e.0) (entries fs)))
iterate v = err (type_error "object is not iterable")
