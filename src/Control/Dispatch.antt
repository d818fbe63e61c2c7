-- ===== src/Control/Dispatch.antt =====
-- clabgen/s88/CM/base.py: the modules of a node's inputs, in a fixed order.
pub mod Laws
use network_renderer_contain.Prelude.{
  String, Bool, true, false, ◌&&◌, ◌||◌, not, Option, none, some, List, [], ◌∷◌, ◌++◌, map, ◌==◌,
  string_eq, if◌then◌else◌, is_nil, mem, push_new, push_all_new,
}
use network_renderer_contain.Py.Value.{
  Value, null, bool, int, str, arr, obj, nil, end, Fields, find, get, get_or, as_dict, truthy,
  entries, is_null, is_false, is_num,
}
use network_renderer_contain.Py.Result.{
  Result, ok, err, value_error, ◌>>=◌, ◌>>◌, require, or_raise,
}
use network_renderer_contain.Py.Sort.{sorted}
use network_renderer_contain.Control.{empty, forwarding, management_egress_guard}
use network_renderer_contain.Control.Wan.{wan_firewall}
use network_renderer_contain.Control.Nat.{nat}
use network_renderer_contain.Firewall.Policy.{render}

-- The modules of `CM_BY_INPUT`.
pub data Module : Type 0 where
  empty_module forwarding_module wan_firewall_module nat_module firewall_module
        management_egress_module :
      Module

abbrev pub name_of : Module → String
name_of empty_module = "empty"
name_of forwarding_module = "forwarding"
name_of wan_firewall_module = "wan_firewall"
name_of nat_module = "nat"
name_of firewall_module = "firewall"
name_of management_egress_module = "management_egress"

unfoldable pub run_module : Module → Fields → Result (List String)
run_module empty_module input = ok (empty input)
run_module forwarding_module input = ok (forwarding input)
run_module wan_firewall_module input = ok (wan_firewall input)
run_module nat_module input = nat input
run_module firewall_module input = render input
run_module management_egress_module input = management_egress_guard input

abbrev pub find_module : String → List Module → Option Module
find_module name [] = none
find_module name (m ∷ ms) = if name_of m == name then some m else find_module name ms

-- The modules in the order of `INPUT_ORDER`.
abbrev pub all_modules : List Module
all_modules =
    empty_module ∷ forwarding_module ∷ wan_firewall_module ∷ nat_module ∷ firewall_module
    ∷ management_egress_module ∷ []

-- `CM_BY_INPUT.get(name)`
abbrev pub module_of : String → Option Module
module_of name = find_module name all_modules

abbrev pub input_order : List String
input_order = map name_of all_modules

-- The names of `INPUT_ORDER` that the inputs have.
abbrev pub when_found : Option Value → String → List String → List String
when_found none name rest = rest
when_found (some v) name rest = name ∷ rest

abbrev pub known_in : Fields → List String → List String
known_in inputs [] = []
known_in inputs (name ∷ names) = when_found (find name inputs) name (known_in inputs names)

abbrev pub keys : Fields → List String
keys fs = map (λ e. e.0) (entries fs)

-- `_ordered_input_names`
unfoldable pub ordered_input_names : Fields → List String
ordered_input_names inputs = push_all_new (known_in inputs input_order) (sorted (keys inputs))

-- `v in (None, False)`
abbrev is_absent : Value → Bool
is_absent v = is_null v || is_num 0 v

-- `_module_input`
unfoldable pub module_input : String → Fields → Result Fields
module_input name inputs =
    let v = get_or (obj end) name inputs in
    if is_absent v then ok end else or_raise (value_error "CM input must be an object") (as_dict v)

-- `v in ({}, [], None, False)`
abbrev pub is_empty_input : Value → Bool
is_empty_input (obj end) = true
is_empty_input (arr nil) = true
is_empty_input v = is_absent v

-- The body of the loop, where the table has the module and where it has none.
abbrev pub module_commands : Fields → String → Option Module → Result (List String)
module_commands inputs name none = do
  require (is_empty_input (get name inputs)) (value_error "Unsupported CM input")
  ok []
module_commands inputs name (some m) = do input ← module_input name inputs; run_module m input

unfoldable pub input_commands : Fields → String → Result (List String)
input_commands inputs name = module_commands inputs name (module_of name)

unfoldable pub render_names : Fields → List String → Result (List String)
render_names inputs [] = ok []
render_names inputs (name ∷ names) = do
  cmds ← input_commands inputs name
  rest ← render_names inputs names
  ok (cmds ++ rest)

unfoldable pub render_inputs : Fields → Result (List String)
render_inputs inputs = render_names inputs (ordered_input_names inputs)
