-- ===== src/Control/Dispatch/Laws.antt =====
-- The order of the modules' commands.
use mathlib.Core.Path.{subst}
use mathlib.Core.List.{append_assoc, append-nil}
use network_renderer_contain.Prelude.{
  String, ◌≡◌, refl, sym, ap, ◌∙◌, true, false, Option, none, some, List, [], ◌∷◌, ◌++◌, map, ◌==◌,
  string_eq, mem, push_all_new, mem-push_all_new, Bool-cases, Option-cases, arith, inl, inr, eq_iff,
  eq_refl, All, All-map_imp, All-of, All-mem, mem-append, ◌↔◌, ◌⊎◌,
}
use network_renderer_contain.Py.Value.{Value, Fields, find, end, field, get}
use network_renderer_contain.Py.Result.{
  Result, ok, err, value_error, ◌>>=◌, >>=-eq-ok, require, require-eq-ok,
}
use network_renderer_contain.Py.Sort.{sorted, mem-sorted}
use network_renderer_contain.Control.Dispatch.{
  Module, name_of, find_module, all_modules, module_of, input_order, known_in, keys, is_empty_input,
  module_commands, ordered_input_names, input_commands, render_names, render_inputs,
}

abbrev pub when_present : Option Value → Result (List String) → Result (List String)
when_present none cmds = ok []
when_present (some v) cmds = cmds

-- The commands of one module: none where the inputs do not have it.
abbrev pub commands_of : Fields → Module → Result (List String)
commands_of inputs m = when_present (find (name_of m) inputs) (input_commands inputs (name_of m))

-- The commands of some modules, in their order.
unfoldable pub commands_of_all : Fields → List Module → Result (List String)
commands_of_all inputs [] = ok []
commands_of_all inputs (m ∷ ms) = do
  cmds ← commands_of inputs m
  rest ← commands_of_all inputs ms
  ok (cmds ++ rest)

unit_left : (r : Result (List String)) → r ≡ (ok [] >>= λ cmds. r >>= λ rest. ok (cmds ++ rest))
unit_left (ok rest) = refl
unit_left (err e) = refl

chain_assoc :
    (r s t : Result (List String))
    → (r >>= λ cmds. (s >>= λ a. t >>= λ b. ok (a ++ b)) >>= λ rest. ok (cmds ++ rest))
      ≡ ((r >>= λ cmds. s >>= λ rest. ok (cmds ++ rest)) >>= λ a. t >>= λ b. ok (a ++ b))
chain_assoc (ok r) (ok s) (ok t) = ap ok (sym (append_assoc r s t))
chain_assoc (ok r) (ok s) (err e) = refl
chain_assoc (ok r) (err e) t = refl
chain_assoc (err e) s t = refl

-- The names of a list of modules that the inputs have give the commands of the modules.
render_names-known :
    (inputs : Fields) (ms : List Module)
    → render_names inputs (known_in inputs (map name_of ms)) ≡ commands_of_all inputs ms
unfolding render_names commands_of_all
render_names-known inputs [] = refl
render_names-known inputs (m ∷ ms) = elim (Option-cases (find (name_of m) inputs)) [
  | inl e ↦ rw (e, render_names-known inputs ms) (unit_left (commands_of_all inputs ms))
  | inr (v, e) ↦ rw (e, render_names-known inputs ms) refl
]

render_names-append :
    (inputs : Fields) (xs ys : List String)
    → render_names inputs (xs ++ ys)
      ≡ (render_names inputs xs >>= λ a. render_names inputs ys >>= λ b. ok (a ++ b))
unfolding render_names
render_names-append inputs [] ys = unit_left (render_names inputs ys)
render_names-append inputs (x ∷ xs) ys =
    rw (render_names-append inputs xs ys)
      (chain_assoc (input_commands inputs x) (render_names inputs xs) (render_names inputs ys))

-- What the loop adds to a list: elements that it does not have yet.
abbrev IsExtra : List String → List String → String → Type 0
IsExtra out xs x = (mem x out ≡ false) × (mem x xs ≡ true)

push_all_new-IsExtra :
    (out xs : List String)
    → (extra : List String) × (push_all_new out xs ≡ out ++ extra) × All (IsExtra out xs) extra
push_all_new-IsExtra out [] = ([], sym (append-nil out), tt)
push_all_new-IsExtra out (x ∷ xs) = elim (Bool-cases (mem x out)) [
  | inl old ↦
      let (extra, e, each) = push_all_new-IsExtra out xs in
      (
        extra,
        rw old e,
        All-map_imp (IsExtra out xs) (IsExtra out (x ∷ xs)) (λ y (n, h). (n, ground (arith, h)))
            extra each,
      )
  | inr new ↦
      let (extra, e, each) = push_all_new-IsExtra (out ++ x ∷ []) xs in
      (
        x ∷ extra,
        rw new (e ∙ append_assoc out (x ∷ []) extra),
        (
          (new, rw (eq_refl x) refl),
          All-map_imp (IsExtra (out ++ x ∷ []) xs) (IsExtra out (x ∷ xs))
              (λ y (n, h). (ground (arith, n, mem-append y out (x ∷ [])), ground (arith, h))) extra
              each,
        ),
      )
]

find_module-name :
    (name : String) (ms : List Module) (m : Module)
    → find_module name ms ≡ some m
    → mem name (map name_of ms) ≡ true
find_module-name name [] m h = cc
find_module-name name (x ∷ xs) m h =
    ground (arith, find_module-name name xs m, eq_iff (name_of x) name, eq_iff name (name_of x))

known_in-mem :
    (inputs : Fields) (name : String) (names : List String) (v : Value)
    → find name inputs ≡ some v
    → mem name names ≡ true
    → mem name (known_in inputs names) ≡ true
known_in-mem inputs name [] v e h = cc
known_in-mem inputs name (n ∷ ns) v e h = elim (Bool-cases (name == n)) [
  | inl same ↦ rw (← (eq_iff name n).0 same, e, eq_refl name) refl
  | inr other ↦ elim (Option-cases (find n inputs)) [
    | inl lost ↦ rw lost (known_in-mem inputs name ns v e (rw other at h))
    | inr (w, found) ↦ rw (found, other) (known_in-mem inputs name ns v e (rw other at h))
  ]
]

keys-find :
    (name : String) (fs : Fields)
    → mem name (keys fs) ≡ true
    → (v : Value) × (find name fs ≡ some v)
keys-find name end h = cc
keys-find name (field k v fs) h = elim (Bool-cases (k == name)) [
  | inl same ↦ (v, rw same refl)
  | inr other ↦
      let (w, e) = keys-find name fs (ground (arith, h, eq_iff name k, eq_iff k name)) in
      (w, rw other e)
]

-- An input that a module takes, or that asks for nothing.
abbrev pub IsServed : Fields → String → Type 0
IsServed inputs name =
    ((m : Module) × (module_of name ≡ some m)) ⊎ (is_empty_input (get name inputs) ≡ true)

unmatched :
    (inputs : Fields) (name : String) (o : Option Module) (out : List String)
    → module_commands inputs name o ≡ ok out
    → ((m : Module) × (o ≡ some m)) ⊎ (is_empty_input (get name inputs) ≡ true)
unmatched inputs name none out h =
    let (u, e, _) =
      >>=-eq-ok (require (is_empty_input (get name inputs)) (value_error "Unsupported CM input")) _
        h in
    inr (require-eq-ok _ _ u e)
unmatched inputs name (some m) out h = inl (m, refl)

render_names-IsServed :
    (inputs : Fields) (names : List String) (out : List String) (name : String)
    → render_names inputs names ≡ ok out
    → mem name names ≡ true
    → IsServed inputs name
unfolding render_names input_commands
render_names-IsServed inputs [] out name h here = cc
render_names-IsServed inputs (x ∷ xs) out name h here =
    let (cmds, ec, h₁) = >>=-eq-ok (input_commands inputs x) _ h in
    let (rest, er, _) = >>=-eq-ok (render_names inputs xs) _ h₁ in
    elim (Bool-cases (name == x)) [
      | inl same ↦
          subst (IsServed inputs) (sym ((eq_iff name x).0 same))
            (unmatched inputs x (module_of x) cmds ec)
      | inr other ↦ render_names-IsServed inputs xs rest name er (rw other at here)
    ]

no_module :
    (inputs : Fields) (name : String)
    → IsExtra (known_in inputs input_order) (sorted (keys inputs)) name
    → module_of name ≡ none
no_module inputs name (unknown, listed) = elim (Option-cases (module_of name)) [
  | inl e ↦ e
  | inr (m, e) ↦
      let (v, found) = keys-find name inputs (sym (mem-sorted name (keys inputs)) ∙ listed) in
      let known =
        known_in-mem inputs name input_order v found (find_module-name name all_modules m e) in
      absurd (ground (arith, known, unknown))
]

-- The names that no module has, where what they hold is empty, give no commands.
render_names-extra :
    (inputs : Fields) (names : List String)
    → All (λ name. (module_of name ≡ none) × (is_empty_input (get name inputs) ≡ true)) names
    → render_names inputs names ≡ ok []
unfolding render_names input_commands
render_names-extra inputs [] h = refl
render_names-extra inputs (x ∷ xs) ((none_of, is_empty), hs) =
    rw (none_of, is_empty, render_names-extra inputs xs hs) refl

unit_right : (r : Result (List String)) → (r >>= λ a. ok (a ++ [])) ≡ r
unit_right (ok a) = ap ok (append-nil a)
unit_right (err e) = refl

option_apart : {m : Module} → none ≡ some m → ⊥
option_apart h = cc

extra_empty :
    (inputs : Fields)
    → All (IsServed inputs) (keys inputs)
    → (x : String) → IsExtra (known_in inputs input_order) (sorted (keys inputs)) x
    → (module_of x ≡ none) × (is_empty_input (get x inputs) ≡ true)
extra_empty inputs served x (unknown, listed) =
    let none_of = no_module inputs x (unknown, listed) in
    elim (All-mem (IsServed inputs) x (keys inputs) served
      (sym (mem-sorted x (keys inputs)) ∙ listed)) [
        | inl (m, e) ↦ absurd (option_apart (sym none_of ∙ e))
        | inr is_empty ↦ (none_of, is_empty)
      ]

render_inputs-known :
    (inputs : Fields)
    → All (IsServed inputs) (keys inputs)
    → render_inputs inputs ≡ commands_of_all inputs all_modules
unfolding render_inputs ordered_input_names
render_inputs-known inputs served =
    let known = known_in inputs input_order in
    let (extra, e, each) = push_all_new-IsExtra known (sorted (keys inputs)) in
    let nothing = render_names-extra inputs extra (
      All-map_imp (IsExtra known (sorted (keys inputs)))
        (λ name. (module_of name ≡ none) × (is_empty_input (get name inputs) ≡ true))
        (extra_empty inputs served) extra each) in
    ap (render_names inputs) e
    ∙ render_names-append inputs known extra
    ∙ ap (λ r. render_names inputs known >>= λ a. r >>= λ b. ok (a ++ b)) nothing
    ∙ unit_right (render_names inputs known)
    ∙ render_names-known inputs all_modules

-- The inputs are rendered to some commands exactly when each name is a module's or holds nothing
-- and the commands are those of the modules that are named, one after the other in the fixed order,
-- whatever the order of the names in the inputs.
pub render_inputs-in_order :
    (inputs : Fields) (out : List String)
    → (render_inputs inputs ≡ ok out)
      ↔ ((commands_of_all inputs all_modules ≡ ok out) × All (IsServed inputs) (keys inputs))
unfolding render_inputs ordered_input_names
render_inputs-in_order inputs out = (
  λ h.
      let served = All-of (IsServed inputs) (keys inputs) (λ name here.
        render_names-IsServed inputs
          (push_all_new (known_in inputs input_order) (sorted (keys inputs))) out name h
          (mem-push_all_new name (known_in inputs input_order) (sorted (keys inputs))
            ∙ ground (arith, mem-sorted name (keys inputs), here))) in
      (sym (render_inputs-known inputs served) ∙ h, served),
  λ (h, served). render_inputs-known inputs served ∙ h,
)
