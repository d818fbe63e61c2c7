-- ===== src/Py/Value.antt =====
-- The values of a parsed JSON document, as the Python code handles them: `dict.get`, truth, `==`,
-- and the `isinstance` tests. Numbers are integers. A document's keys are distinct.
use network_renderer_contain.Prelude.{
  ℕ, zero, suc, String, Bool, true, false, ◌&&◌, not, Option, none, some, List, [], ◌∷◌, ◌==◌,
  nat_eq, string_eq, if◌then◌else◌,
}

-- `negsuc n` is -(n + 1).
pub data ℤ : Type 0 where
  pos : ℕ → ℤ
  negsuc : ℕ → ℤ

mutual
  pub data Value : Type 0 where
    null : Value
    bool : Bool → Value
    int : ℤ → Value
    str : String → Value
    arr : Items → Value
    obj : Fields → Value

  pub data Fields : Type 0 where
    field : String → Value → Fields → Fields
    end : Fields

  pub data Items : Type 0 where
    cons : Value → Items → Items
    nil : Items

-- The members of an array, as a list.
abbrev pub elems : Items → List Value
elems nil = []
elems (cons v vs) = v ∷ elems vs

-- `d.items()`
abbrev pub entries : Fields → List (String × Value)
entries end = []
entries (field k v fs) = (k, v) ∷ entries fs

abbrev pub find : String → Fields → Option Value
find k end = none
find k (field j v fs) = if j == k then some v else find k fs

abbrev pub or_else {ℓ} : {A : Type ℓ} → A → Option A → A
or_else d none = d
or_else d (some v) = v

-- `d.get(k, default)` and `d.get(k)`
abbrev pub get_or : Value → String → Fields → Value
get_or d k fs = or_else d (find k fs)

abbrev pub get : String → Fields → Value
get k fs = get_or null k fs

-- `bool(v)`
abbrev pub truthy : Value → Bool
truthy null = false
truthy (bool b) = b
truthy (int (pos zero)) = false
truthy (int _) = true
truthy (str s) = not (s == "")
truthy (arr nil) = false
truthy (arr (cons v vs)) = true
truthy (obj end) = false
truthy (obj (field k v fs)) = true

-- `isinstance(v, str)` and the like; a Boolean is an `int` in Python.
abbrev pub as_str : Value → Option String
as_str (str s) = some s
as_str _ = none

abbrev pub as_list : Value → Option (List Value)
as_list (arr xs) = some (elems xs)
as_list _ = none

abbrev pub as_dict : Value → Option Fields
as_dict (obj fs) = some fs
as_dict _ = none

abbrev pub as_int : Value → Option ℤ
as_int (int n) = some n
as_int (bool true) = some (pos 1)
as_int (bool false) = some (pos 0)
as_int _ = none

-- `isinstance(v, str) and v`
abbrev pub text_of : Value → Option String
text_of (str s) = if s == "" then none else some s
text_of _ = none

abbrev pub is_str : String → Value → Bool
is_str t (str s) = s == t
is_str t _ = false

abbrev pub is_null : Value → Bool
is_null null = true
is_null _ = false

-- `v is True`, `v is False`
abbrev pub is_true : Value → Bool
is_true (bool true) = true
is_true _ = false

abbrev pub is_false : Value → Bool
is_false (bool false) = true
is_false _ = false

abbrev pub int_eq : ℤ → ℤ → Bool
int_eq (pos a) (pos b) = a == b
int_eq (negsuc a) (negsuc b) = a == b
int_eq _ _ = false

-- `v == n` for a number n
abbrev pub is_num : ℕ → Value → Bool
is_num n (int (pos m)) = m == n
is_num n (bool true) = 1 == n
is_num n (bool false) = 0 == n
is_num n _ = false

-- `v == w`: numbers by value, a Boolean as a number, objects without regard to order
abbrev same_scalar : Value → Value → Bool
same_scalar null null = true
same_scalar (str s) (str t) = s == t
same_scalar (int m) w = elim (as_int w) [ none ↦ false | some n ↦ int_eq m n ]
same_scalar (bool true) w = elim (as_int w) [ none ↦ false | some n ↦ int_eq (pos 1) n ]
same_scalar (bool false) w = elim (as_int w) [ none ↦ false | some n ↦ int_eq (pos 0) n ]
same_scalar _ _ = false

abbrev size_of : Fields → ℕ
size_of end = 0
size_of (field k v fs) = suc (size_of fs)

unfoldable mutual
  pub same : Value → Value → Bool
  same (arr xs) (arr ys) = same_items xs ys
  same (arr xs) _ = false
  same (obj fs) (obj gs) = size_of fs == size_of gs && same_fields fs gs
  same (obj fs) _ = false
  same v w = same_scalar v w

  pub same_items : Items → Items → Bool
  same_items nil nil = true
  same_items nil (cons w ws) = false
  same_items (cons v vs) nil = false
  same_items (cons v vs) (cons w ws) = same v w && same_items vs ws

  pub same_fields : Fields → Fields → Bool
  same_fields end gs = true
  same_fields (field k v fs) gs =
      elim (find k gs) [ none ↦ false | some w ↦ same v w ] && same_fields fs gs

-- `fs[key] = v`
unfoldable pub set_item : String → Value → Fields → Fields
set_item key v end = field key v end
set_item key v (field k w fs) = if k == key then field k v fs else field k w (set_item key v fs)
