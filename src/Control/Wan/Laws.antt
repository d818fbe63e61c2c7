-- ===== src/Control/Wan/Laws.antt =====
-- The filters of the WAN interfaces: the tables are emptied once, before every rule, and every
-- interface that is named has its own filters.
use mathlib.Core.List.{append_assoc, append-nil}
use network_renderer_contain.Prelude.{
  String, ◌≡◌, refl, sym, ap, ◌∙◌, Bool, true, false, some, List, [], ◌∷◌, ◌++◌, ◌==◌, string_eq,
  mem, mem-append, Has, All, All-map_imp, Option-cases, Bool-cases, arith, inl, inr, eq_refl,
  eq_iff,
}
use network_renderer_contain.Py.Value.{Value, arr, nil, Fields, get_or, as_list, text_of}
use network_renderer_contain.Control.{texts_in}
use network_renderer_contain.Control.Wan.{
  tables, later_filter, base_rules, base_filter, Filtered, filter_interface, filter_all,
  masquerade_of, nat4_commands, nat6_commands, wan_commands, wan_commands_of, wan_firewall,
  snat_action,
}

-- The filters of all interfaces but the first.
pub later_filters : List String → List String
later_filters [] = []
later_filters (w ∷ ws) = later_filter w ++ later_filters ws

-- The base, which empties the tables, for the first interface only.
pub all_filters : List String → List String
all_filters [] = []
all_filters (w ∷ ws) = base_filter w ++ later_filters ws

abbrev filters_from : Bool → List String → List String
filters_from true ws = all_filters ws
filters_from false ws = later_filters ws

step :
    (s : Filtered) (w : String) (ws : List String)
    → (filter_interface s w).cmds ++ later_filters ws ≡ s.cmds ++ filters_from s.first (w ∷ ws)
unfolding filter_interface all_filters later_filters
step s w ws = elim (Bool-cases s.first) [
  | inl f ↦ rw f (append_assoc s.cmds (base_filter w) (later_filters ws))
  | inr f ↦ rw f (append_assoc s.cmds (later_filter w) (later_filters ws))
]

filter_all-eq :
    (s : Filtered) (vs : List Value)
    → (filter_all s vs).cmds ≡ s.cmds ++ filters_from s.first (texts_in vs)
unfolding filter_all filter_interface all_filters later_filters
filter_all-eq s [] = elim (Bool-cases s.first) [
  | inl e ↦ rw e (sym (append-nil s.cmds))
  | inr e ↦ rw e (sym (append-nil s.cmds))
]
filter_all-eq s (v ∷ vs) = elim (Option-cases (text_of v)) [
  | inl e ↦ rw (e, filter_all) (filter_all-eq s vs)
  | inr (w, e) ↦
      rw (e, filter_all) (filter_all-eq (filter_interface s w) vs ∙ step s w (texts_in vs))
]

module _ (c : String) where
  mem-left : (xs ys : List String) → mem c xs ≡ true → mem c (xs ++ ys) ≡ true
  mem-left xs ys h = ground (arith, mem-append c xs ys, h)

  mem-right : (xs ys : List String) → mem c ys ≡ true → mem c (xs ++ ys) ≡ true
  mem-right xs ys h = ground (arith, mem-append c xs ys, h)

-- Each of some commands is among others.
abbrev pub Within : List String → List String → Type 0
Within cs out = All (λ c. mem c out ≡ true) cs

Within-left : (cs xs ys : List String) → Within cs xs → Within cs (xs ++ ys)
Within-left cs xs ys h =
    All-map_imp (λ c. mem c xs ≡ true) (λ c. mem c (xs ++ ys) ≡ true) (λ c m. mem-left c xs ys m) cs
      h

Within-right : (cs xs ys : List String) → Within cs ys → Within cs (xs ++ ys)
Within-right cs xs ys h =
    All-map_imp (λ c. mem c ys ≡ true) (λ c. mem c (xs ++ ys) ≡ true) (λ c m. mem-right c xs ys m)
      cs h

Within-cons : (c : String) (cs xs : List String) → Within cs xs → Within cs (c ∷ xs)
Within-cons c cs xs h = Within-right cs (c ∷ []) xs h

-- A list that another one has in its order.
data Sub : List String → List String → Type 0 where
  done : Sub [] []
  taken : {c : String} {cs xs : List String} → Sub cs xs → Sub (c ∷ cs) (c ∷ xs)
  passed : {x : String} {cs xs : List String} → Sub cs xs → Sub cs (x ∷ xs)

take : (c : String) (cs xs : List String) → Within cs xs → Within (c ∷ cs) (c ∷ xs)
take c cs xs h = (rw (eq_refl c) refl, Within-cons c cs xs h)

Sub-Within : (cs xs : List String) → Sub cs xs → Within cs xs
Sub-Within _ _ done = tt
Sub-Within (c ∷ cs) (_ ∷ xs) (taken s) = take c cs xs (Sub-Within cs xs s)
Sub-Within cs (x ∷ xs) (passed s) = Within-cons x cs xs (Sub-Within cs xs s)

Within-refl : (cs : List String) → Within cs cs
Within-refl [] = tt
Within-refl (c ∷ cs) = take c cs cs (Within-refl cs)

later_filters-Within :
    (w : String) (ws : List String) → mem w ws ≡ true → Within (later_filter w) (later_filters ws)
unfolding later_filters
later_filters-Within w [] h = cc
later_filters-Within w (x ∷ xs) h = elim (Bool-cases (w == x)) [
  | inl same ↦ rw ((eq_iff w x).0 same) (
      Within-left (later_filter x) (later_filter x) (later_filters xs)
        (Within-refl (later_filter x)))
  | inr other ↦
      Within-right (later_filter w) (later_filter x) (later_filters xs)
        (later_filters-Within w xs (rw other at h))
]

-- The base has the filters of its interface among its commands.
base_filter-Within : (w : String) → Within (later_filter w) (base_filter w)
unfolding later_filter base_filter base_rules
base_filter-Within w = Within-right (later_filter w) tables (base_rules w) (
    Sub-Within (later_filter w) (base_rules w)
      (taken (taken (taken (passed (passed (taken (taken (passed (passed (taken done)))))))))))

-- Every interface that is named has its filters among the commands.
all_filters-Within :
    (w : String) (ws : List String) → mem w ws ≡ true → Within (later_filter w) (all_filters ws)
unfolding all_filters
all_filters-Within w [] h = cc
all_filters-Within w (x ∷ xs) h = elim (Bool-cases (w == x)) [
  | inl same ↦
      rw ((eq_iff w x).0 same)
        (Within-left (later_filter x) (base_filter x) (later_filters xs) (base_filter-Within x))
  | inr other ↦
      Within-right (later_filter w) (base_filter x) (later_filters xs)
        (later_filters-Within w xs (rw other at h))
]

texts_in-mem :
    (v : Value) (w : String) (vs : List Value)
    → text_of v ≡ some w
    → Has v vs
    → mem w (texts_in vs) ≡ true
texts_in-mem v w [] e here = absurd here
texts_in-mem v w (x ∷ xs) e (inl same) = rw (same, e) (rw (eq_refl w) refl)
texts_in-mem v w (x ∷ xs) e (inr later) = elim (Option-cases (text_of x)) [
  | inl none_there ↦ rw none_there (texts_in-mem v w xs e later)
  | inr (t, there) ↦ rw there (ground (arith, texts_in-mem v w xs e later))
]

-- Where some WAN interfaces are listed, the commands are the filters of those that are named, of
-- which only the first one's empty the tables, and then the address translation.
pub wan_firewall-filters :
    (input : Fields) (v : Value) (vs : List Value)
    → as_list (get_or (arr nil) "wan_interfaces" input) ≡ some (v ∷ vs)
    → wan_firewall input
      ≡ all_filters (texts_in (v ∷ vs))
        ++ (nat4_commands (masquerade_of input) (snat_action (masquerade_of input).snat_ip)
            ++ nat6_commands (masquerade_of input))
unfolding wan_firewall wan_commands
wan_firewall-filters input v vs h =
    let m = masquerade_of input in
    ap (wan_commands_of m) h
    ∙ ap (λ cs. cs ++ (nat4_commands m (snat_action m.snat_ip) ++ nat6_commands m))
        (filter_all-eq (record { first = true; cmds = [] }) (v ∷ vs))

-- Every WAN interface that is listed by a name has its own six filters among the commands.
pub wan_firewall-Within :
    (input : Fields) (v : Value) (vs : List Value) (w : String)
    → as_list (get_or (arr nil) "wan_interfaces" input) ≡ some vs
    → Has v vs
    → text_of v ≡ some w
    → Within (later_filter w) (wan_firewall input)
wan_firewall-Within input v [] w h here e = absurd here
wan_firewall-Within input v (u ∷ us) w h here e =
    let m = masquerade_of input in
    let nat = nat4_commands m (snat_action m.snat_ip) ++ nat6_commands m in
    rw (wan_firewall-filters input u us h) (
      Within-left (later_filter w) (all_filters (texts_in (u ∷ us))) nat
        (all_filters-Within w (texts_in (u ∷ us)) (texts_in-mem v w (u ∷ us) e here)))
