-- ===== src/Firewall/Rules/Families.antt =====
-- The prefixes of a rule, split by family: each one goes to exactly one of the two families.
use network_renderer_contain.Prelude.{
  ℕ, suc, ◌+◌, String, ◌≡◌, ◌≢◌, refl, Option, none, some, List, [], ◌∷◌, All, arith, length,
  if◌then◌else◌,
}
use network_renderer_contain.Py.Value.{Value, str, obj, get, text_of}
use network_renderer_contain.Py.Text.{has_sub}
use network_renderer_contain.Py.Ip.{Family, v4, v6, same_family}
use network_renderer_contain.Firewall.CpmRules.{scoped, family_of, prefix_entry, prefixes_in}

-- An entry that says its own family: a text, or an object with a prefix and a family.
abbrev pub IsScoped : Value → Type 0
IsScoped (str s) = Unit
IsScoped (obj fs) = (text_of (get "prefix" fs) ≢ none) × (family_of (get "family" fs) ≢ none)
IsScoped _ = ⊥

-- The entry of such a value does not depend on the rule's family.
count_one :
    {n : ℕ} (p : String) (f : Family) (ps qs : List String)
    → length ps + length qs ≡ n
    → length (if same_family f v4 then p ∷ ps else ps)
        + length (if same_family f v6 then p ∷ qs else qs)
      ≡ suc n
count_one p v4 ps qs h = omega arith
count_one p v6 ps qs h = omega arith

entry_of_object :
    (prefix : Option String) (family : Option Family)
    → prefix ≢ none
    → family ≢ none
    → (p : String) × (f : Family) × (scoped v4 prefix family ≡ some (p, f))
      × (scoped v6 prefix family ≡ some (p, f))
entry_of_object none family h k = absurd (h refl)
entry_of_object (some p) none h k = absurd (k refl)
entry_of_object (some p) (some f) h k = (p, f, refl, refl)

entry_of_scoped :
    (v : Value)
    → IsScoped v
    → (p : String) × (f : Family) × (prefix_entry v4 v ≡ some (p, f))
      × (prefix_entry v6 v ≡ some (p, f))
unfolding prefix_entry
entry_of_scoped (str s) h = (s, if has_sub ":" s then v6 else v4, refl, refl)
entry_of_scoped (obj fs) (h, k) =
    entry_of_object (text_of (get "prefix" fs)) (family_of (get "family" fs)) h k
entry_of_scoped _ h = absurd h

-- Of entries that each say their family, every one is a prefix of exactly one of the two families:
-- the two lists together are as long as the list of the entries.
pub prefixes_partition :
    (vs : List Value)
    → All IsScoped vs
    → length (prefixes_in v4 vs) + length (prefixes_in v6 vs) ≡ length vs
unfolding prefixes_in
prefixes_partition [] h = refl
prefixes_partition (v ∷ vs) (h, hs) =
    let (p, f, e4, e6) = entry_of_scoped v h in
    rw (e4, e6) (count_one p f (prefixes_in v4 vs) (prefixes_in v6 vs) (prefixes_partition vs hs))
