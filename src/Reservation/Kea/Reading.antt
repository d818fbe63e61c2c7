-- ===== src/Reservation/Kea/Reading.antt =====
-- The reservations that a source document holds.
use network_renderer_contain.Prelude.{
  String, true, not, ◌≡◌, Option, some, List, [], ◌∷◌, ◌++◌, map, ◌==◌, string_eq, all_distinct,
}
use network_renderer_contain.Py.Value.{Value, Fields, as_dict, as_str, get, is_str}
use network_renderer_contain.Py.Result.{ok}
use network_renderer_contain.Py.Ip.{Family, Network, contains}
use network_renderer_contain.Py.Ip.Parse.{print}
use network_renderer_contain.Reservation.{has_only, Pool, Identity, schema_fields}
use network_renderer_contain.Reservation.Kea.{Emitted, identity_of, checked_hostname, add_record}

-- A reservation that a record describes.
pub record Reserved : Type 0 where
  pub handle : String
  pub identity : Identity
  pub hostname : Option String

-- The record describes this reservation of the scope in the network.
pub record IsRead (family : Family) (scope : String) (network : Network) (entry : Value)
    (r : Reserved) : Type 0 where
  pub fields : Fields
  pub is_dict : as_dict entry ≡ some fields
  pub known : has_only schema_fields fields ≡ true
  pub id : as_str (get "id" fields) ≡ some r.handle
  pub id_filled : not (r.handle == "") ≡ true
  pub in_scope : is_str scope (get "scope" fields) ≡ true
  pub named : checked_hostname (get "hostname" fields) ≡ ok r.hostname
  pub identified : identity_of family fields ≡ ok r.identity
  pub inside : contains network r.identity.address ≡ true

abbrev pub AllRead : Family → String → Network → List Value → List Reserved → Type 0
AllRead f s n [] [] = Unit
AllRead f s n (v ∷ vs) (r ∷ rs) = IsRead f s n v r × AllRead f s n vs rs
AllRead f s n _ _ = ⊥

-- The emission of a list of reservations.
unfoldable pub add_all : Family → Pool → List Reserved → Emitted → Emitted
add_all family pool [] e = e
add_all family pool (r ∷ rs) e =
    add_all family pool rs (add_record family pool r.handle r.identity r.hostname e)

abbrev pub handle_of : Reserved → String
handle_of r = r.handle

abbrev pub name_of : Reserved → String
name_of r = r.identity.name

abbrev pub text_of : Reserved → String
text_of r = print r.identity.address

-- No handle, no identity and no address is one that came before.
pub record AreDistinct (e : Emitted) (rs : List Reserved) : Type 0 where
  pub handles : all_distinct (e.ids ++ map handle_of rs) ≡ true
  pub names : all_distinct (e.identities ++ map name_of rs) ≡ true
  pub texts : all_distinct (e.addresses ++ map text_of rs) ≡ true
