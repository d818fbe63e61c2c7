-- ===== src/Reservation/Kea/Records.antt =====
-- Which reservations a source document holds, and that exactly these are emitted.
use mathlib.Core.List.{append_assoc, append-nil}
use network_renderer_contain.Prelude.{
  String, true, false, not, ◌&&◌, ◌≡◌, ◌↔◌, refl, ap, sym, ◌∙◌, some, List, [], ◌∷◌, map, ◌==◌,
  string_eq, mem, all_distinct, &&-eq-true, not-eq-true, distinct-append_fresh,
  all_distinct-append_one,
}
use network_renderer_contain.Py.Value.{Value, as_dict, as_str, get, is_str}
use network_renderer_contain.Py.Result.{
  ok, value_error, require, or_raise, >>=-eq-ok, ok_inj, or_raise-eq-ok, require-eq-ok,
}
use network_renderer_contain.Py.Ip.{Family, same_family, Network, contains}
use network_renderer_contain.Py.Ip.Parse.{ip_network, print}
use network_renderer_contain.Reservation.{rejected, has_only, Pool, reservation_pool, schema_fields}
use network_renderer_contain.Reservation.Kea.{
  Emitted, emitted_nothing, identity_of, checked_hostname, add_record, emit, emit_all, sources,
  materialize_records,
}
use network_renderer_contain.Reservation.Kea.Reading.{
  Reserved, IsRead, AllRead, add_all, handle_of, name_of, text_of, AreDistinct,
}

module _ (family : Family) (scope : String) (network : Network) (pool : Pool) where
  abbrev after : Reserved → Emitted → Emitted
  after r e = add_record family pool r.handle r.identity r.hostname e

  -- What the loop's body does with a record that it accepts.
  record IsEmitted (v : Value) (e : Emitted) (out : Emitted) (r : Reserved) : Type 0 where
    is_read : IsRead family scope network v r
    new_id : mem r.handle e.ids ≡ false
    new_name : mem r.identity.name e.identities ≡ false
    new_text : mem (print r.identity.address) e.addresses ≡ false
    added : out ≡ add_record family pool r.handle r.identity r.hostname e

  emit-IsEmitted :
      (v : Value) (e out : Emitted)
      → emit family scope network pool v e ≡ ok out
      → (r : Reserved) × IsEmitted v e out r
  unfolding emit
  emit-IsEmitted v e out h =
      let (fs, dict, h₁) = >>=-eq-ok (or_raise rejected (as_dict v)) _ h in
      let (_, known, h₂) = >>=-eq-ok (require (has_only schema_fields fs) rejected) _ h₁ in
      let (handle, id, h₃) = >>=-eq-ok (or_raise rejected (as_str (get "id" fs))) _ h₂ in
      let (_, new_id, h₄) =
        >>=-eq-ok (require (not (handle == "") && not (mem handle e.ids)) rejected) _ h₃ in
      let (_, in_scope, h₅) = >>=-eq-ok (require (is_str scope (get "scope" fs)) rejected) _ h₄ in
      let (hostname, named, h₆) = >>=-eq-ok (checked_hostname (get "hostname" fs)) _ h₅ in
      let (i, identified, h₇) = >>=-eq-ok (identity_of family fs) _ h₆ in
      let (_, inside, h₈) = >>=-eq-ok (require (contains network i.address) rejected) _ h₇ in
      let (_, new, h₉) =
        >>=-eq-ok
          (require (not (mem i.name e.identities) && not (mem (print i.address) e.addresses))
            rejected)
          _ h₈ in
      let fresh_id = &&-eq-true _ _ (require-eq-ok _ rejected _ new_id) in
      let fresh = &&-eq-true _ _ (require-eq-ok _ rejected _ new) in
      (
        record { handle = handle; identity = i; hostname = hostname },
        record {
          is_read = record {
            fields = fs;
            is_dict = or_raise-eq-ok rejected _ _ dict;
            known = require-eq-ok _ rejected _ known;
            id = or_raise-eq-ok rejected _ _ id;
            id_filled = fresh_id.0;
            in_scope = require-eq-ok _ rejected _ in_scope;
            named = named;
            identified = identified;
            inside = require-eq-ok _ rejected _ inside;
          };
          new_id = not-eq-true _ fresh_id.1;
          new_name = not-eq-true _ fresh.0;
          new_text = not-eq-true _ fresh.1;
          added = sym (ok_inj _ _ h₉);
        },
      )

  emit_of_IsEmitted :
      (v : Value) (e out : Emitted) (r : Reserved)
      → IsEmitted v e out r
      → emit family scope network pool v e ≡ ok out
  unfolding emit
  emit_of_IsEmitted v e out r m =
      let i = m.is_read in
      rw
        (
          i.is_dict, i.known, i.id, i.id_filled, m.new_id, i.in_scope, i.named, i.identified,
          i.inside, m.new_name, m.new_text,
        )
        (ap ok (sym m.added))

  distinct_after :
      (e : Emitted) (r : Reserved) (rs : List Reserved)
      → AreDistinct e (r ∷ rs)
      → AreDistinct (after r e) rs
  unfolding add_record
  distinct_after e r rs d = record {
    handles = ap all_distinct (append_assoc e.ids (r.handle ∷ []) (map handle_of rs)) ∙ d.handles;
    names =
        ap all_distinct (append_assoc e.identities (r.identity.name ∷ []) (map name_of rs))
        ∙ d.names;
    texts = ap all_distinct (append_assoc e.addresses (text_of r ∷ []) (map text_of rs)) ∙ d.texts;
  }

  distinct_before :
      (e : Emitted) (r : Reserved) (rs : List Reserved)
      → AreDistinct (after r e) rs
      → AreDistinct e (r ∷ rs)
  unfolding add_record
  distinct_before e r rs d = record {
    handles =
        ap all_distinct (sym (append_assoc e.ids (r.handle ∷ []) (map handle_of rs))) ∙ d.handles;
    names =
        ap all_distinct (sym (append_assoc e.identities (r.identity.name ∷ []) (map name_of rs)))
        ∙ d.names;
    texts =
        ap all_distinct (sym (append_assoc e.addresses (text_of r ∷ []) (map text_of rs)))
        ∙ d.texts;
  }

  -- What the loop has emitted holds nothing twice.
  record IsClean (e : Emitted) : Type 0 where
    ids : all_distinct e.ids ≡ true
    identities : all_distinct e.identities ≡ true
    addresses : all_distinct e.addresses ≡ true

  after-IsClean :
      (v : Value) (e out : Emitted) (r : Reserved)
      → IsClean e
      → IsEmitted v e out r
      → IsClean (after r e)
  unfolding add_record
  after-IsClean v e out r c m = record {
    ids = all_distinct-append_one e.ids r.handle c.ids m.new_id;
    identities = all_distinct-append_one e.identities r.identity.name c.identities m.new_name;
    addresses = all_distinct-append_one e.addresses (text_of r) c.addresses m.new_text;
  }

  clean-AreDistinct : (e : Emitted) → IsClean e → AreDistinct e []
  clean-AreDistinct e c = record {
    handles = ap all_distinct (append-nil e.ids) ∙ c.ids;
    names = ap all_distinct (append-nil e.identities) ∙ c.identities;
    texts = ap all_distinct (append-nil e.addresses) ∙ c.addresses;
  }

  -- The reservations that a list of records describes, and what they are emitted as.
  abbrev pub IsEmission : List Value → Emitted → Emitted → List Reserved → Type 0
  IsEmission vs e out rs =
      AllRead family scope network vs rs × AreDistinct e rs × (out ≡ add_all family pool rs e)

  emit_all-IsEmission :
      (vs : List Value) (e out : Emitted)
      → IsClean e
      → emit_all family scope network pool vs e ≡ ok out
      → (rs : List Reserved) × IsEmission vs e out rs
  unfolding emit_all add_all
  emit_all-IsEmission [] e out c h = ([], (tt, clean-AreDistinct e c, sym (ok_inj _ _ h)))
  emit_all-IsEmission (v ∷ vs) e out c h =
      let (e', one, later) = >>=-eq-ok (emit family scope network pool v e) _ h in
      let (r, m) = emit-IsEmitted v e e' one in
      let (rs, (reads, distinct, same)) =
        emit_all-IsEmission vs (after r e) out (after-IsClean v e e' r c m) (rw m.added at later) in
      (r ∷ rs, ((m.is_read, reads), distinct_before e r rs distinct, same))

  emit_all_of_IsEmission :
      (vs : List Value) (rs : List Reserved) (e out : Emitted)
      → IsEmission vs e out rs
      → emit_all family scope network pool vs e ≡ ok out
  unfolding emit_all add_all
  emit_all_of_IsEmission [] [] e out (reads, d, same) = ap ok (sym same)
  emit_all_of_IsEmission [] (r ∷ rs) e out (reads, d, same) = absurd reads
  emit_all_of_IsEmission (v ∷ vs) [] e out (reads, d, same) = absurd reads
  emit_all_of_IsEmission (v ∷ vs) (r ∷ rs) e out ((is_read, reads), d, same) =
      let m : IsEmitted v e (after r e) r = record {
        is_read = is_read;
        new_id = distinct-append_fresh e.ids (map handle_of rs) r.handle d.handles;
        new_name = distinct-append_fresh e.identities (map name_of rs) r.identity.name d.names;
        new_text = distinct-append_fresh e.addresses (map text_of rs) (text_of r) d.texts;
        added = refl;
      } in
      rw (emit_of_IsEmitted v e (after r e) r m)
        (emit_all_of_IsEmission vs rs (after r e) out (reads, distinct_after e r rs d, same))

-- The run of a source document on a network and a pool, with the reservations that it holds.
pub record IsMaterialized (family : Family) (scope subnet_text pool_text : String) (source : Value)
    (out : Emitted) : Type 0 where
  pub scope_filled : not (scope == "") ≡ true
  pub network : Network
  pub is_network : ip_network true subnet_text ≡ some network
  pub of_family : same_family family network.family ≡ true
  pub pool : Pool
  pub is_pool : reservation_pool family network pool_text ≡ ok pool
  pub records : List Value
  pub listed : sources source ≡ ok records
  pub reserved : List Reserved
  pub emission : IsEmission family scope network pool records emitted_nothing out reserved

-- The records of a source document are materialized to an output exactly when the scope, the
-- network and the pool are accepted, every record describes a reservation of the scope inside the
-- network, no two of them have a handle, an identity or the text of an address in common, and the
-- output is the emission of these reservations in their order.
pub materialize_records_iff :
    (family : Family) (scope subnet_text pool_text : String) (source : Value) (out : Emitted)
    → (materialize_records family scope subnet_text pool_text source ≡ ok out)
      ↔ IsMaterialized family scope subnet_text pool_text source out
unfolding materialize_records
materialize_records_iff family scope subnet_text pool_text source out = (
  λ h.
      let (_, filled, h₁) = >>=-eq-ok (require (not (scope == "")) rejected) _ h in
      let (network, is_network, h₂) =
        >>=-eq-ok (or_raise (value_error "not a network") (ip_network true subnet_text)) _ h₁ in
      let (_, of_family, h₃) =
        >>=-eq-ok (require (same_family family network.family) rejected) _ h₂ in
      let (pool, is_pool, h₄) = >>=-eq-ok (reservation_pool family network pool_text) _ h₃ in
      let (records, listed, h₅) = >>=-eq-ok (sources source) _ h₄ in
      let (rs, emission) =
        emit_all-IsEmission family scope network pool records emitted_nothing out
          (record { ids = refl; identities = refl; addresses = refl }) h₅ in
      record {
        scope_filled = require-eq-ok _ rejected _ filled;
        network = network;
        is_network = or_raise-eq-ok _ _ _ is_network;
        of_family = require-eq-ok _ rejected _ of_family;
        pool = pool;
        is_pool = is_pool;
        records = records;
        listed = listed;
        reserved = rs;
        emission = emission;
      },
  λ m.
      rw (m.scope_filled, m.is_network, m.of_family, m.is_pool, m.listed)
        (emit_all_of_IsEmission family scope m.network m.pool m.records m.reserved emitted_nothing
          out m.emission),
)
