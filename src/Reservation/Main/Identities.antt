-- ===== src/Reservation/Main/Identities.antt =====
-- The two materializations of one source document have the same identities.
use network_renderer_contain.Prelude.{
  lookup, String, not, ◌&&◌, ◌||◌, ◌≡◌, refl, ap, sym, ◌∙◌, Option, none, some, List, [], ◌∷◌, ◌++◌,
  map, ◌==◌, string_eq, nat_eq, mem, mem-append, mem-push_new, push_new, all, all_distinct, is_nil,
  arith,
}
use mathlib.Core.List.{append_assoc, append-nil}
use network_renderer_contain.Py.Value.{Value, Fields, as_dict, as_str, get, is_str, text_of}
use network_renderer_contain.Py.Result.{ok, require, or_raise, >>=-eq-ok, ok_inj, or_raise-eq-ok}
use network_renderer_contain.Py.Text.{codes, concat, lower}
use network_renderer_contain.Py.Ip.{Family, Network}
use network_renderer_contain.Py.Ip.Parse.{ip_address}
use network_renderer_contain.Reservation.{
  rejected, not_address, has_only, schema_fields, is_hostname, Pool, validated_ipv4_identity,
  validated_ipv6_identity,
}
use network_renderer_contain.Reservation.Kea.{
  Emitted, emitted_nothing, add_record, sources, materialize_records,
}
use network_renderer_contain.Reservation.Kea.Records.{materialize_records_iff}
use network_renderer_contain.Reservation.Kea.Reading.{Reserved, AllRead, add_all, handle_of}
use network_renderer_contain.Reservation.Dns.{
  Collected, collected_nothing, may_own, claim, claim_all, add_name, hostname_missing, address_text,
  record_addresses, is_namespace, record_classes, collect, collect_all, collected_of,
}

-- The `id` of each record.
abbrev one_of : Option String → List String
one_of none = []
one_of (some s) = s ∷ []

abbrev id_of : Option Fields → List String
id_of none = []
id_of (some fs) = one_of (as_str (get "id" fs))

ids_of : List Value → List String
ids_of [] = []
ids_of (v ∷ vs) = id_of (as_dict v) ++ ids_of vs

add_all-ids :
    (family : Family) (pool : Pool) (rs : List Reserved) (e : Emitted)
    → (add_all family pool rs e).ids ≡ e.ids ++ map handle_of rs
unfolding add_all add_record
add_all-ids family pool [] e = sym (append-nil e.ids)
add_all-ids family pool (r ∷ rs) e =
    add_all-ids family pool rs _ ∙ append_assoc e.ids (r.handle ∷ []) (map handle_of rs)

AllRead-ids :
    (f : Family) (scope : String) (n : Network) (vs : List Value) (rs : List Reserved)
    → AllRead f scope n vs rs
    → map handle_of rs ≡ ids_of vs
unfolding ids_of
AllRead-ids f scope n [] [] h = refl
AllRead-ids f scope n [] (r ∷ rs) h = absurd h
AllRead-ids f scope n (v ∷ vs) [] h = absurd h
AllRead-ids f scope n (v ∷ vs) (r ∷ rs) (h, hs) =
    rw (h.is_dict, h.id) (ap (λ ids. r.handle ∷ ids) (AllRead-ids f scope n vs rs hs))

claim_all-dns_ids :
    (fqdn : String) (addresses : List String) (c out : Collected)
    → claim_all fqdn c addresses ≡ ok out
    → out.dns_ids ≡ c.dns_ids
unfolding claim_all claim
claim_all-dns_ids fqdn [] c out h = ap (λ d. d.dns_ids) (sym (ok_inj _ _ h))
claim_all-dns_ids fqdn (a ∷ rest) c out h =
    let (c', one, later) = >>=-eq-ok (claim fqdn c a) _ h in
    let (parsed, _, h₁) = >>=-eq-ok (or_raise not_address (ip_address a)) _ one in
    let (_, _, h₂) = >>=-eq-ok (require (may_own fqdn (lookup a c.address_owners)) rejected) _ h₁ in
    claim_all-dns_ids fqdn rest c' out later ∙ ap (λ d. d.dns_ids) (sym (ok_inj _ _ h₂))

text_of-as_str : (v : Value) (s : String) → text_of v ≡ some s → as_str v ≡ some s
text_of-as_str (Value.str t) s h = ground (arith, h)
text_of-as_str _ s h = absurd (cc)

module _ (scope namespace : String) (classes : List String) where
  collect-dns_ids :
      (v : Value) (c out : Collected)
      → collect scope namespace classes c v ≡ ok out
      → (handle : String) × (id_of (as_dict v) ≡ handle ∷ [])
        × (out.dns_ids ≡ push_new c.dns_ids handle)
  unfolding collect add_name
  collect-dns_ids v c out h =
      let (fs, is_dict, h₁) = >>=-eq-ok (or_raise rejected (as_dict v)) _ h in
      let (_, _, h₂) = >>=-eq-ok (require (has_only schema_fields fs) rejected) _ h₁ in
      let (_, _, h₃) = >>=-eq-ok (require (is_str scope (get "scope" fs)) rejected) _ h₂ in
      let (handle, id, h₄) = >>=-eq-ok (or_raise rejected (text_of (get "id" fs))) _ h₃ in
      let (hostname, _, h₅) =
        >>=-eq-ok (or_raise hostname_missing (text_of (get "hostname" fs))) _ h₄ in
      let (_, _, h₆) =
        >>=-eq-ok
          (require (is_hostname (codes hostname) && not (mem b'.' (codes hostname))) rejected) _
          h₅ in
      let (ipv4, _, h₇) = >>=-eq-ok (address_text validated_ipv4_identity (get "ipv4" fs)) _ h₆ in
      let (ipv6, _, h₈) = >>=-eq-ok (address_text validated_ipv6_identity (get "ipv6" fs)) _ h₇ in
      let (_, _, h₉) =
        >>=-eq-ok (require (not (is_nil (record_addresses classes ipv4 ipv6))) rejected) _ h₈ in
      (
        handle,
        ap id_of (or_raise-eq-ok rejected _ _ is_dict)
            ∙ ap one_of (text_of-as_str _ _ (or_raise-eq-ok rejected _ _ id)),
        claim_all-dns_ids (lower (concat (hostname ∷ "." ∷ namespace ∷ [])))
            (record_addresses classes ipv4 ipv6) _ out h₉,
      )

  collect_all-dns_ids :
      (vs : List Value) (c out : Collected) (a : String)
      → collect_all scope namespace classes c vs ≡ ok out
      → mem a out.dns_ids ≡ (mem a c.dns_ids || mem a (ids_of vs))
  unfolding collect_all ids_of
  collect_all-dns_ids [] c out a h = ap (λ d. mem a d.dns_ids) (sym (ok_inj _ _ h)) ∙ ground arith
  collect_all-dns_ids (v ∷ vs) c out a h =
      let (c', one, later) = >>=-eq-ok (collect scope namespace classes c v) _ h in
      let (handle, id, pushed) = collect-dns_ids v c c' one in
      let step = ap (mem a) pushed ∙ mem-push_new a c.dns_ids handle in
      let split = mem-append a (id_of (as_dict v)) (ids_of vs) in
      let first = ap (mem a) id in
      collect_all-dns_ids vs c' out a later ∙ ground (arith, step, split, first)

  collected_of-dns_ids :
      (source : Value) (c : Collected) (vs : List Value) (a : String)
      → collected_of scope namespace classes source ≡ ok c
      → sources source ≡ ok vs
      → mem a c.dns_ids ≡ mem a (ids_of vs)
  unfolding collected_of
  collected_of-dns_ids source c vs a h listed =
      let (_, _, h₁) = >>=-eq-ok (require (not (scope == "")) rejected) _ h in
      let (_, _, h₂) = >>=-eq-ok (require (is_namespace namespace) rejected) _ h₁ in
      let (_, _, h₃) =
        >>=-eq-ok
          (require (not (is_nil classes) && all (λ k. mem k record_classes) classes) rejected) _
          h₂ in
      let (_, _, h₄) = >>=-eq-ok (require (all_distinct classes) rejected) _ h₃ in
      let (records, found, h₅) = >>=-eq-ok (sources source) _ h₄ in
      let same = ok_inj _ _ (sym found ∙ listed) in
      collect_all-dns_ids records collected_nothing c a h₅ ∙ ap (λ ws. mem a (ids_of ws)) same

  pub identities_agree :
      (family : Family) (subnet pool : String) (source : Value) (e : Emitted) (c : Collected)
      (a : String)
      → materialize_records family scope subnet pool source ≡ ok e
      → collected_of scope namespace classes source ≡ ok c
      → mem a e.ids ≡ mem a c.dns_ids
  identities_agree family subnet pool source e c a kea dns =
      let m = (materialize_records_iff family scope subnet pool source e).0 kea in
      let (reads, _, out) = m.emission in
      ap (λ d. mem a d.ids) out
      ∙ ap (mem a) (add_all-ids family m.pool m.reserved emitted_nothing)
      ∙ ap (mem a) (AllRead-ids family scope m.network m.records m.reserved reads)
      ∙ sym (collected_of-dns_ids source c m.records a dns m.listed)
