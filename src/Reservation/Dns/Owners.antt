-- ===== src/Reservation/Dns/Owners.antt =====
-- Each address of the local data belongs to one name.
use network_renderer_contain.Prelude.{
  lookup, assign, lookup-assign, String, nat_eq, is_nil, all, all_distinct, Bool, true, false, not,
  ◌&&◌, ◌||◌, ◌≡◌, refl, ap, sym, ◌∙◌, some, List, [], ◌∷◌, ◌==◌, string_eq, eq_iff, mem, some_inj,
  mem-push_new, push_new, Bool-cases, Option-cases, ◌⊎◌, inl, inr, arith,
}
use network_renderer_contain.Py.Value.{Value, as_dict, get, is_str, text_of}
use network_renderer_contain.Py.Result.{ok, require, or_raise, >>=-eq-ok, ok_inj, require-eq-ok}
use network_renderer_contain.Py.Ip.{Family, v4, v6}
use network_renderer_contain.Py.Ip.Parse.{ip_address}
use network_renderer_contain.Reservation.{
  rejected, not_address, has_only, schema_fields, is_hostname, validated_ipv4_identity,
  validated_ipv6_identity,
}
use network_renderer_contain.Py.Text.{codes, concat, lower}
use network_renderer_contain.Reservation.Kea.{sources}
use network_renderer_contain.Reservation.Dns.{
  NameRecords, Collected, collected_nothing, add_address, records_of, may_own, hostname_missing,
  address_text, record_addresses, is_namespace, record_classes, claimed, claim, claim_all, add_name,
  collect, collect_all, collected_of,
}

-- `address in name_records[4] or address in name_records[6]`
abbrev pub holds : String → NameRecords → Bool
holds a r = mem a r.ipv4 || mem a r.ipv6

holds-add_address :
    (f : Family) (b a : String) (r : NameRecords)
    → holds b (add_address f a r) ≡ (holds b r || b == a)
holds-add_address v4 b a r = ground (arith, mem-push_new b r.ipv4 a)
holds-add_address v6 b a r = ground (arith, mem-push_new b r.ipv6 a)

-- The owner of an address is the name that holds it.
pub record IsOwned (c : Collected) : Type 0 where
  pub owned :
      (n a : String) (r : NameRecords)
      → lookup n c.records_by_name ≡ some r
      → holds a r ≡ true
      → lookup a c.address_owners ≡ some n

held_owner :
    (c : Collected) (fqdn a : String)
    → IsOwned c
    → holds a (records_of (lookup fqdn c.records_by_name)) ≡ true
    → lookup a c.address_owners ≡ some fqdn
held_owner c fqdn a w h = elim (Option-cases (lookup fqdn c.records_by_name)) [
  | inl missing ↦ cc (rw missing at h)
  | inr (r, found) ↦ w.owned fqdn a r found (rw found at h)
]

-- A name that is assigned to is the name looked for, with the assigned records, or another one.
assigned :
    (n fqdn : String) (v r : NameRecords) (m : List (String × NameRecords))
    → lookup n (assign fqdn v m) ≡ some r
    → ((fqdn ≡ n) × (v ≡ r)) ⊎ (((fqdn == n) ≡ false) × (lookup n m ≡ some r))
assigned n fqdn v r m found =
    let seen = sym (lookup-assign n fqdn v m) ∙ found in
    elim (Bool-cases (fqdn == n)) [
      | inl same ↦ inl ((eq_iff fqdn n).0 same, some_inj v r (rw same at seen))
      | inr other ↦ inr (other, rw other at seen)
    ]

module _ (fqdn : String) where
  add_name-IsOwned : (c : Collected) → IsOwned c → IsOwned (add_name fqdn c)
  unfolding add_name
  add_name-IsOwned c w = record {
    owned = λ n a r found h.
        let held = records_of (lookup fqdn c.records_by_name) in
        elim (assigned n fqdn held r c.records_by_name found) [
          | inl (same, is_r) ↦ held_owner c fqdn a w (ap (holds a) is_r ∙ h) ∙ ap some same
          | inr (other, before) ↦ w.owned n a r before h
        ];
  }

  owner_after :
      (c : Collected) (address n b : String)
      → lookup b c.address_owners ≡ some n
      → may_own fqdn (lookup address c.address_owners) ≡ true
      → lookup b (assign address fqdn c.address_owners) ≡ some n
  owner_after c address n b before may =
      lookup-assign b address fqdn c.address_owners ∙ elim (Bool-cases (address == b)) [
        | inl same ↦
            let owned = ap (λ x. lookup x c.address_owners) ((eq_iff address b).0 same) ∙ before in
            let agree = ap (may_own fqdn) (sym owned) ∙ may in
            rw same (ap some (sym ((eq_iff n fqdn).0 agree)))
        | inr other ↦ rw other before
      ]

  -- An address that is claimed has no other owner.
  claimed-IsOwned :
      (c : Collected) (f : Family) (address : String)
      → IsOwned c
      → may_own fqdn (lookup address c.address_owners) ≡ true
      → IsOwned (claimed fqdn f address c)
  claimed-IsOwned c f address w may = record {
    owned = λ n b r found hold.
        let held = records_of (lookup fqdn c.records_by_name) in
        elim (assigned n fqdn (add_address f address held) r c.records_by_name found) [
          | inr (other, before) ↦ owner_after c address n b (w.owned n b r before hold) may
          | inl (same, is_r) ↦
              let either = sym (holds-add_address f b address held) ∙ ap (holds b) is_r ∙ hold in
              rw (sym same) (elim (Bool-cases (holds b held)) [
                | inl old ↦ owner_after c address fqdn b (held_owner c fqdn b w old) may
                | inr new ↦
                    let at_address = (eq_iff b address).0 (rw new at either) in
                    lookup-assign b address fqdn c.address_owners
                    ∙ rw ((eq_iff address b).1 (sym at_address)) refl
              ])
        ];
  }

  claim_all-IsOwned :
      (addresses : List String) (c out : Collected)
      → IsOwned c
      → claim_all fqdn c addresses ≡ ok out
      → IsOwned out
  unfolding claim_all claim
  claim_all-IsOwned [] c out w h = rw (sym (ok_inj _ _ h)) w
  claim_all-IsOwned (a ∷ rest) c out w h =
      let (c', one, later) = >>=-eq-ok (claim fqdn c a) _ h in
      let (parsed, _, h₁) = >>=-eq-ok (or_raise not_address (ip_address a)) _ one in
      let (_, free, h₂) =
        >>=-eq-ok (require (may_own fqdn (lookup a c.address_owners)) rejected) _ h₁ in
      let w' = claimed-IsOwned c parsed.family a w (require-eq-ok _ rejected _ free) in
      claim_all-IsOwned rest c' out (rw (ok_inj _ _ h₂) at w') later

module _ (scope namespace : String) (classes : List String) where
  collect-IsOwned :
      (v : Value) (c out : Collected)
      → IsOwned c
      → collect scope namespace classes c v ≡ ok out
      → IsOwned out
  unfolding collect
  collect-IsOwned v c out w h =
      let (fs, _, h₁) = >>=-eq-ok (or_raise rejected (as_dict v)) _ h in
      let (_, _, h₂) = >>=-eq-ok (require (has_only schema_fields fs) rejected) _ h₁ in
      let (_, _, h₃) = >>=-eq-ok (require (is_str scope (get "scope" fs)) rejected) _ h₂ in
      let (handle, _, h₄) = >>=-eq-ok (or_raise rejected (text_of (get "id" fs))) _ h₃ in
      let (hostname, _, h₅) =
        >>=-eq-ok (or_raise hostname_missing (text_of (get "hostname" fs))) _ h₄ in
      let (_, _, h₆) =
        >>=-eq-ok
          (require (is_hostname (codes hostname) && not (mem b'.' (codes hostname))) rejected) _
          h₅ in
      let fqdn = lower (concat (hostname ∷ "." ∷ namespace ∷ [])) in
      let (ipv4, _, h₇) = >>=-eq-ok (address_text validated_ipv4_identity (get "ipv4" fs)) _ h₆ in
      let (ipv6, _, h₈) = >>=-eq-ok (address_text validated_ipv6_identity (get "ipv6" fs)) _ h₇ in
      let (_, _, h₉) =
        >>=-eq-ok (require (not (is_nil (record_addresses classes ipv4 ipv6))) rejected) _ h₈ in
      let w' : IsOwned (record c { dns_ids = push_new c.dns_ids handle }) = record {
        owned = w.owned;
      } in
      claim_all-IsOwned fqdn (record_addresses classes ipv4 ipv6) _ out (add_name-IsOwned fqdn _ w')
        h₉

  collect_all-IsOwned :
      (vs : List Value) (c out : Collected)
      → IsOwned c
      → collect_all scope namespace classes c vs ≡ ok out
      → IsOwned out
  unfolding collect_all
  collect_all-IsOwned [] c out w h = rw (sym (ok_inj _ _ h)) w
  collect_all-IsOwned (v ∷ vs) c out w h =
      let (c', one, later) = >>=-eq-ok (collect scope namespace classes c v) _ h in
      collect_all-IsOwned vs c' out (collect-IsOwned v c c' w one) later

  pub collected_of-IsOwned :
      (source : Value) (c : Collected)
      → collected_of scope namespace classes source ≡ ok c
      → IsOwned c
  unfolding collected_of
  collected_of-IsOwned source c h =
      let (_, _, h₁) = >>=-eq-ok (require (not (scope == "")) rejected) _ h in
      let (_, _, h₂) = >>=-eq-ok (require (is_namespace namespace) rejected) _ h₁ in
      let (_, _, h₃) =
        >>=-eq-ok
          (require (not (is_nil classes) && all (λ k. mem k record_classes) classes) rejected) _
          h₂ in
      let (_, _, h₄) = >>=-eq-ok (require (all_distinct classes) rejected) _ h₃ in
      let (records, _, h₅) = >>=-eq-ok (sources source) _ h₄ in
      collect_all-IsOwned records collected_nothing c
        (record { owned = λ n a r found _. absurd (cc) }) h₅

-- In the local data that is collected from a source document, two names that hold the same address
-- are the same name.
pub collected_of-one_owner :
    (scope namespace : String) (classes : List String) (source : Value) (c : Collected)
    → collected_of scope namespace classes source ≡ ok c
    → (n m a : String) (r q : NameRecords) → lookup n c.records_by_name ≡ some r
    → lookup m c.records_by_name ≡ some q
    → holds a r ≡ true
    → holds a q ≡ true
    → n ≡ m
collected_of-one_owner scope namespace classes source c h n m a r q is_n is_m here there =
    let w = collected_of-IsOwned scope namespace classes source c h in
    some_inj n m (sym (w.owned n a r is_n here) ∙ w.owned m a q is_m there)
