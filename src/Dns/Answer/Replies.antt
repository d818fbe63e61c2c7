-- ===== src/Dns/Answer/Replies.antt =====
-- Which reply the proxy gives: the local answer, a failure, or a forwarder's.
use mathlib.Core.Path.{subst}
use network_renderer_contain.Prelude.{
  ◌≡◌, ◌≢◌, ◌⊎◌, refl, ap, sym, ◌∙◌, String, true, false, none, some, List, [], ◌∷◌, Bool-cases,
  Option-cases, inl, inr,
}
use network_renderer_contain.Py.Value.{Value, str, arr, nil, Fields, get_or, as_str}
use network_renderer_contain.Py.Result.{ok, >>=-eq-ok, ok_inj}
use network_renderer_contain.Py.Iterate.{iterate}
use network_renderer_contain.Py.Ip.{Family, Address}
use network_renderer_contain.Py.Ip.Laws.{same_family_iff}
use network_renderer_contain.Py.Ip.Parse.{ip_address}
use network_renderer_contain.Dns.{Bytes}
use network_renderer_contain.Dns.Fallback.{servfail, namespace_fallback_blocks}
use network_renderer_contain.Dns.Answer.{
  local_answer, is_family, of_family_in, outgoing_sources_for_family, Forwarder, ask_first, forward,
  forward_udp,
}

-- The member is the text of an address of the family.
pub record IsOf (family : Family) (v : Value) (s : String) : Type 0 where
  pub is_text : v ≡ str s
  pub address : Address
  pub read : ip_address s ≡ some address
  pub of_family : address.family ≡ family

-- The texts of the family's addresses, in the order of the list: a member that is one counts, any
-- other one does not.
pub data AreOf (family : Family) : List Value → List String → Type 0 where
  done : AreOf family [] []
  takes :
      {v : Value} {s : String} {vs : List Value} {ss : List String}
      → IsOf family v s
      → AreOf family vs ss
      → AreOf family (v ∷ vs) (s ∷ ss)
  passes :
      {v : Value} {vs : List Value} {ss : List String}
      → ((s : String) → ¬ IsOf family v s)
      → AreOf family vs ss
      → AreOf family (v ∷ vs) ss

not_true : false ≢ true
not_true e = cc

not_none : (s : String) → none ≢ some s
not_none s e = cc

is_family-IsOf : (family : Family) (s : String) → is_family family s ≡ true → IsOf family (str s) s
is_family-IsOf family s h = elim (Option-cases (ip_address s)) [
  | inl bad ↦ absurd (not_true (rw (bad, is_family) at h))
  | inr (a, read) ↦ record {
    is_text = refl;
    address = a;
    read = read;
    of_family = (same_family_iff a.family family).0 (rw (read, is_family) at h);
  }
]

str_inj : (s t : String) → str s ≡ str t → s ≡ t
str_inj s t h = cc

IsOf-family : (family : Family) (t s : String) → IsOf family (str t) s → is_family family t ≡ true
IsOf-family family t s i =
    rw (str_inj t s i.is_text)
      (rw (i.read, is_family) ((same_family_iff i.address.family family).1 i.of_family))

no_text : (family : Family) (v : Value) → as_str v ≡ none → (s : String) → ¬ IsOf family v s
no_text family v h s i = not_none s (sym h ∙ ap as_str i.is_text)

as_str-eq : (v : Value) (s : String) → as_str v ≡ some s → v ≡ str s
as_str-eq (str t) s h = cc
as_str-eq _ s h = cc

of_text :
    (family : Family) (v : Value) (s : String) → v ≡ str s → IsOf family (str s) s → IsOf family v s
of_text family v s e i = record {
  is_text = e;
  address = i.address;
  read = i.read;
  of_family = i.of_family;
}

another_family :
    (family : Family) (v : Value) (s : String)
    → v ≡ str s
    → is_family family s ≡ false
    → (t : String) → ¬ IsOf family v t
another_family family v s e bad t i =
    let same : s ≡ t = str_inj s t (sym e ∙ i.is_text) in
    not_true (
      sym bad
      ∙ IsOf-family family s t (record {
        is_text = ap str same;
        address = i.address;
        read = i.read;
        of_family = i.of_family;
      }))

of_family_in-AreOf : (family : Family) (vs : List Value) → AreOf family vs (of_family_in family vs)
unfolding of_family_in
of_family_in-AreOf family [] = done
of_family_in-AreOf family (v ∷ vs) =
    let later = of_family_in-AreOf family vs in
    elim (Option-cases (as_str v)) [
      | inl e ↦ rw (e, of_family_in) (passes (no_text family v e) later)
      | inr (s, e) ↦
          let is_text = as_str-eq v s e in
          elim (Bool-cases (is_family family s)) [
            | inl good ↦
                rw (e, good, of_family_in)
                  (takes (of_text family v s is_text (is_family-IsOf family s good)) later)
            | inr bad ↦
                rw (e, bad, of_family_in) (passes (another_family family v s is_text bad) later)
          ]
    ]

-- A reply that is not local: a failure where the namespace is blocked or no forwarder is of the
-- family, else what the first one of the family says to the query, which is sent from the outgoing
-- addresses of the family.
pub data IsUpstream (query_forwarder : Forwarder) (config : Fields) (query : Bytes)
    (family : Family) (out : Bytes) : Type 0 where
  blocked :
      namespace_fallback_blocks config query ≡ ok true
      → out ≡ servfail query
      → IsUpstream query_forwarder config query family out
  unserved :
      (forwarders : List Value)
      → namespace_fallback_blocks config query ≡ ok false
      → iterate (get_or (arr nil) "forwarders" config) ≡ ok forwarders
      → AreOf family forwarders []
      → out ≡ servfail query
      → IsUpstream query_forwarder config query family out
  forwarded :
      (forwarders outgoing : List Value) (forwarder : String) (others sources : List String)
      → namespace_fallback_blocks config query ≡ ok false
      → iterate (get_or (arr nil) "forwarders" config) ≡ ok forwarders
      → AreOf family forwarders (forwarder ∷ others)
      → iterate (get_or (arr nil) "outgoingInterfaces" config) ≡ ok outgoing
      → AreOf family outgoing sources
      → query_forwarder query family forwarder sources ≡ ok out
      → IsUpstream query_forwarder config query family out

module _ (query_forwarder : Forwarder) (config : Fields) (query : Bytes) (family : Family)
    (out : Bytes) where
  ask_first-IsUpstream :
      (forwarders outgoing : List Value) (names sources : List String)
      → namespace_fallback_blocks config query ≡ ok false
      → iterate (get_or (arr nil) "forwarders" config) ≡ ok forwarders
      → AreOf family forwarders names
      → iterate (get_or (arr nil) "outgoingInterfaces" config) ≡ ok outgoing
      → AreOf family outgoing sources
      → ask_first query_forwarder query family sources names ≡ ok out
      → IsUpstream query_forwarder config query family out
  ask_first-IsUpstream forwarders outgoing [] sources passed listed named from sent h =
      unserved forwarders passed listed named (sym (ok_inj _ _ h))
  ask_first-IsUpstream forwarders outgoing (first ∷ others) sources passed listed named from sent
        h =
      forwarded forwarders outgoing first others sources passed listed named from sent h

  forward-IsUpstream :
      namespace_fallback_blocks config query ≡ ok false
      → forward query_forwarder config query family ≡ ok out
      → IsUpstream query_forwarder config query family out
  unfolding forward outgoing_sources_for_family
  forward-IsUpstream passed h =
      let (sources, from, h₁) = >>=-eq-ok (outgoing_sources_for_family config family) _ h in
      let (outgoing, found, is_sources) =
        >>=-eq-ok (iterate (get_or (arr nil) "outgoingInterfaces" config)) _ from in
      let (forwarders, listed, h₂) =
        >>=-eq-ok (iterate (get_or (arr nil) "forwarders" config)) _ h₁ in
      ask_first-IsUpstream forwarders outgoing (of_family_in family forwarders) sources passed
        listed (of_family_in-AreOf family forwarders) found
        (subst (AreOf family outgoing) (ok_inj _ _ is_sources) (of_family_in-AreOf family outgoing))
        h₂

-- A reply of the proxy is the local answer, where there is one; else the failure answer, where the
-- namespace of the query is blocked or no text of the forwarders is an address of the family; else
-- what the first such forwarder says to the query, sent from the outgoing addresses of the family
-- in their order.
pub forward_udp-IsUpstream :
    (query_forwarder : Forwarder) (config : Fields) (query : Bytes) (family : Family) (out : Bytes)
    → forward_udp query_forwarder config query family ≡ ok out
    → (local_answer config query ≡ ok (some out))
      ⊎ ((local_answer config query ≡ ok none) × IsUpstream query_forwarder config query family out)
unfolding forward_udp
forward_udp-IsUpstream query_forwarder config query family out h =
    let (answer, local, h₁) = >>=-eq-ok (local_answer config query) _ h in
    elim (Option-cases answer) [
      | inr (bytes, given) ↦ inl (local ∙ ap ok (given ∙ ap some (ok_inj _ _ (rw given at h₁))))
      | inl missing ↦
          let (is_blocked, decided, h₂) =
            >>=-eq-ok (namespace_fallback_blocks config query) _ (rw missing at h₁) in
          elim (Bool-cases is_blocked) [
            | inl denied ↦ inr (
              local ∙ ap ok missing,
              blocked (decided ∙ ap ok denied) (sym (ok_inj _ _ (rw denied at h₂))),
            )
            | inr free ↦ inr (
              local ∙ ap ok missing,
              forward-IsUpstream query_forwarder config query family out (decided ∙ ap ok free)
                  (rw free at h₂),
            )
          ]
    ]
