-- ===== src/Firewall/CpmRules/Runtime/Laws.antt =====
-- What a runtime rule has checked: it fails closed.
use network_renderer_contain.Prelude.{
  String, ◌≡◌, ◌≢◌, ap, sym, ◌∙◌, true, false, not, none, some, ◌==◌, string_eq, arith, Bool-cases,
  ◌⊎◌, Bool, &&-eq-true, ◌&&◌, Option-cases, inl, inr, eq_iff,
}
use network_renderer_contain.Py.Value.{
  ℤ, is_false, Value, Fields, str, obj, get, as_dict, as_int, text_of, is_str, is_num,
}
use network_renderer_contain.Py.Result.{
  err, ok_inj, or_raise-eq-ok, ok, >>=-eq-ok, require, require-eq-ok, or_raise, value_error,
}
use network_renderer_contain.Firewall.CpmRules.{identity_comment}
use network_renderer_contain.Firewall.CpmRules.Runtime.{
  as_secret, number_text, transport_protocol, is_absent, single, ambiguous, incomplete, bad_match,
  keeps_addresses, is_secret_file, Target, Transport, target_of, transport_of, runtime_command,
  runtime_rule,
}

-- The destination holds what the target says: a protected secret file, an interface identifier,
-- the two prefix lengths and the slot as integers, and the prefix length of one address.
pub record IsTarget (d : Fields) (t : Target) : Type 0 where
  pub protected : is_str "protected" (get "sourceClass" d) ≡ true
  pub source : text_of (get "sourceFile" d) ≡ some t.source_file
  pub secret : is_secret_file t.source_file ≡ true
  pub identifier : text_of (get "interfaceIdentifier" d) ≡ some t.interface_identifier
  pub delegated :
      (get "delegatedPrefixLength" d ≡ t.delegated_length)
      × (n : ℤ) × (as_int t.delegated_length ≡ some n)
  pub tenant :
      (get "perTenantPrefixLength" d ≡ t.tenant_length)
      × (n : ℤ) × (as_int t.tenant_length ≡ some n)
  pub slot : (get "slot" d ≡ t.slot) × (n : ℤ) × (as_int t.slot ≡ some n)
  pub one_address : is_num 128 (get "targetPrefixLength" d) ≡ true

-- One match, of IPv6 and TCP or UDP, with one port that is an integer.
pub record IsTransport (matches : Value) (t : Transport) : Type 0 where
  pub match : Fields
  pub only : single matches ≡ some (obj match)
  pub ipv6_only : is_str "ipv6" (get "family" match) ≡ true
  pub protocol : is_str t.protocol (get "proto" match) ≡ true
  pub tcp_or_udp : (t.protocol ≡ "tcp") ⊎ (t.protocol ≡ "udp")
  pub port : single (get "dports" match) ≡ some t.port
  pub number : (n : ℤ) × (as_int t.port ≡ some n)

-- The contract that a runtime rule rests on.
pub record IsContract (rule : Fields) (raw : Value) (target : Target) (transport : Transport)
    : Type 0 where
  pub destination : Fields
  pub only : single raw ≡ some (obj destination)
  pub no_static : is_absent (get "destinationPrefixes" rule) ≡ true
  pub returns : get "returnBehavior" rule ≡ str "stateful-return"
  pub untranslated : get "translationMode" rule ≡ str "none"
  pub keeps_source : get "sourcePreservation" rule ≡ str "preserve-source"
  pub keeps_destination : is_false (get "destinationTranslation" rule) ≡ true
  pub target_holds : IsTarget destination target
  pub transport_holds : IsTransport (get "matches" rule) transport
  pub owned : identity_comment rule ≢ ""

obj_of : (v : Value) (fs : Fields) → as_dict v ≡ some fs → v ≡ obj fs
obj_of (obj gs) fs h = cc
obj_of _ fs h = cc

filled_of : (s : String) → not (s == "") ≡ true → s ≢ ""
filled_of s h = λ e. ground (arith, eq_iff s "")

protocol_of : (v : Value) (p : String) → transport_protocol v ≡ some p → is_str p v ≡ true
protocol_of (str t) p h = ground (arith, eq_iff t "tcp", eq_iff t "udp", eq_iff t p)
protocol_of _ p h = cc

not_number : (w : Value) → err incomplete ≢ ok w
not_number w e = cc

number_of : (v w : Value) → number_text v ≡ ok w → (v ≡ w) × (n : ℤ) × (as_int w ≡ some n)
number_of v w h = elim (Option-cases (as_int v)) [
  | inl e ↦ absurd (not_number w (rw (e, number_text) at h))
  | inr (n, e) ↦
      let same = ok_inj _ _ (rw (e, number_text) at h) in (same, n, ap as_int (sym same) ∙ e)
]

is_str-eq : (t : String) (v : Value) → is_str t v ≡ true → v ≡ str t
is_str-eq t (str s) h = ap str ((eq_iff s t).0 h)
is_str-eq t _ h = cc

as_secret-eq-ok :
    (v : Value) (s : String) → as_secret v ≡ ok s → (text_of v ≡ some s) × (is_secret_file s ≡ true)
as_secret-eq-ok v s h = elim (Option-cases (text_of v)) [
  | inl e ↦ absurd (ground arith)
  | inr (t, e) ↦ elim (Bool-cases (is_secret_file t)) [
    | inl good ↦ (ground arith, ground arith)
    | inr bad ↦ absurd (ground arith)
  ]
]

target_of-IsTarget : (d : Fields) (t : Target) → target_of d ≡ ok t → IsTarget d t
unfolding target_of
target_of-IsTarget d t h =
    let (_, e₁, h₁) =
      >>=-eq-ok (require (is_str "protected" (get "sourceClass" d)) incomplete) _ h in
    let (s, e₂, h₂) = >>=-eq-ok (as_secret (get "sourceFile" d)) _ h₁ in
    let (i, e₃, h₃) =
      >>=-eq-ok (or_raise incomplete (text_of (get "interfaceIdentifier" d))) _ h₂ in
    let (dl, e₄, h₄) = >>=-eq-ok (number_text (get "delegatedPrefixLength" d)) _ h₃ in
    let (tl, e₅, h₅) = >>=-eq-ok (number_text (get "perTenantPrefixLength" d)) _ h₄ in
    let (sl, e₆, h₆) = >>=-eq-ok (number_text (get "slot" d)) _ h₅ in
    let (_, e₇, h₇) =
      >>=-eq-ok (require (is_num 128 (get "targetPrefixLength" d)) incomplete) _ h₆ in
    let same = ok_inj _ _ h₇ in
    let file : s ≡ t.source_file = ap (λ (x : Target). x.source_file) same in
    let (read, secret) = as_secret-eq-ok (get "sourceFile" d) s e₂ in
    record {
      protected = require-eq-ok _ _ _ e₁;
      source = rw (← file) read;
      secret = rw (← file) secret;
      identifier = or_raise-eq-ok _ _ _ e₃ ∙ ap (λ (x : Target). some x.interface_identifier) same;
      delegated =
          rw (← ap (λ (x : Target). x.delegated_length) same)
            (number_of (get "delegatedPrefixLength" d) dl e₄);
      tenant =
          rw (← ap (λ (x : Target). x.tenant_length) same)
            (number_of (get "perTenantPrefixLength" d) tl e₅);
      slot = rw (← ap (λ (x : Target). x.slot) same) (number_of (get "slot" d) sl e₆);
      one_address = require-eq-ok _ _ _ e₇;
    }

protocol_cases :
    (v : Value) (p : String) → transport_protocol v ≡ some p → (p ≡ "tcp") ⊎ (p ≡ "udp")
protocol_cases v p h = ground (arith, h)

not_true : ¬ ◌≡◌ {A = Bool} false true
not_true e = cc

port_number :
    (v : Value)
    → elim (as_int v) [ none ↦ false | some n ↦ true ] ≡ true
    → (n : ℤ) × (as_int v ≡ some n)
port_number v h = elim (Option-cases (as_int v)) [
  | inl e ↦ absurd (not_true (rw e at h))
  | inr found ↦ found
]

transport_of-IsTransport : (v : Value) (t : Transport) → transport_of v ≡ ok t → IsTransport v t
unfolding transport_of
transport_of-IsTransport v t h =
    let (one, e₁, h₁) =
      >>=-eq-ok (or_raise (value_error "runtime destination requires one exact match") (single v)) _
        h in
    let (m, e₂, h₂) = >>=-eq-ok (or_raise bad_match (as_dict one)) _ h₁ in
    let (_, e₃, h₃) = >>=-eq-ok (require (is_str "ipv6" (get "family" m)) bad_match) _ h₂ in
    let (p, e₄, h₄) = >>=-eq-ok (or_raise bad_match (transport_protocol (get "proto" m))) _ h₃ in
    let (q, e₅, h₅) = >>=-eq-ok (or_raise bad_match (single (get "dports" m))) _ h₄ in
    let (_, e₆, h₆) =
      >>=-eq-ok (require (elim (as_int q) [ none ↦ false | some n ↦ true ]) bad_match) _ h₅ in
    let same = ok_inj _ _ h₆ in
    let protocol : p ≡ t.protocol = ap (λ (x : Transport). x.protocol) same in
    let port : q ≡ t.port = ap (λ (x : Transport). x.port) same in
    record {
      match = m;
      only = or_raise-eq-ok _ _ _ e₁ ∙ ap some (obj_of one m (or_raise-eq-ok _ _ _ e₂));
      ipv6_only = require-eq-ok _ _ _ e₃;
      protocol = rw (← protocol) (protocol_of (get "proto" m) p (or_raise-eq-ok _ _ _ e₄));
      tcp_or_udp = rw (← protocol) (protocol_cases (get "proto" m) p (or_raise-eq-ok _ _ _ e₄));
      port = or_raise-eq-ok _ _ _ e₅ ∙ ap some port;
      number = rw (← port) (port_number q (require-eq-ok _ _ _ e₆));
    }

keeps :
    (rule : Fields)
    → keeps_addresses rule ≡ true
    → (get "returnBehavior" rule ≡ str "stateful-return")
      × (get "translationMode" rule ≡ str "none")
      × (get "sourcePreservation" rule ≡ str "preserve-source")
      × (is_false (get "destinationTranslation" rule) ≡ true)
unfolding keeps_addresses
keeps rule h =
    let r = is_str "stateful-return" (get "returnBehavior" rule) in
    let t = is_str "none" (get "translationMode" rule) in
    let s = is_str "preserve-source" (get "sourcePreservation" rule) in
    let (three, kept) = &&-eq-true (r && t && s) (is_false (get "destinationTranslation" rule)) h in
    let (two, source) = &&-eq-true (r && t) s three in
    let (returns, untranslated) = &&-eq-true r t two in
    (
      is_str-eq "stateful-return" (get "returnBehavior" rule) returns,
      is_str-eq "none" (get "translationMode" rule) untranslated,
      is_str-eq "preserve-source" (get "sourcePreservation" rule) source,
      kept,
    )

-- A runtime rule is given only where its whole contract holds: one protected destination, of which
-- the secret file, the two prefix lengths, the slot and the interface identifier are the fields of
-- the target, no static destination, no translation, one IPv6 match, of which the protocol and the
-- port are the transport, and an owner; it is then the command of that target and transport.
pub runtime_rule-IsContract :
    (rule : Fields) (raw : Value) (from to action state c : String)
    → runtime_rule rule raw from to action state ≡ ok c
    → (target : Target) × (transport : Transport) × IsContract rule raw target transport
      × (c ≡ runtime_command target transport from to action state (identity_comment rule))
unfolding runtime_rule
runtime_rule-IsContract rule raw from to action state c h =
    let (owner, e₁, h₁) = >>=-eq-ok (or_raise ambiguous (single raw)) _ h in
    let (_, e₂, h₂) = >>=-eq-ok (require (is_absent (get "destinationPrefixes" rule)) _) _ h₁ in
    let (_, e₃, h₃) = >>=-eq-ok (require (keeps_addresses rule) _) _ h₂ in
    let (d, e₄, h₄) = >>=-eq-ok (or_raise _ (as_dict owner)) _ h₃ in
    let (target, e₅, h₅) = >>=-eq-ok (target_of d) _ h₄ in
    let (transport, e₆, h₆) = >>=-eq-ok (transport_of (get "matches" rule)) _ h₅ in
    let (_, e₇, h₇) = >>=-eq-ok (require (not (identity_comment rule == "")) _) _ h₆ in
    let (returns, untranslated, source, kept) = keeps rule (require-eq-ok _ _ _ e₃) in
    (
      target,
      transport,
      record {
        destination = d;
        only = or_raise-eq-ok _ _ _ e₁ ∙ ap some (obj_of owner d (or_raise-eq-ok _ _ _ e₄));
        no_static = require-eq-ok _ _ _ e₂;
        returns = returns;
        untranslated = untranslated;
        keeps_source = source;
        keeps_destination = kept;
        target_holds = target_of-IsTarget d target e₅;
        transport_holds = transport_of-IsTransport (get "matches" rule) transport e₆;
        owned = filled_of (identity_comment rule) (require-eq-ok _ _ _ e₇);
      },
      sym (ok_inj _ _ h₇),
    )
