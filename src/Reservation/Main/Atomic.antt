-- ===== src/Reservation/Main/Atomic.antt =====
-- The program writes everything or nothing.
use network_renderer_contain.Prelude.{
  String, Bool, true, false, not, ◌||◌, ◌≡◌, refl, ap, sym, ◌∙◌, Option, none, some, List, [], ◌∷◌,
  map, string_eq, eq_iff, mem, all, Bool-cases, some_inj, ◌⊎◌, inl, inr, arith,
}
use network_renderer_contain.Py.Value.{Value}
use network_renderer_contain.Py.Result.{ok, err, Error, require, >>=-eq-ok, ok_inj, Result-cases}
use network_renderer_contain.Py.Sort.{sorted}
use network_renderer_contain.Reservation.{rejected}
use network_renderer_contain.Reservation.Kea.{materialize_records, insert_reservations}
use network_renderer_contain.Reservation.Dns.{
  Collected, all_lines, collected_of, materialize_dns_lines,
}
use network_renderer_contain.Reservation.Main.{
  Args, dns_lines, kea_config, Run, dns_enabled, is_complete, same_set, prepared_kea, prepared_dns,
  differ, written, prepared, main,
}
use network_renderer_contain.Reservation.Main.Identities.{identities_agree}

all_of_mem :
    (p : String → Bool) (xs : List String)
    → ((x : String) → mem x xs ≡ true → p x ≡ true)
    → all p xs ≡ true
all_of_mem p [] h = refl
all_of_mem p (x ∷ xs) h =
    rw (h x (ground (arith, eq_iff x x))) (all_of_mem p xs (λ y m. h y (ground (arith, m))))

same_set_of_mem :
    (xs ys : List String) → ((a : String) → mem a xs ≡ mem a ys) → same_set xs ys ≡ true
same_set_of_mem xs ys h =
    rw (all_of_mem (λ x. mem x ys) xs (λ x m. sym (h x) ∙ m))
      (all_of_mem (λ y. mem y xs) ys (λ y m. h y ∙ m))

dns_ids_of :
    (scope namespace : String) (classes : List String) (source : Value)
    (p : List String × List String)
    → materialize_dns_lines scope namespace classes source ≡ ok p
    → (c : Collected) × (collected_of scope namespace classes source ≡ ok c) × (p.1 ≡ c.dns_ids)
unfolding materialize_dns_lines
dns_ids_of scope namespace classes source p h =
    let (c, collected, h₁) = >>=-eq-ok (collected_of scope namespace classes source) _ h in
    let (body, _, h₂) =
      >>=-eq-ok (all_lines classes c.records_by_name (sorted (map (λ e. e.0) c.records_by_name))) _
        h₁ in
    (c, collected, ap (λ q. q.1) (sym (ok_inj _ _ h₂)))

-- The check of the identities passes.
never_differ :
    (args : Args) (source : Value) (namespace : String) (kea : Value × Option (List String))
    (p : List String × List String)
    → prepared_kea args (some source) ≡ ok kea
    → prepared_dns args (some source) (some namespace) ≡ ok (some p)
    → differ kea.1 p.1 ≡ false
unfolding prepared_kea prepared_dns
never_differ args source namespace kea p hk hd =
    let (e, emitted, h₁) =
      >>=-eq-ok (materialize_records args.family args.scope args.subnet args.pool source) _ hk in
    let (config, _, h₂) =
      >>=-eq-ok (insert_reservations args.template args.family e.records e.has_out_of_pool) _ h₁ in
    elim (Bool-cases (dns_enabled args)) [
      | inr off ↦ cc (rw off at hd)
      | inl on ↦
          let (q, is_lines, h₃) =
            >>=-eq-ok (materialize_dns_lines args.scope namespace args.dns_record_class source) _
              (rw on at hd) in
          let (c, collected, ids) =
            dns_ids_of args.scope namespace args.dns_record_class source q is_lines in
          let same = same_set_of_mem e.ids q.1 (λ a.
            identities_agree args.scope namespace args.dns_record_class args.family args.subnet
              args.pool source e c a emitted collected
            ∙ ap (mem a) (sym ids)) in
          let is_q = some_inj q p (ok_inj _ _ h₃) in
          ap (λ k. differ k.1 p.1) (sym (ok_inj _ _ h₂))
          ∙ ap (λ r. differ (some e.ids) r.1) (sym is_q)
          ∙ ap not same
    ]

dns_cases :
    (args : Args) (source : Option Value) (namespace : Option String)
    (kea : Value × Option (List String)) (dns : Option (List String × List String))
    → prepared_kea args source ≡ ok kea
    → prepared_dns args source namespace ≡ ok dns
    → ((dns_enabled args ≡ false) × (dns ≡ none))
      ⊎ ((p : List String × List String) × (dns_enabled args ≡ true)
          × (dns ≡ some p)
          × (differ kea.1 p.1 ≡ false))
unfolding prepared_dns
dns_cases args none namespace kea dns hk hd = elim (Bool-cases (dns_enabled args)) [
  | inl on ↦ cc (rw on at hd)
  | inr off ↦ inl (off, sym (ok_inj _ _ (rw off at hd)))
]
dns_cases args (some source) none kea dns hk hd = elim (Bool-cases (dns_enabled args)) [
  | inl on ↦ cc (rw on at hd)
  | inr off ↦ inl (off, sym (ok_inj _ _ (rw off at hd)))
]
dns_cases args (some source) (some namespace) kea dns hk hd = elim (Bool-cases (dns_enabled args)) [
  | inr off ↦ inl (off, sym (ok_inj _ _ (rw off at hd)))
  | inl on ↦
      let (p, _, h) =
        >>=-eq-ok (materialize_dns_lines args.scope namespace args.dns_record_class source) _
          (rw on at hd) in
      let is_p = sym (ok_inj _ _ h) in
      inr (p, on, is_p, never_differ args source namespace kea p hk (hd ∙ ap ok is_p))
]

-- What a run leaves: nothing and an error, or the Kea configuration and, where it is asked for, the
-- local data before it.
pub data Outcome (args : Args) (run : Run) : Type 0 where
  failed : (e : Error) → run.writes ≡ [] → run.result ≡ err e → Outcome args run
  kea_only :
      (config : Value)
      → dns_enabled args ≡ false
      → run.writes ≡ kea_config config ∷ []
      → run.result ≡ ok tt
      → Outcome args run
  both :
      (lines : List String) (config : Value)
      → dns_enabled args ≡ true
      → run.writes ≡ dns_lines lines ∷ kea_config config ∷ []
      → run.result ≡ ok tt
      → Outcome args run

prepared-Outcome : (args : Args) (run : Run) → prepared args ≡ ok run → Outcome args run
unfolding prepared written
prepared-Outcome args run h =
    let (_, _, h₁) =
      >>=-eq-ok (require (not (dns_enabled args) || is_complete args) rejected) _ h in
    let (kea, is_kea, h₂) = >>=-eq-ok (prepared_kea args args.source) _ h₁ in
    let (dns, is_dns, h₃) = >>=-eq-ok (prepared_dns args args.source args.dns_namespace) _ h₂ in
    let out = ok_inj _ _ h₃ in
    elim (dns_cases args args.source args.dns_namespace kea dns is_kea is_dns) [
      | inl (off, is_none) ↦
          let run_is = ap (written kea.0 kea.1) (sym is_none) ∙ out in
          kea_only kea.0 off (ap (λ r. r.writes) (sym run_is)) (ap (λ r. r.result) (sym run_is))
      | inr (p, on, is_some, agree) ↦
          let run_is = ap (written kea.0 kea.1) (sym is_some) ∙ out in
          both p.0 kea.0 on (ap (λ r. r.writes) (sym run_is) ∙ rw agree refl)
            (ap (λ r. r.result) (sym run_is) ∙ rw agree refl)
    ]

-- If the writes themselves do not fail, a run writes nothing and fails, or it writes the Kea
-- configuration and, exactly when local data is asked for, the local data before it; the check of
-- the identities between the two writes never fails.
pub main-Outcome : (args : Args) → Outcome args (main args)
unfolding main
main-Outcome args = elim (Result-cases (prepared args)) [
  | inl (run, is_run) ↦ rw is_run (prepared-Outcome args run is_run)
  | inr (e, is_err) ↦ rw is_err (failed e refl refl)
]
