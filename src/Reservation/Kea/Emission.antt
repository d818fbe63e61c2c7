-- ===== src/Reservation/Kea/Emission.antt =====
-- How many records are emitted.
use mathlib.Core.List.{append_assoc, append-nil}
use network_renderer_contain.Prelude.{
  suc, length, String, Bool, not, ◌||◌, ◌≡◌, refl, ap, sym, ◌∙◌, List, [], ◌∷◌, ◌++◌, map,
  string_eq, any, arith,
}
use network_renderer_contain.Py.Value.{Value}
use network_renderer_contain.Py.Ip.{Family, Network}
use network_renderer_contain.Reservation.{Pool}
use network_renderer_contain.Reservation.Kea.{
  Emitted, emitted_nothing, emitted_record, in_pool, add_record,
}
use network_renderer_contain.Reservation.Kea.Reading.{Reserved, AllRead, add_all}
use network_renderer_contain.Reservation.Kea.Records.{IsMaterialized}

outside : Pool → Reserved → Bool
outside pool r = not (in_pool pool r.identity.address)

add_all-records :
    (family : Family) (pool : Pool) (rs : List Reserved) (e : Emitted)
    → (add_all family pool rs e).records
      ≡ e.records ++ map (λ r. emitted_record family r.identity r.hostname) rs
unfolding add_all add_record
add_all-records family pool [] e = sym (append-nil e.records)
add_all-records family pool (r ∷ rs) e =
    add_all-records family pool rs _
    ∙ append_assoc e.records (emitted_record family r.identity r.hostname ∷ [])
        (map (λ r. emitted_record family r.identity r.hostname) rs)

add_all-has_out_of_pool :
    (family : Family) (pool : Pool) (rs : List Reserved) (e : Emitted)
    → (add_all family pool rs e).has_out_of_pool ≡ (e.has_out_of_pool || any (outside pool) rs)
unfolding add_all add_record outside
add_all-has_out_of_pool family pool [] e = ground arith
add_all-has_out_of_pool family pool (r ∷ rs) e = ground (
  arith,
  add_all-has_out_of_pool family pool rs (add_record family pool r.handle r.identity r.hostname e),
)

AllRead-length :
    (family : Family) (scope : String) (network : Network) (vs : List Value) (rs : List Reserved)
    → AllRead family scope network vs rs
    → length rs ≡ length vs
AllRead-length f s n [] [] h = refl
AllRead-length f s n [] (r ∷ rs) h = absurd h
AllRead-length f s n (v ∷ vs) [] h = absurd h
AllRead-length f s n (v ∷ vs) (r ∷ rs) (h, hs) = ap suc (AllRead-length f s n vs rs hs)

-- The emitted records are those of the reservations, in their order, and the mark of an address
-- outside of the pool is that of one of them.
pub materialize_records-emitted :
    (family : Family) (scope subnet_text pool_text : String) (source : Value) (out : Emitted)
    (m : IsMaterialized family scope subnet_text pool_text source out)
    → (out.records ≡ map (λ r. emitted_record family r.identity r.hostname) m.reserved)
      × (out.has_out_of_pool ≡ any (λ r. not (in_pool m.pool r.identity.address)) m.reserved)
      × (length m.reserved ≡ length m.records)
unfolding outside
materialize_records-emitted family scope subnet_text pool_text source out m =
    let (reads, _, same) = m.emission in
    (
      ap (λ e. e.records) same ∙ add_all-records family m.pool m.reserved emitted_nothing,
      ap (λ e. e.has_out_of_pool) same
          ∙ add_all-has_out_of_pool family m.pool m.reserved emitted_nothing,
      AllRead-length family scope m.network m.records m.reserved reads,
    )
