-- ===== src/Runtime/Calls/Streams.antt =====
-- What a stream of deltas makes of the map.
use hermes_rs.Prelude.{
  ℕ, ◌≡◌, refl, sym, ap, ◌∙◌, subst, some, List, [], ◌∷◌, ok, >>=-eq-ok, nat_beq, nat_beq_iff, All,
  nat_eq, string_eq, arith, inl, inr, Bool-cases, list_eq,
}
use text.Mathlib.TextLemmas.{append-nil}
use hermes_rs.Runtime.Calls.{PartialToolCall, Delta, merge_delta, Entries, add_delta}
use hermes_rs.Runtime.Calls.Entries.{lookup, or_default, IsSorted, Added, add_delta-Added}
use hermes_rs.Runtime.Calls.Fragments.{
  add_deltas, fragments, joined, first_given, IsMerged, merge_delta-step,
}

-- The map after the deltas: still sorted, and the entry of every index has its fragments merged in.
pub record Reached (entries : Entries) (deltas : List Delta) (after : Entries) : Type 0 where
  pub sorted : IsSorted after
  pub merged :
      (index : ℕ)
      → IsMerged
          (or_default (lookup index entries))
          (fragments index deltas)
          (or_default (lookup index after))

IsMerged-nil : (partial : PartialToolCall) → IsMerged partial [] partial
unfolding joined first_given
IsMerged-nil partial = record {
  id = record { first = refl; agree = tt };
  name = record { first = refl; agree = tt };
  arguments = sym (append-nil partial.arguments);
}

Reached-cons :
    (entries middle after : Entries) (delta : Delta) (deltas : List Delta)
    → Added entries delta middle
    → Reached middle deltas after
    → Reached entries (delta ∷ deltas) after
unfolding fragments
Reached-cons entries middle after delta deltas a r = record {
  sorted = r.sorted;
  merged = λ index. elim (Bool-cases (nat_beq index delta.index)) [
    | inl same ↦
        let e = (nat_beq_iff index delta.index).0 same in
        let merged : merge_delta (or_default (lookup index entries)) delta
            ≡ ok (or_default (lookup index middle)) =
          rw e (a.merged ∙ ap (λ o. ok (or_default o)) (sym a.stored)) in
        rw same (merge_delta-step _ _ _ delta _ merged (r.merged index))
    | inr apart ↦
        let e = a.kept index (λ e. ground (arith, nat_beq_iff index delta.index)) in
        rw (apart, sym e) (r.merged index)
  ];
}

pub add_deltas-Reached :
    (entries : Entries) (deltas : List Delta) (after : Entries)
    → IsSorted entries
    → add_deltas entries deltas ≡ ok after
    → Reached entries deltas after
unfolding add_deltas fragments
add_deltas-Reached entries [] after s h =
    let same : entries ≡ after = ground (arith, h) in
    subst (Reached entries []) same (record { sorted = s; merged = λ index. IsMerged-nil _ })
add_deltas-Reached entries (delta ∷ deltas) after s h =
    let (middle, added, rest) = >>=-eq-ok (add_delta entries delta) _ h in
    let a = add_delta-Added entries delta middle s added in
    Reached-cons entries middle after delta deltas a
      (add_deltas-Reached middle deltas after a.sorted rest)

unfoldable pub HasEntry : Entries → ℕ → Type 0
HasEntry entries index = (partial : PartialToolCall) × (lookup index entries ≡ some partial)

add_deltas-keeps :
    (index : ℕ) (entries : Entries) (deltas : List Delta) (after : Entries)
    → IsSorted entries
    → add_deltas entries deltas ≡ ok after
    → HasEntry entries index
    → HasEntry after index
unfolding add_deltas HasEntry
add_deltas-keeps index entries [] after s h present =
    let same : entries ≡ after = ground (arith, h) in subst (λ e. HasEntry e index) same present
add_deltas-keeps index entries (delta ∷ deltas) after s h present =
    let (middle, added, rest) = >>=-eq-ok (add_delta entries delta) _ h in
    let a = add_delta-Added entries delta middle s added in
    add_deltas-keeps index middle deltas after a.sorted rest
      (elim (Bool-cases (nat_beq index delta.index)) [
        | inl same ↦ let e = (nat_beq_iff index delta.index).0 same in (a.partial, rw e a.stored)
        | inr apart ↦
            let e = a.kept index (λ e. ground (arith, nat_beq_iff index delta.index)) in
            (present.0, e ∙ present.1)
      ])

pub add_deltas-HasEntry :
    (entries : Entries) (deltas : List Delta) (after : Entries)
    → IsSorted entries
    → add_deltas entries deltas ≡ ok after
    → All (λ delta. HasEntry after delta.index) deltas
unfolding add_deltas HasEntry
add_deltas-HasEntry entries [] after s h = tt
add_deltas-HasEntry entries (delta ∷ deltas) after s h =
    let (middle, added, rest) = >>=-eq-ok (add_delta entries delta) _ h in
    let a = add_delta-Added entries delta middle s added in
    (
      add_deltas-keeps delta.index middle deltas after a.sorted rest (a.partial, a.stored),
      add_deltas-HasEntry middle deltas after a.sorted rest,
    )
