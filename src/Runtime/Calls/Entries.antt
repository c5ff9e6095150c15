-- ===== src/Runtime/Calls/Entries.antt =====
-- What one delta does to the map of `add_delta`.
use hermes_rs.Prelude.{
  ℕ, ◌<◌, ◌≡◌, ◌≢◌, refl, Option, none, some, [], ◌∷◌, ok, if◌then◌else◌, nat_beq_iff, All, All-map,
  ◌==◌, nat_eq, arith, ◌⊎◌, inl, inr,
}
use hermes_rs.Runtime.Calls.{PartialToolCall, no_fragments, Delta, merge_delta, Entries, add_delta}

-- The entry of an index, by a scan of the keys.
unfoldable pub lookup : ℕ → Entries → Option PartialToolCall
lookup index [] = none
lookup index (entry ∷ entries) = if index == entry.0 then some entry.1 else lookup index entries

abbrev pub or_default : Option PartialToolCall → PartialToolCall
or_default none = no_fragments
or_default (some partial) = partial

-- The keys of a tree map, in order and without repetition.
abbrev pub IsSorted : Entries → Type 0
IsSorted [] = Unit
IsSorted (entry ∷ entries) = All (λ later. entry.0 < later.0) entries × IsSorted entries

add_delta-cons :
    (entry : ℕ × PartialToolCall) (entries : Entries) (delta : Delta) (after : Entries)
    → add_delta (entry ∷ entries) delta ≡ ok after
    → ((entry.0 ≡ delta.index)
        × (partial : PartialToolCall) × (merge_delta entry.1 delta ≡ ok partial)
        × (after ≡ (entry.0, partial) ∷ entries))
      ⊎ ((delta.index < entry.0)
          × (partial : PartialToolCall) × (merge_delta no_fragments delta ≡ ok partial)
          × (after ≡ (delta.index, partial) ∷ entry ∷ entries))
      ⊎ ((entry.0 < delta.index)
          × (entries' : Entries) × (add_delta entries delta ≡ ok entries')
          × (after ≡ entry ∷ entries'))
unfolding add_delta
add_delta-cons entry entries delta after h = ground (arith, nat_beq_iff delta.index entry.0)

add_delta-nil :
    (delta : Delta) (after : Entries)
    → add_delta [] delta ≡ ok after
    → (partial : PartialToolCall) × (merge_delta no_fragments delta ≡ ok partial)
      × (after ≡ (delta.index, partial) ∷ [])
unfolding add_delta
add_delta-nil delta after h = ground arith

lookup-above :
    (index : ℕ) (entries : Entries)
    → All (λ later. index < later.0) entries
    → lookup index entries ≡ none
unfolding lookup
lookup-above index [] h = refl
lookup-above index (entry ∷ entries) h =
    let later = lookup-above index entries h.1 in ground (arith, nat_beq_iff index entry.0)

-- A key below those of the map and the delta's is below those of the new map.
add_delta-above :
    (bound : ℕ) (entries : Entries) (delta : Delta) (after : Entries)
    → add_delta entries delta ≡ ok after
    → bound < delta.index
    → All (λ entry. bound < entry.0) entries
    → All (λ entry. bound < entry.0) after
add_delta-above bound [] delta after h b below =
    let (partial, merged, e) = add_delta-nil delta after h in rw e (b, tt)
add_delta-above bound (entry ∷ entries) delta after h b below =
    elim (add_delta-cons entry entries delta after h) [
      | inl (same, partial, merged, e) ↦ rw e below
      | inr (inl (less, partial, merged, e)) ↦ rw e (b, below)
      | inr (inr (more, entries', added, e)) ↦
          rw e (below.0, add_delta-above bound entries delta entries' added b below.1)
    ]

-- The new map is sorted, its entry at the delta's index is the old one with the delta merged in,
-- and no other entry has changed.
pub record Added (entries : Entries) (delta : Delta) (after : Entries) : Type 0 where
  pub sorted : IsSorted after
  pub partial : PartialToolCall
  pub merged : merge_delta (or_default (lookup delta.index entries)) delta ≡ ok partial
  pub stored : lookup delta.index after ≡ some partial
  pub kept : (index : ℕ) → index ≢ delta.index → lookup index after ≡ lookup index entries

pub add_delta-Added :
    (entries : Entries) (delta : Delta) (after : Entries)
    → IsSorted entries
    → add_delta entries delta ≡ ok after
    → Added entries delta after
unfolding lookup
add_delta-Added [] delta after s h =
    let (partial, merged, e) = add_delta-nil delta after h in
    rw e (record {
      sorted = (tt, tt);
      partial = partial;
      merged = merged;
      stored = ground (arith, nat_beq_iff delta.index delta.index);
      kept = λ index apart. ground (arith, nat_beq_iff index delta.index);
    })
add_delta-Added (entry ∷ entries) delta after s h =
    elim (add_delta-cons entry entries delta after h) [
      | inl (same, partial, merged, e) ↦ rw e (record {
        sorted = s;
        partial = partial;
        merged = ground (arith, nat_beq_iff delta.index entry.0);
        stored = ground (arith, nat_beq_iff delta.index entry.0);
        kept = λ index apart. ground (arith, nat_beq_iff index entry.0);
      })
      | inr (inl (less, partial, merged, e)) ↦
          let above =
            All-map {Q = λ later. delta.index < later.0} (λ later l. omega arith) entries s.0 in
          let absent = lookup-above delta.index entries above in
          rw e (record {
            sorted = ((less, above), s);
            partial = partial;
            merged = ground (arith, nat_beq_iff delta.index entry.0);
            stored = ground (arith, nat_beq_iff delta.index delta.index);
            kept = λ index apart. ground (arith, nat_beq_iff index delta.index);
          })
      | inr (inr (more, entries', added, e)) ↦
          let r = add_delta-Added entries delta entries' s.1 added in
          rw e (record {
            sorted = (add_delta-above entry.0 entries delta entries' added more s.0, r.sorted);
            partial = r.partial;
            merged = ground (arith, nat_beq_iff delta.index entry.0, r.merged);
            stored = ground (arith, nat_beq_iff delta.index entry.0, r.stored);
            kept = λ index apart. ground (arith, nat_beq_iff index entry.0, r.kept index apart);
          })
    ]
