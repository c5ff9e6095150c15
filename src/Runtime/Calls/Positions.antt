-- ===== src/Runtime/Calls/Positions.antt =====
-- The indexes of `finish_tool_calls`: positions of the entries and their keys.
use hermes_rs.Prelude.{
  ℕ, suc, ◌+◌, ◌<◌, ◌≡◌, refl, sym, ap, some, List, [], ◌∷◌, map, length, ok, >>=-eq-ok, nat_beq,
  nat_beq_iff, All, nat_eq, string_eq, arith, inl, inr, traverse, Bool-cases, list_eq,
}
use hermes_rs.Domain.Effect.{ToolCall}
use hermes_rs.Runtime.Message.{Json}
use hermes_rs.Runtime.Calls.{PartialToolCall, Entries, range, finish_tool_call}
use hermes_rs.Runtime.Calls.Entries.{lookup, IsSorted}
use hermes_rs.Runtime.Calls.Streams.{HasEntry}

-- A predicate on the entries of a list and their positions, counted from a number on.
abbrev pub AllFrom {ℓ κ} : {A : Type ℓ} → ℕ → (ℕ → A → Type κ) → List A → Type κ
AllFrom from P [] = Unit
AllFrom from P (x ∷ xs) = P from x × AllFrom (suc from) P xs

module _ {V : Type 0} (serde : Json V) where
  -- The call that an entry is finished to.
  pub record Finished (whole : Entries) (index : ℕ) (call : ToolCall V) : Type 0 where
    pub partial : PartialToolCall
    pub found : lookup index whole ≡ some partial
    pub finish : finish_tool_call serde (index, partial) ≡ ok call

  pub finished :
      (from : ℕ) (whole entries : Entries) (calls : List (ToolCall V))
      → map (λ entry. entry.0) entries ≡ range from (length entries)
      → All (λ entry. lookup entry.0 whole ≡ some entry.1) entries
      → traverse (finish_tool_call serde) entries ≡ ok calls
      → AllFrom from (Finished whole) calls × (length calls ≡ length entries)
  unfolding traverse range
  finished from whole [] [] keys found h = (tt, refl)
  finished from whole [] (call ∷ calls) keys found h = cc
  finished from whole (entry ∷ entries) [] keys found h = ground (arith, h)
  finished from whole (entry ∷ entries) (call ∷ calls) keys found h =
      let (call', done, h') = >>=-eq-ok (finish_tool_call serde entry) _ h in
      let (calls', rest, e) = >>=-eq-ok (traverse (finish_tool_call serde) entries) _ h' in
      let key : entry.0 ≡ from = ground (arith, keys) in
      let same : call' ≡ call = ground (arith, e) in
      let same_rest : calls' ≡ calls = ground (arith, e) in
      let later : map (λ entry. entry.0) entries ≡ range (suc from) (length entries) =
        ground (arith, keys) in
      let r = finished (suc from) whole entries calls later found.1 (rw (sym same_rest) rest) in
      (
        (
          record {
            partial = entry.1;
            found = rw (sym key) found.0;
            finish = rw (sym key, sym same) done;
          },
          r.0,
        ),
        ap suc r.1,
      )

  found-All :
      (entry : ℕ × PartialToolCall) (whole entries : Entries)
      → All (λ later. entry.0 < later.0) entries
      → All (λ later. lookup later.0 whole ≡ some later.1) entries
      → All (λ later. lookup later.0 (entry ∷ whole) ≡ some later.1) entries
  unfolding lookup
  found-All entry whole [] above found = tt
  found-All entry whole (e ∷ entries) above found = (
    ground (arith, nat_beq_iff e.0 entry.0, above.0, found.0),
    found-All entry whole entries above.1 found.1,
  )

  pub sorted_found :
      (entries : Entries)
      → IsSorted entries
      → All (λ entry. lookup entry.0 entries ≡ some entry.1) entries
  unfolding lookup
  sorted_found [] s = tt
  sorted_found (entry ∷ entries) s = (
    ground (arith, nat_beq_iff entry.0 entry.0),
    found-All entry entries entries s.0 (sorted_found entries s.1),
  )

  pub in_range :
      (from : ℕ) (entries : Entries) (index : ℕ)
      → map (λ entry. entry.0) entries ≡ range from (length entries)
      → HasEntry entries index
      → index < from + length entries
  unfolding range lookup HasEntry
  in_range from [] index keys h = cc (h.1)
  in_range from (entry ∷ entries) index keys h =
      let later : map (λ entry. entry.0) entries ≡ range (suc from) (length entries) =
        ground (arith, keys) in
      let key : entry.0 ≡ from = ground (arith, keys) in
      elim (Bool-cases (nat_beq index entry.0)) [
        | inl same ↦ let e = (nat_beq_iff index entry.0).0 same in omega arith
        | inr apart ↦
            let h' : HasEntry entries index =
              (h.0, ground (arith, nat_beq_iff index entry.0, h.1)) in
            let r = in_range (suc from) entries index later h' in omega arith
      ]
