-- ===== src/Runtime/Calls/Assembly.antt =====
-- The calls that a stream of deltas is assembled to.
use hermes_rs.Prelude.{
  ℕ, suc, ◌<◌, ◌≡◌, ◌≢◌, refl, ◌∙◌, subst, String, none, some, List, [], ◌∷◌, map, length, ok,
  >>=-eq-ok, All, All-map, nat_eq, string_eq, arith, ◌⊎◌, inl, inr, traverse, list_eq, list_beq_iff,
  map_err, ok_or,
}
use text.Mathlib.TextLemmas.{nil-append}
use hermes_rs.Domain.Id.{ToolCallId, tool_call, new_id, id_eq}
use hermes_rs.Domain.Effect.{ToolCall, ToolArguments}
use hermes_rs.Runtime.Message.{Json}
use hermes_rs.Runtime.Fault.{identifier}
use hermes_rs.Runtime.Calls.{
  PartialToolCall, no_fragments, Delta, Entries, range, parse_arguments, finish_tool_call,
  finish_tool_calls,
}
use hermes_rs.Runtime.Calls.Entries.{lookup, or_default}
use hermes_rs.Runtime.Calls.Fragments.{add_deltas, fragments, joined, IsStable, IsMerged}
use hermes_rs.Runtime.Calls.Streams.{Reached, add_deltas-Reached, add_deltas-HasEntry}
use hermes_rs.Runtime.Calls.Positions.{AllFrom, Finished, finished, sorted_found, in_range}

-- The arguments that a text spells: none for no text.
abbrev pub Spells : {V : Type 0} → Json V → String → ToolArguments V → Type 0
Spells serde text arguments =
    ((text ≡ "") × (arguments.entries ≡ [])) ⊎ ((text ≢ "") × (serde.from_str text ≡ ok arguments))

-- A call is what its fragments give: the first identity and the first name that a fragment has, which
-- no other fragment contradicts, and the arguments that the joined texts spell.
pub record IsAssembled {V : Type 0} (serde : Json V) (pieces : List Delta) (call : ToolCall V)
    : Type 0 where
  pub id : IsStable none (map (λ delta. delta.id) pieces) (some call.id.value)
  pub name : IsStable none (map (λ delta. delta.name) pieces) (some call.name)
  pub arguments : Spells serde (joined pieces) call.arguments

new_id-value :
    (value : String) (id : ToolCallId) → new_id tool_call value ≡ ok id → id.value ≡ value
unfolding new_id
new_id-value value id h = ground arith

module _ {V : Type 0} (serde : Json V) where
  parse_arguments-ok :
      (id text : String) (arguments : ToolArguments V)
      → parse_arguments serde id text ≡ ok arguments
      → Spells serde text arguments
  unfolding parse_arguments
  parse_arguments-ok id String.[] arguments h = inl (refl, ground arith)
  parse_arguments-ok id (String.◌∷◌ c text) arguments h = inr ((λ e. cc), ground arith)

  finish_tool_call-ok :
      (index : ℕ) (partial : PartialToolCall) (call : ToolCall V)
      → finish_tool_call serde (index, partial) ≡ ok call
      → (partial.id ≡ some call.id.value)
        × (partial.name ≡ some call.name)
        × Spells serde partial.arguments call.arguments
  unfolding finish_tool_call
  finish_tool_call-ok index partial call h =
      let (id, has_id, h₁) = >>=-eq-ok (ok_or partial.id _) _ h in
      let (name, has_name, h₂) = >>=-eq-ok (ok_or partial.name _) _ h₁ in
      let (arguments, parsed, h₃) = >>=-eq-ok (parse_arguments serde id partial.arguments) _ h₂ in
      let (id', checked, done) = >>=-eq-ok (map_err identifier (new_id tool_call id)) _ h₃ in
      let valid : new_id tool_call id ≡ ok id' = ground (arith, checked) in
      let value = new_id-value id id' valid in
      let same : arguments ≡ call.arguments = ground (arith, done) in
      (
        ground (arith, has_id, value, done),
        ground (arith, has_name, done),
        subst (Spells serde partial.arguments) same
            (parse_arguments-ok id partial.arguments arguments parsed),
      )

  call-IsAssembled :
      (deltas : List Delta) (entries : Entries) (index : ℕ) (call : ToolCall V)
      → Reached [] deltas entries
      → Finished serde entries index call
      → IsAssembled serde (fragments index deltas) call
  unfolding lookup
  call-IsAssembled deltas entries index call r f =
      let (id, name, spelled) = finish_tool_call-ok index f.partial call f.finish in
      let merged : IsMerged no_fragments (fragments index deltas) f.partial =
        subst (λ o. IsMerged no_fragments (fragments index deltas) (or_default o)) f.found
          (r.merged index) in
      record {
        id = subst (IsStable none _) id merged.id;
        name = subst (IsStable none _) name merged.name;
        arguments =
            subst (λ text. Spells serde text call.arguments) (merged.arguments ∙ nil-append _)
              spelled;
      }

  all-IsAssembled :
      (deltas : List Delta) (entries : Entries) (from : ℕ) (calls : List (ToolCall V))
      → Reached [] deltas entries
      → AllFrom from (Finished serde entries) calls
      → AllFrom from (λ index. IsAssembled serde (fragments index deltas)) calls
  all-IsAssembled deltas entries from [] r f = tt
  all-IsAssembled deltas entries from (call ∷ calls) r f = (
    call-IsAssembled deltas entries from call r f.0,
    all-IsAssembled deltas entries (suc from) calls r f.1,
  )

  contiguous :
      (entries : Entries) (calls : List (ToolCall V))
      → finish_tool_calls serde entries ≡ ok calls
      → (map (λ entry. entry.0) entries ≡ range 0 (length entries))
        × (traverse (finish_tool_call serde) entries ≡ ok calls)
  unfolding finish_tool_calls
  contiguous entries calls done =
      ground (arith, done, list_beq_iff (map (λ entry. entry.0) entries) (range 0 (length entries)))

  -- When the deltas of a stream are added to an empty map and the map is finished to calls, the call
  -- at each position is what the deltas with that index give, however the deltas of different calls
  -- are interleaved, and no delta has an index without a call.
  pub finish_tool_calls-IsAssembled :
      (deltas : List Delta) (entries : Entries) (calls : List (ToolCall V))
      → add_deltas [] deltas ≡ ok entries
      → finish_tool_calls serde entries ≡ ok calls
      → AllFrom 0 (λ index. IsAssembled serde (fragments index deltas)) calls
        × All (λ delta. delta.index < length calls) deltas
  finish_tool_calls-IsAssembled deltas entries calls added done =
      let r = add_deltas-Reached [] deltas entries tt added in
      let (keys, ends) = contiguous entries calls done in
      let (f, e) =
        finished serde 0 entries entries calls keys (sorted_found serde entries r.sorted) ends in
      (
        all-IsAssembled deltas entries 0 calls r f,
        rw e (
            All-map {Q = λ delta. delta.index < length entries}
              (λ delta present.
                let r = in_range serde 0 entries delta.index keys present in omega arith)
              deltas (add_deltas-HasEntry [] deltas entries tt added)),
      )
