-- ===== src/Runtime/Calls.antt =====
-- The assembly of tool calls from the fragments of a provider's stream: `PartialToolCall`,
-- `merge_stable_fragment` and `finish_tool_calls` of crates/runtime/src/lib.rs. The `BTreeMap` is
-- the list of its entries in the order of the keys.
pub mod Entries
pub mod Fragments
mod Streams
mod Positions
pub mod Assembly
mod Tests
use hermes_rs.Prelude.{
  ℕ, zero, suc, String, Bool, true, false, not, Option, none, some, List, [], ◌∷◌, map, length,
  Result, ok, err, ◌>>=◌, ok_or, map_err, traverse, if◌then◌else◌, ltb, ◌==◌, list_eq, nat_eq,
  string_eq,
}
use Prim.Native.String
use hermes_rs.Prelude.Text.{is_empty}
use hermes_rs.Domain.Id.{tool_call, new_id}
use hermes_rs.Domain.Effect.{ToolArguments, ToolCall}
use hermes_rs.Runtime.Message.{Json}
use hermes_rs.Runtime.Fault.{
  RuntimeError, invalid_turn, identifier, changed_fragment, indexes_not_contiguous, missing_call_id,
  missing_call_name, malformed_arguments,
}

pub record PartialToolCall : Type 0 where
  pub id : Option String
  pub name : Option String
  pub arguments : String

-- `PartialToolCall::default()`
abbrev pub no_fragments : PartialToolCall
no_fragments = record { id = none; name = none; arguments = "" }

-- The fields of `ProviderEvent::ToolCallDelta`.
pub record Delta : Type 0 where
  pub index : ℕ
  pub id : Option String
  pub name : Option String
  pub arguments_delta : String

unfoldable pub merge_stable_fragment :
    Option String → Option String → ℕ → String → Result RuntimeError (Option String)
merge_stable_fragment current none index field = ok current
merge_stable_fragment none (some incoming) index field = ok (some incoming)
merge_stable_fragment (some current) (some incoming) index field =
    if not (current == incoming)
    then err (invalid_turn (changed_fragment index field))
    else ok (some current)

-- What the arm for `ToolCallDelta` does to the entry.
unfoldable pub merge_delta : PartialToolCall → Delta → Result RuntimeError PartialToolCall
merge_delta partial delta = do
  id ← merge_stable_fragment partial.id delta.id delta.index "id"
  name ← merge_stable_fragment partial.name delta.name delta.index "name"
  ok (record {
    id = id;
    name = name;
    arguments = String.◌++◌ partial.arguments delta.arguments_delta;
  })

abbrev pub Entries : Type 0
Entries = List (ℕ × PartialToolCall)

-- The arm for `ToolCallDelta`, at the entry of the delta's index.
unfoldable pub add_delta : Entries → Delta → Result RuntimeError Entries
add_delta [] delta = do partial ← merge_delta no_fragments delta; ok ((delta.index, partial) ∷ [])
add_delta (entry ∷ entries) delta =
    let later = add_delta entries delta in
    if delta.index == entry.0
    then (do partial ← merge_delta entry.1 delta; ok ((entry.0, partial) ∷ entries))
    else if ltb delta.index entry.0
    then (do
      partial ← merge_delta no_fragments delta
      ok ((delta.index, partial) ∷ entry ∷ entries))
    else do entries' ← later; ok (entry ∷ entries')

-- The range `from..from + count`.
unfoldable pub range : ℕ → ℕ → List ℕ
range from zero = []
range from (suc count) = from ∷ range (suc from) count

module _ {V : Type 0} (serde : Json V) where
  unfoldable pub parse_arguments : String → String → Result RuntimeError (ToolArguments V)
  parse_arguments id arguments =
      if is_empty arguments
      then ok (record { entries = [] })
      else map_err (λ e. invalid_turn (malformed_arguments id e)) (serde.from_str arguments)

  unfoldable pub finish_tool_call : ℕ × PartialToolCall → Result RuntimeError (ToolCall V)
  finish_tool_call entry = do
    id ← ok_or entry.1.id (invalid_turn (missing_call_id entry.0))
    name ← ok_or entry.1.name (invalid_turn (missing_call_name id))
    arguments ← parse_arguments id entry.1.arguments
    id' ← map_err identifier (new_id tool_call id)
    ok (record { id = id'; name = name; arguments = arguments })

  unfoldable pub finish_tool_calls : Entries → Result RuntimeError (List (ToolCall V))
  finish_tool_calls partial_calls =
      if not (map (λ entry. entry.0) partial_calls == range 0 (length partial_calls))
      then err (invalid_turn indexes_not_contiguous)
      else traverse finish_tool_call partial_calls
