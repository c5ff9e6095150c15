-- ===== src/Runtime/Calls/Tests.antt =====
-- Two calls whose fragments are interleaved.
use hermes_rs.Prelude.{
  ℕ, ◌<◌, ◌≡◌, refl, String, Option, none, some, List, [], ◌∷◌, ok, err, All, length, traverse,
}
use hermes_rs.Prelude.Text.{trim}
use hermes_rs.Domain.Effect.{ToolCall}
use hermes_rs.Domain.Id.{new_id}
use hermes_rs.Runtime.Fault.{invalid_turn, changed_fragment}
use hermes_rs.Runtime.Message.{Json}
use hermes_rs.Runtime.Calls.{
  Delta, Entries, add_delta, merge_delta, merge_stable_fragment, finish_tool_call,
  finish_tool_calls, parse_arguments, range,
}
use hermes_rs.Runtime.Calls.Fragments.{add_deltas, fragments}
use hermes_rs.Runtime.Calls.Positions.{AllFrom}
use hermes_rs.Runtime.Calls.Assembly.{IsAssembled, finish_tool_calls-IsAssembled}

-- Any text is an object with one field.
abbrev one_field : Json ℕ
one_field = record {
  to_string = λ arguments. err (record { message = "unsupported" });
  from_str = λ text. ok (record { entries = (text, 0) ∷ [] });
  payload_to_string = λ execution_key message status. ok message;
}

abbrev delta : ℕ → Option String → String → Delta
delta index id text = record { index = index; id = id; name = id; arguments_delta = text }

abbrev interleaved : List Delta
interleaved =
    delta 1 (some "b") "" ∷ delta 0 (some "a") "x" ∷ delta 0 none "y" ∷ delta 0 (some "a") "z" ∷ []

abbrev two_entries : Entries
two_entries =
    (0, record { id = some "a"; name = some "a"; arguments = "xyz" })
    ∷ (1, record { id = some "b"; name = some "b"; arguments = "" })
    ∷ []

abbrev two_calls : List (ToolCall ℕ)
two_calls =
    record {
      id = record { value = "a" };
      name = "a";
      arguments = record { entries = ("xyz", 0) ∷ [] };
    }
    ∷ record { id = record { value = "b" }; name = "b"; arguments = record { entries = [] } }
    ∷ []

finish_tool_calls-IsAssembled_example :
    AllFrom 0 (λ index. IsAssembled one_field (fragments index interleaved)) two_calls
    × All (λ delta. delta.index < length two_calls) interleaved
unfolding add_deltas add_delta merge_delta merge_stable_fragment finish_tool_calls finish_tool_call
    parse_arguments range new_id traverse trim
finish_tool_calls-IsAssembled_example =
    finish_tool_calls-IsAssembled one_field interleaved two_entries two_calls refl refl

changed_id :
    add_deltas [] (delta 0 (some "a") "" ∷ delta 0 (some "b") "" ∷ [])
    ≡ err (invalid_turn (changed_fragment 0 "id"))
unfolding add_deltas add_delta merge_delta merge_stable_fragment
changed_id = refl
