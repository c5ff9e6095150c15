-- ===== src/Domain/Conversation/Calls.antt =====
-- When the calls of a request pass `validate_calls`.
use hermes_rs.Prelude.{
  ℕ, ◌≡◌, ◌≢◌, ◌↔◌, refl, sym, String, true, List, [], ◌∷◌, ok, string_eq, All, Fresh, Distinct,
  contains-eq-false_iff, arith,
}
use hermes_rs.Prelude.Text.{is_empty}
use hermes_rs.Domain.Id.{ToolCallId, id_eq}
use hermes_rs.Domain.Effect.{ToolCall}
use hermes_rs.Domain.Conversation.{check_calls, validate_calls}
use hermes_rs.Domain.Conversation.Grammar.{IsRequest, call_ids}

is_empty_iff : (s : String) → (is_empty s ≡ true) ↔ (s ≡ "")
is_empty_iff String.[] = (λ _. refl, λ _. refl)
is_empty_iff (String.◌∷◌ c s) = (λ h. cc, λ h. cc)

module _ {V : Type 0} where
  -- The calls that pass the loop when `seen` was seen before.
  record IsCheckedCalls (seen : List ToolCallId) (calls : List (ToolCall V)) : Type 0 where
    named : All (λ call. call.name ≢ "") calls
    distinct : Distinct (call_ids calls)
    unseen : All (λ call. Fresh call.id seen) calls

  unseen_split :
      (a : ToolCallId) (seen : List ToolCallId) (calls : List (ToolCall V))
      → All (λ call. Fresh call.id (a ∷ seen)) calls
        ↔ (Fresh a (call_ids calls) × All (λ call. Fresh call.id seen) calls)
  unseen_split a seen [] = (λ _. (tt, tt), λ _. tt)
  unseen_split a seen (call ∷ calls) =
      let (to, from) = unseen_split a seen calls in
      (
        λ h. let t = to h.1 in ((λ e. h.0.0 (sym e), t.0), (h.0.1, t.1)),
        λ h. ((λ e. h.0.0 (sym e), h.1.0), from (h.0.1, h.1.1)),
      )

  check_calls_iff :
      (index : ℕ) (seen : List ToolCallId) (calls : List (ToolCall V))
      → (check_calls index seen calls ≡ ok tt) ↔ IsCheckedCalls seen calls
  unfolding check_calls
  check_calls_iff index seen [] =
      (λ _. record { named = tt; distinct = tt; unseen = tt }, λ _. refl)
  check_calls_iff index seen (call ∷ calls) = ground (
    arith,
    is_empty_iff call.name,
    contains-eq-false_iff call.id seen,
    unseen_split call.id seen calls,
    check_calls_iff index (call.id ∷ seen) calls,
  )

  unseen_nil : (calls : List (ToolCall V)) → All (λ call. Fresh call.id []) calls
  unseen_nil [] = tt
  unseen_nil (call ∷ calls) = (tt, unseen_nil calls)

  pub validate_calls_iff :
      (index : ℕ) (calls : List (ToolCall V))
      → (validate_calls index calls ≡ ok tt) ↔ IsRequest calls
  unfolding validate_calls
  validate_calls_iff index [] = (λ h. cc, λ h. absurd (h.some_call refl))
  validate_calls_iff index (call ∷ calls) =
      let (to, from) = check_calls_iff index [] (call ∷ calls) in
      (
        λ h. let c = to h in record { some_call = λ e. cc; named = c.named; distinct = c.distinct },
        λ r.
            from (record {
              named = r.named;
              distinct = r.distinct;
              unseen = unseen_nil (call ∷ calls);
            }),
      )
