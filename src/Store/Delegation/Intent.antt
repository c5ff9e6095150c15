-- ===== src/Store/Delegation/Intent.antt =====
-- What a worker may report: `ensure_legal_terminal` of
-- apps/hermesd/src/adapters/sqlite_delegation.rs.
use hermes_rs.Prelude.{
  ◌≡◌, ◌≢◌, sym, ap, String, Option, none, some, ok, err, guard, ◌>>=◌, >>=-eq-ok, ok-injective,
  ◌==◌, ◌||◌, not, ltb, string_eq, nat_eq, Option-cases, Bool-cases, ◌⊎◌, inl, inr,
}
use hermes_rs.Domain.Id.{delegation}
use hermes_rs.Domain.Delegation.{
  DelegationTerminal, completed, failed, cancelled, outcome_unknown, DelegationCancellation,
}
use hermes_rs.Store.Delegation.{
  RawDelegation, Formats, Checked, invalid, not_claimable, read_id, validate_detail,
}
use hermes_rs.Store.Delegation.Rows.{cancellation_from_raw, check_intent, ensure_legal_terminal}

-- What a worker may report: any outcome but a cancellation when nobody has asked for one, and the
-- cancellation that was asked for, with its reason, and nothing else.
pub data IsLegal (row : RawDelegation) (outcome : DelegationTerminal) : Type 0 where
  unasked :
      row.cancellation_reason ≡ none
      → ((reason : String) → outcome ≢ cancelled reason)
      → IsLegal row outcome
  as_asked :
      (reason : String)
      → row.cancellation_reason ≡ some reason
      → outcome ≡ cancelled reason
      → IsLegal row outcome

check_intent-unasked :
    (formats : Formats) (raw : RawDelegation) (outcome : DelegationTerminal)
    → check_intent formats raw none outcome ≡ ok tt
    → (reason : String) → outcome ≢ cancelled reason
unfolding check_intent
check_intent-unasked formats raw (completed _) h reason same = cc
check_intent-unasked formats raw (failed _) h reason same = cc
check_intent-unasked formats raw (cancelled _) h reason same = cc
check_intent-unasked formats raw (outcome_unknown _) h reason same = cc

abbrev refusal : Formats → RawDelegation → Checked
refusal formats raw = read_id formats delegation raw.delegation_id >>= λ id.
    err (not_claimable id "cancellation_requested")

refused : (formats : Formats) (raw : RawDelegation) → refusal formats raw ≢ ok tt
refused formats raw h =
    let (id, read, over) = >>=-eq-ok (read_id formats delegation raw.delegation_id) _ h in cc

check_intent-asked :
    (formats : Formats) (raw : RawDelegation) (cancellation : DelegationCancellation)
    (outcome : DelegationTerminal)
    → check_intent formats raw (some cancellation) outcome ≡ ok tt
    → outcome ≡ cancelled cancellation.reason
unfolding check_intent
check_intent-asked formats raw c (completed _) h = absurd (refused formats raw h)
check_intent-asked formats raw c (failed _) h = absurd (refused formats raw h)
check_intent-asked formats raw c (outcome_unknown _) h = absurd (refused formats raw h)
check_intent-asked formats raw c (cancelled reason) h = elim (Bool-cases (c.reason == reason)) [
  | inl same ↦ ap cancelled (sym ((string_eq.eq_iff_same c.reason reason).0 same))
  | inr other ↦ absurd (refused formats raw (rw other at h))
]

stored_cancellation :
    (raw : RawDelegation) (c : Option DelegationCancellation)
    → cancellation_from_raw raw ≡ ok c
    → ((raw.cancellation_reason ≡ none) × (c ≡ none))
      ⊎ ((asked : DelegationCancellation) × (raw.cancellation_reason ≡ some asked.reason)
          × (c ≡ some asked))
unfolding cancellation_from_raw
stored_cancellation raw c h = elim (Option-cases raw.cancellation_reason) [
  | inl no_reason ↦ elim (Option-cases raw.cancellation_requested_at_ms) [
    | inl never ↦ inl (no_reason, sym (ok-injective (rw (no_reason, never) at h)))
    | inr (time, at_time) ↦ absurd (cc (rw (no_reason, at_time) at h))
  ]
  | inr (reason, asked) ↦ elim (Option-cases raw.cancellation_requested_at_ms) [
    | inl never ↦ absurd (cc (rw (asked, never) at h))
    | inr (time, at_time) ↦
        let (u, valid, h1) =
          >>=-eq-ok (validate_detail reason "stored delegation cancellation reason") _
            (rw (asked, at_time) at h) in
        let (v, alive, done) =
          >>=-eq-ok
            (guard (not (ltb time raw.created_at_ms || ltb raw.updated_at_ms time))
              (invalid "stored cancellation timestamp is outside the delegation lifetime"))
            _ h1 in
        inr (record { reason = reason; requested_at_ms = time }, asked, sym (ok-injective done))
  ]
]

pub ensure_legal_terminal-IsLegal :
    (formats : Formats) (raw : RawDelegation) (outcome : DelegationTerminal)
    → ensure_legal_terminal formats raw outcome ≡ ok tt
    → IsLegal raw outcome
unfolding ensure_legal_terminal
ensure_legal_terminal-IsLegal formats raw outcome h =
    let (c, read, intent) = >>=-eq-ok (cancellation_from_raw raw) _ h in
    elim (stored_cancellation raw c read) [
      | inl (none_asked, same) ↦
          unasked none_asked (check_intent-unasked formats raw outcome (rw same at intent))
      | inr (cancellation, asked, same) ↦
          as_asked cancellation.reason asked
            (check_intent-asked formats raw cancellation outcome (rw same at intent))
    ]
