-- ===== src/Store/Delegation/Guards.antt =====
-- What a claim, an acknowledgement and a release of apps/hermesd/src/adapters/sqlite_delegation.rs do to
-- a completion that is held.
use hermes_rs.Prelude.{
  ℕ, ◌<◌, ◌≡◌, ◌≢◌, refl, sym, ap, subst, String, Bool, true, false, ◌&&◌, none, some, Option, List,
  ok, ok_or, >>=-eq-ok, ok-injective, Bool-cases, ◌⊎◌, inl, inr, arith, ◌==◌, string_eq, nat_eq,
  option_eq,
}
use hermes_rs.Domain.Delegation.{CompletionEventId, DeliveryClaimId, DelegationCompletion}
use hermes_rs.Store.Table.{update, count}
use hermes_rs.Store.Delegation.{Formats, to_i64, validate_claim, storage}
use hermes_rs.Store.Delegation.Legal.{to_i64-eq-ok}
use hermes_rs.Store.Delegation.Held.{IsGuarded, IsHeld, update-IsHeld}
use hermes_rs.Store.Delegation.Lifecycle.{Tables, CompletionRow}
use hermes_rs.Store.Delegation.Outbox.{
  claim_completion_transaction, claimed, is_available, is_claimed_by, delivered, released,
  decode_completion, find_event,
}
use hermes_rs.Domain.Id.{id_eq}

abbrev pub is_free : String → ℕ → CompletionRow → Bool
is_free event now row = row.event_id == event && is_available now row

-- A successful claim has found one free row, and has changed it.
pub claim_completion-eq-ok :
    (formats : Formats) (tables : Tables) (event : CompletionEventId) (claim_id : DeliveryClaimId)
    (now deadline : ℕ) (tables' : Tables) (result : Option DelegationCompletion)
    → claim_completion_transaction formats tables event claim_id now deadline ≡ ok (tables', result)
    → ((tables ≡ tables') × (result ≡ none))
      ⊎ ((row : CompletionRow) × (count (is_free event.value now) tables.completions ≡ 1)
          × (update (is_free event.value now) (claimed claim_id.value deadline) tables.completions
              ≡ tables'.completions)
          × (find_event event.value tables'.completions ≡ some row))
unfolding claim_completion_transaction
claim_completion-eq-ok formats tables event claim_id now deadline tables' result h =
    let (u, valid, h1) = >>=-eq-ok (validate_claim now deadline) _ h in
    let (d, d_fits, h2) = >>=-eq-ok (to_i64 deadline "delivery claim deadline") _ h1 in
    let (time, fits, h3) = >>=-eq-ok (to_i64 now "delivery claim timestamp") _ h2 in
    let same_d = to_i64-eq-ok deadline "delivery claim deadline" d d_fits in
    let same_t = to_i64-eq-ok now "delivery claim timestamp" time fits in
    let both : ◌≡◌ {A = ℕ × ℕ} (time, d) (now, deadline) = cc in
    elim (Bool-cases (count (is_free event.value time) tables.completions == 1)) [
      | inr none_free ↦
          let same = ok-injective (rw none_free at h3) in
          inl (ap (λ t. t.0) same, sym (ap (λ t. t.1) same))
      | inl one_free ↦
          let (row, found, h4) =
            >>=-eq-ok
              (ok_or
                (find_event event.value
                  (update (is_free event.value time) (claimed claim_id.value d) tables.completions))
                (storage formats.no_rows))
              _ (rw one_free at h3) in
          let (c, decoded, h5) = >>=-eq-ok (decode_completion formats row) _ h4 in
          let same_rows = ap (λ t. t.0.completions) (ok-injective h5) in
          let there : find_event event.value
                (update (is_free event.value time) (claimed claim_id.value d) tables.completions)
              ≡ some row =
            ground arith in
          inr (
            row,
            subst (λ t. count (is_free event.value t) tables.completions ≡ 1) same_t
                ((nat_eq.eq_iff_same _ 1).0 one_free),
            subst
                (λ p.
                  update (is_free event.value p.0) (claimed claim_id.value p.1) tables.completions
                  ≡ tables'.completions)
                both same_rows,
            subst (λ r. find_event event.value r ≡ some row) same_rows there,
          )
    ]

module _ (event claim : String) (deadline : ℕ) where
  -- Before the deadline nothing that is held is free.
  pub IsGuarded-not_free :
      (row : CompletionRow) (now : ℕ)
      → now < deadline
      → IsGuarded event claim deadline row
      → is_free event now row ≡ false
  IsGuarded-not_free row now early h = elim (Bool-cases (row.event_id == event)) [
    | inr miss ↦ rw miss refl
    | inl hit ↦ elim (h ((string_eq.eq_iff_same row.event_id event).0 hit)) [
      | inl ended ↦ ground (arith, ended, string_eq.eq_iff_same row.delivery_state "pending")
      | inr (owner, until) ↦ rw (owner, until) (ground (arith, early))
    ]
  ]

  pub claim-IsHeld :
      (event' : String) (claim' : String) (now until : ℕ)
      → (event' ≡ event → now < deadline)
      → (rows : List CompletionRow) → IsHeld event claim deadline rows
      → IsHeld event claim deadline (update (is_free event' now) (claimed claim' until) rows)
  claim-IsHeld event' claim' now until early =
      update-IsHeld event claim deadline (is_free event' now) (claimed claim' until) (λ row. refl)
        λ row free h same.
          let key : row.event_id ≡ event' =
            ground (arith, string_eq.eq_iff_same row.event_id event', free) in
          let here : event' ≡ event = cc (key, same) in
          absurd (
            cc (
              IsGuarded-not_free row now (early here) h,
              subst (λ k. is_free k now row ≡ true) here free,
            ))

  pub acknowledge-IsHeld :
      (test : CompletionRow → Bool) (time : ℕ) (rows : List CompletionRow)
      → IsHeld event claim deadline rows
      → IsHeld event claim deadline (update test (delivered time) rows)
  acknowledge-IsHeld test time =
      update-IsHeld event claim deadline test (delivered time) (λ row. refl)
        λ row hit h same. inl (λ waits. cc (waits))

  pub release-IsHeld :
      (event' claim' : String)
      → (event' ≡ event → claim' ≢ claim)
      → (rows : List CompletionRow) → IsHeld event claim deadline rows
      → IsHeld event claim deadline (update (is_claimed_by event' claim') released rows)
  release-IsHeld event' claim' other =
      update-IsHeld event claim deadline (is_claimed_by event' claim') released (λ row. refl)
        λ row hit h same. elim (h same) [
          | inl ended ↦ inl ended
          | inr (owner, until) ↦
              let key : row.event_id ≡ event' =
                ground (arith, string_eq.eq_iff_same row.event_id event', hit) in
              let mine : (row.delivery_claim_id == some claim') ≡ true = ground (arith, hit) in
              let mine' : (some claim == some claim') ≡ true =
                subst (λ c. (c == some claim') ≡ true) owner mine in
              absurd (other (cc (key, same)) (sym ((string_eq.eq_iff_same claim claim').0 mine')))
        ]
