-- ===== src/Store/Delegation/Moves.antt =====
-- The constraints of the table `delegations` (apps/hermesd/src/adapters/sqlite.rs), and how the
-- methods of apps/hermesd/src/adapters/sqlite_delegation.rs may change it.
use hermes_rs.Prelude.{
  ℕ, ◌≤◌, ◌≡◌, ◌≢◌, refl, sym, ◌∙◌, ap, subst, String, Bool, true, false, not, ◌&&◌, ◌||◌, Option,
  none, some, List, [], ◌∷◌, ◌++◌, map, ltb, leb, ◌==◌, string_eq, nat_eq, option_eq, arith, All,
  All-append, All-map, Distinct, Distinct-append, Bool-cases, inl, inr,
}
use mathlib.Core.List.{map-append}
use hermes_rs.Store.Table.{
  find_row, update, change_if, option_map, find_row-append, find_row-update, keys-update,
  find_row-key, All-update_found, find_row-none_iff,
}
use hermes_rs.Store.Delegation.{RawDelegation}
use hermes_rs.Store.Delegation.Rows.{find_delegation, is_terminal_name}

-- The last `CHECK` of the table.
unfoldable pub state_check : RawDelegation → Bool
state_check row =
    (row.state == "pending"
      && row.worker_id == none
      && row.fencing_token == 0
      && row.lease_expires_at_ms == none
      && row.terminal_json == none)
    || (row.state == "running"
        && not (row.worker_id == none)
        && ltb 0 row.fencing_token
        && not (row.lease_expires_at_ms == none)
        && row.terminal_json == none)
    || (is_terminal_name row.state
        && ltb 0 row.fencing_token
        && row.lease_expires_at_ms == none
        && not (row.terminal_json == none))

-- All the constraints on the columns of a row.
unfoldable pub row_check : RawDelegation → Bool
row_check row =
    ltb 0 row.owner_generation && leb row.created_at_ms row.updated_at_ms && state_check row

-- A cancellation is asked of a running delegation only, and with its time.
unfoldable pub is_asked_well : RawDelegation → Bool
is_asked_well row =
    row.cancellation_reason == none && row.cancellation_requested_at_ms == none
    || row.state == "running"
      && not (row.cancellation_reason == none)
      && not (row.cancellation_requested_at_ms == none)

pub record IsRow (row : RawDelegation) : Type 0 where
  pub constrained : row_check row ≡ true
  pub asked_well : is_asked_well row ≡ true

-- The columns that are `PRIMARY KEY` or `UNIQUE`.
abbrev pub id_of : RawDelegation → String
id_of row = row.delegation_id

abbrev pub event_of : RawDelegation → String
event_of row = row.completion_event_id

abbrev pub child_of : RawDelegation → String
child_of row = row.child_session_id

abbrev pub ids : List RawDelegation → List String
ids = map id_of

pub record IsTable (rows : List RawDelegation) : Type 0 where
  pub distinct_ids : Distinct (ids rows)
  pub distinct_events : Distinct (map event_of rows)
  pub distinct_children : Distinct (map child_of rows)
  pub rows_well : All IsRow rows

-- The columns that say which delegation this is.
abbrev pub commission :
    RawDelegation → String × String × String × String × String × Option String × ℕ
commission row = (
  row.delegation_id, row.completion_event_id, row.parent_session_id, row.child_session_id, row.goal,
  row.context, row.created_at_ms,
)

pub record Advances (before after : RawDelegation) : Type 0 where
  pub same_commission : commission after ≡ commission before
  pub generation_grows : before.owner_generation ≤ after.owner_generation
  pub fence_grows : before.fencing_token ≤ after.fencing_token
  pub time_grows : before.updated_at_ms ≤ after.updated_at_ms
  pub absorbed : is_terminal_name before.state ≡ true → after ≡ before

unfoldable pub Evolves : List RawDelegation → List RawDelegation → Type 0
Evolves rows rows' =
    (id : String) (row : RawDelegation)
    → find_delegation id rows ≡ some row
    → (row' : RawDelegation) × (find_delegation id rows' ≡ some row') × Advances row row'

-- A statement that changes the one row that was read.
pub record IsStep (rows rows' : List RawDelegation) : Type 0 where
  pub id : String
  pub raw : RawDelegation
  pub test : RawDelegation → Bool
  pub change : RawDelegation → RawDelegation
  pub found : find_delegation id rows ≡ some raw
  pub only : (row : RawDelegation) → test row ≡ true → row.delegation_id ≡ id
  pub keeps : (row : RawDelegation) → commission (change row) ≡ commission row
  pub advances : test raw ≡ true → IsRow raw → Advances raw (change raw)
  pub well : test raw ≡ true → IsRow raw → IsRow (change raw)
  pub updated : update test change rows ≡ rows'

-- No row has the identifier, the completion event or the child session of this one.
pub record IsNew (raw : RawDelegation) (rows : List RawDelegation) : Type 0 where
  pub id : find_row id_of raw.delegation_id rows ≡ none
  pub event : find_row event_of raw.completion_event_id rows ≡ none
  pub child : find_row child_of raw.child_session_id rows ≡ none

pub data Moves : List RawDelegation → List RawDelegation → Type 0 where
  stays : (rows : List RawDelegation) → Moves rows rows
  steps : {rows rows' : List RawDelegation} → IsStep rows rows' → Moves rows rows'
  creates :
      (rows : List RawDelegation) (raw : RawDelegation)
      → IsNew raw rows
      → IsRow raw
      → Moves rows (rows ++ raw ∷ [])
  and_then : {a b c : List RawDelegation} → Moves a b → Moves b c → Moves a c

Advances-refl : (row : RawDelegation) → Advances row row
Advances-refl row = record {
  same_commission = refl;
  generation_grows = omega arith;
  fence_grows = omega arith;
  time_grows = omega arith;
  absorbed = λ _. refl;
}

Advances-trans : (a b c : RawDelegation) → Advances a b → Advances b c → Advances a c
Advances-trans a b c p q = record {
  same_commission = q.same_commission ∙ p.same_commission;
  generation_grows = omega (arith, p.generation_grows, q.generation_grows);
  fence_grows = omega (arith, p.fence_grows, q.fence_grows);
  time_grows = omega (arith, p.time_grows, q.time_grows);
  absorbed = λ terminal.
      let same = p.absorbed terminal in
      q.absorbed (subst (λ r. is_terminal_name r.state ≡ true) (sym same) terminal) ∙ same;
}

All-find :
    (rows : List RawDelegation) (id : String) (row : RawDelegation)
    → All IsRow rows
    → find_delegation id rows ≡ some row
    → IsRow row
unfolding find_row
All-find [] id row h found = absurd (cc)
All-find (r ∷ rows) id row h found = elim (Bool-cases (r.delegation_id == id)) [
  | inl hit ↦ let same : r ≡ row = ground arith in subst IsRow same h.0
  | inr miss ↦ All-find rows id row h.1 (ground arith)
]

module _ {rows rows' : List RawDelegation} (step : IsStep rows rows') where
  step-keeps_id : (row : RawDelegation) → (step.change row).delegation_id ≡ row.delegation_id
  step-keeps_id row = ap (λ c. c.0) (step.keeps row)

  step-Distinct :
      (key : RawDelegation → String)
      → ((row : RawDelegation) → key (step.change row) ≡ key row)
      → Distinct (map key rows)
      → Distinct (map key (update step.test step.change rows))
  step-Distinct key keeps = subst Distinct (sym (keys-update step.test step.change key keeps rows))

module _ {rows rows' : List RawDelegation} (step : IsStep rows rows') (h : IsTable rows) where
  step-raw : IsRow step.raw
  step-raw = All-find rows step.id step.raw h.rows_well step.found

  step-Advances : Advances step.raw (change_if step.test step.change step.raw)
  step-Advances = elim (Bool-cases (step.test step.raw)) [
    | inl hit ↦ rw hit (step.advances hit step-raw)
    | inr miss ↦ rw miss (Advances-refl step.raw)
  ]

  step-IsRow : IsRow (change_if step.test step.change step.raw)
  step-IsRow = elim (Bool-cases (step.test step.raw)) [
    | inl hit ↦ rw hit (step.well hit step-raw)
    | inr miss ↦ rw miss step-raw
  ]

  step-IsTable : IsTable rows'
  step-IsTable = subst IsTable step.updated (record {
    distinct_ids = step-Distinct step id_of (step-keeps_id step) h.distinct_ids;
    distinct_events =
        step-Distinct step event_of (λ row. ap (λ c. c.1) (step.keeps row)) h.distinct_events;
    distinct_children =
        step-Distinct step child_of (λ row. ap (λ c. c.3) (step.keeps row)) h.distinct_children;
    rows_well =
        All-update_found step.test step.change (λ row. row.delegation_id) step.id step.only IsRow
          IsRow (λ row other h. h) rows step.raw h.distinct_ids step.found step-IsRow h.rows_well;
  })

  step-Evolves : Evolves rows rows'
  unfolding Evolves
  step-Evolves id row there =
      let moved : find_delegation id rows'
          ≡ option_map (change_if step.test step.change) (some row) =
        ap (find_delegation id) (sym step.updated)
        ∙ find_row-update step.test step.change (λ r. r.delegation_id) (step-keeps_id step) id rows
        ∙ ap (option_map (change_if step.test step.change)) there in
      elim (Bool-cases (id == step.id)) [
        | inl same ↦
            let at_id = (string_eq.eq_iff_same id step.id).0 same in
            let is_raw : step.raw ≡ row =
              cc (
                subst (λ k. find_delegation k rows ≡ some step.raw) (sym at_id) step.found,
                there,
              ) in
            (
              change_if step.test step.change row,
              moved,
              subst (λ r. Advances r (change_if step.test step.change r)) is_raw step-Advances,
            )
        | inr other ↦
            let key = find_row-key (λ r. r.delegation_id) id rows row there in
            let miss : step.test row ≡ false =
              ground (arith, step.only row, string_eq.eq_iff_same id step.id, key) in
            (change_if step.test step.change row, moved, rw miss (Advances-refl row))
      ]

-- A step leaves the rows of other delegations as they are.
pub step-other :
    {rows rows' : List RawDelegation} (step : IsStep rows rows') (id : String) (row : RawDelegation)
    → id ≢ step.id
    → find_delegation id rows ≡ some row
    → find_delegation id rows' ≡ some row
step-other {rows} step id row other there =
    let key = find_row-key (λ r. r.delegation_id) id rows row there in
    let miss : step.test row ≡ false = ground (arith, step.only row, key) in
    ap (find_delegation id) (sym step.updated)
    ∙ find_row-update step.test step.change (λ r. r.delegation_id) (step-keeps_id step) id rows
    ∙ rw (there, miss) refl

pub Evolves-refl : (rows : List RawDelegation) → Evolves rows rows
unfolding Evolves
Evolves-refl rows id row found = (row, found, Advances-refl row)

pub Evolves-trans : (a b c : List RawDelegation) → Evolves a b → Evolves b c → Evolves a c
unfolding Evolves
Evolves-trans a b c first second id row found =
    let (row', found', p) = first id row found in
    let (row'', found'', q) = second id row' found' in
    (row'', found'', Advances-trans row row' row'' p q)

create-Evolves : (rows : List RawDelegation) (raw : RawDelegation) → Evolves rows (rows ++ raw ∷ [])
unfolding Evolves
create-Evolves rows raw id row found =
    (row, find_row-append (λ r. r.delegation_id) id rows (raw ∷ []) row found, Advances-refl row)

create-Distinct :
    (key : RawDelegation → String) (rows : List RawDelegation) (raw : RawDelegation)
    → find_row key (key raw) rows ≡ none
    → Distinct (map key rows)
    → Distinct (map key (rows ++ raw ∷ []))
create-Distinct key rows raw absent h = subst Distinct (sym (map-append key rows (raw ∷ []))) (
    Distinct-append (map key rows) (key raw ∷ []) h (tt, tt)
      (
        All-map (λ other different same. different (sym same)) (map key rows)
            (find_row-none_iff key (key raw) rows absent),
        tt,
      ))

create-IsTable :
    (rows : List RawDelegation) (raw : RawDelegation)
    → IsNew raw rows
    → IsRow raw
    → IsTable rows
    → IsTable (rows ++ raw ∷ [])
create-IsTable rows raw new well h = record {
  distinct_ids = create-Distinct id_of rows raw new.id h.distinct_ids;
  distinct_events = create-Distinct event_of rows raw new.event h.distinct_events;
  distinct_children = create-Distinct child_of rows raw new.child h.distinct_children;
  rows_well = All-append IsRow rows (raw ∷ []) h.rows_well (well, tt);
}

-- A move keeps the table well formed, and each row goes on from what it was.
pub Moves-sound :
    {rows rows' : List RawDelegation}
    → Moves rows rows'
    → IsTable rows
    → IsTable rows' × Evolves rows rows'
Moves-sound (stays rows) h = (h, Evolves-refl rows)
Moves-sound (steps step) h = (step-IsTable step h, step-Evolves step h)
Moves-sound (creates rows raw new well) h =
    (create-IsTable rows raw new well h, create-Evolves rows raw)
Moves-sound (and_then {a} {b} {c} first second) h =
    let (middle, p) = Moves-sound first h in
    let (last, q) = Moves-sound second middle in (last, Evolves-trans a b c p q)
