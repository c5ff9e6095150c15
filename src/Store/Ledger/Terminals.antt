-- ===== src/Store/Ledger/Terminals.antt =====
-- What a success of `record_terminals` of apps/hermesd/src/adapters/sqlite.rs means.
use hermes_rs.Prelude.{
  ℕ, ◌≡◌, ◌≢◌, refl, sym, ◌∙◌, ap, String, Option, some, List, [], ◌∷◌, map, ok, guard, ok_or,
  >>=-eq-ok, All, Fresh, Distinct, arith, ◌==◌, string_eq, nat_eq, inl, inr, map_err, true, false,
  Option-cases,
}
use hermes_rs.Domain.Effect.{
  ToolEffect, ToolTerminal, ToolResultStatus, succeeded, failed, cancelled, rejected,
  outcome_unknown, observed, effect_eq,
}
use hermes_rs.Runtime.Projection.{status_name}
use hermes_rs.Runtime.Journal.{already_terminal, missing_plan}
use hermes_rs.Store.Table.{
  Codec, find_row-key, update, count, find_row-update, change_if, option_map,
}
use hermes_rs.Store.Ledger.{
  EffectRow, find_effect, is_planned, complete_row, complete_rows, check_recorded,
  check_all_recorded, record_terminals, json_invalid,
}
use hermes_rs.Store.Ledger.Rows.{Evolves}
use hermes_rs.Store.Ledger.Evolution.{complete_rows-Evolves, record_terminals-eq-ok}
use hermes_rs.Store.Ledger.Keys.{
  key_of, Distinct-values, check_keys-Distinct, status_name-not_planned,
}

abbrev terminal_key : ToolTerminal → String
terminal_key = key_of λ terminal. terminal.invocation_id

-- The text of a status in the column of that name.
pub data IsStatusText : ToolResultStatus → String → Type 0 where
  says_succeeded : IsStatusText succeeded "succeeded"
  says_failed : IsStatusText failed "failed"
  says_cancelled : IsStatusText cancelled "cancelled"
  says_rejected : IsStatusText rejected "rejected"
  says_unknown : IsStatusText outcome_unknown "outcome_unknown"
  says_observed : IsStatusText observed "observed"

status_name-IsStatusText : (status : ToolResultStatus) → IsStatusText status (status_name status)
unfolding status_name
status_name-IsStatusText succeeded = says_succeeded
status_name-IsStatusText failed = says_failed
status_name-IsStatusText cancelled = says_cancelled
status_name-IsStatusText rejected = says_rejected
status_name-IsStatusText outcome_unknown = says_unknown
status_name-IsStatusText observed = says_observed

-- The columns that a plan and its approval have written.
abbrev pub plan_columns :
    EffectRow → String × String × String × String × String × String × Option String × ℕ
plan_columns row = (
  row.execution_key, row.execution_scope, row.call_id, row.name, row.arguments_json,
  row.effect_json, row.approval_json, row.planned_at,
)

module _ (effects : Codec ToolEffect) where
  -- The terminal's row was planned, with this call, name and effect.
  pub record IsExpected (rows : List EffectRow) (terminal : ToolTerminal) : Type 0 where
    pub row : EffectRow
    pub found : find_effect terminal.invocation_id.value rows ≡ some row
    pub planned : row.status ≡ "planned"
    pub same_call : row.call_id ≡ terminal.call_id.value
    pub same_name : row.name ≡ terminal.name
    pub same_effect : effects.decode row.effect_json ≡ ok terminal.effect

  check_recorded-eq-ok :
      (row : EffectRow) (terminal : ToolTerminal)
      → check_recorded effects row terminal ≡ ok tt
      → (row.status ≡ "planned")
        × (row.call_id ≡ terminal.call_id.value)
        × (row.name ≡ terminal.name)
        × (effects.decode row.effect_json ≡ ok terminal.effect)
  unfolding check_recorded
  check_recorded-eq-ok row terminal h =
      let (u, planned, h1) =
        >>=-eq-ok (guard (row.status == "planned") (already_terminal terminal.invocation_id.value))
          _ h in
      let (effect, read, same) =
        >>=-eq-ok (map_err json_invalid (effects.decode row.effect_json)) _ h1 in
      ground (
        arith,
        string_eq.eq_iff_same row.status "planned",
        string_eq.eq_iff_same row.call_id terminal.call_id.value,
        string_eq.eq_iff_same row.name terminal.name,
        effect_eq.eq_iff_same effect terminal.effect,
      )

  pub check_all_recorded-eq-ok :
      (rows : List EffectRow) (terminals : List ToolTerminal)
      → check_all_recorded effects rows terminals ≡ ok tt
      → All (IsExpected rows) terminals
  unfolding check_all_recorded
  check_all_recorded-eq-ok rows [] h = tt
  check_all_recorded-eq-ok rows (terminal ∷ terminals) h =
      let (row, found, h1) =
        >>=-eq-ok
          (ok_or (find_effect terminal.invocation_id.value rows)
            (missing_plan terminal.invocation_id.value))
          _ h in
      let (u, checked, h2) = >>=-eq-ok (check_recorded effects row terminal) _ h1 in
      let (planned, call, name, effect) = check_recorded-eq-ok row terminal checked in
      (
        record {
          row = row;
          found = ground arith;
          planned = planned;
          same_call = call;
          same_name = name;
          same_effect = effect;
        },
        check_all_recorded-eq-ok rows terminals h2,
      )

  -- The terminal's row was planned, and now holds its disposition and is otherwise as it was.
  pub record IsCompleted (now : ℕ) (rows rows' : List EffectRow) (terminal : ToolTerminal)
      : Type 0 where
    pub expected : IsExpected rows terminal
    pub row : EffectRow
    pub stored : find_effect terminal.invocation_id.value rows' ≡ some row
    pub status : IsStatusText terminal.status row.status
    pub content : row.content ≡ some terminal.content
    pub receipt : row.receipt ≡ terminal.receipt
    pub time : row.completed_at ≡ some now
    pub kept : plan_columns row ≡ plan_columns expected.row

  -- The same, by what the code writes.
  record IsOverwritten (now : ℕ) (rows rows' : List EffectRow) (terminal : ToolTerminal)
      : Type 0 where
    expected : IsExpected rows terminal
    written :
        find_effect terminal.invocation_id.value rows'
        ≡ some (complete_row now terminal expected.row)

  IsOverwritten-IsCompleted :
      (now : ℕ) (rows rows' : List EffectRow) (terminals : List ToolTerminal)
      → All (IsOverwritten now rows rows') terminals
      → All (IsCompleted now rows rows') terminals
  IsOverwritten-IsCompleted now rows rows' [] h = tt
  IsOverwritten-IsCompleted now rows rows' (terminal ∷ terminals) h = (
    record {
      expected = h.0.expected;
      row = complete_row now terminal h.0.expected.row;
      stored = h.0.written;
      status = status_name-IsStatusText terminal.status;
      content = refl;
      receipt = refl;
      time = refl;
      kept = refl;
    },
    IsOverwritten-IsCompleted now rows rows' terminals h.1,
  )

module _ (now : ℕ) (terminal : ToolTerminal) where
  abbrev complete : List EffectRow → List EffectRow
  complete = update (is_planned terminal.invocation_id.value) (complete_row now terminal)

  find_effect-complete :
      (key : String) (rows : List EffectRow)
      → find_effect key (complete rows)
        ≡ option_map
            (change_if (is_planned terminal.invocation_id.value) (complete_row now terminal))
            (find_effect key rows)
  find_effect-complete key rows =
      find_row-update (is_planned terminal.invocation_id.value) (complete_row now terminal)
        (λ row. row.execution_key) (λ row. refl) key rows

  find_effect-complete_other :
      (key : String) (rows : List EffectRow)
      → terminal.invocation_id.value ≢ key
      → find_effect key (complete rows) ≡ find_effect key rows
  find_effect-complete_other key rows other = elim (Option-cases (find_effect key rows)) [
    | inl missing ↦ find_effect-complete key rows ∙ rw missing refl
    | inr (row, found) ↦
        let here = find_row-key (λ row. row.execution_key) key rows row found in
        let miss : is_planned terminal.invocation_id.value row ≡ false = ground (
          arith,
          string_eq.eq_iff_same row.execution_key terminal.invocation_id.value,
          other,
          here,
        ) in
        find_effect-complete key rows ∙ rw (found, miss) refl
  ]

  find_effect-complete_same :
      (rows : List EffectRow) (row : EffectRow)
      → find_effect terminal.invocation_id.value rows ≡ some row
      → row.status ≡ "planned"
      → find_effect terminal.invocation_id.value (complete rows)
        ≡ some (complete_row now terminal row)
  find_effect-complete_same rows row found planned =
      let here =
        find_row-key (λ row. row.execution_key) terminal.invocation_id.value rows row found in
      let hit : is_planned terminal.invocation_id.value row ≡ true = ground (
        arith,
        string_eq.eq_iff_same row.execution_key terminal.invocation_id.value,
        string_eq.eq_iff_same row.status "planned",
        here,
      ) in
      find_effect-complete terminal.invocation_id.value rows ∙ rw (found, hit) refl

module _ (effects : Codec ToolEffect) (now : ℕ) where
  IsExpected-moved :
      (terminal : ToolTerminal) (rows rows' : List EffectRow)
      → find_effect terminal.invocation_id.value rows'
        ≡ find_effect terminal.invocation_id.value rows
      → IsExpected effects rows terminal
      → IsExpected effects rows' terminal
  IsExpected-moved terminal rows rows' same h = record {
    row = h.row;
    found = same ∙ h.found;
    planned = h.planned;
    same_call = h.same_call;
    same_name = h.same_name;
    same_effect = h.same_effect;
  }

  IsExpected-complete :
      (terminal : ToolTerminal) (rows : List EffectRow) (terminals : List ToolTerminal)
      → Fresh (terminal_key terminal) (map terminal_key terminals)
      → All (IsExpected effects rows) terminals
      → All (IsExpected effects (complete now terminal rows)) terminals
  IsExpected-complete terminal rows [] fresh h = tt
  IsExpected-complete terminal rows (t ∷ terminals) fresh h = (
    IsExpected-moved t rows (complete now terminal rows)
        (find_effect-complete_other now terminal t.invocation_id.value rows fresh.0) h.0,
    IsExpected-complete terminal rows terminals fresh.1 h.1,
  )

  IsOverwritten-before :
      (terminal : ToolTerminal) (rows rows' : List EffectRow) (terminals : List ToolTerminal)
      → Fresh (terminal_key terminal) (map terminal_key terminals)
      → All (IsOverwritten effects now (complete now terminal rows) rows') terminals
      → All (IsOverwritten effects now rows rows') terminals
  unfolding IsExpected-moved
  IsOverwritten-before terminal rows rows' [] fresh h = tt
  IsOverwritten-before terminal rows rows' (t ∷ terminals) fresh h = (
    record {
      expected =
          IsExpected-moved t (complete now terminal rows) rows
            (sym (find_effect-complete_other now terminal t.invocation_id.value rows fresh.0))
            h.0.expected;
      written = h.0.written;
    },
    IsOverwritten-before terminal rows rows' terminals fresh.1 h.1,
  )

  complete_rows-IsOverwritten :
      (terminals : List ToolTerminal) (rows rows' : List EffectRow)
      → complete_rows now rows terminals ≡ ok rows'
      → Distinct (map terminal_key terminals)
      → All (IsExpected effects rows) terminals
      → All (IsOverwritten effects now rows rows') terminals
  unfolding complete_rows Evolves
  complete_rows-IsOverwritten [] rows rows' done distinct h = tt
  complete_rows-IsOverwritten (terminal ∷ terminals) rows rows' done distinct h =
      let (u, one, rest) =
        >>=-eq-ok
          (guard (count (is_planned terminal.invocation_id.value) rows == 1)
            (already_terminal terminal.invocation_id.value))
          _ done in
      let (row, found, continues) =
        complete_rows-Evolves now terminals (complete now terminal rows) rows' rest
          terminal.invocation_id.value (complete_row now terminal h.0.row)
          (find_effect-complete_same now terminal rows h.0.row h.0.found h.0.planned) in
      let same = continues.absorbed (status_name-not_planned terminal.status) in
      (
        record { expected = h.0; written = found ∙ ap some same },
        IsOverwritten-before terminal rows rows' terminals distinct.0 (
            complete_rows-IsOverwritten terminals (complete now terminal rows) rows' rest distinct.1
              (IsExpected-complete terminal rows terminals distinct.0 h.1)),
      )

  -- When `record_terminals` succeeds, each terminal's row was planned, with the terminal's call, name
  -- and effect, and now holds the text of its status, its content, its receipt and the time, and is otherwise as
  -- it was.
  pub record_terminals-IsCompleted :
      (rows : List EffectRow) (terminals : List ToolTerminal) (rows' : List EffectRow)
      → record_terminals effects now rows terminals ≡ ok rows'
      → All (IsCompleted effects now rows rows') terminals
  record_terminals-IsCompleted rows terminals rows' done =
      let (distinct, checked, completed) =
        record_terminals-eq-ok effects now rows terminals rows' done in
      IsOverwritten-IsCompleted effects now rows rows' terminals (
        complete_rows-IsOverwritten terminals rows rows' completed
          (Distinct-values (λ terminal. terminal.invocation_id) terminals
            (check_keys-Distinct "terminal batch" []
              (map (λ terminal. terminal.invocation_id) terminals) distinct).0)
          (check_all_recorded-eq-ok effects rows terminals checked))
