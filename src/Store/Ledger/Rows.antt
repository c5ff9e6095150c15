-- ===== src/Store/Ledger/Rows.antt =====
-- How one row of `tool_effects` may change, and the tables whose rows have changed so
-- (apps/hermesd/src/adapters/sqlite.rs).
use hermes_rs.Prelude.{
  ℕ, ◌≡◌, ◌≢◌, refl, sym, ◌∙◌, ap, subst, String, some, List, ◌++◌, Bool-cases, inl, inr, arith,
  string_eq,
}
use hermes_rs.Store.Table.{update, change_if, option_map, find_row-append, find_row-update}
use hermes_rs.Store.Ledger.{EffectRow, find_effect, is_planned}

-- The columns that no statement but the `INSERT` writes.
abbrev pub frozen : EffectRow → String × String × String × String × String × String × ℕ
frozen row = (
  row.execution_key, row.execution_scope, row.call_id, row.name, row.arguments_json,
  row.effect_json, row.planned_at,
)

-- The frozen columns are the same, and so is the whole row once it is terminal.
pub record Continues (before after : EffectRow) : Type 0 where
  pub same_plan : frozen after ≡ frozen before
  pub absorbed : before.status ≢ "planned" → after ≡ before

-- No row is lost, and each one continues.
unfoldable pub Evolves : List EffectRow → List EffectRow → Type 0
Evolves rows rows' =
    (key : String) (row : EffectRow)
    → find_effect key rows ≡ some row
    → (row' : EffectRow) × (find_effect key rows' ≡ some row') × Continues row row'

pub Continues-refl : (row : EffectRow) → Continues row row
Continues-refl row = record { same_plan = refl; absorbed = λ _. refl }

pub Continues-trans : (a b c : EffectRow) → Continues a b → Continues b c → Continues a c
Continues-trans a b c first second = record {
  same_plan = second.same_plan ∙ first.same_plan;
  absorbed = λ terminal.
      let same = first.absorbed terminal in
      second.absorbed (subst (λ r. r.status ≢ "planned") (sym same) terminal) ∙ same;
}

pub Evolves-refl : (rows : List EffectRow) → Evolves rows rows
unfolding Evolves
Evolves-refl rows key row found = (row, found, Continues-refl row)

pub Evolves-trans : (a b c : List EffectRow) → Evolves a b → Evolves b c → Evolves a c
unfolding Evolves
Evolves-trans a b c first second key row found =
    let (row', found', more) = first key row found in
    let (row'', found'', last) = second key row' found' in
    (row'', found'', Continues-trans row row' row'' more last)

pub Evolves-append : (rows more : List EffectRow) → Evolves rows (rows ++ more)
unfolding Evolves
Evolves-append rows more key row found =
    (row, find_row-append (λ r. r.execution_key) key rows more row found, Continues-refl row)

module _ (key : String) (change : EffectRow → EffectRow)
    (keeps : (row : EffectRow) → frozen (change row) ≡ frozen row) where
  Continues-change_if : (row : EffectRow) → Continues row (change_if (is_planned key) change row)
  Continues-change_if row = elim (Bool-cases (is_planned key row)) [
    | inr miss ↦ rw miss (Continues-refl row)
    | inl hit ↦
        let planned : row.status ≡ "planned" =
          ground (arith, string_eq.eq_iff_same row.status "planned") in
        rw hit (record { same_plan = keeps row; absorbed = λ terminal. absurd (terminal planned) })
  ]

  keeps_key : (row : EffectRow) → (change row).execution_key ≡ row.execution_key
  keeps_key row = ap (λ t. t.0) (keeps row)

  pub Evolves-update : (rows : List EffectRow) → Evolves rows (update (is_planned key) change rows)
  unfolding Evolves
  Evolves-update rows k row found = (
    change_if (is_planned key) change row,
    find_row-update (is_planned key) change (λ r. r.execution_key) keeps_key k rows
        ∙ ap (option_map (change_if (is_planned key) change)) found,
    Continues-change_if row,
  )
