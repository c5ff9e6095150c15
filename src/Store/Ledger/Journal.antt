-- ===== src/Store/Ledger/Journal.antt =====
-- `SqliteEffectLedger` (apps/hermesd/src/adapters/sqlite.rs) as the ledger of a `JournaledToolBroker`:
-- each call is one transaction, which an error rolls back. `tick` is how far the clock, which
-- `unixepoch()` reads, goes on with a call.
use hermes_rs.Prelude.{
  ℕ, ◌≡◌, String, List, [], ◌∷◌, Result, ok, err, Result-cases, inl, inr, PartialEq, All, some,
}
use hermes_rs.Domain.Id.{InvocationId}
use hermes_rs.Domain.Effect.{
  ToolArguments, ToolEffect, ApprovalRecord, PlannedToolCall, ToolTerminal,
}
use hermes_rs.Runtime.Host.Identities.{plan_ids}
use hermes_rs.Runtime.Journal.{EffectLedger, EffectLedgerError}
use hermes_rs.Runtime.Journal.Recorded.{IsDurable}
use hermes_rs.Store.Table.{Codec}
use hermes_rs.Store.Ledger.{EffectRow, find_effect, record_plans, record_terminals}
use hermes_rs.Store.Ledger.Approve.{record_approvals}
use hermes_rs.Store.Ledger.Rows.{Evolves, Evolves-refl, Evolves-trans}
use hermes_rs.Store.Ledger.Evolution.{
  record_plans-Evolves, record_approvals-Evolves, record_terminals-Evolves,
}
use hermes_rs.Store.Ledger.Inserted.{IsInserted, record_plans-IsInserted}
use hermes_rs.Store.Ledger.Keys.{
  IsLedger, record_plans-IsLedger, record_approvals-IsLedger, record_terminals-IsLedger,
}

pub record Database : Type 0 where
  pub now : ℕ
  pub rows : List EffectRow

-- A call of the ledger, as `JournaledToolBroker` makes it.
pub data LedgerCall (V : Type 0) : Type 0 where
  records : String → List (PlannedToolCall V) → LedgerCall V
  approves : List (PlannedToolCall V) → LedgerCall V
  completes : List ToolTerminal → LedgerCall V

module _ {V : Type 0} ⦃e : PartialEq V⦄ (arguments : Codec (ToolArguments V))
    (effects : Codec ToolEffect) (approvals : Codec ApprovalRecord) (tick : ℕ → ℕ) where
  -- The transaction is committed on success and rolled back on an error.
  unfoldable pub transaction :
      Database
      → Result EffectLedgerError (List EffectRow)
      → Database × Result EffectLedgerError (Unit {0})
  transaction db (ok rows) = (record { now = tick db.now; rows = rows }, ok tt)
  transaction db (err e) = (record { now = tick db.now; rows = db.rows }, err e)

  -- What a call does to the table, an error aside.
  unfoldable pub perform : Database → LedgerCall V → Result EffectLedgerError (List EffectRow)
  perform db (records scope plans) =
      record_plans arguments effects approvals db.now db.rows scope plans
  perform db (approves plans) = record_approvals arguments effects approvals db.rows plans
  perform db (completes terminals) = record_terminals effects db.now db.rows terminals

  abbrev pub submit : Database → LedgerCall V → Database × Result EffectLedgerError (Unit {0})
  submit db call = transaction db (perform db call)

  unfoldable pub sqlite_ledger : EffectLedger V Database
  sqlite_ledger = record {
    record_plans = λ db scope plans. submit db (records scope plans);
    record_approvals = λ db plans. submit db (approves plans);
    record_terminals = λ db terminals. submit db (completes terminals);
  }

  -- The database after a sequence of calls, those that fail included.
  unfoldable pub database_after : Database → List (LedgerCall V) → Database
  database_after db [] = db
  database_after db (call ∷ calls) = database_after (submit db call).0 calls

  perform-Evolves :
      (db : Database) (call : LedgerCall V) (rows' : List EffectRow)
      → perform db call ≡ ok rows'
      → Evolves db.rows rows'
  unfolding perform
  perform-Evolves db (records scope plans) rows' h =
      record_plans-Evolves arguments effects approvals db.now db.rows scope plans rows' h
  perform-Evolves db (approves plans) rows' h =
      record_approvals-Evolves arguments effects approvals db.rows plans rows' h
  perform-Evolves db (completes terminals) rows' h =
      record_terminals-Evolves effects db.now db.rows terminals rows' h

  perform-IsLedger :
      (db : Database) (call : LedgerCall V) (rows' : List EffectRow)
      → perform db call ≡ ok rows'
      → IsLedger db.rows
      → IsLedger rows'
  unfolding perform
  perform-IsLedger db (records scope plans) rows' h =
      record_plans-IsLedger arguments effects approvals db.now db.rows scope plans rows' h
  perform-IsLedger db (approves plans) rows' h =
      record_approvals-IsLedger arguments effects approvals db.rows plans rows' h
  perform-IsLedger db (completes terminals) rows' h =
      record_terminals-IsLedger effects db.now db.rows terminals rows' h

  pub submit-Evolves :
      (db : Database) (call : LedgerCall V) → Evolves db.rows (submit db call).0.rows
  unfolding transaction
  submit-Evolves db call = elim (Result-cases (perform db call)) [
    | inl (rows', done) ↦ rw done (perform-Evolves db call rows' done)
    | inr (e, failed) ↦ rw failed (Evolves-refl db.rows)
  ]

  submit-IsLedger :
      (db : Database) (call : LedgerCall V) → IsLedger db.rows → IsLedger (submit db call).0.rows
  unfolding transaction
  submit-IsLedger db call h = elim (Result-cases (perform db call)) [
    | inl (rows', done) ↦ rw done (perform-IsLedger db call rows' done h)
    | inr (e, failed) ↦ rw failed h
  ]

  -- Over any sequence of calls of the ledger, failed ones included, no row is lost, the columns that
  -- say what was planned never change, and a row that is terminal never changes at all.
  pub database_after-Evolves :
      (db : Database) (calls : List (LedgerCall V)) → Evolves db.rows (database_after db calls).rows
  unfolding database_after
  database_after-Evolves db [] = Evolves-refl db.rows
  database_after-Evolves db (call ∷ calls) =
      Evolves-trans db.rows (submit db call).0.rows _ (submit-Evolves db call)
        (database_after-Evolves (submit db call).0 calls)

  -- Over any sequence of calls of the ledger, the execution keys stay distinct, and every row is
  -- either planned, without content and time of completion, or terminal with both.
  pub database_after-IsLedger :
      (db : Database) (calls : List (LedgerCall V))
      → IsLedger db.rows
      → IsLedger (database_after db calls).rows
  unfolding database_after
  database_after-IsLedger db [] h = h
  database_after-IsLedger db (call ∷ calls) h =
      database_after-IsLedger (submit db call).0 calls (submit-IsLedger db call h)

  -- The table has a row under this identity.
  abbrev pub HasRow : Database → InvocationId → Type 0
  HasRow db id = (row : EffectRow) × (find_effect id.value db.rows ≡ some row)

  HasRow-kept :
      (db : Database) (call : LedgerCall V) (id : InvocationId)
      → HasRow db id
      → HasRow (submit db call).0 id
  unfolding Evolves
  HasRow-kept db call id (row, found) =
      let (row', found', continues) = submit-Evolves db call id.value row found in (row', found')

  inserted-HasRow :
      (now : ℕ) (scope : String) (rows : List EffectRow) (time : ℕ)
      (plans : List (PlannedToolCall V))
      → All (IsInserted arguments effects approvals now scope rows) plans
      → All (HasRow (record { now = time; rows = rows })) (plan_ids plans)
  inserted-HasRow now scope rows time [] h = tt
  inserted-HasRow now scope rows time (plan ∷ plans) h =
      ((h.0.row, h.0.found), inserted-HasRow now scope rows time plans h.1)

  recorded-HasRow :
      (db : Database) (scope : String) (plans : List (PlannedToolCall V))
      → (submit db (records scope plans)).1 ≡ ok tt
      → All (HasRow (submit db (records scope plans)).0) (plan_ids plans)
  unfolding transaction perform
  recorded-HasRow db scope plans passed =
      elim (Result-cases (record_plans arguments effects approvals db.now db.rows scope plans)) [
        | inl (rows', done) ↦ rw done (
            inserted-HasRow db.now scope rows' (tick db.now) plans (
              record_plans-IsInserted arguments effects approvals db.now scope db.rows plans rows'
                done))
        | inr (e, failed) ↦ absurd (cc (rw failed at passed))
      ]

  pub sqlite_ledger-IsDurable : IsDurable sqlite_ledger
  unfolding sqlite_ledger
  sqlite_ledger-IsDurable = record {
    Holds = HasRow;
    plans_recorded = recorded-HasRow;
    plans_kept = λ db scope plans id h. HasRow-kept db (records scope plans) id h;
    approvals_kept = λ db plans id h. HasRow-kept db (approves plans) id h;
    terminals_kept = λ db terminals id h. HasRow-kept db (completes terminals) id h;
  }
