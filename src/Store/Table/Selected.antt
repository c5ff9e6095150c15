-- ===== src/Store/Table/Selected.antt =====
-- What `WHERE` and `ORDER BY` keep of a table with distinct keys: every row of the result is the one
-- that is found under its key, and the keys stay distinct.
use hermes_rs.Prelude.{
  ◌≡◌, ◌≢◌, sym, ◌∙◌, String, Bool, true, some, List, [], ◌∷◌, map, All, Fresh, Distinct, select,
  Bool-cases, inl, inr, string_eq, arith,
}
use hermes_rs.Store.Table.{find_row, insert_by, order_by}

module _ {Row : Type 0} (key : Row → String) where
  -- Every row is the one of its key in the table, and the rows have distinct keys.
  pub record IsListed (table rows : List Row) : Type 0 where
    pub found : All (λ row. find_row key (key row) table ≡ some row) rows
    pub distinct : Distinct (map key rows)

  find_row-there :
      (k : String) (row : Row) (rows : List Row)
      → key row ≢ k
      → find_row key k (row ∷ rows) ≡ find_row key k rows
  unfolding find_row
  find_row-there k row rows other = ground (arith, string_eq.eq_iff_same (key row) k)

  find_row-here : (row : Row) (rows : List Row) → find_row key (key row) (row ∷ rows) ≡ some row
  unfolding find_row
  find_row-here row rows = ground (arith, string_eq.eq_iff_same (key row) (key row))

  still_found :
      (row : Row) (rows more : List Row)
      → Fresh (key row) (map key more)
      → All (λ r. find_row key (key r) rows ≡ some r) more
      → All (λ r. find_row key (key r) (row ∷ rows) ≡ some r) more
  still_found row rows [] fresh h = tt
  still_found row rows (r ∷ more) fresh h =
      (find_row-there (key r) row rows fresh.0 ∙ h.0, still_found row rows more fresh.1 h.1)

  all_found :
      (rows : List Row)
      → Distinct (map key rows)
      → All (λ row. find_row key (key row) rows ≡ some row) rows
  all_found [] h = tt
  all_found (row ∷ rows) h =
      (find_row-here row rows, still_found row rows rows h.0 (all_found rows h.1))

  module _ (test : Row → Bool) where
    Fresh-select :
        (k : String) (rows : List Row)
        → Fresh k (map key rows)
        → Fresh k (map key (select test rows))
    unfolding select
    Fresh-select k [] h = tt
    Fresh-select k (row ∷ rows) h = elim (Bool-cases (test row)) [
      | inl hit ↦ rw hit (h.0, Fresh-select k rows h.1)
      | inr miss ↦ rw miss (Fresh-select k rows h.1)
    ]

    select-IsListed :
        (table rows : List Row) → IsListed table rows → IsListed table (select test rows)
    unfolding select
    select-IsListed table [] h = h
    select-IsListed table (row ∷ rows) h =
        let rest =
          select-IsListed table rows (record { found = h.found.1; distinct = h.distinct.1 }) in
        elim (Bool-cases (test row)) [
          | inl hit ↦ rw hit (record {
            found = (h.found.0, rest.found);
            distinct = (Fresh-select (key row) rows h.distinct.0, rest.distinct);
          })
          | inr miss ↦ rw miss rest
        ]

  module _ (before : Row → Row → Bool) where
    pub All-insert_by {κ} :
        (P : Row → Type κ) (row : Row) (rows : List Row)
        → P row
        → All P rows
        → All P (insert_by before row rows)
    unfolding insert_by
    All-insert_by P row [] p h = (p, tt)
    All-insert_by P row (r ∷ rows) p h = elim (Bool-cases (before row r)) [
      | inl first ↦ rw first (p, h)
      | inr later ↦ rw later (h.0, All-insert_by P row rows p h.1)
    ]

    Fresh-insert_by :
        (k : String) (row : Row) (rows : List Row)
        → k ≢ key row
        → Fresh k (map key rows)
        → Fresh k (map key (insert_by before row rows))
    unfolding insert_by
    Fresh-insert_by k row [] other h = (other, tt)
    Fresh-insert_by k row (r ∷ rows) other h = elim (Bool-cases (before row r)) [
      | inl first ↦ rw first (other, h)
      | inr later ↦ rw later (h.0, Fresh-insert_by k row rows other h.1)
    ]

    Distinct-insert_by :
        (row : Row) (rows : List Row)
        → Fresh (key row) (map key rows)
        → Distinct (map key rows)
        → Distinct (map key (insert_by before row rows))
    unfolding insert_by
    Distinct-insert_by row [] fresh h = (tt, tt)
    Distinct-insert_by row (r ∷ rows) fresh h = elim (Bool-cases (before row r)) [
      | inl first ↦ rw first (fresh, h)
      | inr later ↦ rw later (
        Fresh-insert_by (key r) row rows (λ e. fresh.0 (sym e)) h.0,
        Distinct-insert_by row rows fresh.1 h.1,
      )
    ]

    Fresh-order_by :
        (k : String) (rows : List Row)
        → Fresh k (map key rows)
        → Fresh k (map key (order_by before rows))
    unfolding order_by
    Fresh-order_by k [] h = tt
    Fresh-order_by k (row ∷ rows) h =
        Fresh-insert_by k row (order_by before rows) h.0 (Fresh-order_by k rows h.1)

    order_by-IsListed :
        (table rows : List Row) → IsListed table rows → IsListed table (order_by before rows)
    unfolding order_by
    order_by-IsListed table [] h = h
    order_by-IsListed table (row ∷ rows) h =
        let rest =
          order_by-IsListed table rows (record { found = h.found.1; distinct = h.distinct.1 }) in
        record {
          found = All-insert_by _ row (order_by before rows) h.found.0 rest.found;
          distinct =
              Distinct-insert_by row (order_by before rows)
                (Fresh-order_by (key row) rows h.distinct.0) rest.distinct;
        }

  All-select :
      (test : Row → Bool) (rows : List Row) → All (λ row. test row ≡ true) (select test rows)
  unfolding select
  All-select test [] = tt
  All-select test (row ∷ rows) = elim (Bool-cases (test row)) [
    | inl hit ↦ rw hit (hit, All-select test rows)
    | inr miss ↦ rw miss (All-select test rows)
  ]

  All-order_by :
      (before : Row → Row → Bool) (P : Row → Type 0) (rows : List Row)
      → All P rows
      → All P (order_by before rows)
  unfolding order_by
  All-order_by before P [] h = tt
  All-order_by before P (row ∷ rows) h =
      All-insert_by before P row (order_by before rows) h.0 (All-order_by before P rows h.1)

  -- Each row of the result passes the test.
  pub selected-test :
      (before : Row → Row → Bool) (test : Row → Bool) (table : List Row)
      → All (λ row. test row ≡ true) (order_by before (select test table))
  selected-test before test table =
      All-order_by before (λ row. test row ≡ true) (select test table) (All-select test table)

  -- The rows of a `SELECT … WHERE … ORDER BY …`.
  pub selected-IsListed :
      (before : Row → Row → Bool) (test : Row → Bool) (table : List Row)
      → Distinct (map key table)
      → IsListed table (order_by before (select test table))
  selected-IsListed before test table h =
      order_by-IsListed before table (select test table)
        (select-IsListed test table table (record { found = all_found table h; distinct = h }))
