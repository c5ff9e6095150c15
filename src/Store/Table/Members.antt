-- ===== src/Store/Table/Members.antt =====
-- The rows that pass a `WHERE` are among the rows of the result, in whatever order.
use mathlib.Core.List.{Memᴰ}
use hermes_rs.Prelude.{
  ◌≡◌, refl, sym, ap, subst, ◌∙◌, Bool, true, List, [], ◌∷◌, map, All, select, Bool-cases, inl, inr,
}
use hermes_rs.Store.Table.{insert_by, order_by}

module _ {Row : Type 0} where
  pub All-of_members {κ} :
      (P : Row → Type κ) (rows : List Row) → ((row : Row) → Memᴰ row rows → P row) → All P rows
  All-of_members P [] h = tt
  All-of_members P (row ∷ rows) h =
      (h row (Memᴰ.head refl), All-of_members P rows (λ r m. h r (Memᴰ.tail m)))

  pub map-member {κ} :
      {B : Type κ} (f : Row → B) (row : Row) (rows : List Row)
      → Memᴰ row rows
      → Memᴰ (f row) (map f rows)
  map-member f row [] m = elim m [ ]
  map-member f row (r ∷ rows) (Memᴰ.head same) = Memᴰ.head (ap f same)
  map-member f row (r ∷ rows) (Memᴰ.tail m) = Memᴰ.tail (map-member f row rows m)

  select-member :
      (test : Row → Bool) (row : Row) (rows : List Row)
      → test row ≡ true
      → Memᴰ row rows
      → Memᴰ row (select test rows)
  unfolding select
  select-member test row [] passes m = elim m [ ]
  select-member test row (r ∷ rows) passes (Memᴰ.head same) =
      rw (ap test (sym same) ∙ passes) (Memᴰ.head same)
  select-member test row (r ∷ rows) passes (Memᴰ.tail m) = elim (Bool-cases (test r)) [
    | inl hit ↦ rw hit (Memᴰ.tail (select-member test row rows passes m))
    | inr miss ↦ rw miss (select-member test row rows passes m)
  ]

  module _ (before : Row → Row → Bool) where
    insert_by-here : (row : Row) (rows : List Row) → Memᴰ row (insert_by before row rows)
    unfolding insert_by
    insert_by-here row [] = Memᴰ.head refl
    insert_by-here row (r ∷ rows) = elim (Bool-cases (before row r)) [
      | inl first ↦ rw first (Memᴰ.head refl)
      | inr later ↦ rw later (Memᴰ.tail (insert_by-here row rows))
    ]

    insert_by-there :
        (a row : Row) (rows : List Row) → Memᴰ a rows → Memᴰ a (insert_by before row rows)
    unfolding insert_by
    insert_by-there a row [] m = elim m [ ]
    insert_by-there a row (r ∷ rows) m = elim (Bool-cases (before row r)) [
      | inl first ↦ rw first (Memᴰ.tail m)
      | inr later ↦ rw later (elim m [
        | Memᴰ.head same ↦ Memᴰ.head same
        | Memᴰ.tail m' ↦ Memᴰ.tail (insert_by-there a row rows m')
      ])
    ]

    order_by-member : (a : Row) (rows : List Row) → Memᴰ a rows → Memᴰ a (order_by before rows)
    unfolding order_by
    order_by-member a [] m = elim m [ ]
    order_by-member a (row ∷ rows) (Memᴰ.head same) =
        subst (λ r. Memᴰ r (insert_by before row (order_by before rows))) (sym same)
          (insert_by-here row (order_by before rows))
    order_by-member a (row ∷ rows) (Memᴰ.tail m) =
        insert_by-there a row (order_by before rows) (order_by-member a rows m)

    pub selected-member :
        (test : Row → Bool) (row : Row) (rows : List Row)
        → test row ≡ true
        → Memᴰ row rows
        → Memᴰ row (order_by before (select test rows))
    selected-member test row rows passes m =
        order_by-member row (select test rows) (select-member test row rows passes m)
