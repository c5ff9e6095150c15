-- ===== src/Store/Table/Ordered.antt =====
-- What `ORDER BY` changes of a fallible map over the rows: no more than the order of its results.
use mathlib.Core.List.Perm
use mathlib.Core.List.{Perm}
use hermes_rs.Prelude.{
  ◌≡◌, Bool, List, [], ◌∷◌, ◌++◌, Result, ok, traverse, >>=-eq-ok, ok-injective, Bool-cases, inl,
  inr, arith, ap, sym, subst, ◌∙◌,
}
use hermes_rs.Store.Table.{insert_by, order_by}

module _ {Row B E : Type 0} (f : Row → Result E B) where
  pub traverse-cons :
      (row : Row) (rows : List Row) (b : B) (bs : List B)
      → f row ≡ ok b
      → traverse f rows ≡ ok bs
      → traverse f (row ∷ rows) ≡ ok (b ∷ bs)
  unfolding traverse
  traverse-cons row rows b bs h k = ground arith

  pub traverse-cons-eq-ok :
      (row : Row) (rows : List Row) (out : List B)
      → traverse f (row ∷ rows) ≡ ok out
      → (b : B) × (bs : List B) × (f row ≡ ok b) × (traverse f rows ≡ ok bs) × (b ∷ bs ≡ out)
  unfolding traverse
  traverse-cons-eq-ok row rows out h =
      let (b, one, h1) = >>=-eq-ok (f row) _ h in
      let (bs, rest, h2) = >>=-eq-ok (traverse f rows) _ h1 in (b, bs, one, rest, ok-injective h2)

  pub traverse-append :
      (rows more : List Row) (bs cs : List B)
      → traverse f rows ≡ ok bs
      → traverse f more ≡ ok cs
      → traverse f (rows ++ more) ≡ ok (bs ++ cs)
  unfolding traverse
  traverse-append [] more bs cs h k =
      subst (λ bs. traverse f more ≡ ok (bs ++ cs)) (ok-injective h) k
  traverse-append (row ∷ rows) more bs cs h k =
      let (b, rest, one, others, same) = traverse-cons-eq-ok row rows bs h in
      traverse-cons row (rows ++ more) b (rest ++ cs) one
        (traverse-append rows more rest cs others k)
      ∙ ap (λ all. ok (all ++ cs)) same

module _ {Row B E : Type 0} (before : Row → Row → Bool) (f : Row → Result E B) where
  traverse-insert_by :
      (row : Row) (rows : List Row) (b : B) (bs : List B)
      → f row ≡ ok b
      → traverse f rows ≡ ok bs
      → (out : List B) × (traverse f (insert_by before row rows) ≡ ok out) × Perm out (b ∷ bs)
  unfolding insert_by
  traverse-insert_by row [] b bs h k = (b ∷ bs, traverse-cons f row [] b bs h k, Perm.refl (b ∷ bs))
  traverse-insert_by row (r ∷ rows) b bs h k = elim (Bool-cases (before row r)) [
    | inl first ↦ rw first (b ∷ bs, traverse-cons f row (r ∷ rows) b bs h k, Perm.refl (b ∷ bs))
    | inr later ↦
        let (c, cs, one, rest, same) = traverse-cons-eq-ok f r rows bs k in
        let (out, done, perm) = traverse-insert_by row rows b cs h rest in
        rw later (
          c ∷ out,
          traverse-cons f r (insert_by before row rows) c out one done,
          subst (λ bs. Perm (c ∷ out) (b ∷ bs)) same
              (Perm.trans (Perm.cons c perm) (Perm.swap b c cs)),
        )
  ]

  pub traverse-order_by :
      (rows : List Row) (bs : List B)
      → traverse f rows ≡ ok bs
      → (out : List B) × (traverse f (order_by before rows) ≡ ok out) × Perm out bs
  unfolding order_by
  traverse-order_by [] bs h = (bs, h, Perm.refl bs)
  traverse-order_by (row ∷ rows) bs h =
      let (b, rest, one, others, same) = traverse-cons-eq-ok f row rows bs h in
      let (sorted, done, perm) = traverse-order_by rows rest others in
      let (out, inserted, perm') =
        traverse-insert_by row (order_by before rows) b sorted one done in
      (out, inserted, subst (Perm out) same (Perm.trans perm' (Perm.cons b perm)))

  insert_by-traverse :
      (row : Row) (rows : List Row) (out : List B)
      → traverse f (insert_by before row rows) ≡ ok out
      → (b : B) × (bs : List B) × (f row ≡ ok b) × (traverse f rows ≡ ok bs)
  unfolding insert_by
  insert_by-traverse row [] out h =
      let (b, bs, one, rest, same) = traverse-cons-eq-ok f row [] out h in (b, bs, one, rest)
  insert_by-traverse row (r ∷ rows) out h = elim (Bool-cases (before row r)) [
    | inl first ↦
        let (b, bs, one, rest, same) =
          traverse-cons-eq-ok f row (r ∷ rows) out (rw (insert_by, first) at h) in
        (b, bs, one, rest)
    | inr later ↦
        let (c, cs, one, rest, same) =
          traverse-cons-eq-ok f r (insert_by before row rows) out (rw (insert_by, later) at h) in
        let (b, bs, found, others) = insert_by-traverse row rows cs rest in
        (b, c ∷ bs, found, traverse-cons f r rows c bs one others)
  ]

  order_by-traverse :
      (rows : List Row) (out : List B)
      → traverse f (order_by before rows) ≡ ok out
      → (bs : List B) × (traverse f rows ≡ ok bs)
  unfolding order_by
  order_by-traverse [] out h = (out, h)
  order_by-traverse (row ∷ rows) out h =
      let (b, sorted, one, rest) = insert_by-traverse row (order_by before rows) out h in
      let (bs, others) = order_by-traverse rows sorted rest in
      (b ∷ bs, traverse-cons f row rows b bs one others)

  -- A table that can be read in order is read as the same results, but for their order, when it is
  -- read as it stands.
  pub order_by-Perm :
      (rows : List Row) (out : List B)
      → traverse f (order_by before rows) ≡ ok out
      → (bs : List B) × (traverse f rows ≡ ok bs) × Perm out bs
  order_by-Perm rows out h =
      let (bs, read) = order_by-traverse rows out h in
      let (out', sorted, perm) = traverse-order_by rows bs read in
      let same : out' ≡ out = ok-injective (sym sorted ∙ h) in
      (bs, read, subst (λ out. Perm out bs) same perm)
