-- ===== src/Prelude/Maps.antt =====
-- A hash map collected from a list of values under their keys, of which the last of equal keys stays.
use mathlib.Core.Path.{◌≡◌, refl, ap, ◌∙◌}
use mathlib.Core.Logic.{inl, inr}
use mathlib.Core.Option.{Option, none, some}
use mathlib.Core.List.{List, [], ◌∷◌, map, Memᴰ}
use native.Mathlib.Omega.{arith}
use hermes_rs.Prelude.Tests.{if◌then◌else◌, Bool-cases, Option-cases}
use hermes_rs.Prelude.Lists.{Fresh, Distinct}
use hermes_rs.Prelude.Equality.{PartialEq, ◌==◌}

module _ {ℓ κ} {A : Type ℓ} {K : Type κ} ⦃e : PartialEq K⦄ (key : A → K) where
  unfoldable pub find_last : K → List A → Option A
  find_last k [] = none
  find_last k (x ∷ xs) = elim (find_last k xs) [
    | some later ↦ some later
    | none ↦ if key x == k then some x else none
  ]

  pub find_last-Memᴰ :
      (k : K) (xs : List A) (x : A) → find_last k xs ≡ some x → Memᴰ x xs × (key x ≡ k)
  unfolding find_last
  find_last-Memᴰ k [] x h = absurd (cc)
  find_last-Memᴰ k (y ∷ xs) x h = elim (Option-cases (find_last k xs)) [
    | inr (z, later) ↦
        let found : find_last k xs ≡ some x = ground arith in
        let (m, same) = find_last-Memᴰ k xs x found in (Memᴰ.tail m, same)
    | inl missing ↦ elim (Bool-cases (key y == k)) [
      | inl hit ↦
          let here : x ≡ y = ground arith in
          (Memᴰ.head here, ap key here ∙ (e.eq_iff_same (key y) k).0 hit)
      | inr miss ↦ absurd (ground arith)
    ]
  ]

  pub find_last-none : (k : K) (xs : List A) → find_last k xs ≡ none → Fresh k (map key xs)
  unfolding find_last
  find_last-none k [] h = tt
  find_last-none k (x ∷ xs) h = ground (arith, find_last-none k xs, e.eq_iff_same (key x) k)

  Fresh-find_last : (k : K) (xs : List A) → Fresh k (map key xs) → find_last k xs ≡ none
  unfolding find_last
  Fresh-find_last k [] h = refl
  Fresh-find_last k (x ∷ xs) h = ground (arith, Fresh-find_last k xs, e.eq_iff_same (key x) k)

  pub find_last_of_mem :
      (xs : List A) (x : A) → Distinct (map key xs) → Memᴰ x xs → find_last (key x) xs ≡ some x
  unfolding find_last
  find_last_of_mem [] x d m = elim m [ ]
  find_last_of_mem (y ∷ xs) x d (Memᴰ.head same) =
      ground (arith, Fresh-find_last (key y) xs, e.eq_iff_same (key y) (key x))
  find_last_of_mem (y ∷ xs) x d (Memᴰ.tail m) = ground (arith, find_last_of_mem xs x d.1 m)
