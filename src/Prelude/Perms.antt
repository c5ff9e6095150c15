-- ===== src/Prelude/Perms.antt =====
-- Distinct lists as the library's `Nodup`, and lists with the same entries as permutations.
use mathlib.Core.Path.{◌≡◌, refl, sym, ap, subst}
use mathlib.Core.Logic.Or
use mathlib.Core.HLevel.{⊥_prop}
use Prim.Native.Nat.{suc}
use mathlib.Core.List
use mathlib.Core.List.{
  List, [], ◌∷◌, map, Mem, Memᴰ, Mem-prop, Subset, Nodup, Nodup-nil, Nodup-cons, Perm, mem-cons,
  mem-cons_self, not-mem-nil,
}
use mathlib.Core.List.Subperm.{perm_of_length_le}
use mathlib.Core.List.Nodup.{subperm}
use native.Mathlib.Omega.{arith}
use native.Mathlib.Bridge.{from_ℕ, from_le⁻¹}
use hermes_rs.Prelude.Lists.{length, All, Fresh, Distinct}

module _ {ℓ} {A : Type ℓ} where
  pub Fresh-not_mem : {a : A} (xs : List A) → Fresh a xs → ¬ Mem a xs
  Fresh-not_mem [] h m = not-mem-nil m
  Fresh-not_mem (x ∷ xs) h m = Or.elim ⊥_prop (mem-cons.0 m) h.0 (Fresh-not_mem xs h.1)

  Fresh-of_not_mem : {a : A} (xs : List A) → ¬ Mem a xs → Fresh a xs
  Fresh-of_not_mem [] h = tt
  Fresh-of_not_mem (x ∷ xs) h =
      (λ e. h (mem-cons.1 (Or.inl e)), Fresh-of_not_mem xs (λ m. h (mem-cons.1 (Or.inr m))))

  pub Distinct-Nodup : (xs : List A) → Distinct xs → Nodup xs
  Distinct-Nodup [] h = Nodup-nil
  Distinct-Nodup (x ∷ xs) h = Nodup-cons.1 (Fresh-not_mem xs h.0, Distinct-Nodup xs h.1)

  pub Nodup-Distinct : (xs : List A) → Nodup xs → Distinct xs
  Nodup-Distinct [] h = tt
  Nodup-Distinct (x ∷ xs) h =
      let (out, rest) = Nodup-cons.0 h in (Fresh-of_not_mem xs out, Nodup-Distinct xs rest)

  within-Subset : (xs ys : List A) → All (λ x. Mem x ys) xs → Subset xs ys
  within-Subset [] ys h a m = absurd (not-mem-nil m)
  within-Subset (x ∷ xs) ys h a m =
      Or.elim Mem-prop (mem-cons.0 m) (λ e. subst (λ b. Mem b ys) (sym e) h.0)
        (within-Subset xs ys h.1 a)

  from_ℕ-length : (xs : List A) → from_ℕ (List.length xs) ≡ length xs
  from_ℕ-length [] = refl
  from_ℕ-length (x ∷ xs) = ap suc (from_ℕ-length xs)

  -- Entries that are distinct, lie in `ys` and are as many as those of `ys`.
  pub perm_of_distinct :
      (xs ys : List A) → Distinct xs → All (λ x. Mem x ys) xs → length xs ≡ length ys → Perm xs ys
  perm_of_distinct xs ys distinct within same =
      perm_of_length_le (subperm (Distinct-Nodup xs distinct) (within-Subset xs ys within))
        (from_le⁻¹ _ _ (omega (arith, from_ℕ-length xs, from_ℕ-length ys)))
