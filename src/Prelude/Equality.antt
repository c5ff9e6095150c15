-- ===== src/Prelude/Equality.antt =====
-- `PartialEq` as an interface: a Boolean test that decides equality.
use Prim.Native.Nat.{ℕ}
use Prim.Native.String.{String}
use mathlib.Core.Path.{◌≡◌, refl}
use mathlib.Core.Logic.{◌↔◌}
use mathlib.Core.Bool.{Bool, true, false, not, ◌&&◌, ◌||◌}
use mathlib.Core.Option.{Option, none, some}
use mathlib.Core.List.{List, [], ◌∷◌}
use native.Mathlib.Omega.{arith}
use text.Mathlib.Text.{◌==◌ as str_eq}
use text.Mathlib.TextEquality.{eq_iff}
use hermes_rs.Prelude.Tests.{nat_beq, nat_beq_iff}
use hermes_rs.Prelude.Lists.{Fresh}

pub record PartialEq {κ} (T : Type κ) : Type κ where
  pub eq : T → T → Bool
  -- What `Eq` adds to `PartialEq`: the test holds of equal values only, and of all of them.
  pub eq_iff_same : (left right : T) → (eq left right ≡ true) ↔ (left ≡ right)

instance abbrev pub string_eq : PartialEq String
string_eq = record { eq = str_eq; eq_iff_same = eq_iff }

-- The source's `==`, at whatever type derives it.
abbrev pub ◌==◌ {κ} : {T : Type κ} ⦃derived : PartialEq T⦄ (left right : T) → Bool
◌==◌ ⦃derived⦄ = derived.eq

infix 50 ◌==◌
instance abbrev pub nat_eq : PartialEq ℕ
nat_eq = record { eq = nat_beq; eq_iff_same = nat_beq_iff }

module _ {ℓ} {A : Type ℓ} ⦃e : PartialEq A⦄ where
  abbrev pub option_beq : Option A → Option A → Bool
  option_beq none none = true
  option_beq (some a) (some b) = a == b
  option_beq _ _ = false

  pub option_beq_iff : (a b : Option A) → (option_beq a b ≡ true) ↔ (a ≡ b)
  option_beq_iff none none = (λ _. refl, λ _. refl)
  option_beq_iff none (some b) = (λ h. cc, λ h. cc)
  option_beq_iff (some a) none = (λ h. cc, λ h. cc)
  option_beq_iff (some a) (some b) = ground (arith, e.eq_iff_same a b)

  abbrev pub list_beq : List A → List A → Bool
  list_beq [] [] = true
  list_beq (a ∷ as') (b ∷ bs) = a == b && list_beq as' bs
  list_beq _ _ = false

  pub list_beq_iff : (xs ys : List A) → (list_beq xs ys ≡ true) ↔ (xs ≡ ys)
  list_beq_iff [] [] = (λ _. refl, λ _. refl)
  list_beq_iff [] (b ∷ bs) = (λ h. cc, λ h. cc)
  list_beq_iff (a ∷ xs) [] = (λ h. cc, λ h. cc)
  list_beq_iff (a ∷ xs) (b ∷ ys) = ground (arith, e.eq_iff_same a b, list_beq_iff xs ys)

  -- `HashSet::contains`, over the list of the members.
  unfoldable pub contains : A → List A → Bool
  contains a [] = false
  contains a (x ∷ xs) = a == x || contains a xs

instance abbrev pub option_eq {ℓ} : {A : Type ℓ} ⦃e : PartialEq A⦄ → PartialEq (Option A)
option_eq = record { eq = option_beq; eq_iff_same = option_beq_iff }

instance abbrev pub list_eq {ℓ} : {A : Type ℓ} ⦃e : PartialEq A⦄ → PartialEq (List A)
list_eq = record { eq = list_beq; eq_iff_same = list_beq_iff }

module _ {ℓ} {A : Type ℓ} ⦃e : PartialEq A⦄ where
  pub contains-eq-false_iff : (a : A) (xs : List A) → (contains a xs ≡ false) ↔ Fresh a xs
  unfolding contains
  contains-eq-false_iff a [] = (λ _. tt, λ _. refl)
  contains-eq-false_iff a (x ∷ xs) = ground (arith, e.eq_iff_same a x, contains-eq-false_iff a xs)

module _ {ℓ κ} {A : Type ℓ} {B : Type κ} ⦃e : PartialEq A⦄ ⦃f : PartialEq B⦄ where
  abbrev pub pair_beq : A × B → A × B → Bool
  pair_beq p q = p.0 == q.0 && p.1 == q.1

  pub pair_beq_iff : (p q : A × B) → (pair_beq p q ≡ true) ↔ (p ≡ q)
  pair_beq_iff p q = ground (arith, e.eq_iff_same p.0 q.0, f.eq_iff_same p.1 q.1)

instance abbrev pub pair_eq {ℓ κ} :
    {A : Type ℓ} {B : Type κ} ⦃e : PartialEq A⦄ ⦃f : PartialEq B⦄ → PartialEq (A × B)
pair_eq = record { eq = pair_beq; eq_iff_same = pair_beq_iff }

abbrev pub bool_beq : Bool → Bool → Bool
bool_beq true b = b
bool_beq false b = not b

pub bool_beq_iff : (a b : Bool) → (bool_beq a b ≡ true) ↔ (a ≡ b)
bool_beq_iff a b = ground arith

instance abbrev pub bool_eq : PartialEq Bool
bool_eq = record { eq = bool_beq; eq_iff_same = bool_beq_iff }

-- The test that a decision procedure makes.
module _ {ℓ} {A : Type ℓ} (d : Discrete A) where
  abbrev pub dec_beq : A → A → Bool
  dec_beq a b = elim (d a b) [ yes _ ↦ true | no _ ↦ false ]

  dec_iff {κ} : {P : Type κ} (x : Dec P) → ((elim x [ yes _ ↦ true | no _ ↦ false ]) ≡ true) ↔ P
  dec_iff (yes p) = (λ _. p, λ _. refl)
  dec_iff (no n) = (λ h. absurd (cc), λ p. absurd (n p))

  pub dec_beq_iff : (a b : A) → (dec_beq a b ≡ true) ↔ (a ≡ b)
  dec_beq_iff a b = dec_iff (d a b)
