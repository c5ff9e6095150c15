-- ===== src/Store/Table.antt =====
-- SQL on a table with a primary key of type TEXT: `SELECT … WHERE key = ?`, `INSERT` and `UPDATE`, the
-- conversions of integer columns, and `serde_json` on what a column holds as JSON.
pub mod Ordered
pub mod Selected
pub mod Members
use Prim.Native.Nat.{Ordering}
use Prim.Native.String.{compare as compare_text}
use hermes_rs.Prelude.{
  ℕ, suc, ◌≡◌, ◌≢◌, refl, sym, ap, subst, ◌∙◌, String, Bool, true, false, Option, none, some, List,
  [], ◌∷◌, ◌++◌, map, length, Result, ok, err, if◌then◌else◌, ltb, select, ◌==◌, string_eq, All,
  All-map, Fresh, Distinct, arith, Option-cases, Bool-cases, inl, inr,
}
use hermes_rs.Runtime.Fault.{JsonError}

-- `serde_json::to_string` and `from_str` at one type.
pub record Codec (A : Type 0) : Type 0 where
  pub encode : A → Result JsonError String
  pub decode : String → Result JsonError A

-- What is written is read back.
pub record IsCoded {A : Type 0} (codec : Codec A) (a : A) : Type 0 where
  pub text : String
  pub encoded : codec.encode a ≡ ok text
  pub decoded : codec.decode text ≡ ok a

abbrev pub i64_limit : ℕ
i64_limit = 9223372036854775808

-- `i64::try_from`; a column holds what it gives, so no column is negative.
unfoldable pub fits_i64 : ℕ → Bool
fits_i64 n = ltb n i64_limit

abbrev pub option_map {ℓ κ} : {A : Type ℓ} {B : Type κ} → (A → B) → Option A → Option B
option_map f none = none
option_map f (some a) = some (f a)

module _ {Row : Type 0} (key : Row → String) where
  unfoldable pub find_row : String → List Row → Option Row
  find_row k [] = none
  find_row k (row ∷ rows) = if key row == k then some row else find_row k rows

  pub find_row-append :
      (k : String) (rows more : List Row) (row : Row)
      → find_row k rows ≡ some row
      → find_row k (rows ++ more) ≡ some row
  unfolding find_row
  find_row-append k [] more row h = cc
  find_row-append k (r ∷ rows) more row h = ground (arith, find_row-append k rows more row)

  pub find_row-append_new :
      (k : String) (rows more : List Row)
      → find_row k rows ≡ none
      → find_row k (rows ++ more) ≡ find_row k more
  unfolding find_row
  find_row-append_new k [] more h = refl
  find_row-append_new k (r ∷ rows) more h = ground (arith, find_row-append_new k rows more)

  pub find_row-key :
      (k : String) (rows : List Row) (row : Row) → find_row k rows ≡ some row → key row ≡ k
  unfolding find_row
  find_row-key k [] row h = cc
  find_row-key k (r ∷ rows) row h =
      ground (arith, find_row-key k rows row, string_eq.eq_iff_same (key r) k)

  pub find_row-none_iff :
      (k : String) (rows : List Row)
      → find_row k rows ≡ none
      → All (λ other. other ≢ k) (map key rows)
  unfolding find_row
  find_row-none_iff k [] h = tt
  find_row-none_iff k (r ∷ rows) h =
      ground (arith, find_row-none_iff k rows, string_eq.eq_iff_same (key r) k)

module _ {Row : Type 0} (test : Row → Bool) (change : Row → Row) where
  abbrev pub change_if : Row → Row
  change_if row = if test row then change row else row

  -- `UPDATE … SET … WHERE …`
  unfoldable pub update : List Row → List Row
  update [] = []
  update (row ∷ rows) = change_if row ∷ update rows

  pub find_row-update :
      (key : Row → String)
      → ((row : Row) → key (change row) ≡ key row)
      → (k : String) (rows : List Row)
      → find_row key k (update rows) ≡ option_map change_if (find_row key k rows)
  unfolding update find_row
  find_row-update key keeps k [] = refl
  find_row-update key keeps k (row ∷ rows) =
      ground (arith, find_row-update key keeps k rows, keeps row)

  pub keys-update :
      (key : Row → String)
      → ((row : Row) → key (change row) ≡ key row)
      → (rows : List Row) → map key (update rows) ≡ map key rows
  unfolding update
  keys-update key keeps [] = refl
  keys-update key keeps (row ∷ rows) = ground (arith, keys-update key keeps rows, keeps row)

  pub All-update {κ} :
      (P : Row → Type κ)
      → ((row : Row) → test row ≡ true → P row → P (change row))
      → (rows : List Row) → All P rows
      → All P (update rows)
  unfolding update
  All-update P keeps [] h = tt
  All-update P keeps (row ∷ rows) h = elim (Bool-cases (test row)) [
    | inl hit ↦ rw hit (keeps row hit h.0, All-update P keeps rows h.1)
    | inr miss ↦ rw miss (h.0, All-update P keeps rows h.1)
  ]

module _ {Row : Type 0} (test : Row → Bool) (change : Row → Row) (key : Row → String) (k : String)
    (only : (row : Row) → test row ≡ true → key row ≡ k) where
  -- A statement that changes rows of one key alone changes none of a table without that key.
  update-none :
      (rows : List Row) → All (λ other. other ≢ k) (map key rows) → update test change rows ≡ rows
  unfolding update
  update-none [] h = refl
  update-none (row ∷ rows) h =
      let miss : test row ≡ false = ground (arith, only row, h.0) in
      rw (miss, update-none rows h.1) refl

  All-transfer {κ μ} :
      (P : Row → Type κ) (Q : Row → Type μ)
      → ((row : Row) → key row ≢ k → Q row → P row)
      → (rows : List Row) → All (λ other. other ≢ k) (map key rows)
      → All Q rows
      → All P rows
  All-transfer P Q carry [] other h = tt
  All-transfer P Q carry (row ∷ rows) other h =
      (carry row other.0 h.0, All-transfer P Q carry rows other.1 h.1)

  -- In a table with distinct keys it changes the row that is found under the key, and no other.
  pub All-update_found {κ μ} :
      (P : Row → Type κ) (Q : Row → Type μ)
      → ((row : Row) → key row ≢ k → Q row → P row)
      → (rows : List Row) (found : Row) → Distinct (map key rows)
      → find_row key k rows ≡ some found
      → P (change_if test change found)
      → All Q rows
      → All P (update test change rows)
  unfolding update find_row
  All-update_found P Q carry [] found distinct at_key new h = tt
  All-update_found P Q carry (row ∷ rows) found distinct at_key new h =
      elim (Bool-cases (key row == k)) [
        | inl hit ↦
            let same_key = (string_eq.eq_iff_same (key row) k).0 hit in
            let same : row ≡ found = ground arith in
            let others =
              All-map (λ other fresh e. fresh (same_key ∙ sym e)) (map key rows) distinct.0 in
            (
              subst (λ r. P (change_if test change r)) (sym same) new,
              subst (All P) (sym (update-none rows others))
                  (All-transfer P Q carry rows others h.1),
            )
        | inr miss_key ↦
            let other : key row ≢ k = λ e. cc ((string_eq.eq_iff_same (key row) k).1 e, miss_key) in
            let miss : test row ≡ false = ground (arith, only row, other) in
            let later : find_row key k rows ≡ some found = ground arith in
            (
              subst P (ap (λ b. if b then change row else row) (sym miss)) (carry row other h.0),
              All-update_found P Q carry rows found distinct.1 later new h.1,
            )
      ]

-- `execute` returns the number of the rows that an `UPDATE` changed.
unfoldable pub count : {Row : Type 0} → (Row → Bool) → List Row → ℕ
unfolding select
count test rows = length (select test rows)

zero_suc : {n : ℕ} → suc n ≡ 0 → ⊥
zero_suc h = omega (arith, h)

-- When no row passes a test that rows of one key pass, no row has that key.
pub count-zero :
    {Row : Type 0} (key : Row → String) (test : Row → Bool) (k : String) (rows : List Row)
    → ((row : Row) → key row ≡ k → test row ≡ true)
    → count test rows ≡ 0
    → find_row key k rows ≡ none
unfolding count select find_row
count-zero key test k [] covers h = refl
count-zero key test k (row ∷ rows) covers h = elim (Bool-cases (test row)) [
  | inl hit ↦ absurd (zero_suc (rw hit at h))
  | inr miss ↦
      let other : (key row == k) ≡ false =
        ground (arith, covers row, string_eq.eq_iff_same (key row) k, miss) in
      rw other (count-zero key test k rows covers (rw miss at h))
]

-- `ORDER BY`: an insertion sort, `before` being the order of two rows.
unfoldable pub insert_by : {Row : Type 0} → (Row → Row → Bool) → Row → List Row → List Row
insert_by before row [] = row ∷ []
insert_by before row (r ∷ rows) =
    let later = insert_by before row rows in if before row r then row ∷ r ∷ rows else r ∷ later

unfoldable pub order_by : {Row : Type 0} → (Row → Row → Bool) → List Row → List Row
order_by before [] = []
order_by before (row ∷ rows) = insert_by before row (order_by before rows)

-- The order of two texts by their bytes.
abbrev pub text_le : String → String → Bool
text_le s t = elim (compare_text s t) [ Ordering.gt ↦ false | _ ↦ true ]
