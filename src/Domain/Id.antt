-- ===== src/Domain/Id.antt =====
-- crates/domain/src/id.rs. The macro `opaque_id!` makes one type for each kind of identifier, and
-- `authority_counter!` one for each kind of counter; both are families over the kind here.
use hermes_rs.Prelude.{
  ℕ, ◌≡◌, ◌↔◌, String, Bool, true, not, ◌||◌, if◌then◌else◌, Result, ok, err, PartialEq, ◌==◌,
  nat_eq, string_eq, arith,
}
use hermes_rs.Prelude.Text.{is_empty, trim}

pub data IdKind : Type 0 where
  session lineage foreground_turn tool_call invocation delegation : IdKind
  delegation_worker completion_event delivery_claim : IdKind

pub record OpaqueId (k : IdKind) : Type 0 where
  pub value : String

pub data CounterKind : Type 0 where
  owner_generation fencing_token : CounterKind

pub record AuthorityCounter (k : CounterKind) : Type 0 where
  pub value : ℕ

pub data IdError : Type 0 where
  invalid_opaque_id : IdKind → IdError
  zero_authority_counter : CounterKind → IdError

-- `new` of an identifier type.
unfoldable pub new_id : (k : IdKind) → String → Result IdError (OpaqueId k)
new_id k value =
    if is_empty value || not (trim value == value)
    then err (invalid_opaque_id k)
    else ok (record { value = value })

-- `new` of a counter type.
unfoldable pub new_counter : (k : CounterKind) → ℕ → Result IdError (AuthorityCounter k)
new_counter k value =
    if value == 0 then err (zero_authority_counter k) else ok (record { value = value })

abbrev pub ToolCallId : Type 0
ToolCallId = OpaqueId tool_call

abbrev pub InvocationId : Type 0
InvocationId = OpaqueId invocation

abbrev pub id_beq : {k : IdKind} → OpaqueId k → OpaqueId k → Bool
id_beq a b = a.value == b.value

pub id_beq_iff : {k : IdKind} (a b : OpaqueId k) → (id_beq a b ≡ true) ↔ (a ≡ b)
id_beq_iff a b = ground (arith, string_eq.eq_iff_same a.value b.value)

instance abbrev pub id_eq : {k : IdKind} → PartialEq (OpaqueId k)
id_eq = record { eq = id_beq; eq_iff_same = id_beq_iff }
