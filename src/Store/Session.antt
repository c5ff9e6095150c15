-- ===== src/Store/Session.antt =====
-- The errors of the trait `SessionStore` (crates/ports/src/lib.rs), and what the other stores ask of the
-- session tables of apps/hermesd/src/adapters/sqlite.rs inside their transactions.
use Prim.Native.String
use hermes_rs.Prelude.{ℕ, String, Bool, List, Result}
use hermes_rs.Domain.Delegation.{SessionId, OwnerGeneration}

pub data SessionStoreError : Type 0 where
  already_exists not_found : SessionId → SessionStoreError
  conflict : SessionId → ℕ → ℕ → SessionStoreError
  invalid storage : String → SessionStoreError

-- The text of such an error; `number` is the text of a number.
unfoldable pub session_message : (ℕ → String) → SessionStoreError → String
session_message number (already_exists id) = String.◌++◌ "session already exists: " id.value
session_message number (not_found id) = String.◌++◌ "session not found: " id.value
session_message number (conflict id expected actual) = String.◌++◌ "session " (
    String.◌++◌ id.value (
      String.◌++◌ " write conflict: expected generation "
        (String.◌++◌ (number expected) (String.◌++◌ ", actual " (number actual)))))
session_message number (invalid s) = String.◌++◌ "invalid session state: " s
session_message number (storage s) = String.◌++◌ "session storage failed: " s

-- `create_session_in_transaction`, `append_turn_in_transaction` and the search for a session, over the
-- session tables `S`, configurations `C` and messages `M`.
pub record SessionTables (S C M : Type 0) : Type 0 where
  pub has_session : S → String → Bool
  pub config_session : C → SessionId
  pub create_session : S → C → Result SessionStoreError S
  pub append_turn : S → SessionId → OwnerGeneration → List M → Result SessionStoreError S
