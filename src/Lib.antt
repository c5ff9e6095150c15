-- ===== src/Lib.antt =====
-- Verification library of Hermes RS: the kernel that decides what an agent turn may do.
--
-- A turn sends a conversation to a model provider, assembles the streamed answer, runs the tool
-- calls it asks for through a broker, and repeats until the provider answers without tools. The
-- kernel trusts neither the provider nor the broker: it checks the order of messages, the identities
-- of calls, the plans, the approvals and the results at each step.
--
-- Files and the code they model:
-- - Prelude and its children: equality tests, Result with the chaining of `?`, list lemmas, the
--   string methods is_empty and trim, hash maps as lists in which the last entry of a key counts.
-- - Domain/Id: crates/domain/src/id.rs, the identifiers and the counters.
-- - Domain/Effect: crates/domain/src/effect.rs, and ToolCall, ToolArguments and ToolResult of
--   crates/domain/src/conversation.rs.
-- - Domain/Prompt: the manifest of a prompt, crates/domain/src/prompt.rs.
-- - Domain/Conversation: Conversation::new of crates/domain/src/conversation.rs. Grammar is an
--   independent description of a conversation; Acceptance and Errors hold the proofs about it.
-- - Runtime/Fault, Runtime/Message, Runtime/Broker: the errors of crates/runtime/src/lib.rs, the types
--   of crates/protocol/src/lib.rs that a turn uses, the trait ToolBroker of crates/ports/src/lib.rs.
-- - Runtime/Host: ToolHost (plan, resolve_approvals, execute) with allocate_invocation_ids,
--   validate_plans, validate_approval_resolution and validate_terminals of crates/runtime/src/lib.rs.
-- - Runtime/Journal: JournaledToolBroker of the same file, over the trait EffectLedger of
--   crates/ports/src/lib.rs, whose documented durability is the hypothesis IsDurable.
-- - Runtime/Calls: PartialToolCall, merge_stable_fragment and finish_tool_calls of the same file.
-- - Runtime/Projection: project_conversation and semanticize of the same file.
-- - Runtime/Turn: run_turn_with_limit_observed of the same file. State is its request and variables,
--   Attempt the loop over the events of one attempt, Tools what follows when tools are asked for, Loop
--   the end of an attempt and the loop over the attempts; Received, Round, Retry and Outcome hold proofs.
-- - Store/Table: SQL on a table of rows; Ordered, Selected and Members hold proofs on ORDER BY and WHERE.
-- - Store/Ledger: SqliteEffectLedger of apps/hermesd/src/adapters/sqlite.rs on the rows of tool_effects,
--   and in Journal the ledger of a journaling broker that it is. Approve is record_approvals.
--   Rows, Evolution, Keys, Inserted, Approvals, Terminals and Pending hold proofs.
-- - Domain/Delegation, Store/Delegation: crates/domain/src/delegation.rs and SqliteDelegationStore of
--   apps/hermesd/src/adapters/sqlite_delegation.rs on the rows of delegations and
--   delegation_completions. Rows is what a row is read as, Lifecycle claim and heartbeat,
--   Finish, Cancel, Child (which uses the session tables, the interface Store/Session), Reconcile and
--   Outbox the others. The other children hold proofs: Moves to Restart and History on the rows of
--   delegations, Intent, Report, Finished and Fencing on workers, Held, Kept, Guards, Exclusion and
--   Delivery on claims of completions.
--
-- How the code is read:
-- - serde_json::Value is a parameter V, with its equality where the code compares values; to_string and
--   from_str are the record Json. What the code relies on of them is a hypothesis on the arguments at
--   hand: that the text written for them is read back as them.
-- - The provider, the broker and the observer are records of functions on a state of their own, of which
--   nothing is assumed. A future is a call that returns; a stream is the list of what it yields before it
--   ends. A turn that fails gives its error alone, without the states the parties are left in.
-- - The text of an InvalidTurn error is a constructor that holds what the text shows. A JSON object that a
--   turn emits is a constructor with the fields of the object.
-- - u64 sums wrap at 2 ^ 64; usize counters of list lengths are numbers without a bound.
-- - The loop over the attempts counts down from max_attempts, as the code allows that many and then
--   fails, so no fuel is added. The two nested loops of semanticize are one pass over the messages with a
--   state that says whether the inner one is running.
-- - A database table is the list of its rows and a transaction a function that gives new tables or an
--   error, after which the old ones stay. SQLite itself does not fail, but for the UNIQUE constraints
--   that the code leaves to it. Writers exclude one another, as BEGIN IMMEDIATE makes them. INTEGER
--   columns hold numbers below 2 ^ 63, which is what to_i64 lets through; none is negative. The foreign
--   keys of delegations are left to the checks of the sessions that precede an insertion. The clock in
--   seconds that record_terminals reads for each UPDATE is read once for a batch.
--
-- Not modelled: the session store, the foreground turn store, the gateway and the
-- command line, the terminal interface, the Codex worker, and the adapters that reach providers, files
-- and processes.
pub mod Prelude
pub mod Domain
pub mod Runtime
pub mod Store
