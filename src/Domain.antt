-- ===== src/Domain.antt =====
-- crates/domain: the pure types of the kernel and the checks that construct them.
pub mod Id
pub mod Delegation
pub mod Effect
pub mod Prompt
pub mod Conversation
