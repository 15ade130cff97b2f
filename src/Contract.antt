-- ===== src/Contract.antt =====
-- internal/runtime/plugins/contract: what a plugin may hand to the host.
pub mod Value
pub mod Verdict
pub mod View
pub mod Components
pub mod Patterns
pub mod Refs
pub mod Inputs
pub mod Choices
pub mod Invocation
pub mod Domain
pub mod DomainRules
pub mod Operation
pub mod Definition
pub mod Catalog
