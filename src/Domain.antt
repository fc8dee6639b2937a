-- ===== src/Domain.antt =====
-- src/alicerce/domain: the immutable values of a run and the pure policies over them.
-- Values that Python checks in `__post_init__` are records built by a function `new_...`.
pub mod Patterns
pub mod RunIdentity
pub mod Contracts
pub mod Lifecycle
pub mod State
pub mod Workspace
pub mod Paths
pub mod Command
pub mod CommandPolicy
pub mod ContractBinding
