-- ===== src/Tests.antt =====
-- The theorems at concrete values.
mod Samples
mod Lifecycle
mod Contracts
mod Commands
mod Store
mod Executor
mod Directory
mod Sandbox
mod Workspaces
mod Serialization
mod Git
