-- ===== src/Application.antt =====
-- src/alicerce/application/: the use cases. `advance_lifecycle`, `start_lifecycle`,
-- `create_initial_checkpoint` and `prepare_state_update` are passed on there, and stand in Domain.
pub mod Resume
pub mod RunIdentity
pub mod CommandExecution
