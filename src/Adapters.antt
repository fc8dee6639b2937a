-- ===== src/Adapters.antt =====
-- src/alicerce/adapters/local: the implementations of the ports on one machine.
pub mod FileSystem
pub mod StateCodec
pub mod StateSerialization
pub mod Host
pub mod CommandExecutor
pub mod GitWorkspace
pub mod GitCli
pub mod LinuxSandbox
pub mod SqliteStateStore
