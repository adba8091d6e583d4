-- ===== src/Tests.antt =====
-- Runs of the model on small inputs, and each theorem with a hypothesis at an input that meets it.
pub mod HttpMessages
pub mod HttpParts
pub mod Addresses
pub mod Sockets
pub mod Scheduling
pub mod Windows
pub mod Workers
pub mod Operations
pub mod Tasks
use cppio.Common.{ℕ}
