-- ===== src/Examples.antt =====
-- Runs of the model on small inputs.
pub mod Codec
pub mod Transport
pub mod Storage
pub mod Window
pub mod Requests
pub mod Wire
pub mod Handling
pub mod Secured
pub mod Transfers
pub mod Server
pub mod Client
