-- ===== src/Server.antt =====
-- internal/server: the server's message handlers, policy and management operations.
pub mod Model
pub mod Policy
pub mod Sending
pub mod Admin
pub mod Joining
pub mod Relay
pub mod Local
pub mod Queries
pub mod Views
pub mod Handling
pub mod History
