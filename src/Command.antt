-- ===== src/Command.antt =====
-- cmd/nz: the command line.
pub mod Args
pub mod Client
pub mod Main
pub mod Table
pub mod Text
pub mod Usage
pub mod Users
