-- ===== src/Examples.antt =====
-- Examples: the theorems applied to small concrete states, messages and files.
mod Data
mod Tables
mod Wire
mod Handlers
mod Client
mod NodeData
mod Nodes
mod Travel
mod Joins
mod Requests
mod Cli
mod Hosts
mod Stale
