-- ===== src/Examples.antt =====
-- Concrete messages, numbers and runs on which the theorems of the library are applied.
mod Responses
mod Requests
mod Integers
mod Balancing
mod Sharing
mod Grouping
mod Messages
mod Connections
mod Batches
