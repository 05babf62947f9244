-- ===== src/Examples.antt =====
-- Concrete services, processes and requests, and the theorems at work on them.
mod Data
mod Processes
mod Services
mod Monitors
mod Requests
mod Checks
mod Events
mod Samples
mod Go
mod Order
mod Config
mod Registry
mod Nodes
mod Log
mod Requested
mod Streams
mod Guardians
mod Scripts
mod Buckets
mod Hosts
