-- ===== src/Examples.antt =====
-- Runs of the code on small inputs.
mod Tables
mod Channels
mod Orders
mod Regions
mod Deliveries
mod Helpers
mod Pools
mod Plain
mod Promotions
mod Activities
mod Areas
mod Servers
mod Routing
mod Clients
mod Batches
mod Logs
mod Incomes
mod Caches
mod Watches
