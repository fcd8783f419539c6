-- ===== src/Examples.antt =====
-- Concrete inputs: tests of the definitions, and the theorems at inputs that meet their hypotheses.
mod Samples
mod Orders
mod Stocks
mod Settlements
mod Logs
mod Forms
mod Topologies
mod Runs
mod Worlds
mod Catalogs
mod Environments
mod Listings
