-- ===== src/Tests.antt =====
-- Runs of the model at small inputs, and the theorems applied there.
mod Samples
mod Orders
mod Hints
mod Searches
mod Adapters
mod Configs
mod Runs
mod Evaluations
mod Generator
mod Headers
