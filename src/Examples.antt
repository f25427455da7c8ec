-- ===== src/Examples.antt =====
-- Runs of the model on small inputs, and each theorem at an input where its hypotheses hold.
mod Rows
mod Filters
mod Queries
mod Pages
mod Slots
mod Memory
mod Files
mod Pools
mod Lookups
