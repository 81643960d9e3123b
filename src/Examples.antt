-- ===== src/Examples.antt =====
-- Concrete states of the proxy and concrete runs of its theorems.
mod Data
mod Runs
mod Logons
mod Inputs
mod Histories
mod Orders
