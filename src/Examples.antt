-- ===== src/Examples.antt =====
-- Concrete inputs: what the models compute on them, and the theorems applied to them.
mod Tasks
mod Graphs
mod Ready
mod Breakers
mod Retries
mod Stores
mod Engines
mod Services
mod Plans
mod Servers
mod Tables
mod Remotes
