-- ===== src/Examples.antt =====
-- Inputs at which the theorems apply: an agent with two rows under 1.3.6.1.9, whose world is the
-- number of requests that the deadline leaves, and hand-made trials and outcomes.
mod Agents
mod Oids
mod Searches
mod Commands
mod Reports
mod Workloads
mod Sims
mod Transports
