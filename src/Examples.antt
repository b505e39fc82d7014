-- ===== src/Examples.antt =====
-- Runs of the model at concrete inputs: an environment that accepts every call, one whose database
-- refuses the conditional writes, and the theorems at them.
mod Setting
mod Runs
mod Services
mod Codec
mod Coordinators
mod Queues
mod Nodes
mod Signals
mod Histories
mod Templates
mod Goroutines
mod Requests
