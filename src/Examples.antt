-- ===== src/Examples.antt =====
-- Concrete runs of the development: a small platform, a state and requests, with the witnesses of
-- the theorems' hypotheses and the tests.
mod World
mod Witnesses
mod Runs
mod Claims
mod Durability
mod Wire
mod Relays
mod Registrations
mod Json
