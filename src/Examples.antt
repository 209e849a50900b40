-- ===== src/Examples.antt =====
-- Runs of the modelled code at concrete inputs: tests of the definitions, and the theorems applied
-- to tables, plans and workflows.
mod Failing
mod Injecting
mod Charging
mod Deciding
mod Invoking
mod Saving
mod Starting
mod Storing
mod Reviewing
mod Validating
mod Authenticating
mod Refunding
mod Delegating
mod Registering
