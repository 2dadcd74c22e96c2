-- ===== src/Tests.antt =====
-- Runs of the definitions on concrete data, and the theorems at inputs that meet their hypotheses.
mod Ram
mod Store
mod Anchor
mod Boot
mod Commands
mod Echo
mod Arrays
mod Order
mod Provision
mod Thread
mod Pace
mod Sleeps
