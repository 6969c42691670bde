-- ===== src/Tests.antt =====
-- Runs of the definitions on concrete inputs, and examples for the theorems.
mod Samples
mod Sessions
mod Commands
mod Protocol
mod Rows
