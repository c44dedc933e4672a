-- ===== src/Tests.antt =====
-- The theorems at concrete inputs, and runs of the definitions on small files.
mod Generator
mod Report
mod Runner
mod State
mod Cleanse
mod Checks
mod Language
mod Process
mod Program
mod Session
