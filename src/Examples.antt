-- ===== src/Examples.antt =====
-- The theorems at concrete queues.
mod States
mod Runs
mod Answers
mod Recoveries
mod Lives
mod Parsed
mod Loops
mod Configs
mod Upgrades
mod Prunes
mod Streams
mod Commands
mod Readers
