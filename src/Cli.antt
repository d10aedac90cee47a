-- ===== src/Cli.antt =====
-- spoolctl/cli.py: the verbs' handlers between the parsed arguments and the operations, and main.
pub mod Arguments
pub mod Verbs
pub mod Follow
pub mod Events
pub mod Work
pub mod Lists
pub mod Output
