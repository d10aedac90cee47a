-- ===== src/Operations.antt =====
-- spoolctl/operations.py: the verbs' bodies over the store, with contract errors as values.
pub mod Errors
pub mod Requests
pub mod Output
pub mod Pruning
pub mod Feedback
pub mod Events
pub mod Listing
pub mod Waiting
pub mod Doctor
