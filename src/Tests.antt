-- ===== src/Tests.antt =====
-- Runs of the model on a small JVM, and the applications of its theorems to concrete states.
pub mod Demo
mod Events
mod Queries
mod Errors
mod Values
mod Start
mod Init
mod Results
mod Heap
mod History
