-- ===== src/Examples.antt =====
-- Runs of the code at concrete inputs, and the theorems applied there.
pub mod Numbers
pub mod Files
pub mod Dictionary
pub mod Distance
pub mod Search
