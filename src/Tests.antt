-- ===== src/Tests.antt =====
-- Concrete inputs: the libraries' parameters by simple functions, and each property at one input.
pub mod Plain
mod Texts
mod Messages
mod Programs
mod Tasks
mod Runs
mod Systems
mod Whole
mod Restart
mod Live
