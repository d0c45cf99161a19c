-- ===== src/Tests.antt =====
-- Runs of the code on concrete inputs, and each theorem that has conditions at an input that meets
-- them.
pub mod Data
mod Routing
mod Execution
mod Sessions
mod Streams
mod Tools
mod Configs
mod Retries
