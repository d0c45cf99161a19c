-- ===== src/Config.antt =====
-- unigateway-config/src: the configuration of the gateway and the operations on it.
pub mod Schema
pub mod Admin
pub mod Providing
pub mod Select
pub mod Views
pub mod ApiKeys
pub mod Operations
pub mod Consistency
pub mod Providers
pub mod Runs
