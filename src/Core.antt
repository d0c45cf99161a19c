-- ===== src/Core.antt =====
-- unigateway-core/src: the routing and execution engine.
pub mod Error
pub mod Retry
pub mod Aimd
pub mod Capabilities
pub mod Pool
pub mod Routing
pub mod Headers
pub mod Engine
pub mod Fallback
pub mod Sse
pub mod Json
pub mod ToolCalls
pub mod ResponsesRetry
pub mod ChatStream
