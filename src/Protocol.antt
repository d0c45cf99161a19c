-- ===== src/Protocol.antt =====
-- unigateway-protocol/src: from the internal responses to what the clients' protocols expect.
pub mod ReasoningText
pub mod AnthropicStream
