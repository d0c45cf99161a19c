-- ===== src/Lib.antt =====
-- UniGateway: a gateway that routes the requests of language-model clients to the endpoints of
-- upstream providers, with pools, retries, adaptive concurrency, and sessions whose stored prefix
-- completes a delta request.
--
-- The parts and their files. Paths are from the root of the repository.
--   Prelude            what the modules share: Boolean tests, results, lists over the native numbers,
--                      text as code points, maps as association lists, insertion sort, permutations
--   Core/Error         unigateway-core/src/error.rs, the reports of response.rs, is_saturation_error
--                      of engine/reporting.rs
--   Core/Retry         unigateway-core/src/retry.rs; should_retry_error and apply_retry_backoff of
--                      engine/reporting.rs
--   Core/Aimd          unigateway-core/src/engine/aimd.rs: the methods as one step; Aimd/Machine has
--                      each method as single atomic accesses of threads, in any interleaving
--   Core/Capabilities  unigateway-core/src/capabilities.rs
--   Core/Pool          unigateway-core/src/pool.rs and endpoint_context.rs
--   Core/Routing       unigateway-core/src/routing.rs and feedback.rs: the snapshot that a request
--                      works on, and the order of its endpoints
--   Core/Headers       unigateway-core/src/metadata_headers.rs, where `none` is a panic
--   Core/Engine        unigateway-core/src/engine/mod.rs: pools, counters, limiters and the driver's
--                      context
--   Core/Fallback      unigateway-core/src/engine/execution/fallback.rs and support.rs: one request
--                      over its endpoints. It takes the snapshot and endpoints of Core/Routing and
--                      acts on the limiters of Core/Aimd through the map of Core/Engine
--   Core/Sse           unigateway-core/src/protocol/mod.rs: server-sent events out of bytes;
--                      Sse/Driving has the loop that drives a stream, for any handling of its frames
--   Core/ChatStream    unigateway-core/src/protocol/openai/streaming.rs and parsing.rs: the stream of
--                      chat chunks, with that loop
--   Core/ResponsesRetry
--                      unigateway-core/src/responses_retry.rs: whether to try again without tools
--   Core/Json          what is read of a serde_json value
--   Core/ToolCalls     unigateway-core/src/conversion/tool_calls.rs: tool calls out of deltas;
--                      ToolCalls/Arguments has the text of their arguments
--   Config             unigateway-config/src: Schema has the tables of schema.rs and lib.rs, Admin and
--                      Providing the operations of admin/mutations.rs, ApiKeys those of
--                      admin/api_keys.rs, Select what requests read (select.rs), Views the listings
--                      of admin/views.rs; Operations has the operations as values, and
--                      Consistency, Providers and Runs what they keep
--   Protocol/ReasoningText
--                      unigateway-protocol/src/responses/reasoning_text.rs: the split of a whole text
--                      and the parser of a stream
--   Protocol/AnthropicStream
--                      unigateway-protocol/src/responses/anthropic_stream.rs: its state and blocks;
--                      AnthropicStream/Chunks has the chunks and tool calls, which use Core/ToolCalls
--                      and Protocol/ReasoningText, AnthropicStream/Drive the driver;
--                      AnthropicStream/Trace says which events may follow each other
--   Session/Lifetime   unigateway-session/src/lifetime.rs
--   Session/Keys       keys, fingerprints, errors and events of unigateway-session/src/store.rs and
--                      lifecycle.rs
--   Session/Limits     prefixes and size limits of unigateway-session/src/store.rs
--   Session/Store      the in-memory store of unigateway-session/src/store.rs: each operation takes
--                      the time and returns its result with the store that it leaves
--   Session/Middleware unigateway-session/src/middleware.rs, over that store
--   Tests              the theorems at concrete inputs
--
-- State is passed explicitly: an operation returns its result beside the new state, so that what a
-- failing operation changed shows. The loop of a request is structural recursion over its endpoints,
-- the machine of the limiter over the schedule, and a run of the store over its operations. Two loops
-- run on fuel: the drain of the frames on the length of the buffer, since each turn takes away at least
-- a delimiter, and the normalization of arguments on their length in bytes, since decoding shortens
-- them; a theorem says of each that the fuel is enough. `usize` and `u64` are 64 bits wide, with the
-- wrap-around of `fetch_add` and `fetch_sub` written out; a `Duration` counts nanoseconds, and `checked_mul` gives none past its end. In
-- the configuration an `i64` is its distance from the least one. An operation of the configuration is
-- what it does under its write lock; binding a provider takes two locks, and its two sections are
-- definitions of their own.
--
-- Parameters, since their code is not in the repository: serde_json's values with their equality,
-- serialized length, members and arrays, and its parser of string literals; String::from_utf8_lossy;
-- serde_json's parse of a model mapping; the endpoints of llm_providers; the clock; the random
-- draws; the providers' answers; what other
-- requests do to the limiters while one request runs. The order of an association list stands for the
-- order in which a hash map is iterated. Scores of the routing feedback are floats by their bits, in
-- the total order of IEEE 754.
--
-- Where a slice may cut a character, `none` is the panic. The channel of the Anthropic stream is the
-- list of events sent: a client that goes away, after which nothing more is received, is not told
-- apart.
--
-- Not modelled: the observation of a stream after a request has handed it out, hooks and the builder,
-- the rest of the protocol drivers and conversions (unigateway-core/src/protocol and conversion), HTTP
-- transport, unigateway-host, the rest of unigateway-protocol, of unigateway-config the file,
-- the plan for the core and the limits of the gateway keys, unigateway-sdk, the HTTP routes of
-- unigateway-session and the redis store, most of which is input and output or translation of JSON.
pub mod Prelude
pub mod Core
pub mod Config
pub mod Protocol
pub mod Session
pub mod Tests
