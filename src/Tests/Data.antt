-- ===== src/Tests/Data.antt =====
-- The endpoints, snapshots, worlds and stores of the tests.
use unigateway.Prelude.{ℕ, true, none, some, List, [], ◌∷◌, ok, err, if◌then◌else◌}
use unigateway.Prelude.Text.{Text, codes, text_eq}
use unigateway.Prelude.Dict.{Dict}
use unigateway.Core.Error.{upstream_http}
use unigateway.Core.Retry.{
  LoadBalancingStrategy, round_robin, RetryPolicy, default_policy, on_status_range, fixed,
}
use unigateway.Core.Aimd.{default_config}
use unigateway.Core.Pool.{Endpoint, ProviderPool, openai_compatible, DriverEndpointContext}
use unigateway.Core.Routing.{ExecutionSnapshot}
use unigateway.Core.Engine.{EngineState}
use unigateway.Core.Fallback.{World, Reply, Session}

abbrev pub endpoint : Text → Endpoint
endpoint id = record {
  endpoint_id = id;
  provider_name = none;
  source_endpoint_id = none;
  provider_family = none;
  provider_kind = openai_compatible;
  driver_id = codes "openai";
  base_url = codes "https://api";
  api_key = codes "k";
  model_policy = record { default_model = none; model_mapping = [] };
  enabled = true;
  max_concurrency = some 4;
  capabilities = record {
    tool_calling = none;
    reasoning = none;
    openai_api_surface = none;
    local_inference = none;
  };
  metadata = [];
  forward_metadata_as_headers = none;
}

abbrev pub east : Endpoint
east = endpoint (codes "east")

abbrev pub west : Endpoint
west = endpoint (codes "west")

abbrev pub both : List Endpoint
both = east ∷ west ∷ []

abbrev pub patient : RetryPolicy
patient = record default_policy {
  max_attempts = 2;
  retry_on = on_status_range 500 599 ∷ [];
  backoff = fixed 5;
}

abbrev pub snapshot : LoadBalancingStrategy → ExecutionSnapshot
snapshot strategy = record {
  pool_id = some (codes "main");
  endpoints = both;
  load_balancing = strategy;
  retry_policy = patient;
  metadata = [];
  forward_metadata_as_headers = none;
  selection_key = codes "pool:main";
}

abbrev pub main_pool : ProviderPool
main_pool = record {
  pool_id = codes "main";
  endpoints = both;
  load_balancing = round_robin;
  retry_policy = patient;
  metadata = [];
  forward_metadata_as_headers = none;
}

abbrev pub other_pool : ProviderPool
other_pool = record main_pool { pool_id = codes "other"; endpoints = endpoint (codes "north") ∷ [] }

abbrev pub pools : Dict ProviderPool
pools = (codes "main", main_pool) ∷ (codes "other", other_pool) ∷ []

-- `east` is overloaded, `west` answers.
abbrev pub reply : ℕ → DriverEndpointContext → Reply
reply i context = record {
  takes = 3;
  answer =
      if text_eq context.endpoint_id (codes "east")
      then err (upstream_http 503 none context.endpoint_id)
      else ok (Session.completed 3);
}

abbrev pub world : World
world = record {
  display = λ e. codes "failed";
  registry = some (λ id. some reply);
  now_ms = λ i. i;
  latency_ms = λ i. 3;
  before = λ i m. m;
  meanwhile = λ i m. m;
  afterwards = λ i m. m;
  draw = λ i upper. 0;
  aimd_config = default_config;
  request_metadata = [];
}

abbrev pub engine : EngineState
engine = record {
  pools = pools;
  rr_counters = (codes "pool:main", 7) ∷ [];
  aimd_states = [];
  routing_feedback_provider = none;
  default_retry_policy = default_policy;
  default_timeout = none;
  aimd_config = default_config;
}
