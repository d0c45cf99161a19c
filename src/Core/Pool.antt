-- ===== src/Core/Pool.antt =====
-- unigateway-core/src/pool.rs: endpoints, pools and execution targets; endpoint_context.rs and the
-- allowlist merge of metadata_headers.rs.
use unigateway.Prelude.{ℕ, Bool, Option, List}
use unigateway.Prelude.Text.{Text}
use unigateway.Prelude.Dict.{Dict}
use unigateway.Core.Retry.{LoadBalancingStrategy, RetryPolicy}
use unigateway.Core.Capabilities.{EndpointCapabilities}

pub data ProviderKind : Type 0 where
  openai_compatible anthropic sglang_lite : ProviderKind

pub record ModelPolicy : Type 0 where
  pub default_model : Option Text
  pub model_mapping : Dict Text

pub record Endpoint : Type 0 where
  pub endpoint_id : Text
  pub provider_name : Option Text
  pub source_endpoint_id : Option Text
  pub provider_family : Option Text
  pub provider_kind : ProviderKind
  pub driver_id : Text
  pub base_url : Text
  pub api_key : Text
  pub model_policy : ModelPolicy
  pub enabled : Bool
  pub max_concurrency : Option ℕ
  pub capabilities : EndpointCapabilities
  pub metadata : Dict Text
  pub forward_metadata_as_headers : Option (List Text)

pub record ProviderPool : Type 0 where
  pub pool_id : Text
  pub endpoints : List Endpoint
  pub load_balancing : LoadBalancingStrategy
  pub retry_policy : RetryPolicy
  pub metadata : Dict Text
  pub forward_metadata_as_headers : Option (List Text)

-- An `EndpointRef` is its id.
pub record ExecutionPlan : Type 0 where
  pub pool_id : Option Text
  pub candidates : List Text
  pub load_balancing_override : Option LoadBalancingStrategy
  pub retry_policy_override : Option RetryPolicy
  pub metadata : Dict Text

pub data ExecutionTarget : Type 0 where
  pool : Text → ExecutionTarget
  plan : ExecutionPlan → ExecutionTarget

pub record DriverEndpointContext : Type 0 where
  pub endpoint_id : Text
  pub provider_kind : ProviderKind
  pub base_url : Text
  pub api_key : Text
  pub model_policy : ModelPolicy
  pub capabilities : EndpointCapabilities
  pub metadata : Dict Text
  pub forward_metadata_as_headers : Option (List Text)
