-- ===== src/Identity/Class.antt =====
-- domain/identity.go: trust levels, identity types, sub-types and the risk metadata. Each Go type
-- is a string; `unset` is "", and `other` stands for every string that no constant names.
use zeroid.Prelude.{String, Bool, true, false, ◌||◌, ◌==◌}
use zeroid.Prelude.Int.{ℤ, pos, negsuc}

pub data TrustLevel : Type 0 where
  first_party verified_third_party unverified unset : TrustLevel
  other : String → TrustLevel

-- `TrustLevelRank`, with -1 for what is not a trust level
abbrev pub trust_level_rank : TrustLevel → ℤ
trust_level_rank unverified = pos 0
trust_level_rank verified_third_party = pos 1
trust_level_rank first_party = pos 2
trust_level_rank _ = negsuc 0

pub data IdentityType : Type 0 where
  agent application mcp_server service unset : IdentityType
  other : String → IdentityType

-- `IdentityType.Valid`
unfoldable pub valid_type : IdentityType → Bool
valid_type agent = true
valid_type application = true
valid_type mcp_server = true
valid_type service = true
valid_type _ = false

pub data SubType : Type 0 where
  orchestrator autonomous tool_agent human_proxy evaluator : SubType
  chatbot assistant api_service custom code_agent : SubType
  llm_provider unset : SubType
  other : String → SubType

-- the keys of the maps `agentSubTypes`, `applicationSubTypes`, `serviceSubTypes`
agent_sub_types : SubType → Bool
agent_sub_types orchestrator = true
agent_sub_types autonomous = true
agent_sub_types tool_agent = true
agent_sub_types human_proxy = true
agent_sub_types evaluator = true
agent_sub_types _ = false

application_sub_types : SubType → Bool
application_sub_types chatbot = true
application_sub_types assistant = true
application_sub_types api_service = true
application_sub_types custom = true
application_sub_types code_agent = true
application_sub_types _ = false

service_sub_types : SubType → Bool
service_sub_types llm_provider = true
service_sub_types _ = false

-- `SubType.ValidForIdentityType`: the test on "" comes first
unfoldable pub valid_for_identity_type : SubType → IdentityType → Bool
unfolding agent_sub_types application_sub_types service_sub_types
valid_for_identity_type unset t = true
valid_for_identity_type s agent = agent_sub_types s
valid_for_identity_type s application = application_sub_types s
valid_for_identity_type s mcp_server = false
valid_for_identity_type s service = service_sub_types s
valid_for_identity_type s _ = false

-- `ValidCapabilityTier`, `ValidRiskTier`, `ValidIAL`
unfoldable pub valid_capability_tier : String → Bool
valid_capability_tier v = v == "" || v == "low" || v == "high"

unfoldable pub valid_risk_tier : String → Bool
valid_risk_tier v = v == "" || v == "low" || v == "high"

unfoldable pub valid_ial : String → Bool
valid_ial v = v == "" || v == "ial1" || v == "ial2" || v == "ial3"
