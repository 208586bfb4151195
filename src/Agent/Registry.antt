-- ===== src/Agent/Registry.antt =====
-- agent/registry/agent_registry.py: `AgentMetadata` and `AgentRegistry`. The registry is a dict in
-- insertion order, so `find_eligible` lists agents in that order.
use jake_ai.Prelude.{
  Bool, Dict, List, Option, String, Value, [], all, any, arith, erase, false, filter, if◌then◌else◌,
  insert, lookup, mem_str, none, not, some, str_eq, true, values, ◌&&◌, ◌∷◌, ◌≡◌,
}

pub record AgentMetadata : Type 0 where
  pub agent_id : String
  pub name : String
  pub description : String
  pub capabilities : List String
  pub supported_tools : List String
  pub supported_workloads : List String
  pub required_model_capabilities : List String
  pub risk_level : String
  pub availability : Bool
  pub version : String
  pub system_prompt : Option String
  pub metadata : Dict Value

abbrev pub Agents : Type 0
Agents = Dict AgentMetadata

pub register : AgentMetadata → Agents → Agents
register m agents = insert m.agent_id m agents

pub unregister : String → Agents → Agents
unregister agent_id agents = erase agent_id agents

pub get : String → Agents → Option AgentMetadata
get agent_id agents = lookup agent_id agents

-- `a.issubset(b)` and the truth of `a & b`
abbrev pub is_subset : List String → List String → Bool
is_subset a b = all (λ x. mem_str x b) a

abbrev pub meets : List String → List String → Bool
meets a b = any (λ x. mem_str x b) a

abbrev pub is_empty {ℓ} : {A : Type ℓ} → List A → Bool
is_empty [] = true
is_empty (_ ∷ _) = false

-- `workload_class and agent.supported_workloads and ...`
unfoldable pub rejects_workload : Option String → List String → Bool
rejects_workload none supported = false
rejects_workload (some w) supported =
    not (str_eq w "")
    && not (is_empty supported)
    && not (mem_str w supported)
    && not (mem_str "general" supported)

-- the tests of the loop of `find_eligible`, in its order
unfoldable pub is_eligible : List String → List String → Option String → AgentMetadata → Bool
unfolding rejects_workload
is_eligible caps tools workload agent =
    if not agent.availability
    then false
    else if not (is_empty caps)
        && not (is_subset caps agent.capabilities)
        && not (meets caps agent.capabilities)
    then false
    else if not (is_empty tools) && not (is_subset tools agent.supported_tools)
    then false
    else if rejects_workload workload agent.supported_workloads
    then false
    else true

unfoldable pub find_eligible :
    List String → List String → Option String → Agents → List AgentMetadata
unfolding is_eligible
find_eligible caps tools workload agents = filter (is_eligible caps tools workload) (values agents)

-- An agent that is found is available and has every tool that is required.
pub eligible_has_tools :
    (caps tools : List String) (workload : Option String) (agent : AgentMetadata)
    → is_eligible caps tools workload agent ≡ true
    → (agent.availability ≡ true) × (is_subset tools agent.supported_tools ≡ true)
unfolding is_eligible
eligible_has_tools caps [] workload agent h = ground arith
eligible_has_tools caps (t ∷ tools) workload agent h = ground arith
