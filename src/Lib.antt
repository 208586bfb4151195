-- ===== src/Lib.antt =====
-- JakeAI: a verification library for the backend of the platform (backend/app).
--
-- The backend serves AI requests of many tenants. The agent runtime keeps tasks and their runs,
-- each with a status that follows a transition table; a run executes a plan of steps, whose
-- failures the recovery engine turns into retries, changes of agent or an end; a dangerous action
-- waits at an approval gate. A request reaches a language model by a chain of providers with
-- retries and failover, a circuit breaker keeps calls away from a failing one, token buckets limit
-- the rate of a client, a router chooses the model, and budgets are reserved before a call and settled
-- after it, with a ledger of what was spent. Each request carries an access token and is served under a
-- lease on the authority of its user, by the policy of its route. The parts below are the ones
-- modelled, each with the files of backend/app it is about:
--
--   Prelude                  numbers, lists, dicts, texts, JSON values and exceptions as the source
--                            uses them
--   Agent/RunStatus          agent/state/models.py: RunStatus, RUN_TRANSITIONS, assert_run_transition
--   Agent/TaskStatus         agent/state/models.py: TaskStatus, TASK_TRANSITIONS and its check
--   Agent/RunState           agent/state/models.py: RunState, its checked assignment (__setattr__ as
--                            set_status), transition_to; RunState/Bridge: to_agent_state and
--                            from_agent_state; RunState/Steps: the dump and the rehydration of a step
--   Agent/TaskState          agent/state/models.py: TaskState
--   Agent/Plan               agent/domain/contracts.py: PlanStep, ExecutionPlan and its methods;
--                            Plan/Tiers: get_independent_step_groups
--   Agent/Registry           agent/registry/agent_registry.py: the registry and find_eligible
--   Agent/Recovery           agent/recovery/recovery.py: the decisions; Recovery/Loop: the failure
--                            branch of agent/execution/engine.py, which carries them out
--   Agent/Approvals          agent/approvals: the store of gates; Approvals/Policy: the policy
--   Agent/Tools              agent/tools/base.py: tools and their results; Tools/Policy:
--                            agent/tools/policy.py; Tools/Execution: agent/tools/registry.py, from the
--                            lookup of a tool to its result
--   Agent/Manager            agent/runtime/manager.py: AgentRuntimeManager over tasks, runs, gates and
--                            cancellation flags
--   Agent/Memory             agent/memory: ShortTermMemory, LongTermMemory, AgentMemoryManager
--   Agent/Verifier           agent/verification/verifier.py: verify_execution
--   Core/CircuitBreaker      core/circuit_breaker.py
--   Core/RateLimiter         core/rate_limiter.py: the token buckets in memory
--   Core/Json                the values that json.loads gives
--   Core/Identity            core/identity.py, core/secret_material.py: signing keys and their rotation
--                            (Identity), the claims of a token (Identity/Claims), unique_object and
--                            verify_access (Identity/Access)
--   Core/Authority           core/identity_state.py: AuthorityLease, its check (begin_check and
--                            finish_check around the call of the authority), authorize_effect and
--                            authorize_bound_effect; Authority/Introspection: IdentityStateClient.check
--   Core/Security            core/security.py, core/context.py: get_current_tenant and permissions
--   Core/RoutePolicy         core/route_policy.py: USER_POLICY and policy_for; RoutePolicy/Gate and
--                            RoutePolicy/Ownership: AuthorizationMiddleware up to the application;
--                            RoutePolicy/Delivery: guarded_send and the end of a response
--   Finops/Pricing           finops/pricing.py; Pricing/Catalog: optimizer/provider_pricing.py
--   Finops/Attribution       finops/attribution.py: compute_savings_attribution
--   Finops/Ledger            finops/ledger.py: FinOpsLedger
--   Routing/Router           routing/router.py: the candidates of ModelRouter.route and their scores;
--                            Router/Selection: the selection, the fallback chain and the decision
--   Finops/Budget            finops/budget.py in its in-memory mode; Budget/Status: set_budget and
--                            get_budget_status
--   Routing/Failover         routing/failover.py: execute_with_failover, with the error taxonomy of
--                            providers/errors.py and core/provider_credentials.py
--
-- A function has the name of its method. A method that writes takes the old state last and returns
-- the new one beside what it returns or raises. Times are readings of a clock that the caller
-- passes in, ids are what uuid draws, and dollars are whole micro-dollars, the sixth decimal to
-- which the source rounds, so the last bit of a float is left out. Exceptions are their classes;
-- message texts, logs, events and metrics are left out. Providers, credential resolvers, planners and checkpoints are arguments: what they
-- do is any function or any outcome, exceptions included.
--
-- Loops are structural recursion, but for get_independent_step_groups, whose while loop runs on
-- fuel: one more than the number of steps, which is enough, as each round removes a step. The
-- retries of a provider recurse on the retries that are left.
--
-- Cryptography, JSON parsing and the JWT library are the fields of Identity's Library; the answer of the
-- identity authority, the route that a request matches and the catalog of models are arguments, and so
-- are the search for a regular expression (Tools/Policy's Scanner) and what pydantic makes of a value of
-- another type (RunState/Steps' Coercions). An application that goes on after a refused send is left out.
--
-- Not modelled: the Redis mode of the budgets and of the rate limiter, the asynchronous runner and
-- the scheduling of the execution engine, streaming and backoff delays, the planner, checkpoints,
-- reconciliation, stored provider keys, the provider adapters, retrieval, the optimizer but for the
-- pricing, guardrails, endpoints, evaluation harnesses and the front end: some are I/O or calls of
-- third-party services, the others are not yet part of the library.
pub mod Prelude
pub mod Agent
pub mod Core
pub mod Finops
pub mod Routing
