-- ===== src/Agent/Tools/Authorized.antt =====
-- What stands behind a tool call that succeeds.
use jake_ai.Prelude.{
  Bool-cases, Dict, Option, Option-cases, Result-cases, String, [], any, ap, arith, eq_iff, false,
  inl, inr, lookup, mem_str, none, ok, some, str_eq, true, ◌∷◌, ◌≡◌,
}
use jake_ai.Core.Authority.{AuthorityLease, Moment, authorize_bound_effect, grants, is_valid}
use jake_ai.Core.Authority.Effects.{Confirms, effect_is_authorized}
use jake_ai.Core.Authority.Introspection.{Response}
use jake_ai.Core.Json.{Json}
use jake_ai.Agent.Tools.{ToolResult, ToolRiskLevel}
use jake_ai.Agent.Tools.Policy.{Scanner, all_targets, evaluate, is_malicious}
use jake_ai.Agent.Tools.Execution.{
  Context, Outcome, raised, timed_out, Site, Tool, execute, execute_leased, executes, finished,
  run_checked, settle, under, validate,
}

-- A tool ran with a result: it is one that is granted, on arguments that are neither malicious nor
-- against its schema.
abbrev pub Ran : Scanner → Dict Tool → String → Tool → Dict Json → Context → ToolResult → Type 0
Ran s tools tool_name tool arguments ctx r =
    (grants ctx.permissions tool.metadata.permissions ≡ true)
    × (any (is_malicious s) (all_targets s arguments) ≡ false)
    × (validate tool_name arguments tools ≡ true)
    × (tool.run arguments ctx ≡ finished r)

-- One of the lease, confirmed by the authority in this very call.
abbrev pub IsInForce : Moment → Option Response → AuthorityLease → Type 0
IsInForce m answer l =
    (l.denial ≡ none) × (is_valid m l ≡ true) × Confirms m.lib m.now l.claims answer

settle_lem :
    (risk : ToolRiskLevel) (o : Outcome) (r : ToolResult)
    → settle risk o ≡ r
    → r.success ≡ true
    → o ≡ finished r
settle_lem risk (finished q) r h success = ap finished h
settle_lem risk timed_out r h success = ground arith
settle_lem risk (raised e) r h success = ground arith

run_checked-Ran :
    (s : Scanner) (tools : Dict Tool) (tool_name : String) (tool : Tool) (arguments : Dict Json)
    (ctx : Context) (r : ToolResult)
    → run_checked s tools tool_name tool arguments ctx ≡ r
    → r.success ≡ true
    → Ran s tools tool_name tool arguments ctx r
unfolding run_checked evaluate
run_checked-Ran s tools tool_name tool arguments ctx r h success =
    ground (arith, settle_lem tool.metadata.risk_level (tool.run arguments ctx) r)

bound-IsInForce :
    (m : Moment) (answer : Option Response) (environment tenant_id : String) (l : AuthorityLease)
    → (authorize_bound_effect m answer environment tenant_id executes (some l)).0 ≡ ok tt
    → (tenant_id ≡ l.claims.tid) × IsInForce m answer l
unfolding authorize_bound_effect
bound-IsInForce m answer environment tenant_id l h =
    elim (Bool-cases (str_eq tenant_id l.claims.tid)) [
      | inl own ↦
          let (clean, valid, _, _, confirmed) =
            effect_is_authorized m answer executes l (ground arith) in
          ((eq_iff tenant_id l.claims.tid).0 own, (clean, valid, confirmed))
      | inr other ↦ ground arith
    ]

execute_leased-Ran :
    (site : Site) (s : Scanner) (tools : Dict Tool) (tool_name : String) (tool : Tool)
    (arguments : Dict Json) (l : AuthorityLease) (current : Option AuthorityLease) (r : ToolResult)
    → (execute_leased site s tools tool_name tool arguments l current).0 ≡ ok r
    → r.success ≡ true
    → (mem_str tool_name ("calculator" ∷ "system_time" ∷ []) ≡ true)
      × (run_checked s tools tool_name tool arguments (under l) ≡ r)
unfolding execute_leased
execute_leased-Ran site s tools tool_name tool arguments l current r h success = ground arith

-- A tool call under a lease succeeds only where the caller names the tenant of the lease, the
-- authority confirms the lease in this very call, and the tool is one of the two that need no
-- adapter; it is registered, granted by the permissions of the lease whatever the caller claims to
-- have, and ran with the identity of the lease, on arguments that fit its schema and that are not
-- malicious.
pub leased_call_is_authorized :
    (site : Site) (s : Scanner) (tools : Dict Tool) (tool_name : String) (arguments : Dict Json)
    (ctx : Context) (l : AuthorityLease) (r : ToolResult)
    → (execute site s tool_name arguments ctx (some l) tools).0 ≡ ok r
    → r.success ≡ true
    → (ctx.tenant_id ≡ l.claims.tid)
      × IsInForce site.first site.first_answer l
      × (mem_str tool_name ("calculator" ∷ "system_time" ∷ []) ≡ true)
      × ((tool : Tool) × (lookup tool_name tools ≡ some tool)
          × Ran s tools tool_name tool arguments (under l) r)
unfolding execute
leased_call_is_authorized site s tools tool_name arguments ctx l r h success =
    elim (Option-cases (lookup tool_name tools)) [
      | inl missing ↦ ground arith
      | inr (tool, found) ↦
          let first =
            authorize_bound_effect site.first site.first_answer site.environment ctx.tenant_id
              executes (some l) in
          elim (Result-cases first.0) [
            | inl (e, refused) ↦ ground arith
            | inr (_, passed) ↦
                let (named, in_force) =
                  bound-IsInForce site.first site.first_answer site.environment ctx.tenant_id l
                    passed in
                let (known, ran) =
                  execute_leased-Ran site s tools tool_name tool arguments l first.1 r
                    (ground arith) success in
                (
                  named,
                  in_force,
                  known,
                  (
                    tool,
                    found,
                    run_checked-Ran s tools tool_name tool arguments (under l) r ran success,
                  ),
                )
          ]
    ]
