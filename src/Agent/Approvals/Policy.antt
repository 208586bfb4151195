-- ===== src/Agent/Approvals/Policy.antt =====
-- agent/approvals/policy.py: `ApprovalPolicy.requires_approval`.
use jake_ai.Prelude.{
  Bool, Dict, List, Option, String, Value, [], arith, codes, contains_any, false, flag,
  if◌then◌else◌, lookup, lower, none, or_else, some, true, ◌||◌, ◌↔◌, ◌∷◌, ◌≡◌,
}
use jake_ai.Agent.Tools.{ToolMetadata, dangerous}

-- `DANGEROUS_ACTION_NAMES`
abbrev pub dangerous_action_names : List String
dangerous_action_names =
    "terminal" ∷ "terminal_exec" ∷ "shell" ∷ "bash" ∷ "cmd" ∷ "git_push" ∷ "filesystem_mutation"
    ∷ "file_delete" ∷ "package_install" ∷ "network_request" ∷ "credential_access" ∷ []

abbrev pub is_dangerous : Option ToolMetadata → Bool
is_dangerous none = false
is_dangerous (some meta) = elim meta.risk_level [ dangerous ↦ true | _ ↦ false ]

-- `args.get(key) is True`
abbrev is_true : Option Value → Bool
is_true (some (flag true)) = true
is_true _ = false

unfoldable pub names_danger : String → Bool
unfolding lower contains_any
names_danger tool_name = contains_any dangerous_action_names (lower (codes tool_name))

unfoldable pub is_destructive : Dict Value → Bool
is_destructive args = is_true (lookup "destructive" args) || is_true (lookup "force" args)

-- why an approval is demanded
pub data Reason : Type 0 where
  risk_level action_name mutation_flags safe : Reason

unfoldable pub requires_approval :
    Option ToolMetadata → String → Option (Dict Value) → Bool × Reason
unfolding names_danger is_destructive
requires_approval tool tool_name arguments =
    if is_dangerous tool
    then (true, risk_level)
    else if names_danger tool_name
    then (true, action_name)
    else if is_destructive (or_else arguments [])
    then (true, mutation_flags)
    else (false, safe)

-- An action passes with no approval exactly when its tool is not dangerous, its name matches no
-- sensitive operation, and its arguments carry no mutation flag.
approval_exact :
    (tool : Option ToolMetadata) (tool_name : String) (arguments : Option (Dict Value))
    → ((requires_approval tool tool_name arguments).0 ≡ false) ↔ (
        (is_dangerous tool ≡ false)
        × (names_danger tool_name ≡ false)
        × (is_destructive (or_else arguments []) ≡ false))
unfolding requires_approval
approval_exact tool tool_name arguments = ground arith
