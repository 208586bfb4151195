-- ===== src/Agent/Memory/Tests.antt =====
-- A conversation longer than its memory, and facts of two tenants.
use jake_ai.Prelude.{
  All, List, String, [], arith, last_n, length, none, num, refl, some, ℕ, ◌∷◌, ◌≡◌, ◌≤◌,
}
use jake_ai.Agent.Memory.{AgentMessage, Fact, search_entries}
use jake_ai.Agent.Memory.Recall.{IsRecalled, store_all, recall_is_isolated}
use jake_ai.Agent.Memory.Conversation.{add_all, system_message_survives}

abbrev says : String → String → AgentMessage
says role content = record { role = role; content = content }

abbrev talk : List AgentMessage
talk = says "user" "a" ∷ says "assistant" "b" ∷ says "user" "c" ∷ []

system_message_survives_example :
    (add_all talk
      (record { max_entries = 3; entries = []; messages = says "system" "s" ∷ [] })).messages
    ≡ says "system" "s" ∷ last_n 2 talk
system_message_survives_example =
    system_message_survives 2 (says "system" "s") talk refl (omega arith)

abbrev fact : String → Fact
fact tenant_id = record {
  tenant_id = tenant_id;
  key = "budget_2026";
  value = num 7;
  user_id = none;
  summary = none;
  ttl = none;
  metadata = [];
}

abbrev facts : List (String × ℕ × Fact)
facts = ("e1", 1, fact "acme") ∷ ("e2", 2, fact "other") ∷ ("e3", 3, fact "acme") ∷ []

recall_is_isolated_example :
    All
      (IsRecalled "acme" 10 (some "budget") none)
      (search_entries 10 "acme" (some "budget") none 1 (store_all 1000 facts [])).0
    × (length (search_entries 10 "acme" (some "budget") none 1 (store_all 1000 facts [])).0 ≤ 1)
recall_is_isolated_example = recall_is_isolated 1000 facts "acme" 10 (some "budget") none 1
