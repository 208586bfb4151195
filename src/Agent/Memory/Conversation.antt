-- ===== src/Agent/Memory/Conversation.antt =====
-- The conversation that a bounded memory keeps.
use jake_ai.Prelude.{
  Bool-cases, List, [], ap, append-nil, append_assoc, append_bounded, append_bounded-last_n, arith,
  drop-nil, eq_iff, false, if◌then◌else◌, inl, inr, last_n, length, ltb, refl, str_eq, suc, sym,
  true, ℕ, ◌++◌, ◌-◌, ◌∙◌, ◌∷◌, ◌≡◌, ◌≤◌,
}
use jake_ai.Agent.Memory.{AgentMessage, ShortTermMemory, evict, add_message}

unfoldable pub add_all : List AgentMessage → ShortTermMemory → ShortTermMemory
add_all [] m = m
add_all (message ∷ messages) m = add_all messages (add_message message m)

-- One message more behind a system message, in a memory for two at least.
kept_behind :
    (most : ℕ) (system message : AgentMessage) (rest : List AgentMessage)
    → system.role ≡ "system"
    → 1 ≤ most
    → (if ltb (suc most) (length (system ∷ (rest ++ (message ∷ []))))
        then evict (system ∷ (rest ++ (message ∷ [])))
        else system ∷ (rest ++ (message ∷ [])))
      ≡ system ∷ append_bounded most message rest
unfolding evict append_bounded
kept_behind most system message rest named room =
    let is_system : str_eq system.role "system" ≡ true = (eq_iff system.role "system").1 named in
    elim (Bool-cases (ltb most (length (rest ++ (message ∷ []))))) [
      | inl over ↦
          let over' : ltb (suc most) (length (system ∷ (rest ++ (message ∷ [])))) ≡ true =
            ground arith in
          let many : ltb 2 (length (system ∷ (rest ++ (message ∷ [])))) ≡ true = ground arith in
          rw (over', over, is_system, many) refl
      | inr fits ↦
          let fits' : ltb (suc most) (length (system ∷ (rest ++ (message ∷ [])))) ≡ false =
            ground arith in
          rw (fits', fits) refl
    ]

add_message-behind :
    (most : ℕ) (system message : AgentMessage) (log : List AgentMessage) (m : ShortTermMemory)
    → system.role ≡ "system"
    → 1 ≤ most
    → m.max_entries ≡ suc most
    → m.messages ≡ system ∷ last_n most log
    → (add_message message m).messages ≡ system ∷ last_n most (log ++ (message ∷ []))
unfolding add_message
add_message-behind most system message log m named room size held =
    rw (held, size)
      (kept_behind most system message (last_n most log) named room
        ∙ ap (λ rest. system ∷ rest) (append_bounded-last_n most message log))

size_kept :
    (message : AgentMessage) (m : ShortTermMemory)
    → (add_message message m).max_entries ≡ m.max_entries
unfolding add_message
size_kept message m = refl

conversation_from :
    (most : ℕ) (system : AgentMessage) (messages log : List AgentMessage) (m : ShortTermMemory)
    → system.role ≡ "system"
    → 1 ≤ most
    → m.max_entries ≡ suc most
    → m.messages ≡ system ∷ last_n most log
    → (add_all messages m).messages ≡ system ∷ last_n most (log ++ messages)
unfolding add_all
conversation_from most system [] log m named room size held = rw (append-nil log) held
conversation_from most system (message ∷ messages) log m named room size held =
    conversation_from most system messages (log ++ (message ∷ [])) (add_message message m) named
      room (size_kept message m ∙ size)
      (add_message-behind most system message log m named room size held)
    ∙ ap (λ xs. system ∷ last_n most xs) (append_assoc log (message ∷ []) messages)

-- A memory with room for two messages at least that starts with a system message keeps it first, whatever
-- is added, and behind it the newest messages, as many as there is room for, later system messages
-- being evicted like any other.
pub system_message_survives :
    (most : ℕ) (system : AgentMessage) (messages : List AgentMessage)
    → system.role ≡ "system"
    → 1 ≤ most
    → (add_all messages
        (record { max_entries = suc most; entries = []; messages = system ∷ [] })).messages
      ≡ system ∷ last_n most messages
system_message_survives most system messages named room =
    conversation_from most system messages []
      (record { max_entries = suc most; entries = []; messages = system ∷ [] }) named room refl
      (ap (λ rest. system ∷ rest) (sym (drop-nil (0 - most))))
