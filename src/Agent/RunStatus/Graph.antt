-- ===== src/Agent/RunStatus/Graph.antt =====
-- Paths through the canonical run state machine: what `assert_run_transition` lets a run become.
use jake_ai.Prelude.{
  Bool, List, [], any, arith, false, inl, inr, ok, refl, sym, true, ◌∷◌, ◌≡◌, ◌≢◌, ◌⊎◌,
}
use jake_ai.Agent.RunStatus.{
  RunStatus, created, planning, ready, running, executing, paused_approval, waiting_approval,
  verifying, replanning, completed, failed, cancelled, rejected, timeout, is_terminal, mem_status,
  assert_run_transition,
}

-- An accepted status write that changes the status.
infix 40 ◌⟶◌
abbrev pub ◌⟶◌ : RunStatus → RunStatus → Type 0
s ⟶ t = (assert_run_transition s t ≡ ok tt) × (s ≢ t)

-- A sequence of accepted writes; the list holds every status entered, the last one too.
pub data Trail : RunStatus → List RunStatus → RunStatus → Type 0 where
  here : {s : RunStatus} → Trail s [] s
  step : {s t u : RunStatus} {ts : List RunStatus} → s ⟶ t → Trail t ts u → Trail s (t ∷ ts) u

-- A finished run has no accepted change of status.
pub terminal_step : (s t : RunStatus) → is_terminal s ≡ true → ¬ (s ⟶ t)
unfolding is_terminal assert_run_transition
terminal_step completed t h p = ground arith
terminal_step _ t h p = ground arith

-- So a trail from a finished run is empty, and a run finishes at most once.
pub terminal-Trail :
    {s t : RunStatus} {ts : List RunStatus} → is_terminal s ≡ true → Trail s ts t → t ≡ s
terminal-Trail h here = refl
terminal-Trail {s} h (step {t = t} p r) = absurd (terminal_step s t h p)

-- The two statuses in which a run waits for a human decision.
abbrev pub is_gate : RunStatus → Bool
is_gate paused_approval = true
is_gate waiting_approval = true
is_gate _ = false

-- The two statuses in which a run is at work.
abbrev pub is_active : RunStatus → Bool
is_active running = true
is_active executing = true
is_active _ = false

-- A gate is left for work, or for an end that is no success.
pub gate_step :
    (s t : RunStatus)
    → is_gate s ≡ true
    → s ⟶ t
    → (is_active t ≡ true) ⊎ ((is_terminal t ≡ true) × (t ≢ completed))
unfolding is_terminal assert_run_transition
gate_step waiting_approval t h p = ground arith
gate_step _ t h p = ground arith

gate_ne_completed : {s : RunStatus} → is_gate s ≡ true → s ≢ completed
gate_ne_completed {s} h e = ground arith

-- A run that waits for a human decision completes only after it has been put back to work: every
-- accepted sequence of writes from a gate to COMPLETED enters RUNNING or EXECUTING.
pub completion_passes_work :
    {s : RunStatus} {ts : List RunStatus}
    → is_gate s ≡ true
    → Trail s ts completed
    → any is_active ts ≡ true
completion_passes_work h here = absurd (gate_ne_completed h refl)
completion_passes_work {s} h (step {t = t} {ts = ts} p r) = elim (gate_step s t h p) [
  | inl work ↦ rw work
  | inr (ended, ne) ↦ absurd (ne (sym (terminal-Trail ended r)))
]

created_step : (s : RunStatus) → ¬ (s ⟶ created)
unfolding assert_run_transition
created_step created p = ground arith
created_step _ p = ground arith

-- CREATED is where a run starts and is never entered again.
created_not_reentered :
    {s t : RunStatus} {ts : List RunStatus} → Trail s ts t → mem_status created ts ≡ false
unfolding mem_status
created_not_reentered here = refl
created_not_reentered {s} (step {t = t} {ts = ts} p r) =
    ground (arith, created_not_reentered r, created_step s)

-- how a run that has not ended can still be completed
abbrev pub to_completed : RunStatus → List RunStatus
to_completed completed = []
to_completed running = completed ∷ []
to_completed executing = completed ∷ []
to_completed verifying = completed ∷ []
to_completed _ = running ∷ completed ∷ []

-- From every status that is not terminal the table has a way to COMPLETED.
completion_reachable : (s : RunStatus) → is_terminal s ≡ false → Trail s (to_completed s) completed
unfolding is_terminal assert_run_transition
completion_reachable created h =
    step {s = created} {t = running} (ground arith, ground arith)
      (step {s = running} {t = completed} (ground arith, ground arith) here)
completion_reachable planning h =
    step {s = planning} {t = running} (ground arith, ground arith)
      (step {s = running} {t = completed} (ground arith, ground arith) here)
completion_reachable ready h =
    step {s = ready} {t = running} (ground arith, ground arith)
      (step {s = running} {t = completed} (ground arith, ground arith) here)
completion_reachable paused_approval h =
    step {s = paused_approval} {t = running} (ground arith, ground arith)
      (step {s = running} {t = completed} (ground arith, ground arith) here)
completion_reachable waiting_approval h =
    step {s = waiting_approval} {t = running} (ground arith, ground arith)
      (step {s = running} {t = completed} (ground arith, ground arith) here)
completion_reachable replanning h =
    step {s = replanning} {t = running} (ground arith, ground arith)
      (step {s = running} {t = completed} (ground arith, ground arith) here)
completion_reachable running h =
    step {s = running} {t = completed} (ground arith, ground arith) here
completion_reachable executing h =
    step {s = executing} {t = completed} (ground arith, ground arith) here
completion_reachable verifying h =
    step {s = verifying} {t = completed} (ground arith, ground arith) here
completion_reachable completed h = cc
completion_reachable failed h = cc
completion_reachable cancelled h = cc
completion_reachable rejected h = cc
completion_reachable timeout h = cc
