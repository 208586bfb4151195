-- ===== src/Agent/RunStatus/Tests.antt =====
-- Runs of the state machine of a run.
use jake_ai.Prelude.{[], any, arith, false, refl, true, ◌∷◌, ◌≡◌}
use jake_ai.Agent.RunStatus.{
  running, paused_approval, completed, verifying, assert_run_transition, is_terminal,
}
use jake_ai.Agent.RunStatus.Graph.{Trail, here, step, is_active, completion_passes_work}

resumed : Trail paused_approval (running ∷ completed ∷ []) completed
unfolding assert_run_transition
resumed =
    step {s = paused_approval} {t = running} (ground arith, ground arith)
      (step {s = running} {t = completed} (ground arith, ground arith) here)

completion_passes_work_example : any is_active (running ∷ completed ∷ []) ≡ true
completion_passes_work_example = completion_passes_work refl resumed

verifying_goes_on : is_terminal verifying ≡ false
unfolding is_terminal
verifying_goes_on = refl
