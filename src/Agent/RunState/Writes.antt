-- ===== src/Agent/RunState/Writes.antt =====
-- Status writes on a run: both entry points keep the tracked status in step, and a run that has
-- ended keeps its status.
use jake_ai.Prelude.{
  Bool-cases, List, Option, Result, String, [], arith, err, false, if◌then◌else◌, inl, inr, none,
  ok, some, subst, sym, true, ℕ, ◌↔◌, ◌∷◌, ◌≡◌,
}
use jake_ai.Agent.RunStatus.{RunStatus, is_terminal, assert_run_transition, same_status}
use jake_ai.Agent.RunStatus.Graph.{◌⟶◌, Trail, here, step, terminal-Trail}
use jake_ai.Agent.RunState.{RunState, init_status_tracking, set_status, transition_to}

-- The private copy of the status that the checks read is the status.
abbrev pub IsTracked : RunState → Type 0
IsTracked r = r.enforced_status ≡ some r.status

-- A write of the status by any of the program's two ways.
pub data Write : Type 0 where
  assign : RunStatus → Write
  transition : RunStatus → Option String → ℕ → Write

abbrev pub target : Write → RunStatus
target (assign s) = s
target (transition s reason now) = s

unfoldable pub write : Write → RunState → Result (Unit {0}) × RunState
unfolding set_status transition_to
write (assign s) r = set_status s r
write (transition s reason now) r = transition_to s reason now r

-- What a write of a status comes to.
abbrev pub Writes : RunStatus → Result (Unit {0}) × RunState → RunState → Type 0
Writes s (err e, r') r = (r' ≡ r) × (assert_run_transition r.status s ≡ err e)
Writes s (ok _, r') r = (assert_run_transition r.status s ≡ ok tt) × (r'.status ≡ s) × IsTracked r'

-- Every write of the status of a tracked run, on both branches: an illegal one raises what the check
-- raises and changes nothing at all; a legal one sets the status, and the tracked status stays in step.
write_lem : (w : Write) (r : RunState) → IsTracked r → Writes (target w) (write w r) r
unfolding write
write_lem (assign s) r h = ground arith
write_lem (transition s reason now) r h = ground arith

init_status_tracking-IsTracked :
    (r : RunState) → r.enforced_status ≡ none → IsTracked (init_status_tracking r)
unfolding init_status_tracking
init_status_tracking-IsTracked r h = ground arith

-- A client's writes one after the other; a write that raises ends in its handler.
unfoldable pub run_writes : List Write → RunState → RunState
run_writes [] r = r
run_writes (w ∷ ws) r = run_writes ws (write w r).1

-- the statuses that the accepted writes enter
unfoldable pub entered : List Write → RunState → List RunStatus
entered [] r = []
entered (w ∷ ws) r =
    let rest = entered ws (write w r).1 in
    if same_status r.status (write w r).1.status then rest else (write w r).1.status ∷ rest

same_status_iff : (a b : RunStatus) → (same_status a b ≡ true) ↔ (a ≡ b)
unfolding same_status
same_status_iff a b = ground arith

write-IsTracked : (w : Write) (r : RunState) → IsTracked r → IsTracked (write w r).1
write-IsTracked w r h = ground (arith, write_lem w r h)

write_step :
    (w : Write) (r : RunState)
    → IsTracked r
    → same_status r.status (write w r).1.status ≡ false
    → r.status ⟶ (write w r).1.status
write_step w r h new =
    ground (arith, write_lem w r h, same_status_iff r.status (write w r).1.status)

-- Whatever a client writes to the status of a tracked run, its history is a trail of the state machine.
pub history-Trail :
    (ws : List Write) (r : RunState)
    → IsTracked r
    → Trail r.status (entered ws r) (run_writes ws r).status × IsTracked (run_writes ws r)
unfolding run_writes entered
history-Trail [] r h = (here, h)
history-Trail (w ∷ ws) r h =
    let ih = history-Trail ws (write w r).1 (write-IsTracked w r h) in
    elim (Bool-cases (same_status r.status (write w r).1.status)) [
      | inl same ↦ rw same (
        subst (λ s. Trail s (entered ws (write w r).1) (run_writes ws (write w r).1).status)
            (sym ((same_status_iff _ _).0 same)) ih.0,
        ih.1,
      )
      | inr new ↦ rw new (step (write_step w r h new) ih.0, ih.1)
    ]

-- A tracked run that has ended keeps its status, whatever is written to it.
pub terminal_status_immutable :
    (ws : List Write) (r : RunState)
    → IsTracked r
    → is_terminal r.status ≡ true
    → (run_writes ws r).status ≡ r.status
terminal_status_immutable ws r h t = terminal-Trail t (history-Trail ws r h).0

same_accepted : (s : RunStatus) → assert_run_transition s s ≡ ok tt
unfolding assert_run_transition
same_accepted s = ground arith

-- What a repeated transition of an ended run to its own status changes: not the status, but the
-- time of completion is stamped again.
repeated_transition_restamps :
    (r : RunState) (now : ℕ)
    → IsTracked r
    → is_terminal r.status ≡ true
    → let (w, r') = transition_to r.status none now r in
      (w ≡ ok tt) × (r'.status ≡ r.status) × (r'.completed_at ≡ some now)
unfolding transition_to
repeated_transition_restamps r now h t = ground (arith, same_accepted r.status)
