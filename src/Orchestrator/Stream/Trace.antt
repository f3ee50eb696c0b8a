-- ===== src/Orchestrator/Stream/Trace.antt =====
-- The events of a run of orchestrator.py, from one turn of the supervisor to the next.
use core_heartbeat.Orchestrator.Supervisor.{supervisor}
use core_heartbeat.Prelude.{◌≡◌, [], ◌++◌, none, some, arith, false, ℕ, zero, suc}
use core_heartbeat.PendingPlans.{TableOps}
use core_heartbeat.Orchestrator.State.{is_finish, Call, Node}
use core_heartbeat.Orchestrator.World.{World}
use core_heartbeat.Orchestrator.Graph.{decide, RunState, work}
use core_heartbeat.Orchestrator.Stream.{
  zero, suc, ℕ, trace, supervisor_events, TableOps, worker_events,
}

-- The events up to the next turn of the supervisor.
module _ {T : Type 0} (ops : TableOps Call T) (w : World) where
  pub trace_raised :
      (f : ℕ) (c : RunState T)
      → decide ops w c ≡ none
      → trace ops w (suc f) none c ≡ supervisor_events (supervisor ops w c.state c.store) ++ []
  unfolding trace
  trace_raised f c e = rw e

  pub trace_finish :
      (f : ℕ) (c c' : RunState T)
      → decide ops w c ≡ some c'
      → c'.state.next ≡ some Node.finish
      → trace ops w (suc f) none c ≡ supervisor_events (supervisor ops w c.state c.store) ++ []
  unfolding trace
  trace_finish f c c' e n = ground arith

  pub trace-work :
      (f : ℕ) (c c' : RunState T) (n : Node)
      → is_finish n ≡ false
      → decide ops w c ≡ some c'
      → c'.state.next ≡ some n
      → trace ops w (suc (suc f)) none c
        ≡ supervisor_events (supervisor ops w c.state c.store)
          ++ (worker_events w n c' ++ trace ops w f none (work w n c'))
  unfolding trace
  trace-work f c c' Node.local_llm h e n = ground arith
  trace-work f c c' Node.tool_execution h e n = ground arith
  trace-work f c c' Node.finish h e n = cc

  pub trace_cut :
      (c c' : RunState T) (n : Node)
      → is_finish n ≡ false
      → decide ops w c ≡ some c'
      → c'.state.next ≡ some n
      → trace ops w (suc zero) none c ≡ supervisor_events (supervisor ops w c.state c.store) ++ []
  unfolding trace
  trace_cut c c' Node.local_llm h e n = ground arith
  trace_cut c c' Node.tool_execution h e n = ground arith
  trace_cut c c' Node.finish h e n = cc
