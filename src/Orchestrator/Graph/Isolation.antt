-- ===== src/Orchestrator/Graph/Isolation.antt =====
-- Whose tools a run of orchestrator's graph calls.
use mathlib.Core.Path.{subst}
use core_heartbeat.Prelude.{◌≡◌, refl, sym, ◌∙◌, String, List, [], ◌∷◌, ◌++◌}
use core_heartbeat.PendingPlans.{TableOps, Store}
use core_heartbeat.Orchestrator.State.{Call, Node, IntentPayload}
use core_heartbeat.Orchestrator.World.{World}
use core_heartbeat.Orchestrator.Tools.{ToolEvent, tool_execution}
use core_heartbeat.Orchestrator.Tools.Dispatch.{AllConfined, tool_execution-AllConfined}
use core_heartbeat.Orchestrator.Graph.{
  RunState, Ending, ended, node_raised, out_of_steps, work, invoke, initial_state, Attached,
  recursion_limit,
}
use core_heartbeat.Orchestrator.Graph.Reach.{decide-IsDecision}
use core_heartbeat.Orchestrator.Graph.Invariant.{drive_inv, user_id-work, user_id-decide}

-- What a run has called by its end.
abbrev pub Ended : {T : Type 0} → (RunState T → Type 0) → Ending T → Type 0
Ended P (ended c) = P c
Ended P node_raised = Unit
Ended P out_of_steps = Unit

AllConfined-append :
    (w : World) (user : String) (xs ys : List ToolEvent)
    → AllConfined w user xs
    → AllConfined w user ys
    → AllConfined w user (xs ++ ys)
AllConfined-append w user [] ys h k = k
AllConfined-append w user (x ∷ xs) ys h k = (h.0, AllConfined-append w user xs ys h.1 k)

record IsUserRun {T : Type 0} (w : World) (user : String) (c : RunState T) : Type 0 where
  same_user : c.state.user_id ≡ user
  confined : AllConfined w user c.events

work-confined :
    {T : Type 0} (w : World) (user : String) (c : RunState T) (n : Node)
    → IsUserRun w user c
    → AllConfined w user (work w n c).events
unfolding work
work-confined w user c Node.local_llm h = h.confined
work-confined w user c Node.tool_execution h =
    AllConfined-append w user c.events (tool_execution w c.state).1 h.confined (
      subst (λ u. AllConfined w u (tool_execution w c.state).1) h.same_user
        (tool_execution-AllConfined w c.state))
work-confined w user c Node.finish h = h.confined

module _ {T : Type 0} (ops : TableOps Call T) (w : World) where
  -- In a run that ends, whatever calls and arguments the model emits in any of its steps, each tool call
  -- names a tool of the vocabulary, and its result is what the back end of that tool's family returns
  -- for the id of the user whom the gateway resolved.
  pub invoke-AllConfined :
      (p : IntentPayload) (user : String) (a : Attached) (store : Store Call T)
      → Ended (λ c. AllConfined w user c.events) (invoke ops w p user a store)
  unfolding invoke initial_state
  invoke-AllConfined p user a store =
      drive_inv ops w (IsUserRun w user) (Ended (λ c. AllConfined w user c.events)) tt tt
        (λ c c' h e n.
          subst (AllConfined w user) (sym (decide-IsDecision ops w c c' e).same_events) h.confined)
        (λ c c' m h more e n.
          let kept : IsUserRun w user c' = record {
            same_user = user_id-decide ops w c c' e ∙ h.same_user;
            confined =
                subst (AllConfined w user) (sym (decide-IsDecision ops w c c' e).same_events)
                  h.confined;
          } in
          record {
            same_user = user_id-work w c' m ∙ kept.same_user;
            confined = work-confined w user c' m kept;
          })
        recursion_limit (record { state = initial_state p user a; store = store; events = [] })
        (record { same_user = refl; confined = tt })
