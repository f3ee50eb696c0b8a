-- ===== src/Orchestrator/Gate/Structured.antt =====
-- The structured-output router and the write gate of orchestrator._finish_routing.
use core_heartbeat.Prelude.{String, ◌≡◌, false, none, some, [], arith}
use core_heartbeat.PendingPlans.{TableOps, Store}
use core_heartbeat.Orchestrator.State.{Fields, Call, Node, TokenUsage, RoutingDecision, GraphState}
use core_heartbeat.Orchestrator.World.{World}
use core_heartbeat.Orchestrator.Gate.{confirmation_given, finish_routing}

module _ {T : Type 0} (ops : TableOps Call T) (w : World) where
  -- A single call of the structured-output router passes the gate whatever tool it names, a delete
  -- included: on a turn without confirmation the update routes it to tool_execution, and nothing
  -- is proposed.
  single_call_ungated :
      (s : GraphState) (name : String) (args : Fields) (usage : TokenUsage) (store : Store Call T)
      → confirmation_given s ≡ false
      → let decision : RoutingDecision = record {
        next_node = Node.tool_execution;
        tool_name = some name;
        tool_args = args;
      } in
        let update = (finish_routing ops w s decision usage [] store).0 in
        (update.next ≡ some Node.tool_execution)
        × (update.tool_request ≡ some (some (record { name = name; args = args })))
        × (update.pending_plan ≡ some none)
  unfolding finish_routing
  single_call_ungated s name args usage store conf = ground arith
