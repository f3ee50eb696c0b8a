-- ===== src/Orchestrator/Gate/Writes.antt =====
-- What the write gate of orchestrator._finish_routing lets through, and what it holds back.
use core_heartbeat.Prelude.{◌≡◌, true, false, not, ◌&&◌, none, some, List, any, arith}
use core_heartbeat.PendingPlans
use core_heartbeat.PendingPlans.{TableOps, Store}
use core_heartbeat.Orchestrator.State.{
  Call, Node, is_local, is_tool, TokenUsage, RoutingDecision, GraphState,
}
use core_heartbeat.Orchestrator.World.{World}
use core_heartbeat.Orchestrator.Gate.{
  Routing, needs_confirmation, confirmation_given, write_gate, repeat_guard, requested, answered,
  finish_routing,
}

module _ {T : Type 0} (ops : TableOps Call T) (w : World) where
  -- The gate lets a batch that needs confirmation through only to a confirmed turn in which no
  -- tool has run.
  gate_batch :
      (s : GraphState) (r : Routing) (store : Store Call T) (cs : List Call)
      → (write_gate ops w s r store).0.calls ≡ some cs
      → needs_confirmation w.write_confirm_threshold cs ≡ true
      → (confirmation_given s && not (any is_tool s.visited)) ≡ true
  unfolding write_gate
  gate_batch s r store cs e n = ground arith

  -- If the update of the routing guards has a list of tool calls that needs confirmation (a delete in
  -- it, or as many writes as the threshold), then the user's message is a bare go-ahead after an
  -- assistant turn, and no tool has run in this turn.
  pub dispatched_batch_confirmed :
      (s : GraphState) (d : RoutingDecision) (usage : TokenUsage) (native_calls : List Call)
      (store : Store Call T) (cs : List Call)
      → (finish_routing ops w s d usage native_calls store).0.tool_calls ≡ some (some cs)
      → needs_confirmation w.write_confirm_threshold cs ≡ true
      → (confirmation_given s ≡ true) × (any is_tool s.visited ≡ false)
  unfolding finish_routing
  dispatched_batch_confirmed s d usage native_calls store cs e n =
      ground
        (arith, gate_batch s (repeat_guard w s.executed_calls (requested d native_calls)) store cs)

  -- On a turn without confirmation, or once a tool has run in it, a batch that needs confirmation is
  -- not run: the update has no tool call, routes to local_llm, and carries the batch as the
  -- pending plan, and the same batch is saved for the user and the chat.
  pub batch_proposed :
      (s : GraphState) (d : RoutingDecision) (usage : TokenUsage) (native_calls : List Call)
      (store : Store Call T) (cs : List Call)
      → (confirmation_given s && not (any is_tool s.visited)) ≡ false
      → (is_local d.next_node && answered s) ≡ false
      → (repeat_guard w s.executed_calls (requested d native_calls)).calls ≡ some cs
      → needs_confirmation w.write_confirm_threshold cs ≡ true
      → let (update, store') = finish_routing ops w s d usage native_calls store in
        (update.next ≡ some Node.local_llm)
        × (update.tool_calls ≡ some none)
        × (update.tool_request ≡ some none)
        × (update.pending_plan ≡ some (some cs))
        × (store'
            ≡ (PendingPlans.save ops w.plans
                (w.clock s.step)
                (w.net s.step)
                s.user_id
                s.intent.chat_id
                cs
                store).1)
  unfolding finish_routing
  batch_proposed s d usage native_calls store cs conf open_turn fresh n = ground arith
