-- ===== src/Orchestrator/Stream.antt =====
-- `astream_run` of orchestrator.py: the listener over the events of LangGraph, the events of a run,
-- and what is sent to the client and kept for the memory.
pub mod Pieces
pub mod Listen
pub mod Replied
pub mod Quiet
pub mod Agree
pub mod Step
pub mod Closing
pub mod Trace
pub mod Agreement
pub mod Tests
use core_heartbeat.Prelude.{
  ℕ, zero, suc, String, Bool, true, false, Option, none, some, List, [], ◌∷◌, ◌++◌, map, str_eq,
  if◌then◌else◌,
}
use text.Mathlib.Text.{starts_with}
use core_heartbeat.PendingPlans.{TableOps, Store}
use core_heartbeat.Orchestrator.State.{
  Update, Call, Node, node_name, IntentPayload, Message, Status, unset, completed, GraphState,
}
use core_heartbeat.Orchestrator.World.{World}
use core_heartbeat.Orchestrator.Supervisor.{supervisor}
use core_heartbeat.Orchestrator.Tools.{ToolEvent, tool_execution}
use core_heartbeat.Orchestrator.Worker.{local_llm, emitted, failure_prefix}
use core_heartbeat.Orchestrator.Graph.{
  Ending, ended, node_raised, out_of_steps, Attached, RunState, decide, work, recursion_limit,
  initial_state, invoke, latest_local_reply,
}

-- What is read of a dict that a chain returns: its messages, and its status if it has one.
pub record Output : Type 0 where
  pub messages : List Message
  pub status : Option Status

-- The events of `astream_events` that the loop tells apart; the output of a chain is none where it
-- is no dict.
pub data GraphEvent : Type 0 where
  chain_start : String → GraphEvent
  local_token : String → GraphEvent
  tool_ran : ToolEvent → GraphEvent
  chain_end : String → Option Output → GraphEvent

-- What is yielded.
pub data Sent : Type 0 where
  token : String → Sent
  tool_call : Call → String → Sent
  status : Status → Sent
  error_status : Sent

-- The variables of the loop, with what it has yielded.
pub record Listener : Type 0 where
  pub final_status : Status
  pub streamed_local_tokens : Bool
  pub last_local_reply : String
  pub sent : List Sent

abbrev pub first_listener : Listener
first_listener = record {
  final_status = completed;
  streamed_local_tokens = false;
  last_local_reply = "";
  sent = [];
}

abbrev pub say : Sent → Listener → Listener
say x l = record l { sent = l.sent ++ (x ∷ []) }

-- One message of local_llm's output.
abbrev pub learn : String → Listener → Listener
learn content l =
    if starts_with content failure_prefix then l else record l { last_local_reply = content }

abbrev pub surface : String → Listener → Listener
surface content l = if l.streamed_local_tokens then l else say (token content) l

unfoldable pub on_message : Message → Listener → Listener
on_message m l = if str_eq m.content "" then l else surface m.content (learn m.content l)

unfoldable pub on_messages : List Message → Listener → Listener
unfolding on_message
on_messages [] l = l
on_messages (m ∷ ms) l = on_messages ms (on_message m l)

-- `if output.get("status")`
abbrev pub stamp : Option Status → Listener → Listener
stamp none l = l
stamp (some unset) l = l
stamp (some s) l = record l { final_status = s }

abbrev pub on_output : String → Output → Listener → Listener
on_output name out l =
    stamp out.status (if str_eq name "local_llm" then on_messages out.messages l else l)

-- One round of the loop.
unfoldable pub on_event : GraphEvent → Listener → Listener
unfolding on_messages
on_event (chain_start name) l =
    if str_eq name "local_llm" then record l { streamed_local_tokens = false } else l
on_event (local_token piece) l = say (token piece) (record l { streamed_local_tokens = true })
on_event (tool_ran e) l = say (tool_call e.call e.result) l
on_event (chain_end name none) l = l
on_event (chain_end name (some out)) l = on_output name out l

unfoldable pub listen : List GraphEvent → Listener → Listener
unfolding on_event
listen [] l = l
listen (e ∷ es) l = listen es (on_event e l)

abbrev pub output_of : Update → Output
output_of u = record { messages = u.messages; status = u.status }

abbrev pub final_output : GraphState → Output
final_output s = record { messages = s.messages; status = some s.status }

-- The events of one node: its start, its custom events, and its end with the dict that it returns.
abbrev pub node_events : Node → List GraphEvent → Update → List GraphEvent
node_events n custom u =
    chain_start (node_name n) ∷ (custom ++ (chain_end (node_name n) (some (output_of u)) ∷ []))

-- tool_execution dispatches an event for each call; a reply with no call dispatches none.
unfoldable pub worker_events : {T : Type 0} → World → Node → RunState T → List GraphEvent
unfolding tool_execution local_llm emitted
worker_events w Node.local_llm c =
    node_events Node.local_llm (map local_token (emitted w c.state)) (local_llm w c.state)
worker_events w Node.tool_execution c =
    let (update, events) = tool_execution w c.state in
    node_events Node.tool_execution (map tool_ran events) update
worker_events w Node.finish c = []

-- The supervisor, and the conditional edge inside it, whose output is a text.
abbrev pub supervisor_events : {T : Type 0} → Option (Update × Store Call T) → List GraphEvent
supervisor_events none = chain_start "supervisor" ∷ []
supervisor_events (some (u, store)) =
    chain_start "supervisor"
    ∷ chain_start "route"
    ∷ chain_end "route" none
    ∷ chain_end "supervisor" (some (output_of u))
    ∷ []

module _ {T : Type 0} (ops : TableOps Call T) (w : World) where
  -- The events of the nodes of `drive`, with the same fuel.
  unfoldable pub trace : ℕ → Option Node → RunState T → List GraphEvent
  trace zero point c = []
  trace (suc fuel) (some worker) c = worker_events w worker c ++ trace fuel none (work w worker c)
  trace (suc fuel) none c =
      supervisor_events (supervisor ops w c.state c.store) ++ elim (decide ops w c) [
        | none ↦ []
        | some c' ↦ elim c'.state.next [
          | none ↦ []
          | some Node.finish ↦ []
          | some Node.local_llm ↦ trace fuel (some Node.local_llm) c'
          | some Node.tool_execution ↦ trace fuel (some Node.tool_execution) c'
        ]
      ]

-- What follows the loop: the sent events, and the reply that the memory extraction is given.
unfoldable pub closing : {T : Type 0} → Ending T → Listener → List Sent × Option String
unfolding on_event
closing (ended c) l =
    let l' = on_event (chain_end "LangGraph" (some (final_output c.state))) l in
    (l'.sent ++ (status l'.final_status ∷ []), some l'.last_local_reply)
closing node_raised l = (l.sent ++ (error_status ∷ []), none)
closing out_of_steps l = (l.sent ++ (error_status ∷ []), none)

-- What `run` gives to the memory extraction.
unfoldable pub learned : {T : Type 0} → Ending T → Option String
unfolding latest_local_reply
learned (ended c) = some (latest_local_reply c.state.messages)
learned node_raised = none
learned out_of_steps = none

-- `astream_run`: what the client is sent, and what the memory extraction is given.
unfoldable pub astream_run :
    {T : Type 0}
    → TableOps Call T
    → World
    → IntentPayload
    → String
    → Attached
    → Store Call T
    → List Sent × Option String
astream_run ops w p user a store = closing (invoke ops w p user a store) (
    listen
      (chain_start "LangGraph"
        ∷ trace ops w recursion_limit none
            (record { state = initial_state p user a; store = store; events = [] }))
      first_listener)
