-- ===== src/Orchestrator/Tests.antt =====
-- Witnesses of the theorems on orchestrator.py, in a world with a calendar and a table that is a list
-- of rows.
use core_heartbeat.Orchestrator.Supervisor.Retry.{IsAsked, routing_attempts}
use core_heartbeat.Orchestrator.Graph.Reply.{IsFair, run_answers_once}
use core_heartbeat.Orchestrator.Supervisor.{decide_native}
use core_heartbeat.Orchestrator.Graph.Deletes.{unconfirmed_run_deletes_nothing, has_delete}
use core_heartbeat.Prelude.{String, ◌≡◌, refl, true, false, none, some, [], ◌∷◌, any, All, arith}
use core_heartbeat.PendingPlans
use core_heartbeat.PendingPlans.{
  Dict, lookup, put, without, lookup-put, lookup-without, Row, served, TableOps, Store,
}
use core_heartbeat.PendingPlans.Interface.{TableLaws}
use core_heartbeat.Orchestrator.State.{
  Call, Fields, Node, Role, IntentPayload, no_usage, RoutingDecision, GraphState, is_tool,
}
use core_heartbeat.Orchestrator.World.{World, response, decided}
use core_heartbeat.Orchestrator.Compose.{refused, chunks, closed}
use core_heartbeat.Orchestrator.Affirmation.{is_affirmation, cleaned}
use core_heartbeat.Orchestrator.Gate.{needs_confirmation, confirmation_given, finish_routing}
use core_heartbeat.Orchestrator.Gate.Writes.{dispatched_batch_confirmed}
use core_heartbeat.Orchestrator.Gate.Repeat.{IsUnrun, no_repeated_call}
use core_heartbeat.Orchestrator.Gate.Handshake.{approval_runs_proposal}
use core_heartbeat.Orchestrator.Tools.Dispatch.{AllConfined}
use core_heartbeat.Orchestrator.Graph.{Attached, initial_state, invoke}
use core_heartbeat.Orchestrator.Graph.Bound.{invoke_terminates, EndsWithin}
use core_heartbeat.Orchestrator.Graph.Isolation.{invoke-AllConfined, Ended}

abbrev pub Rows : Type 0
Rows = Dict (Row Call)

abbrev pub list_ops : TableOps Call Rows
list_ops = record {
  row = λ t k. lookup k t;
  upsert = λ t k r. put k r t;
  delete = λ t k. without k t;
}

list_laws : TableLaws list_ops
list_laws = record {
  row-upsert = λ t k j r. lookup-put k j r t;
  row-delete = λ t k j. lookup-without k j t;
}

abbrev pub no_plans : Store Call Rows
no_plans = record { entries = []; table = [] }

abbrev call : String → Call
call name = record { name = name; args = Fields.end }

abbrev removal : Call
removal = call "delete_calendar_event"

abbrev to_tools : RoutingDecision
to_tools = record {
  next_node = Node.tool_execution;
  tool_name = some "delete_calendar_event";
  tool_args = Fields.end;
}

abbrev pub to_reply : RoutingDecision
to_reply = record { next_node = Node.local_llm; tool_name = none; tool_args = Fields.end }

-- A world in which the router asks for a delete at each step.
abbrev pub world : World
world = record {
  native_tool_calling = false;
  local_compose = false;
  max_same_tool_calls = 3;
  write_confirm_threshold = 2;
  plans = record { configured = true; ttl = 1800 };
  dumps = λ a. "{}";
  tool_args = λ a. some a;
  has_client = λ m. true;
  native = λ s. response [] 0 0;
  routing = λ n s. decided to_tools no_usage;
  ollama = λ s. refused;
  cloud = λ s. chunks (record { text = some "done"; usage_metadata = none } ∷ []) closed;
  run_tool = λ f name user args. "ok";
  saved_document = λ text user. none;
  pointer_reply = λ d. d;
  clock = λ n. record { monotonic = n; wall = n };
  net = λ n. served;
}

abbrev pub from_ana : String → IntentPayload
from_ana text = record {
  raw_input = text;
  model_preference = none;
  history =
      record { role = Role.user; content = "clear friday" }
      ∷ record { role = Role.assistant; content = "shall I delete it?" }
      ∷ [];
  document_ids = [];
  chat_id = some "c1";
}

abbrev pub nothing : Attached
nothing = record { documents = ""; document_images = []; attachments = [] }

abbrev asking : GraphState
unfolding initial_state
asking = initial_state (from_ana "clear friday") "ana" nothing

abbrev approving : GraphState
unfolding initial_state
approving = initial_state (from_ana "Yes, please!") "ana" nothing

dispatched_batch_confirmed_example :
    (confirmation_given approving ≡ true) × (any is_tool approving.visited ≡ false)
unfolding finish_routing confirmation_given needs_confirmation is_affirmation cleaned asking
    approving PendingPlans.take PendingPlans.save lookup put without initial_state
dispatched_batch_confirmed_example =
    dispatched_batch_confirmed list_ops world approving to_tools no_usage (removal ∷ []) no_plans
      (removal ∷ []) refl refl

no_repeated_call_example : All (IsUnrun world asking.executed_calls) (call "web_search" ∷ [])
unfolding finish_routing confirmation_given needs_confirmation is_affirmation cleaned asking
    approving PendingPlans.take PendingPlans.save lookup put without initial_state
no_repeated_call_example =
    no_repeated_call list_ops world asking to_tools no_usage (call "web_search" ∷ []) no_plans
      (call "web_search" ∷ []) refl refl

approval_runs_proposal_example :
    let store' =
      (finish_routing list_ops world asking to_tools no_usage (removal ∷ []) no_plans).1 in
    let update = (finish_routing list_ops world approving to_reply no_usage [] store').0 in
    (update.next ≡ some Node.tool_execution) × (update.tool_calls ≡ some (some (removal ∷ [])))
unfolding finish_routing confirmation_given needs_confirmation is_affirmation cleaned asking
    approving PendingPlans.take PendingPlans.save lookup put without initial_state
approval_runs_proposal_example =
    approval_runs_proposal list_ops list_laws world world asking approving to_tools to_reply
      no_usage no_usage (removal ∷ []) [] no_plans removal [] refl refl refl refl (omega arith) refl
      refl refl refl refl refl refl refl

invoke_terminates_example :
    EndsWithin 11 (invoke list_ops world (from_ana "clear friday") "ana" nothing no_plans)
invoke_terminates_example =
    invoke_terminates list_ops world (from_ana "clear friday") "ana" nothing no_plans

invoke-AllConfined_example :
    Ended
      (λ c. AllConfined world "ana" c.events)
      (invoke list_ops world (from_ana "clear friday") "ana" nothing no_plans)
invoke-AllConfined_example =
    invoke-AllConfined list_ops world (from_ana "clear friday") "ana" nothing no_plans

-- The same world with native tool calling, in which the model requests the delete itself.
abbrev native_world : World
native_world = record world {
  native_tool_calling = true;
  native = λ s. response (record { name = some "delete_calendar_event"; args = none } ∷ []) 9 1;
}

unconfirmed_run_deletes_nothing_example :
    Ended
      (λ c. has_delete c.events ≡ false)
      (invoke list_ops native_world (from_ana "clear friday") "ana" nothing no_plans)
unfolding initial_state confirmation_given is_affirmation cleaned decide_native
unconfirmed_run_deletes_nothing_example =
    unconfirmed_run_deletes_nothing list_ops native_world refl (λ s. refl) (from_ana "clear friday")
      "ana" nothing no_plans refl

run_answers_once_example :
    Ended IsFair (invoke list_ops world (from_ana "clear friday") "ana" nothing no_plans)
run_answers_once_example =
    run_answers_once list_ops world (from_ana "clear friday") "ana" nothing no_plans

routing_attempts_example : IsAsked list_ops world asking no_plans
routing_attempts_example = routing_attempts list_ops world asking no_plans
