-- ===== src/Orchestrator/Graph.antt =====
-- The graph of orchestrator.build_graph and the run over it: supervisor first, then the node that
-- it names, then supervisor again, until it names `finish`. LangGraph merges each node's update
-- into the state, and raises after `recursion_limit` nodes.
pub mod Reach
pub mod Work
pub mod Bound
pub mod Invariant
pub mod Isolation
pub mod Deletes
pub mod Reply
use core_heartbeat.Prelude.{
  ◌&&◌, ℕ, zero, suc, ◌+◌, String, Bool, true, false, Option, none, some, List, [], ◌∷◌, ◌++◌,
  length, last_of, reverse, ltb, keep, not, str_eq, if◌then◌else◌,
}
use text.Mathlib.Text.{starts_with}
use core_heartbeat.PendingPlans.{TableOps, Store}
use core_heartbeat.Orchestrator.State.{
  Update, Fields, Call, Node, is_finish, Role, HistoryTurn, IntentPayload, Source, Message,
  TokenUsage, no_usage, Status, unset, completed, GraphState, merge,
}
use core_heartbeat.Orchestrator.World.{World}
use core_heartbeat.Orchestrator.Supervisor.{supervisor}
use core_heartbeat.Orchestrator.Tools.{ToolEvent, tool_execution}
use core_heartbeat.Orchestrator.Worker.{local_llm, failure_prefix}

abbrev pub recursion_limit : ℕ
recursion_limit = 25

abbrev pub history_limit : ℕ
history_limit = 10

-- A run between two nodes: the state, the pending plans, and the tool events so far.
pub record RunState (T : Type 0) : Type 0 where
  pub state : GraphState
  pub store : Store Call T
  pub events : List ToolEvent

pub data Ending (T : Type 0) : Type 0 where
  ended : RunState T → Ending T
  node_raised : Ending T
  out_of_steps : Ending T

module _ {T : Type 0} (w : World) where
  -- The worker node named `n`, and the merge of its update.
  unfoldable pub work : Node → RunState T → RunState T
  unfolding merge tool_execution local_llm
  work Node.local_llm c = record c { state = merge c.state (local_llm w c.state) }
  work Node.tool_execution c =
      let (update, events) = tool_execution w c.state in
      record c { state = merge c.state update; events = c.events ++ events }
  work Node.finish c = c

-- The merge of what the supervisor returned.
unfoldable pub after_supervisor :
    {T : Type 0} → RunState T → Option (Update × Store Call T) → Option (RunState T)
unfolding merge
after_supervisor c none = none
after_supervisor c (some (update, store)) =
    some (record c { state = merge c.state update; store = store })

module _ {T : Type 0} (ops : TableOps Call T) (w : World) where
  unfoldable pub decide : RunState T → Option (RunState T)
  unfolding after_supervisor supervisor
  decide c = after_supervisor c (supervisor ops w c.state c.store)

  -- The edges: `node` runs next, and `none` stands for the supervisor. The fuel is the number of
  -- nodes that may still run.
  unfoldable pub drive : ℕ → Option Node → RunState T → Ending T
  unfolding decide work
  drive zero point c = out_of_steps
  drive (suc fuel) (some worker) c = drive fuel none (work w worker c)
  drive (suc fuel) none c = elim (decide c) [
    | none ↦ node_raised
    | some c' ↦ elim c'.state.next [
      | none ↦ node_raised
      | some Node.finish ↦ ended c'
      | some Node.local_llm ↦ drive fuel (some Node.local_llm) c'
      | some Node.tool_execution ↦ drive fuel (some Node.tool_execution) c'
    ]
  ]

abbrev pub role_source : Role → Source
role_source Role.user = Source.user
role_source Role.assistant = Source.assistant

abbrev pub numbered : ℕ → List HistoryTurn → List Message
numbered i [] = []
numbered i (t ∷ ts) =
    record { source = role_source t.role; content = t.content; step = i } ∷ numbered (i + 1) ts

-- `_seed_messages`
unfoldable pub seed_messages : IntentPayload → List Message
seed_messages p =
    numbered 0
      (if ltb history_limit (length p.history) then last_of history_limit p.history else p.history)

-- What the async prelude has loaded: `_load_documents`, `_load_document_images` and
-- `_load_attachment_manifest`.
pub record Attached : Type 0 where
  pub documents : String
  pub document_images : List Fields
  pub attachments : List Fields

-- `_initial_state`, with what the prelude puts in.
unfoldable pub initial_state : IntentPayload → String → Attached → GraphState
unfolding seed_messages
initial_state p user a = record {
  intent = p;
  user_id = user;
  messages = [];
  prior_context = seed_messages p;
  documents = a.documents;
  document_images = a.document_images;
  attachments = a.attachments;
  canned_reply = none;
  usage = no_usage;
  visited = [];
  step = 0;
  next = none;
  status = unset;
  tool_request = none;
  tool_calls = none;
  pending_plan = none;
  executed_calls = [];
  plan_note = none;
  truncated = false;
}

abbrev pub is_local_source : Source → Bool
is_local_source Source.local_llm = true
is_local_source _ = false

-- `_latest_local_reply`, over the messages from the last one back.
unfoldable pub latest_in : List Message → String
latest_in [] = ""
latest_in (m ∷ ms) =
    let rest = latest_in ms in
    if is_local_source m.source && not (str_eq m.content "")
    then (if starts_with m.content failure_prefix then "" else m.content)
    else rest

unfoldable pub latest_local_reply : List Message → String
unfolding latest_in
latest_local_reply messages = latest_in (reverse messages)

pub record OrchestrationOutcome : Type 0 where
  pub status : Status
  pub nodes_executed : List Node
  pub messages : List Message
  pub usage : TokenUsage
  pub steps : ℕ

-- `final.get("status") or "completed"`
abbrev pub or_completed : Status → Status
or_completed unset = completed
or_completed s = s

abbrev pub error_outcome : OrchestrationOutcome
error_outcome = record {
  status = Status.error;
  nodes_executed = [];
  messages = record { source = Source.orchestrator; content = "error"; step = 0 } ∷ [];
  usage = no_usage;
  steps = 0;
}

module _ {T : Type 0} where
  abbrev pub outcome : Ending T → OrchestrationOutcome
  outcome (ended c) = record {
    status = or_completed c.state.status;
    nodes_executed = keep (λ n. not (is_finish n)) c.state.visited;
    messages = c.state.messages;
    usage = c.state.usage;
    steps = c.state.step;
  }
  outcome node_raised = error_outcome
  outcome out_of_steps = error_outcome

module _ {T : Type 0} (ops : TableOps Call T) (w : World) where
  -- The graph driven from the initial state.
  unfoldable pub invoke : IntentPayload → String → Attached → Store Call T → Ending T
  unfolding drive initial_state
  invoke p user a store =
      drive ops w recursion_limit none
        (record { state = initial_state p user a; store = store; events = [] })

  -- `run`
  unfoldable pub run : IntentPayload → String → Attached → Store Call T → OrchestrationOutcome
  unfolding invoke
  run p user a store = outcome (invoke p user a store)
