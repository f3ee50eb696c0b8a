-- ===== src/Orchestrator/State.antt =====
-- The data of a run: models.py (Message, TokenUsage, IntentPayload, HistoryTurn, RoutingDecision,
-- RoutingFailure), and the channels of orchestrator.GraphState with their reducers.
use core_heartbeat.Prelude.{ℕ, ◌+◌, String, Bool, true, false, Option, none, some, List, [], ◌++◌}

-- A JSON value. A number is kept as it is written.
mutual
  pub data Value : Type 0 where
    null : Value
    bool : Bool → Value
    number : String → Value
    text : String → Value
    array : Values → Value
    object : Fields → Value

  pub data Values : Type 0 where
    nil : Values
    cons : Value → Values → Values

  pub data Fields : Type 0 where
    end : Fields
    field : String → Value → Fields → Fields

-- A tool call, `{"name": ..., "args": {...}}`.
pub record Call : Type 0 where
  pub name : String
  pub args : Fields

-- Where a run can go next. The worker nodes are the first two.
pub data Node : Type 0 where
  local_llm tool_execution finish : Node

abbrev pub node_name : Node → String
node_name Node.local_llm = "local_llm"
node_name Node.tool_execution = "tool_execution"
node_name Node.finish = "finish"

abbrev pub is_local : Node → Bool
is_local Node.local_llm = true
is_local Node.tool_execution = false
is_local Node.finish = false

abbrev pub is_tool : Node → Bool
is_tool Node.local_llm = false
is_tool Node.tool_execution = true
is_tool Node.finish = false

abbrev pub is_finish : Node → Bool
is_finish Node.local_llm = false
is_finish Node.tool_execution = false
is_finish Node.finish = true

-- Who wrote a message.
pub data Source : Type 0 where
  supervisor local_llm tool_execution user assistant orchestrator : Source

pub record Message : Type 0 where
  pub source : Source
  pub content : String
  pub step : ℕ

pub data Role : Type 0 where
  user assistant : Role

pub record HistoryTurn : Type 0 where
  pub role : Role
  pub content : String

-- The fields of IntentPayload that a run reads.
pub record IntentPayload : Type 0 where
  pub raw_input : String
  pub model_preference : Option String
  pub history : List HistoryTurn
  pub document_ids : List String
  pub chat_id : Option String

pub record TokenUsage : Type 0 where
  pub input_tokens : ℕ
  pub output_tokens : ℕ
  pub total_tokens : ℕ

abbrev pub no_usage : TokenUsage
no_usage = record { input_tokens = 0; output_tokens = 0; total_tokens = 0 }

-- The reducer of the channel `usage`, which holds a value from the start of a run.
unfoldable pub add_usage : TokenUsage → TokenUsage → TokenUsage
add_usage left right = record {
  input_tokens = left.input_tokens + right.input_tokens;
  output_tokens = left.output_tokens + right.output_tokens;
  total_tokens = left.total_tokens + right.total_tokens;
}

pub data Category : Type 0 where
  missing_credential auth timeout network invalid_output : Category

abbrev pub category_name : Category → String
category_name missing_credential = "missing_credential"
category_name auth = "auth"
category_name timeout = "timeout"
category_name network = "network"
category_name invalid_output = "invalid_output"

pub record RoutingFailure : Type 0 where
  pub category : Category
  pub detail : String

-- `tool_args` stands for the dump of its ToolArgs without the unset fields.
pub record RoutingDecision : Type 0 where
  pub next_node : Node
  pub tool_name : Option String
  pub tool_args : Fields

-- The status that a run reports; `unset` is the empty string of the initial state.
pub data Status : Type 0 where
  unset completed halted_step_bound degraded error : Status

pub record GraphState : Type 0 where
  pub intent : IntentPayload
  pub user_id : String
  pub messages : List Message
  pub prior_context : List Message
  pub documents : String
  pub document_images : List Fields
  pub attachments : List Fields
  pub canned_reply : Option String
  pub usage : TokenUsage
  pub visited : List Node
  pub step : ℕ
  pub next : Option Node
  pub status : Status
  pub tool_request : Option Call
  pub tool_calls : Option (List Call)
  pub pending_plan : Option (List Call)
  pub executed_calls : List String
  pub plan_note : Option String
  pub truncated : Bool

-- The dict that a node returns. A channel that overwrites is `none` where the dict has no such key;
-- a channel that adds holds what is added.
pub record Update : Type 0 where
  pub messages : List Message
  pub canned_reply : Option (Option String)
  pub usage : TokenUsage
  pub visited : List Node
  pub step : ℕ
  pub next : Option Node
  pub status : Option Status
  pub tool_request : Option (Option Call)
  pub tool_calls : Option (Option (List Call))
  pub pending_plan : Option (Option (List Call))
  pub executed_calls : List String
  pub plan_note : Option (Option String)
  pub truncated : Option Bool

abbrev pub no_update : Update
no_update = record {
  messages = [];
  canned_reply = none;
  usage = no_usage;
  visited = [];
  step = 0;
  next = none;
  status = none;
  tool_request = none;
  tool_calls = none;
  pending_plan = none;
  executed_calls = [];
  plan_note = none;
  truncated = none;
}

-- The new value of a channel that overwrites.
abbrev pub overwrite {ℓ} : {A : Type ℓ} → A → Option A → A
overwrite old none = old
overwrite old (some new) = new

abbrev pub overwrite_next : Option Node → Option Node → Option Node
overwrite_next old none = old
overwrite_next old (some new) = some new

-- The channels after a node: `operator.add` and `add_usage` where GraphState names them, the last
-- value elsewhere.
unfoldable pub merge : GraphState → Update → GraphState
unfolding add_usage
merge s u = record s {
  messages = s.messages ++ u.messages;
  canned_reply = overwrite s.canned_reply u.canned_reply;
  usage = add_usage s.usage u.usage;
  visited = s.visited ++ u.visited;
  step = s.step + u.step;
  next = overwrite_next s.next u.next;
  status = overwrite s.status u.status;
  tool_request = overwrite s.tool_request u.tool_request;
  tool_calls = overwrite s.tool_calls u.tool_calls;
  pending_plan = overwrite s.pending_plan u.pending_plan;
  executed_calls = s.executed_calls ++ u.executed_calls;
  plan_note = overwrite s.plan_note u.plan_note;
  truncated = overwrite s.truncated u.truncated;
}
