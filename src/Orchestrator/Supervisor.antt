-- ===== src/Orchestrator/Supervisor.antt =====
-- The node supervisor of orchestrator.py: the step bound, the fast path, native tool calling and the
-- structured routing request with its bounded retry.
pub mod Retry
use core_heartbeat.Prelude.{
  concat, ℕ, zero, suc, ◌+◌, String, Bool, true, false, not, Option, none, some, List, [], ◌∷◌,
  one_of, str_eq, leb, if◌then◌else◌,
}
use core_heartbeat.PendingPlans.{TableOps, Store}
use core_heartbeat.Orchestrator.State.{
  Fields, end, Call, Node, TokenUsage, no_usage, add_usage, Category, category_name,
  missing_credential, auth, timeout, network, invalid_output, RoutingDecision, RoutingFailure,
  Status, GraphState, Update, no_update,
}
use core_heartbeat.Orchestrator.World.{
  World, RawCall, NativeReply, unavailable, raised, response, RoutingReply, failed, decided,
}
use core_heartbeat.Orchestrator.Gate.{from_supervisor, finished, answered, finish_routing}
use core_heartbeat.Orchestrator.Tools.{dispatchable_tools}

abbrev pub max_steps : ℕ
max_steps = 8

abbrev pub max_routing_retries : ℕ
max_routing_retries = 2

abbrev pub default_model_preference : String
default_model_preference = "gemini-2.5-flash"

-- `model_preference or DEFAULT_MODEL_PREFERENCE`
abbrev pub preferred : Option String → String
preferred none = default_model_preference
preferred (some p) = if str_eq p "" then default_model_preference else p

abbrev pub is_retryable : Category → Bool
is_retryable missing_credential = false
is_retryable auth = false
is_retryable timeout = true
is_retryable network = true
is_retryable invalid_output = true

-- `_degraded`
unfoldable pub degraded : ℕ → RoutingFailure → TokenUsage → Update
degraded step failure usage = record no_update {
  next = some Node.finish;
  status = some Status.degraded;
  step = 1;
  usage = usage;
  messages =
      from_supervisor step (concat ("routing failure: " ∷ category_name failure.category ∷ []));
}

-- The calls of a native response that name a tool; arguments that are no object count as none.
abbrev pub args_or_empty : Option Fields → Fields
args_or_empty none = end
args_or_empty (some args) = args

abbrev pub named_calls : List RawCall → List Call
named_calls [] = []
named_calls (c ∷ cs) =
    let rest = named_calls cs in
    elim c.name [
      | none ↦ rest
      | some name ↦
          if one_of dispatchable_tools name
          then record { name = name; args = args_or_empty c.args } ∷ rest
          else rest
    ]

-- The result of `_decide_native`: none where it reports a failure. The usage holds no total.
abbrev pub native_route : List Call → Node
native_route [] = Node.local_llm
native_route (c ∷ cs) = Node.tool_execution

unfoldable pub decide_native : NativeReply → Option (List Call × TokenUsage)
decide_native unavailable = none
decide_native (raised category) = none
decide_native (response raw input output) =
    some
      (named_calls raw, record { input_tokens = input; output_tokens = output; total_tokens = 0 })

-- The decision that stands for a native response: its first call, through ToolArgs.
abbrev pub native_decision : World → List Call → Option RoutingDecision
native_decision w [] =
    some (record { next_node = Node.local_llm; tool_name = none; tool_args = end })
native_decision w (c ∷ cs) = elim (w.tool_args c.args) [
  | none ↦ none
  | some args ↦
      some (record { next_node = Node.tool_execution; tool_name = some c.name; tool_args = args })
]

-- The reply to the last attempt, and to one that may be followed by another, with the usage so far.
abbrev pub last_attempt : TokenUsage → RoutingReply → RoutingReply
last_attempt usage (failed f u) = failed f (add_usage usage u)
last_attempt usage (decided d u) = decided d (add_usage usage u)

abbrev pub or_retry : TokenUsage → (TokenUsage → RoutingReply) → RoutingReply → RoutingReply
or_retry usage again (failed f u) =
    if is_retryable f.category then again (add_usage usage u) else failed f (add_usage usage u)
or_retry usage again (decided d u) = decided d (add_usage usage u)

-- The retry loop: `left` retries are left, and `n` is the number of this attempt.
unfoldable pub attempts : World → GraphState → ℕ → ℕ → TokenUsage → RoutingReply
attempts w s zero n usage = last_attempt usage (w.routing n s)
attempts w s (suc left) n usage =
    or_retry usage (λ spent. attempts w s left (n + 1) spent) (w.routing n s)

-- At the bound: one last step to compose, unless local_llm has answered.
unfoldable pub step_bound : GraphState → Update
step_bound s =
    if answered s
    then record no_update {
      next = some Node.finish;
      status = some Status.halted_step_bound;
      step = 1;
      messages = from_supervisor s.step "route -> finish (step bound)";
    }
    else record no_update {
      next = some Node.local_llm;
      status = some Status.halted_step_bound;
      step = 1;
      truncated = some true;
      tool_request = some none;
      tool_calls = some none;
      pending_plan = some none;
      plan_note = some none;
      messages = from_supervisor s.step "route -> local_llm (step bound: compose what we have)";
    }

module _ {T : Type 0} (ops : TableOps Call T) (w : World) where
  -- The structured-output path: what follows the retry loop.
  unfoldable pub after_attempts : GraphState → RoutingReply → Store Call T → Update × Store Call T
  unfolding degraded
  after_attempts s (failed f usage) store = (degraded s.step f usage, store)
  after_attempts s (decided d usage) store = finish_routing ops w s d usage [] store

  unfoldable pub structured : GraphState → Store Call T → Update × Store Call T
  structured s store = after_attempts s (attempts w s max_routing_retries 1 no_usage) store

  -- The native path; `none` where `ToolArgs(**args)` raises out of the node, and the structured path
  -- where the native request failed.
  unfoldable pub after_tool_args :
      GraphState
      → Option RoutingDecision
      → List Call
      → TokenUsage
      → Store Call T
      → Option (Update × Store Call T)
  after_tool_args s none calls usage store = none
  after_tool_args s (some d) calls usage store = some (finish_routing ops w s d usage calls store)

  unfoldable pub after_native :
      GraphState → Option (List Call × TokenUsage) → Store Call T → Option (Update × Store Call T)
  after_native s none store = some (structured s store)
  after_native s (some (calls, usage)) store =
      after_tool_args s (native_decision w calls) calls usage store

  unfoldable pub native_path : GraphState → Store Call T → Option (Update × Store Call T)
  native_path s store = after_native s (decide_native (w.native s)) store

  unfoldable pub supervisor : GraphState → Store Call T → Option (Update × Store Call T)
  unfolding step_bound finished degraded
  supervisor s store =
      if leb max_steps s.step
      then some (step_bound s, store)
      else if answered s
      then some (finished s.step no_usage "route -> finish (fast-path: answered)", store)
      else if not (w.has_client (preferred s.intent.model_preference))
      then some (
        degraded s.step (record { category = missing_credential; detail = "no client" }) no_usage,
        store,
      )
      else if w.native_tool_calling
      then native_path s store
      else some (structured s store)
