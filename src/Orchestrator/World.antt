-- ===== src/Orchestrator/World.antt =====
-- What a run asks of the world: model providers, tool back ends, the clock, the network, the
-- environment. All of it is a parameter of the model.
use core_heartbeat.Prelude.{ℕ, String, Bool, Option, List}
use core_heartbeat.PendingPlans.{Clock, Reply, Config}
use core_heartbeat.Orchestrator.State.{
  Fields, Category, RoutingDecision, RoutingFailure, TokenUsage, GraphState,
}
use core_heartbeat.Orchestrator.Compose.{OllamaReply, CloudReply}

-- A tool call as a chat model emits it: the name unless it is no string, the arguments unless they
-- are no object.
pub record RawCall : Type 0 where
  pub name : Option String
  pub args : Option Fields

-- The native tool-calling request: no client, an exception with its category, or a response with
-- its calls and the two token counts that are read from it.
pub data NativeReply : Type 0 where
  unavailable : NativeReply
  raised : Category → NativeReply
  response : List RawCall → ℕ → ℕ → NativeReply

-- One structured-output request: a failure or a decision, with the usage.
pub data RoutingReply : Type 0 where
  failed : RoutingFailure → TokenUsage → RoutingReply
  decided : RoutingDecision → TokenUsage → RoutingReply

-- The families of tools, each with its own dispatcher.
pub data Family : Type 0 where
  attachment calendar reit briefing vault web flight : Family

pub record World : Type 0 where
  -- environment
  pub native_tool_calling : Bool
  pub local_compose : Bool
  pub max_same_tool_calls : ℕ
  pub write_confirm_threshold : ℕ
  pub plans : Config
  -- `json.dumps(args, sort_keys=True, default=str)`
  pub dumps : Fields → String
  -- `ToolArgs(**args)` dumped without the unset fields; none where its validation raises
  pub tool_args : Fields → Option Fields
  -- `get_client(model_pref) is not None`
  pub has_client : String → Bool
  -- the native request made from a state, and the structured request at its n-th attempt
  pub native : GraphState → NativeReply
  pub routing : ℕ → GraphState → RoutingReply
  -- what Ollama and the cloud model send for the prompt that is made of a state
  pub ollama : GraphState → OllamaReply
  pub cloud : GraphState → CloudReply
  -- one `run_*_tool` for each family: name, user id, arguments
  pub run_tool : Family → String → String → Fields → String
  -- `saved_document_reference` and `pointer_reply`
  pub saved_document : String → String → Option String
  pub pointer_reply : String → String
  -- the clocks and the fate of the pending-plan request, by supervisor step
  pub clock : ℕ → Clock
  pub net : ℕ → Reply
