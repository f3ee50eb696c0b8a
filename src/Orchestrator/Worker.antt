-- ===== src/Orchestrator/Worker.antt =====
-- The node local_llm of orchestrator.py, over the two composers.
use core_heartbeat.Prelude.{
  ◌++◌, List, concat, String, Option, none, some, [], ◌∷◌, str_eq, if◌then◌else◌,
}
use core_heartbeat.Orchestrator.State.{
  Node, Source, TokenUsage, no_usage, GraphState, Update, no_update,
}
use core_heartbeat.Orchestrator.World.{World}
use core_heartbeat.Orchestrator.Compose.{
  Composition, composed, not_composed, Composing, generate_local, generate_cloud,
}

-- The cloud model, and the local one where the cloud model fails.
abbrev pub or_local : List String → Composition → Composing → Composing
or_local pieces (composed text usage) local = record {
  pieces = pieces;
  result = composed text usage;
}
or_local pieces (not_composed category) local = record {
  pieces = pieces ++ local.pieces;
  result = local.result;
}

unfoldable pub compose : World → GraphState → Composing
unfolding generate_local generate_cloud
compose w s =
    let local = generate_local s (w.ollama s) in
    let cloud = generate_cloud (w.cloud s) in
    if w.local_compose then local else or_local cloud.pieces cloud.result local

abbrev pub reply_update : GraphState → String → TokenUsage → Update
reply_update s text usage = record no_update {
  messages = record { source = Source.local_llm; content = text; step = s.step } ∷ [];
  usage = usage;
  visited = Node.local_llm ∷ [];
  step = 1;
}

abbrev pub failure_prefix : String
failure_prefix = "local inference failure:"

abbrev pub composed_update : GraphState → Composition → Update
composed_update s (composed text usage) = reply_update s text usage
composed_update s (not_composed category) =
    reply_update s (concat (failure_prefix ∷ " " ∷ category ∷ [])) no_usage

abbrev pub canned_or : Option String → Update → GraphState → Update
canned_or none u s = u
canned_or (some canned) u s = if str_eq canned "" then u else reply_update s canned no_usage

unfoldable pub local_llm : World → GraphState → Update
unfolding compose
local_llm w s = canned_or s.canned_reply (composed_update s (compose w s).result) s

-- The pieces that the node hands to `_emit`: a canned reply whole, or those of the composer.
abbrev pub canned_pieces : Option String → List String → List String
canned_pieces none pieces = pieces
canned_pieces (some canned) pieces = if str_eq canned "" then pieces else canned ∷ []

unfoldable pub emitted : World → GraphState → List String
unfolding compose
emitted w s = canned_pieces s.canned_reply (compose w s).pieces
