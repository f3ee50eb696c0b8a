-- ===== src/Orchestrator/Graph/Work.antt =====
-- What a worker node of orchestrator.py adds to a run.

use core_heartbeat.Prelude.{◌≡◌, refl, true, false, none, List, [], arith}
use core_heartbeat.Orchestrator.Tools.{ToolEvent, tool_update}
use core_heartbeat.Orchestrator.Worker.{local_llm, compose, composed_update}
use core_heartbeat.Orchestrator.Compose.{Composition, composed, not_composed}
use core_heartbeat.Orchestrator.State.{is_local, is_finish, Node, GraphState}
use core_heartbeat.Orchestrator.Graph.{◌∷◌, RunState, work}
use core_heartbeat.Prelude.{◌+◌, ◌++◌, any-append, or-true}
use core_heartbeat.Orchestrator.State.{is_finish}
use core_heartbeat.Orchestrator.World.{World}
use core_heartbeat.Orchestrator.Gate.{answered}

step_tools :
    (w : World) (s : GraphState) (events : List ToolEvent) → (tool_update w s events).step ≡ 1
step_tools w s [] = refl
step_tools w s (e ∷ es) = refl

visited_tools :
    (w : World) (s : GraphState) (events : List ToolEvent)
    → (tool_update w s events).visited ≡ Node.tool_execution ∷ []
visited_tools w s [] = refl
visited_tools w s (e ∷ es) = refl

step_composed : (s : GraphState) (c : Composition) → (composed_update s c).step ≡ 1
step_composed s (composed t u) = refl
step_composed s (not_composed k) = refl

visited_composed :
    (s : GraphState) (c : Composition) → (composed_update s c).visited ≡ Node.local_llm ∷ []
visited_composed s (composed t u) = refl
visited_composed s (not_composed k) = refl

local_llm-step : (w : World) (s : GraphState) → (local_llm w s).step ≡ 1
unfolding local_llm
local_llm-step w s = ground (arith, step_composed s (compose w s).result)

local_llm-visited : (w : World) (s : GraphState) → (local_llm w s).visited ≡ Node.local_llm ∷ []
unfolding local_llm
local_llm-visited w s = ground (arith, visited_composed s (compose w s).result)

pub status_tools :
    (w : World) (s : GraphState) (events : List ToolEvent) → (tool_update w s events).status ≡ none
status_tools w s [] = refl
status_tools w s (e ∷ es) = refl

status_composed : (s : GraphState) (c : Composition) → (composed_update s c).status ≡ none
status_composed s (composed t u) = refl
status_composed s (not_composed k) = refl

pub local_llm-status : (w : World) (s : GraphState) → (local_llm w s).status ≡ none
unfolding local_llm
local_llm-status w s = ground (arith, status_composed s (compose w s).result)

module _ {T : Type 0} (w : World) (c : RunState T) where
  -- A worker adds one step and its own name.
  pub step-work : (n : Node) → is_finish n ≡ false → (work w n c).state.step ≡ c.state.step + 1
  unfolding work
  step-work Node.local_llm h = rw (local_llm-step w c.state)
  step-work Node.tool_execution h = rw step_tools
  step-work Node.finish h = cc

  pub visited-work :
      (n : Node) → is_finish n ≡ false → (work w n c).state.visited ≡ c.state.visited ++ (n ∷ [])
  unfolding work
  visited-work Node.local_llm h = rw (local_llm-visited w c.state)
  visited-work Node.tool_execution h = rw visited_tools
  visited-work Node.finish h = cc

  -- After local_llm the run has an answer.
  pub answered-work : answered (work w Node.local_llm c).state ≡ true
  answered-work =
      rw
        (
          visited-work Node.local_llm refl,
          any-append is_local c.state.visited (Node.local_llm ∷ []),
        )
        (or-true (answered c.state))
