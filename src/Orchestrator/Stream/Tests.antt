-- ===== src/Orchestrator/Stream/Tests.antt =====
-- Witnesses of the theorem on `astream_run`, and runs of the composers.
use core_heartbeat.Prelude.{◌≡◌, refl, [], is_empty, if_cases}
use core_heartbeat.Orchestrator.State.{GraphState}
use core_heartbeat.Orchestrator.Compose.{Composing, generate_local, refused}
use core_heartbeat.Orchestrator.Graph.{invoke}
use core_heartbeat.Orchestrator.Stream.{astream_run}
use core_heartbeat.Orchestrator.Stream.Pieces.{IsUnbroken}
use core_heartbeat.Orchestrator.Stream.Agreement.{astream_run-Agreement}
use core_heartbeat.Orchestrator.Stream.Closing.{Agreement}
use core_heartbeat.Orchestrator.Tests.{list_ops, world, from_ana, nothing, no_plans}

refused-IsUnbroken : (s : GraphState) → IsUnbroken (generate_local s refused)
unfolding generate_local
refused-IsUnbroken s category e =
    if_cases (λ (c : Composing). c.pieces ≡ []) (is_empty s.document_images) (λ _. refl) (λ _. refl)

astream_run-Agreement_example :
    Agreement
      (invoke list_ops world (from_ana "clear friday") "ana" nothing no_plans)
      (astream_run list_ops world (from_ana "clear friday") "ana" nothing no_plans)
astream_run-Agreement_example =
    astream_run-Agreement list_ops world refused-IsUnbroken (from_ana "clear friday") "ana" nothing
      no_plans
