-- ===== src/Orchestrator/Gate/Held.antt =====
-- What orchestrator._finish_routing sends to the tools in a turn without a go-ahead.
use mathlib.Core.Path.{subst}
use core_heartbeat.Prelude.{
  some_inj, ◌≡◌, refl, sym, ◌∙◌, ap, String, true, false, not, ◌&&◌, Option, none, some, List, [],
  ◌∷◌, keep, is_empty, arith, Bool-cases, inl, inr,
}
use core_heartbeat.PendingPlans.{TableOps, Store}
use core_heartbeat.Orchestrator.State.{
  Call, Node, is_tool, is_local, GraphState, Update, TokenUsage, RoutingDecision,
}
use core_heartbeat.Orchestrator.World.{World}
use core_heartbeat.Orchestrator.Gate.{
  ℕ, canned_reply, routed, unconfirmed, Routing, needs_confirmation, confirmation_given,
  finish_routing, write_gate, repeat_guard, or_compose, requested, is_fresh, to_confirm, answered,
}

-- The routing goes to the tools only with a batch that needs no confirmation.
record IsGated (threshold : ℕ) (r : Routing) : Type 0 where
  goes :
      is_tool r.nxt ≡ true
      → (c : Call) × (cs : List Call) × (r.calls ≡ some (c ∷ cs))
        × (needs_confirmation threshold (c ∷ cs) ≡ false)

-- The routing goes to the tools only with a batch.
record IsBatch (r : Routing) : Type 0 where
  batch : is_tool r.nxt ≡ true → (c : Call) × (cs : List Call) × (r.calls ≡ some (c ∷ cs))

or_compose-IsBatch : (kept : List Call) (r : Routing) → IsBatch (or_compose kept r)
or_compose-IsBatch [] r = record { batch = λ e. cc }
or_compose-IsBatch (c ∷ cs) r = record { batch = λ e. (c, cs, refl) }

module _ (w : World) (already : List String) (d : RoutingDecision) where
  native_route-IsBatch :
      (calls : List Call)
      → is_tool d.next_node ≡ not (is_empty calls)
      → IsBatch (repeat_guard w already (requested d calls))
  unfolding repeat_guard requested
  native_route-IsBatch [] h = record { batch = λ e. ground arith }
  native_route-IsBatch (c ∷ cs) h = rw h (or_compose-IsBatch (keep (is_fresh w already) (c ∷ cs)) _)

module _ {T : Type 0} (ops : TableOps Call T) (w : World) (s : GraphState) where
  unconfirmed-IsGated :
      (calls : Option (List Call)) (r : Routing) (store : Store Call T)
      → r.calls ≡ calls
      → IsBatch r
      → IsGated w.write_confirm_threshold
          (unconfirmed ops w s (to_confirm w.write_confirm_threshold calls) r store).0
  unconfirmed-IsGated none r store e b = record {
    goes = λ t. let (c, cs, f) = b.batch t in (c, cs, f, ground (arith, e, f));
  }
  unconfirmed-IsGated (some xs) r store e b =
      elim (Bool-cases (needs_confirmation w.write_confirm_threshold xs)) [
        | inl held ↦ rw held (record { goes = λ t. cc })
        | inr free ↦ rw free (record {
          goes = λ t.
              let (c, cs, f) = b.batch t in
              (
                c,
                cs,
                f,
                subst (λ l. needs_confirmation w.write_confirm_threshold l ≡ false)
                    (some_inj (sym e ∙ f)) free,
              );
        })
      ]

  write_gate-IsGated :
      (r : Routing) (store : Store Call T)
      → confirmation_given s ≡ false
      → IsBatch r
      → IsGated w.write_confirm_threshold (write_gate ops w s r store).0
  unfolding write_gate
  write_gate-IsGated r store conf b = rw conf (unconfirmed-IsGated r.calls r store refl b)

-- The update goes to the tools only with a batch that needs no confirmation.
pub record IsHeld (threshold : ℕ) (u : Update) : Type 0 where
  pub runs :
      u.next ≡ some Node.tool_execution
      → (c : Call) × (cs : List Call) × (u.tool_calls ≡ some (some (c ∷ cs)))
        × (needs_confirmation threshold (c ∷ cs) ≡ false)

module _ {T : Type 0} (ops : TableOps Call T) (w : World) (s : GraphState)
    (conf : confirmation_given s ≡ false) (store : Store Call T) where
  routed-IsHeld :
      (usage : TokenUsage) (canned : Option String) (r : Routing)
      → IsGated w.write_confirm_threshold r
      → IsHeld w.write_confirm_threshold (routed s usage canned r)
  unfolding routed
  routed-IsHeld usage canned r g = record {
    runs = λ e. let (c, cs, f, n) = g.goes (ap is_tool (some_inj e)) in (c, cs, ap some f, n);
  }

  pub finish_routing-IsHeld :
      (d : RoutingDecision) (usage : TokenUsage) (calls : List Call)
      → is_tool d.next_node ≡ not (is_empty calls)
      → IsHeld w.write_confirm_threshold (finish_routing ops w s d usage calls store).0
  unfolding finish_routing
  finish_routing-IsHeld d usage calls h = elim (Bool-cases (is_local d.next_node && answered s)) [
    | inl over ↦ rw over (record { runs = λ e. cc })
    | inr on ↦ rw on (
        routed-IsHeld usage (canned_reply w s d calls) _ (
          write_gate-IsGated ops w s _ store conf
            (native_route-IsBatch w s.executed_calls d calls h)))
  ]
