-- ===== src/Orchestrator/Gate/Handshake.antt =====
-- The propose and confirm handshake of orchestrator._finish_routing, across two requests.
use core_heartbeat.Prelude.{
  ◌+◌, ◌<◌, ◌≡◌, refl, ◌∙◌, ap, true, false, not, ◌&&◌, and-false, Option, none, some, List, [],
  ◌∷◌, any, keep, String,
}
use core_heartbeat.PendingPlans
use core_heartbeat.PendingPlans.{TableOps, Store, Reply, served, db}
use core_heartbeat.PendingPlans.Interface.{TableLaws}
use core_heartbeat.PendingPlans.RoundTrip.{take-save}
use core_heartbeat.Orchestrator.State.{
  Call, Node, is_local, is_tool, TokenUsage, RoutingDecision, GraphState,
}
use core_heartbeat.Orchestrator.World.{World}
use core_heartbeat.Orchestrator.Gate.{
  Routing, or_compose, drop_repeats, is_fresh, needs_confirmation, confirmation_given, plan_or_none,
  confirmed, no_plan_note, repeat_guard, requested, answered, finish_routing,
}
use core_heartbeat.Orchestrator.Gate.Writes.{batch_proposed}

module _ {T : Type 0} (ops : TableOps Call T) (w : World) where
  -- A confirmed turn in which no node has run yet does what the plan on record says.
  confirmed_turn :
      (s : GraphState) (d : RoutingDecision) (usage : TokenUsage) (native_calls : List Call)
      (store : Store Call T)
      → confirmation_given s ≡ true
      → s.visited ≡ []
      → let r = repeat_guard w s.executed_calls (requested d native_calls) in
        let plan =
          (PendingPlans.take ops w.plans
            (w.clock s.step)
            (w.net s.step)
            s.user_id
            s.intent.chat_id
            store).0.0 in
        let update = (finish_routing ops w s d usage native_calls store).0 in
        (update.next ≡ some (confirmed (plan_or_none plan) r).nxt)
        × (update.tool_calls ≡ some (confirmed (plan_or_none plan) r).calls)
        × (update.plan_note ≡ some (confirmed (plan_or_none plan) r).plan_note)
        × (update.pending_plan ≡ some (confirmed (plan_or_none plan) r).pending_plan)
  unfolding finish_routing
  confirmed_turn s d usage native_calls store conf start =
      rw (conf, start, and-false) (refl, refl, refl, refl)

module _ {T : Type 0} (ops : TableOps Call T) (laws : TableLaws ops) where
  -- The plan that the second request takes is the one that the first has saved.
  saved_plan :
      (w w' : World) (s s' : GraphState) (store store' : Store Call T) (c : Call) (cs : List Call)
      → w.plans.configured ≡ true
      → w'.plans ≡ w.plans
      → w.net s.step ≡ served
      → w'.net s'.step ≡ served
      → (w'.clock s'.step).wall < (w.clock s.step).wall + w.plans.ttl
      → s'.user_id ≡ s.user_id
      → s'.intent.chat_id ≡ s.intent.chat_id
      → store'
        ≡ (PendingPlans.save ops w.plans
            (w.clock s.step)
            (w.net s.step)
            s.user_id
            s.intent.chat_id
            (c ∷ cs)
            store).1
      → (PendingPlans.take ops w'.plans
          (w'.clock s'.step)
          (w'.net s'.step)
          s'.user_id
          s'.intent.chat_id
          store').0.0
        ≡ some (c ∷ cs)
  saved_plan w w' s s' store store' c cs conf plans net net' young user chat e =
      rw (e, plans, net, net', user, chat)
        (ap (λ (r : Option (List Call) × PendingPlans.Source). r.0)
          (take-save ops laws w.plans s.user_id s.intent.chat_id store (w.clock s.step)
            (w'.clock s'.step) c cs conf young))

  -- After a turn that proposed a batch, the first step of a turn of the same user and chat in which
  -- the user gives the go-ahead runs exactly the calls that were proposed, whatever the model
  -- decides or requests on that step, if the table answers both requests and the proposal's
  -- lifetime is not over.
  pub approval_runs_proposal :
      (w w' : World) (s s' : GraphState) (d d' : RoutingDecision) (usage usage' : TokenUsage)
      (native_calls native_calls' : List Call) (store : Store Call T) (c : Call) (cs : List Call)
      → w.plans.configured ≡ true
      → w'.plans ≡ w.plans
      → w.net s.step ≡ served
      → w'.net s'.step ≡ served
      → (w'.clock s'.step).wall < (w.clock s.step).wall + w.plans.ttl
      → s'.user_id ≡ s.user_id
      → s'.intent.chat_id ≡ s.intent.chat_id
      → (confirmation_given s && not (any is_tool s.visited)) ≡ false
      → (is_local d.next_node && answered s) ≡ false
      → (repeat_guard w s.executed_calls (requested d native_calls)).calls ≡ some (c ∷ cs)
      → needs_confirmation w.write_confirm_threshold (c ∷ cs) ≡ true
      → confirmation_given s' ≡ true
      → s'.visited ≡ []
      → let store' = (finish_routing ops w s d usage native_calls store).1 in
        let update = (finish_routing ops w' s' d' usage' native_calls' store').0 in
        (update.next ≡ some Node.tool_execution) × (update.tool_calls ≡ some (some (c ∷ cs)))
  approval_runs_proposal w w' s s' d d' usage usage' native_calls native_calls' store c cs conf
        plans net net' young user chat turn open_turn fresh n given start =
      let store' = (finish_routing ops w s d usage native_calls store).1 in
      let saved =
        (batch_proposed ops w s d usage native_calls store (c ∷ cs) turn open_turn fresh n).4 in
      let plan = saved_plan w w' s s' store store' c cs conf plans net net' young user chat saved in
      let t = confirmed_turn ops w' s' d' usage' native_calls' store' given start in
      (t.0 ∙ rw plan refl, t.1 ∙ rw plan refl)

module _ {T : Type 0} (ops : TableOps Call T) (w : World) where
  -- On the first step of a turn with a go-ahead for which no plan is on record, nothing runs if the
  -- model requests no call: the turn goes to local_llm with the note that there is no plan.
  approval_without_plan :
      (s : GraphState) (d : RoutingDecision) (usage : TokenUsage) (store : Store Call T)
      → confirmation_given s ≡ true
      → s.visited ≡ []
      → (PendingPlans.take ops w.plans
          (w.clock s.step)
          (w.net s.step)
          s.user_id
          s.intent.chat_id
          store).0.0
        ≡ none
      → let update = (finish_routing ops w s d usage [] store).0 in
        (update.next ≡ some Node.local_llm)
        × (update.tool_calls ≡ some none)
        × (update.plan_note ≡ some (some no_plan_note))
  unfolding requested repeat_guard
  approval_without_plan s d usage store given start gone =
      let t = confirmed_turn ops w s d usage [] store given start in
      (t.0 ∙ rw gone refl, t.1 ∙ rw gone refl, t.2 ∙ rw gone refl)

  pending_plan-compose :
      (kept : List Call) (r : Routing) → (or_compose kept r).pending_plan ≡ r.pending_plan
  pending_plan-compose [] r = refl
  pending_plan-compose (c ∷ cs) r = refl

  pending_plan-drop :
      (already : List String) (calls : Option (List Call)) (r : Routing)
      → (drop_repeats w already calls r).pending_plan ≡ r.pending_plan
  pending_plan-drop already none r = refl
  pending_plan-drop already (some []) r = refl
  pending_plan-drop already (some (c ∷ cs)) r =
      pending_plan-compose (keep (is_fresh w already) (c ∷ cs)) r

  pending_plan-requested :
      (s : GraphState) (d : RoutingDecision) (native_calls : List Call)
      → (repeat_guard w s.executed_calls (requested d native_calls)).pending_plan ≡ none
  unfolding requested repeat_guard
  pending_plan-requested s d native_calls =
      pending_plan-drop s.executed_calls (requested d native_calls).calls (requested d native_calls)

  -- On the first step of a turn with a go-ahead for which no plan is on record, calls that the model
  -- requests on that step are run as they are, also a batch that needs confirmation and was never
  -- shown to the user: nothing is proposed.
  approval_releases_unseen :
      (s : GraphState) (d : RoutingDecision) (usage : TokenUsage) (native_calls : List Call)
      (store : Store Call T) (cs : List Call)
      → confirmation_given s ≡ true
      → s.visited ≡ []
      → (PendingPlans.take ops w.plans
          (w.clock s.step)
          (w.net s.step)
          s.user_id
          s.intent.chat_id
          store).0.0
        ≡ none
      → (repeat_guard w s.executed_calls (requested d native_calls)).calls ≡ some cs
      → let update = (finish_routing ops w s d usage native_calls store).0 in
        (update.tool_calls ≡ some (some cs)) × (update.pending_plan ≡ some none)
  unfolding requested repeat_guard
  approval_releases_unseen s d usage native_calls store cs given start gone fresh =
      let t = confirmed_turn ops w s d usage native_calls store given start in
      (
        t.1 ∙ rw (gone, fresh) (ap some fresh),
        t.3 ∙ rw (gone, fresh) (ap some (pending_plan-requested s d native_calls)),
      )
