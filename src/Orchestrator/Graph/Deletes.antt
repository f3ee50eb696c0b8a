-- ===== src/Orchestrator/Graph/Deletes.antt =====
-- Deletes in a run of orchestrator's graph that routes by native tool calling.
use core_heartbeat.Orchestrator.Gate.Held.{IsHeld, finish_routing-IsHeld}
use core_heartbeat.Orchestrator.Graph.Isolation.{Ended}
use core_heartbeat.Orchestrator.Graph.Invariant.{drive_inv, confirmation-work, confirmation-decide}
use core_heartbeat.Orchestrator.Tools.{
  dispatchable_tools, requested_tool_calls, run_calls, tool_execution,
}
use core_heartbeat.Prelude.{
  any, some_inj, ◌≡◌, refl, sym, ◌∙◌, ap, String, Bool, true, false, Option, none, some, List, [],
  ◌∷◌, keep, is_some, one_of, arith, Option-cases, inl, inr, any-append, ◌||◌,
}
use core_heartbeat.PendingPlans.{TableOps, Store}
use core_heartbeat.Orchestrator.State.{
  Call, Node, GraphState, Update, TokenUsage, RoutingDecision, merge, IntentPayload,
}
use core_heartbeat.Orchestrator.World.{World}
use core_heartbeat.Orchestrator.Gate.{
  finished, always_confirm_tools, needs_confirmation, confirmation_given,
}
use core_heartbeat.Orchestrator.Supervisor.{
  step_bound, decide_native, after_native, after_tool_args, native_decision, degraded, native_path,
  supervisor,
}
use core_heartbeat.Orchestrator.Graph.{
  merge, decide, work, RunState, tool_execution, ToolEvent, invoke, initial_state, Attached,
  recursion_limit,
}
use core_heartbeat.Orchestrator.Graph.Reach.{
  supervisor_cases, Returns, decide-IsDecision, after_some, returned, IsRouting,
  supervisor-IsRouting, named_next,
}

abbrev pub is_delete : Call → Bool
is_delete c = one_of always_confirm_tools c.name

module _ {T : Type 0} (ops : TableOps Call T) (w : World) (s : GraphState)
    (conf : confirmation_given s ≡ false) (store : Store Call T) where
  after_tool_args-IsHeld :
      (calls : List Call) (d : Option RoutingDecision) (usage : TokenUsage)
      → native_decision w calls ≡ d
      → Returns (IsHeld w.write_confirm_threshold) (after_tool_args ops w s d calls usage store)
  unfolding after_tool_args
  after_tool_args-IsHeld calls none usage e = tt
  after_tool_args-IsHeld [] (some d) usage e =
      finish_routing-IsHeld ops w s conf store d usage [] (ground (arith, some_inj e))
  after_tool_args-IsHeld (c ∷ cs) (some d) usage e =
      finish_routing-IsHeld ops w s conf store d usage (c ∷ cs)
        (elim (Option-cases (w.tool_args c.args)) [
          | inl bad ↦ ground arith
          | inr (args, ok) ↦ ground arith
        ])

  after_native-IsHeld :
      (r : Option (List Call × TokenUsage))
      → is_some r ≡ true
      → Returns (IsHeld w.write_confirm_threshold) (after_native ops w s r store)
  unfolding after_native
  after_native-IsHeld none h = cc
  after_native-IsHeld (some (calls, usage)) h =
      after_tool_args-IsHeld calls (native_decision w calls) usage refl

both_false : {a b : Bool} → a ≡ false → b ≡ false → (a || b) ≡ false
both_false h k = ground (arith, h, k)

any-keep : (p q : Call → Bool) (cs : List Call) → any p cs ≡ false → any p (keep q cs) ≡ false
any-keep p q [] h = refl
any-keep p q (c ∷ cs) h = ground (arith, any-keep p q cs)

abbrev pub has_delete : List ToolEvent → Bool
has_delete es = any (λ (e : ToolEvent). is_delete e.call) es

run_calls_deletes :
    (w : World) (user : String) (cs : List Call)
    → any is_delete cs ≡ false
    → has_delete (run_calls w user cs) ≡ false
unfolding run_calls
run_calls_deletes w user [] h = refl
run_calls_deletes w user (c ∷ cs) h = ground (arith, run_calls_deletes w user cs)

-- A batch that needs no confirmation runs without a delete.
tool_execution_deletes :
    (w : World) (s : GraphState) (c : Call) (cs : List Call)
    → s.tool_calls ≡ some (c ∷ cs)
    → needs_confirmation w.write_confirm_threshold (c ∷ cs) ≡ false
    → has_delete (tool_execution w s).1 ≡ false
unfolding tool_execution requested_tool_calls needs_confirmation
tool_execution_deletes w s c cs e n = rw e (
    run_calls_deletes w s.user_id (keep (λ c. one_of dispatchable_tools c.name) (c ∷ cs))
      (any-keep is_delete (λ c. one_of dispatchable_tools c.name) (c ∷ cs) (ground arith)))

tool_calls-merge :
    (s : GraphState) (u : Update) (cs : List Call)
    → u.tool_calls ≡ some (some cs)
    → (merge s u).tool_calls ≡ some cs
unfolding merge
tool_calls-merge s u cs e = rw e refl

module _ {T : Type 0} (ops : TableOps Call T) (w : World) (native : w.native_tool_calling ≡ true)
    (answers : (s : GraphState) → is_some (decide_native (w.native s)) ≡ true) where
  supervisor-IsHeld :
      (s : GraphState) (store : Store Call T)
      → confirmation_given s ≡ false
      → Returns (IsHeld w.write_confirm_threshold) (supervisor ops w s store)
  unfolding step_bound finished degraded native_path
  supervisor-IsHeld s store conf =
      supervisor_cases ops w s store (Returns (IsHeld w.write_confirm_threshold))
        (λ _. record { runs = λ e. ground arith }) (λ _. record { runs = λ e. cc })
        (λ _ f u. record { runs = λ e. cc })
        (λ _ _. after_native-IsHeld ops w s conf store (decide_native (w.native s)) (answers s))
        (λ _ plain. ground (arith, native, plain))

  -- The run so far has run no delete, and its turn is not a go-ahead.
  record IsQuiet (c : RunState T) : Type 0 where
    unconfirmed_turn : confirmation_given c.state ≡ false
    no_delete : has_delete c.events ≡ false

  work_deletes :
      (c c' : RunState T) (m : Node)
      → IsQuiet c
      → decide ops w c ≡ some c'
      → c'.state.next ≡ some m
      → has_delete (work w m c').events ≡ false
  unfolding work decide
  work_deletes c c' Node.local_llm q e n =
      ap has_delete (decide-IsDecision ops w c c' e).same_events ∙ q.no_delete
  work_deletes c c' Node.finish q e n =
      ap has_delete (decide-IsDecision ops w c c' e).same_events ∙ q.no_delete
  work_deletes c c' Node.tool_execution q e n =
      let (u, store, o, m) = after_some c c' (supervisor ops w c.state c.store) e in
      let held =
        returned (IsHeld w.write_confirm_threshold)
          (supervisor-IsHeld c.state c.store q.unconfirmed_turn) o in
      let routing = returned IsRouting (supervisor-IsRouting ops w c.state c.store) o in
      let next =
        named_next c.state u Node.tool_execution routing.routed_on
          (ap (λ (d : RunState T). d.state.next) m ∙ n) in
      let (d, ds, f, free) = held.runs next in
      let calls =
        sym (ap (λ (d : RunState T). d.state.tool_calls) m)
        ∙ tool_calls-merge c.state u (d ∷ ds) f in
      any-append (λ (e : ToolEvent). is_delete e.call) c'.events (tool_execution w c'.state).1
      ∙ both_false (ap has_delete (decide-IsDecision ops w c c' e).same_events ∙ q.no_delete)
          (tool_execution_deletes w c'.state d ds calls free)

  -- If routing is by native tool calling and every native request is answered, then a run that ends,
  -- of a message that is not a go-ahead after an assistant turn, has run no delete in any of its steps,
  -- whatever calls the model requests.
  pub unconfirmed_run_deletes_nothing :
      (p : IntentPayload) (user : String) (a : Attached) (store : Store Call T)
      → confirmation_given (initial_state p user a) ≡ false
      → Ended (λ c. has_delete c.events ≡ false) (invoke ops w p user a store)
  unfolding invoke
  unconfirmed_run_deletes_nothing p user a store conf =
      drive_inv ops w IsQuiet (Ended (λ c. has_delete c.events ≡ false)) tt tt
        (λ c c' q e n. ap has_delete (decide-IsDecision ops w c c' e).same_events ∙ q.no_delete)
        (λ c c' m q more e n. record {
          unconfirmed_turn =
              confirmation-work w c' m ∙ confirmation-decide ops w c c' e ∙ q.unconfirmed_turn;
          no_delete = work_deletes c c' m q e n;
        })
        recursion_limit (record { state = initial_state p user a; store = store; events = [] })
        (record { unconfirmed_turn = conf; no_delete = refl })
