-- ===== src/Orchestrator/Graph/Reply.antt =====
-- What a run of orchestrator's graph has composed when it ends.
use mathlib.Core.Path.{subst}
use core_heartbeat.Prelude.{
  any, ℕ, ◌+◌, ◌≤◌, ◌≡◌, refl, sym, ◌∙◌, ap, arith, Bool, Bool-cases, inl, inr, true, false, some,
  none, Option, List, [], ◌∷◌, ◌++◌, length, keep, String, some_inj,
}
use core_heartbeat.PendingPlans.{TableOps, Store}
use core_heartbeat.Orchestrator.State.{
  Call, Node, is_finish, is_local, IntentPayload, Status, GraphState, Update, merge, overwrite,
  TokenUsage, RoutingDecision, no_usage,
}
use core_heartbeat.Orchestrator.World.{World, RoutingReply, failed, decided}
use core_heartbeat.Orchestrator.Gate.{answered, finish_routing, finished}
use core_heartbeat.Orchestrator.Supervisor.{
  supervisor, structured, native_path, after_attempts, after_native, after_tool_args, attempts,
  decide_native, native_decision, max_routing_retries, step_bound, degraded,
}
use core_heartbeat.Orchestrator.Graph.{
  RunState, decide, work, invoke, initial_state, Attached, recursion_limit,
}
use core_heartbeat.Orchestrator.Graph.Reach.{
  decide-IsDecision, Returns, returned, supervisor_cases, after_some, decide_next,
  supervisor_finishes, named_next, IsRouting, supervisor-IsRouting,
}
use core_heartbeat.Orchestrator.Graph.Work.{visited-work, answered-work}
use core_heartbeat.Orchestrator.Graph.Invariant.{drive_inv, status-work}
use core_heartbeat.Orchestrator.Graph.Isolation.{Ended}

-- An update that finishes the run sets its status, and to the step bound's only after an answer; an
-- update that goes on to the tools leaves the status.
record IsHonest (was_answered : Bool) (u : Update) : Type 0 where
  on_finish :
      u.next ≡ some Node.finish
      → (x : Status) × (u.status ≡ some x) × (x ≡ Status.halted_step_bound → was_answered ≡ true)
  on_tools : u.next ≡ some Node.tool_execution → u.status ≡ none

module _ {T : Type 0} (ops : TableOps Call T) (w : World) (s : GraphState)
    (store : Store Call T) where
  finish_routing-IsHonest :
      (d : RoutingDecision) (usage : TokenUsage) (calls : List Call)
      → IsHonest (answered s) (finish_routing ops w s d usage calls store).0
  unfolding finish_routing
  finish_routing-IsHonest d usage calls = record {
    on_finish = λ e. (Status.completed, ground arith, λ x. cc);
    on_tools = λ e. ground arith;
  }

  after_attempts-IsHonest :
      (r : RoutingReply) → IsHonest (answered s) (after_attempts ops w s r store).0
  unfolding after_attempts
  after_attempts-IsHonest (failed f usage) = record {
    on_finish = λ e. (Status.degraded, refl, λ x. cc);
    on_tools = λ e. cc;
  }
  after_attempts-IsHonest (decided d usage) = finish_routing-IsHonest d usage []

  structured-IsHonest : IsHonest (answered s) (structured ops w s store).0
  unfolding structured
  structured-IsHonest = after_attempts-IsHonest (attempts w s max_routing_retries 1 no_usage)

  after_tool_args-IsHonest :
      (d : Option RoutingDecision) (calls : List Call) (usage : TokenUsage)
      → Returns (IsHonest (answered s)) (after_tool_args ops w s d calls usage store)
  unfolding after_tool_args
  after_tool_args-IsHonest none calls usage = tt
  after_tool_args-IsHonest (some d) calls usage = finish_routing-IsHonest d usage calls

  after_native-IsHonest :
      (r : Option (List Call × TokenUsage))
      → Returns (IsHonest (answered s)) (after_native ops w s r store)
  unfolding after_native
  after_native-IsHonest none = structured-IsHonest
  after_native-IsHonest (some (calls, usage)) =
      after_tool_args-IsHonest (native_decision w calls) calls usage

  native_path-IsHonest : Returns (IsHonest (answered s)) (native_path ops w s store)
  unfolding native_path
  native_path-IsHonest = after_native-IsHonest (decide_native (w.native s))

  step_bound-IsHonest : IsHonest (answered s) (step_bound s)
  unfolding step_bound
  step_bound-IsHonest = record {
    on_finish = λ e. (Status.halted_step_bound, ground arith, λ x. ground arith);
    on_tools = λ e. ground arith;
  }

  supervisor-IsHonest : Returns (IsHonest (answered s)) (supervisor ops w s store)
  unfolding finished degraded
  supervisor-IsHonest =
      supervisor_cases ops w s store (Returns (IsHonest (answered s))) (λ _. step_bound-IsHonest)
        (λ _. record { on_finish = λ e. (Status.completed, refl, λ x. cc); on_tools = λ e. cc })
        (λ _ f u. record { on_finish = λ e. (Status.degraded, refl, λ x. cc); on_tools = λ e. cc })
        (λ _ _. native_path-IsHonest) (λ _ _. structured-IsHonest)

-- The number of answers of a run.
abbrev pub answers : List Node → ℕ
answers ns = length (keep is_local ns)

-- The run has at most one answer, and reports the step bound only with one.
pub record IsFair {T : Type 0} (c : RunState T) : Type 0 where
  pub one_answer : answers c.state.visited ≤ 1
  pub bound_answered : c.state.status ≡ Status.halted_step_bound → answered c.state ≡ true

answers_none : (ns : List Node) → any is_local ns ≡ false → answers ns ≡ 0
answers_none [] h = refl
answers_none (n ∷ ns) h = ground (arith, answers_none ns)

answers-append : (ms ns : List Node) → answers (ms ++ ns) ≡ answers ms + answers ns
answers-append [] ns = omega arith
answers-append (m ∷ ms) ns = ground (arith, answers-append ms ns)

status-merge : (s : GraphState) (u : Update) → (merge s u).status ≡ overwrite s.status u.status
unfolding merge
status-merge s u = refl

-- What the supervisor's update makes of the status.
record IsStep {T : Type 0} (c c' : RunState T) : Type 0 where
  finishes :
      c'.state.next ≡ some Node.finish
      → c'.state.status ≡ Status.halted_step_bound
      → answered c.state ≡ true
  continues : c'.state.next ≡ some Node.tool_execution → c'.state.status ≡ c.state.status

merged-IsStep :
    {T : Type 0} (c : RunState T) (u : Update) (store : Store Call T)
    → IsRouting u
    → IsHonest (answered c.state) u
    → IsStep c (record c { state = merge c.state u; store = store })
merged-IsStep c u store r honest = record {
  finishes = λ n halted.
      let (x, su, hx) = honest.on_finish (named_next c.state u Node.finish r.routed_on n) in
      hx (sym (ap (overwrite c.state.status) su) ∙ sym (status-merge c.state u) ∙ halted);
  continues = λ n.
      status-merge c.state u
      ∙ ap (overwrite c.state.status)
          (honest.on_tools (named_next c.state u Node.tool_execution r.routed_on n));
}

module _ {T : Type 0} (ops : TableOps Call T) (w : World) (c c' : RunState T) (h : IsFair c)
    (e : decide ops w c ≡ some c') where
  decide-IsStep : IsStep c c'
  unfolding decide
  decide-IsStep =
      let (u, store, o, m) = after_some c c' (supervisor ops w c.state c.store) e in
      subst (IsStep c) m (
        merged-IsStep c u store (returned IsRouting (supervisor-IsRouting ops w c.state c.store) o)
          (returned (IsHonest (answered c.state)) (supervisor-IsHonest ops w c.state c.store) o))

  same_visited : c'.state.visited ≡ c.state.visited
  same_visited = (decide-IsDecision ops w c c' e).same_visited

  end-IsFair : c'.state.next ≡ some Node.finish → IsFair c'
  end-IsFair n = record {
    one_answer = subst (λ v. answers v ≤ 1) (sym same_visited) h.one_answer;
    bound_answered = λ halted. ap (any is_local) same_visited ∙ decide-IsStep.finishes n halted;
  }

  no_answer_yet :
      (m : Node) → is_finish m ≡ false → c'.state.next ≡ some m → answered c.state ≡ false
  no_answer_yet m more n = elim (Bool-cases (answered c.state)) [
    | inl a ↦
        let f =
          decide_next ops w c c' Node.finish (supervisor_finishes ops w c.state c.store a) e in
        ground (arith, ap is_finish (some_inj (sym n ∙ f)), more)
    | inr a ↦ a
  ]

  local_llm-IsFair : answered c.state ≡ false → IsFair (work w Node.local_llm c')
  local_llm-IsFair a = record {
    one_answer = omega (
      arith,
      ap answers (visited-work w c' Node.local_llm refl),
      answers-append c'.state.visited (Node.local_llm ∷ []),
      ap answers same_visited,
      answers_none c.state.visited a,
    );
    bound_answered = λ halted. answered-work w c';
  }

  tool_execution-IsFair :
      c'.state.next ≡ some Node.tool_execution
      → answered c.state ≡ false
      → IsFair (work w Node.tool_execution c')
  tool_execution-IsFair n a = record {
    one_answer = omega (
      arith,
      ap answers (visited-work w c' Node.tool_execution refl),
      answers-append c'.state.visited (Node.tool_execution ∷ []),
      ap answers same_visited,
      answers_none c.state.visited a,
    );
    bound_answered = λ halted. ground (
      arith,
      h.bound_answered
          (sym (status-work w c' Node.tool_execution ∙ decide-IsStep.continues n) ∙ halted),
      a,
    );
  }

  work-IsFair : (m : Node) → is_finish m ≡ false → c'.state.next ≡ some m → IsFair (work w m c')
  work-IsFair Node.local_llm more n = local_llm-IsFair (no_answer_yet Node.local_llm more n)
  work-IsFair Node.tool_execution more n =
      tool_execution-IsFair n (no_answer_yet Node.tool_execution more n)
  work-IsFair Node.finish more n = ground arith

-- A run that ends has composed at most one answer, and one that reports the step bound has composed
-- exactly one.
pub run_answers_once :
    {T : Type 0} (ops : TableOps Call T) (w : World) (p : IntentPayload) (user : String)
    (a : Attached) (store : Store Call T)
    → Ended IsFair (invoke ops w p user a store)
unfolding invoke initial_state
run_answers_once ops w p user a store =
    drive_inv ops w IsFair (Ended IsFair) tt tt (λ c c' h e n. end-IsFair ops w c c' h e n)
      (λ c c' m h more e n. work-IsFair ops w c c' h e m more n) recursion_limit
      (record { state = initial_state p user a; store = store; events = [] })
      (record { one_answer = omega arith; bound_answered = λ e. cc })
