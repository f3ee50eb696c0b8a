-- ===== src/Orchestrator/Graph/Reach.antt =====
-- What one node does to the step counter, the route and the visited nodes of orchestrator.GraphState.
use mathlib.Core.Path.{subst}
use core_heartbeat.Prelude.{
  append-nil, ◌≤◌, leb, le→leb, ◌≡◌, refl, true, false, Option, none, some, List, [], is_some,
  arith, Bool-cases, if_cases, not, inl, inr,
}
use core_heartbeat.PendingPlans.{TableOps, Store}
use core_heartbeat.Orchestrator.State.{
  merge, missing_credential, RoutingFailure, Call, Node, TokenUsage, RoutingDecision, GraphState,
  Update, no_usage, overwrite_next,
}
use core_heartbeat.Orchestrator.Graph.{after_supervisor, merge, decide, RunState}
use core_heartbeat.Prelude.{◌+◌}
use core_heartbeat.Orchestrator.World.{World, RoutingReply, failed, decided}
use core_heartbeat.Orchestrator.Gate.{answered, finished, finish_routing}
use core_heartbeat.Orchestrator.Supervisor.{
  step_bound, degraded, preferred, after_native, after_tool_args, after_attempts, supervisor,
  structured, native_path, attempts, decide_native, native_decision, max_routing_retries, max_steps,
}

-- A property of the update that a node returns; nothing is asked where the node raises.
abbrev pub Returns : {S : Type 0} → (Update → Type 0) → Option (Update × S) → Type 0
Returns P none = Unit
Returns P (some (u, s)) = P u

-- One step, to a node that exists.
pub record IsRouting (u : Update) : Type 0 where
  pub one_step : u.step ≡ 1
  pub routed_on : is_some u.next ≡ true
  pub no_visit : u.visited ≡ []

module _ {T : Type 0} (ops : TableOps Call T) (w : World) (s : GraphState)
    (store : Store Call T) where
  finish_routing-IsRouting :
      (d : RoutingDecision) (usage : TokenUsage) (calls : List Call)
      → IsRouting (finish_routing ops w s d usage calls store).0
  unfolding finish_routing
  finish_routing-IsRouting d usage calls = ground arith

  after_attempts-IsRouting : (r : RoutingReply) → IsRouting (after_attempts ops w s r store).0
  unfolding after_attempts
  after_attempts-IsRouting (failed f usage) = ground arith
  after_attempts-IsRouting (decided d usage) = finish_routing-IsRouting d usage []

  structured-IsRouting : IsRouting (structured ops w s store).0
  unfolding structured
  structured-IsRouting = after_attempts-IsRouting (attempts w s max_routing_retries 1 no_usage)

  after_tool_args-IsRouting :
      (d : Option RoutingDecision) (calls : List Call) (usage : TokenUsage)
      → Returns IsRouting (after_tool_args ops w s d calls usage store)
  unfolding after_tool_args
  after_tool_args-IsRouting none calls usage = tt
  after_tool_args-IsRouting (some d) calls usage = finish_routing-IsRouting d usage calls

  after_native-IsRouting :
      (r : Option (List Call × TokenUsage)) → Returns IsRouting (after_native ops w s r store)
  unfolding after_native
  after_native-IsRouting none = structured-IsRouting
  after_native-IsRouting (some (calls, usage)) =
      after_tool_args-IsRouting (native_decision w calls) calls usage

  native_path-IsRouting : Returns IsRouting (native_path ops w s store)
  unfolding native_path
  native_path-IsRouting = after_native-IsRouting (decide_native (w.native s))

  -- A property of every way that the supervisor can return, each with the tests that lead there.
  pub supervisor_cases :
      (P : Option (Update × Store Call T) → Type 0)
      → (leb max_steps s.step ≡ true → P (some (step_bound s, store)))
      → (answered s ≡ true
          → P (some (finished s.step no_usage "route -> finish (fast-path: answered)", store)))
      → (answered s ≡ false
          → (f : RoutingFailure) (u : TokenUsage) → P (some (degraded s.step f u, store)))
      → (answered s ≡ false → w.native_tool_calling ≡ true → P (native_path ops w s store))
      → (answered s ≡ false → w.native_tool_calling ≡ false → P (some (structured ops w s store)))
      → P (supervisor ops w s store)
  unfolding supervisor
  supervisor_cases P bound fast degrade native plain = if_cases P (leb max_steps s.step) bound λ _.
      if_cases P (answered s) fast λ a.
        if_cases P (not (w.has_client (preferred s.intent.model_preference)))
          (λ _. degrade a (record { category = missing_credential; detail = "no client" }) no_usage)
          λ _. if_cases P w.native_tool_calling (native a) (plain a)

  step_bound-IsRouting : IsRouting (step_bound s)
  unfolding step_bound
  step_bound-IsRouting = ground arith

  -- Every update of the supervisor adds one step and names the next node.
  pub supervisor-IsRouting : Returns IsRouting (supervisor ops w s store)
  unfolding finished degraded
  supervisor-IsRouting =
      supervisor_cases (Returns IsRouting) (λ _. step_bound-IsRouting)
        (λ _. record { one_step = refl; routed_on = refl; no_visit = refl })
        (λ _ f u. record { one_step = refl; routed_on = refl; no_visit = refl })
        (λ _ _. native_path-IsRouting) (λ _ _. structured-IsRouting)

  -- Once local_llm has answered, the supervisor finishes the run.
  pub supervisor_finishes :
      answered s ≡ true → Returns (λ u. u.next ≡ some Node.finish) (supervisor ops w s store)
  unfolding supervisor
  supervisor_finishes a = elim (Bool-cases (leb max_steps s.step)) [
    | inl e ↦ rw (e, a) refl
    | inr e ↦ rw (e, a) refl
  ]

  -- At the step bound, a run without an answer goes to local_llm.
  pub supervisor_composes :
      8 ≤ s.step
      → answered s ≡ false
      → Returns (λ u. u.next ≡ some Node.local_llm) (supervisor ops w s store)
  unfolding supervisor
  supervisor_composes e a = rw (le→leb 8 s.step e, a) refl

pub returned :
    {S : Type 0} (P : Update → Type 0) {o : Option (Update × S)} {u : Update} {s : S}
    → Returns P o
    → o ≡ some (u, s)
    → P u
returned P h e = subst (Returns P) e h

pub after_some :
    {T : Type 0} (c c' : RunState T) (o : Option (Update × Store Call T))
    → after_supervisor c o ≡ some c'
    → (u : Update) × (store : Store Call T) × (o ≡ some (u, store))
      × (record c { state = merge c.state u; store = store } ≡ c')
unfolding after_supervisor
after_some c c' none e = cc
after_some c c' (some (u, store)) e = (u, store, refl, cc)

-- A merge overwrites the route with the one that the update names.
next-merge : (s : GraphState) (u : Update) (n : Node) → u.next ≡ some n → (merge s u).next ≡ some n
unfolding merge
next-merge s u n e = rw e

next_overwritten :
    (old u : Option Node) (n : Node) → is_some u ≡ true → overwrite_next old u ≡ some n → u ≡ some n
next_overwritten old none n h e = cc
next_overwritten old (some m) n h e = e

-- The merged route is the one that an update names.
pub named_next :
    (s : GraphState) (u : Update) (n : Node)
    → is_some u.next ≡ true
    → (merge s u).next ≡ some n
    → u.next ≡ some n
unfolding merge
named_next s u n h e = next_overwritten s.next u.next n h e

step-merge : (s : GraphState) (u : Update) → u.step ≡ 1 → (merge s u).step ≡ s.step + 1
unfolding merge
step-merge s u e = rw e

visited-merge : (s : GraphState) (u : Update) → u.visited ≡ [] → (merge s u).visited ≡ s.visited
unfolding merge
visited-merge s u e = rw e (append-nil s.visited)

-- The supervisor's step: what it adds to the state, and that it names a next node.
pub record IsDecision {T : Type 0} (c c' : RunState T) : Type 0 where
  pub one_step : c'.state.step ≡ c.state.step + 1
  pub same_visited : c'.state.visited ≡ c.state.visited
  pub same_events : c'.events ≡ c.events
  pub node : Node
  pub next_node : c'.state.next ≡ some node

named : {A : Type 0} (o : Option A) → is_some o ≡ true → (a : A) × (o ≡ some a)
named none h = cc
named (some a) h = (a, refl)

module _ {T : Type 0} (ops : TableOps Call T) (w : World) (c c' : RunState T) where
  pub decide-IsDecision : decide ops w c ≡ some c' → IsDecision c c'
  unfolding decide
  decide-IsDecision e =
      let (u, store, o, m) = after_some c c' (supervisor ops w c.state c.store) e in
      let r = returned IsRouting (supervisor-IsRouting ops w c.state c.store) o in
      let (n, next) = named u.next r.routed_on in
      subst (IsDecision c) m (record {
        one_step = step-merge c.state u r.one_step;
        same_visited = visited-merge c.state u r.no_visit;
        same_events = refl;
        node = n;
        next_node = next-merge c.state u n next;
      })

  -- A property of the supervisor's update that fixes the next node fixes it in the state.
  pub decide_next :
      (n : Node)
      → Returns (λ u. u.next ≡ some n) (supervisor ops w c.state c.store)
      → decide ops w c ≡ some c'
      → c'.state.next ≡ some n
  unfolding decide
  decide_next n h e =
      let (u, store, o, m) = after_some c c' (supervisor ops w c.state c.store) e in
      subst (λ (d : RunState T). d.state.next ≡ some n) m
        (next-merge c.state u n (returned (λ (u : Update). u.next ≡ some n) h o))
