-- ===== src/Orchestrator/Graph/Bound.antt =====
-- Termination of orchestrator.run: the graph ends within the recursion limit.
use core_heartbeat.Orchestrator.Graph.Reach.{
  supervisor_composes, supervisor_finishes, decide_next, decide-IsDecision,
}
use core_heartbeat.Orchestrator.Graph.Work.{answered-work, step-work}
use Prim.Native.Nat.{zero}
use core_heartbeat.Orchestrator.Gate.{answered}
use core_heartbeat.Prelude.{
  refl, ◌∙◌, sym, inr, ◌*◌, inl, Option-cases, ◌+◌, ◌≤◌, Bool-cases, ℕ, suc, ◌≡◌, false, none, some,
  arith,
}
use core_heartbeat.PendingPlans.{TableOps}
use core_heartbeat.Orchestrator.State.{Call, Node, is_finish}
use core_heartbeat.Orchestrator.World.{World}
use core_heartbeat.Orchestrator.Graph.{
  [], Store, out_of_steps, Attached, String, IntentPayload, initial_state, true, invoke, Ending,
  Option, RunState, ended, node_raised, work, decide, drive,
}

module _ {T : Type 0} (ops : TableOps Call T) (w : World) where
  -- The three ways on from the supervisor.
  pub drive_raised :
      (f : ℕ) (c : RunState T) → decide ops w c ≡ none → drive ops w (suc f) none c ≡ node_raised
  unfolding drive
  drive_raised f c e = ground arith

  pub drive_finish :
      (f : ℕ) (c c' : RunState T)
      → decide ops w c ≡ some c'
      → c'.state.next ≡ some Node.finish
      → drive ops w (suc f) none c ≡ ended c'
  unfolding drive
  drive_finish f c c' e n = ground arith

  pub drive-work :
      (f : ℕ) (c c' : RunState T) (n : Node)
      → is_finish n ≡ false
      → decide ops w c ≡ some c'
      → c'.state.next ≡ some n
      → drive ops w (suc (suc f)) none c ≡ drive ops w f none (work w n c')
  unfolding drive
  drive-work f c c' Node.local_llm h e n = ground arith
  drive-work f c c' Node.tool_execution h e n = ground arith
  drive-work f c c' Node.finish h e n = cc

pub finish_is :
    {o : Option Node} (n : Node) → is_finish n ≡ true → o ≡ some n → o ≡ some Node.finish
finish_is Node.local_llm h e = cc
finish_is Node.tool_execution h e = cc
finish_is Node.finish h e = e

same_node : {m n : Node} → some m ≡ some n → m ≡ n
same_node e = cc

more_fuel : (k f : ℕ) → 2 * suc k + f ≡ suc (suc (2 * k + f))
more_fuel k f = omega arith

-- How a run may end: after at most eleven steps, or with a node that raised; never for want of steps.
abbrev pub EndsWithin : {T : Type 0} → ℕ → Ending T → Type 0
EndsWithin n (ended c) = c.state.step ≤ n
EndsWithin n node_raised = Unit
EndsWithin n out_of_steps = ⊥

module _ {T : Type 0} (ops : TableOps Call T) (w : World) where
  -- One turn of the loop, by what the supervisor does.
  pub turn :
      (f n : ℕ) (c : RunState T)
      → c.state.step + 1 ≤ n
      → ((c' : RunState T) (m : Node)
          → is_finish m ≡ false
          → decide ops w c ≡ some c'
          → c'.state.next ≡ some m
          → EndsWithin n (drive ops w f none (work w m c')))
      → EndsWithin n (drive ops w (suc (suc f)) none c)
  turn f n c room on = elim (Option-cases (decide ops w c)) [
    | inl e ↦ rw (drive_raised ops w (suc f) c e) tt
    | inr (c', e) ↦
        let d = decide-IsDecision ops w c c' e in
        elim (Bool-cases (is_finish d.node)) [
          | inl fin ↦
              rw (drive_finish ops w (suc f) c c' e (finish_is d.node fin d.next_node))
                (omega (arith, d.one_step))
          | inr more ↦
              rw (drive-work ops w f c c' d.node more e d.next_node)
                (on c' d.node more e d.next_node)
        ]
  ]

  answered_turn :
      (f n : ℕ) (c : RunState T)
      → answered c.state ≡ true
      → c.state.step + 1 ≤ n
      → EndsWithin n (drive ops w (suc f) none c)
  answered_turn f n c a room = elim (Option-cases (decide ops w c)) [
    | inl e ↦ rw (drive_raised ops w f c e) tt
    | inr (c', e) ↦
        let d = decide-IsDecision ops w c c' e in
        rw
          (drive_finish ops w f c c' e
            (decide_next ops w c c' Node.finish (supervisor_finishes ops w c.state c.store a) e))
          (omega (arith, d.one_step))
  ]

  bound_turn :
      (f : ℕ) (c : RunState T)
      → c.state.step ≡ 8
      → EndsWithin 11 (drive ops w (suc (suc (suc f))) none c)
  bound_turn f c at = elim (Bool-cases (answered c.state)) [
    | inl a ↦ answered_turn (suc (suc f)) 11 c a (omega arith)
    | inr a ↦ turn (suc f) 11 c (omega arith) (λ c' m more e next.
        let l =
          decide_next ops w c c' Node.local_llm
            (supervisor_composes ops w c.state c.store (omega arith) a) e in
        let d = decide-IsDecision ops w c c' e in
        rw (same_node (sym next ∙ l)) (
          answered_turn f 11 (work w Node.local_llm c') (answered-work w c')
            (omega (arith, at, d.one_step, step-work w c' Node.local_llm refl))))
  ]

  rounds :
      (k f : ℕ) (c : RunState T)
      → c.state.step + 2 * k ≡ 8
      → EndsWithin 11 (drive ops w (suc (suc (suc (2 * k + f)))) none c)
  rounds zero f c at = bound_turn (2 * zero + f) c (omega (arith, at))
  rounds (suc k) f c at = rw (more_fuel k f) (
      turn (suc (suc (suc (2 * k + f)))) 11 c (omega (arith, at)) λ c' m more e next.
        rounds k f (work w m c')
          (omega (arith, at, (decide-IsDecision ops w c c' e).one_step, step-work w c' m more)))

  -- Every run of the graph from the initial state ends within eleven steps of the supervisor and the
  -- workers together, or with a node that raised: LangGraph's recursion limit of 25 is never
  -- met, whatever the model answers, the tools return and the user asks.
  pub invoke_terminates :
      (p : IntentPayload) (user : String) (a : Attached) (store : Store Call T)
      → EndsWithin 11 (invoke ops w p user a store)
  unfolding invoke initial_state
  invoke_terminates p user a store =
      rounds 4 14 (record { state = initial_state p user a; store = store; events = [] }) refl
