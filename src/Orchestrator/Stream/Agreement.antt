-- ===== src/Orchestrator/Stream/Agreement.antt =====
-- `astream_run` against `run` of orchestrator.py, by induction over the nodes of a run.
use core_heartbeat.Orchestrator.Graph.Bound.{drive-work, finish_is, drive_finish, drive_raised}
use core_heartbeat.Orchestrator.Graph.Invariant.{drive_cut}
use core_heartbeat.Orchestrator.Supervisor.{supervisor}
use core_heartbeat.Orchestrator.Graph.Reach.{decide-IsDecision, decide_next, supervisor_finishes}
use core_heartbeat.Prelude.{
  inl, any, Option-cases, String, ◌≡◌, refl, sym, ap, ◌∙◌, List, [], ◌∷◌, ◌++◌, none, some, arith,
  false, append-nil, inr, ℕ, zero, suc, some_inj, Bool-cases,
}
use core_heartbeat.PendingPlans.{Store, TableOps}
use core_heartbeat.Orchestrator.State.{is_local, is_finish, Call, Node, GraphState, IntentPayload}
use core_heartbeat.Orchestrator.World.{World}
use core_heartbeat.Orchestrator.Compose.{generate_local}
use core_heartbeat.Orchestrator.Gate.{answered}
use core_heartbeat.Orchestrator.Graph.{
  out_of_steps, node_raised, decide, RunState, work, latest_local_reply, drive, invoke,
  initial_state, Attached, recursion_limit,
}
use core_heartbeat.Orchestrator.Stream.{
  Listener, zero, suc, ℕ, trace, supervisor_events, TableOps, Listener, listen, worker_events,
  closing, astream_run, first_listener, chain_start, GraphEvent,
}
use core_heartbeat.Orchestrator.Stream.Pieces.{IsUnbroken}
use core_heartbeat.Orchestrator.Stream.Listen.{listen-append}
use core_heartbeat.Orchestrator.Stream.Step.{
  local_llm-Agrees, tool_execution-Agrees, decided-Agrees, no_supervisor,
}
use core_heartbeat.Orchestrator.Stream.Trace.{trace_raised, trace_finish, trace-work, trace_cut}
use core_heartbeat.Orchestrator.Stream.Agree.{Agrees}
use core_heartbeat.Orchestrator.Stream.Closing.{Agreement, closed-IsSame, raised-IsCutOff}

module _ {T : Type 0} (ops : TableOps Call T) (w : World) where
  drive-none : (c : RunState T) → drive ops w zero none c ≡ out_of_steps
  unfolding drive
  drive-none c = refl

  trace-none : (c : RunState T) → trace ops w zero none c ≡ []
  unfolding trace
  trace-none c = refl

  listen_none : (l : Listener) → listen [] l ≡ l
  unfolding listen
  listen_none l = refl

  -- The listener after the supervisor's events.
  abbrev decided : RunState T → Listener → Listener
  decided c l = listen (supervisor_events (supervisor ops w c.state c.store)) l

  -- A worker that runs before there is an answer.
  work-Agrees :
      (c : RunState T) (l : Listener) (n : Node)
      → Agrees c l
      → IsUnbroken (generate_local c.state (w.ollama c.state))
      → answered c.state ≡ false
      → is_finish n ≡ false
      → Agrees (work w n c) (listen (worker_events w n c) l)
  work-Agrees c l Node.local_llm a u fresh more = local_llm-Agrees w c l a u fresh
  work-Agrees c l Node.tool_execution a u fresh more = tool_execution-Agrees w c l a fresh
  work-Agrees c l Node.finish a u fresh more = cc

  -- The supervisor goes on only where there is no answer.
  unanswered_on :
      (c c' : RunState T) (n : Node)
      → is_finish n ≡ false
      → decide ops w c ≡ some c'
      → c'.state.next ≡ some n
      → answered c'.state ≡ false
  unanswered_on c c' n more e next = elim (Bool-cases (answered c.state)) [
    | inl a ↦
        let f =
          decide_next ops w c c' Node.finish (supervisor_finishes ops w c.state c.store a) e in
        ground (arith, ap is_finish (some_inj (sym next ∙ f)), more)
    | inr a ↦ ap (any is_local) (decide-IsDecision ops w c c' e).same_visited ∙ a
  ]

  -- The start of a run, and of its stream.
  abbrev at_start : IntentPayload → String → Attached → Store Call T → RunState T
  at_start p user a store = record { state = initial_state p user a; store = store; events = [] }

  invoke_lem :
      (p : IntentPayload) (user : String) (a : Attached) (store : Store Call T)
      → invoke ops w p user a store ≡ drive ops w recursion_limit none (at_start p user a store)
  unfolding invoke
  invoke_lem p user a store = refl

  at_start-Agrees :
      (p : IntentPayload) (user : String) (a : Attached) (store : Store Call T)
      → Agrees (at_start p user a store) first_listener
  unfolding initial_state latest_local_reply
  at_start-Agrees p user a store = record {
    body = refl;
    text = refl;
    calls = refl;
    stamped = refl;
    reply = refl;
    unanswered = λ h. refl;
  }

  listen_root :
      (es : List GraphEvent) (l : Listener) → listen (chain_start "LangGraph" ∷ es) l ≡ listen es l
  unfolding listen
  listen_root es l = refl

  -- The rest of a run from a turn of the supervisor.
  abbrev Goal : ℕ → RunState T → Listener → Type 0
  Goal f c l =
      Agreement (drive ops w f none c)
        (closing (drive ops w f none c) (listen (trace ops w f none c) l))

  -- One turn, by what the supervisor does.
  turn :
      (f : ℕ) (c : RunState T) (l : Listener)
      → Agrees c l
      → ((c' : RunState T) (n : Node)
          → is_finish n ≡ false
          → decide ops w c ≡ some c'
          → c'.state.next ≡ some n
          → Agrees c' (decided c l)
          → Goal (suc f) c l)
      → Goal (suc f) c l
  turn f c l a on = elim (Option-cases (decide ops w c)) [
    | inl e ↦
        rw
          (
            drive_raised ops w f c e,
            trace_raised ops w f c e,
            append-nil (supervisor_events (supervisor ops w c.state c.store)),
            no_supervisor ops w c l e,
          )
          (raised-IsCutOff c l a node_raised (inl refl))
    | inr (c', e) ↦
        let d = decide-IsDecision ops w c c' e in
        let a' = decided-Agrees ops w c c' l a e in
        elim (Bool-cases (is_finish d.node)) [
          | inl done ↦
              let last = finish_is d.node done d.next_node in
              rw
                (
                  drive_finish ops w f c c' e last,
                  trace_finish ops w f c c' e last,
                  append-nil (supervisor_events (supervisor ops w c.state c.store)),
                )
                (closed-IsSame c' (decided c l) a')
          | inr more ↦ on c' d.node more e d.next_node a'
        ]
  ]

  module _ (unbroken : (s : GraphState) → IsUnbroken (generate_local s (w.ollama s))) where
    Agrees-Agreement : (f : ℕ) (c : RunState T) (l : Listener) → Agrees c l → Goal f c l
    Agrees-Agreement zero c l a =
        rw (drive-none c, trace-none c, listen_none l)
          (raised-IsCutOff c l a out_of_steps (inr refl))
    Agrees-Agreement (suc zero) c l a = turn zero c l a (λ c' n more e next a'.
        rw
          (
            drive_cut ops w c c' n more e next,
            trace_cut ops w c c' n more e next,
            append-nil (supervisor_events (supervisor ops w c.state c.store)),
          )
          (raised-IsCutOff c' (decided c l) a' out_of_steps (inr refl)))
    Agrees-Agreement (suc (suc f)) c l a = turn (suc f) c l a (λ c' n more e next a'.
        rw
          (
            drive-work ops w f c c' n more e next,
            trace-work ops w f c c' n more e next,
            listen-append (supervisor_events (supervisor ops w c.state c.store))
                (worker_events w n c' ++ trace ops w f none (work w n c')) l,
            listen-append (worker_events w n c') (trace ops w f none (work w n c')) (decided c l),
          )
          (Agrees-Agreement f (work w n c') (listen (worker_events w n c') (decided c l)) (
            work-Agrees c' (decided c l) n a' (unbroken c'.state) (unanswered_on c c' n more e next)
              more)))

    -- The streamed run tells what the run that is not streamed reports, where the local model's
    -- reply never breaks off after its first piece. If the run ends: the text shown is its
    -- replies, the calls told of are its tool calls in their order, exactly one status follows, which
    -- is the one that the run reports, and both learn from the same reply. If a node raises: an
    -- error follows what was shown, and nothing is learned.
    pub astream_run-Agreement :
        (p : IntentPayload) (user : String) (a : Attached) (store : Store Call T)
        → Agreement (invoke ops w p user a store) (astream_run ops w p user a store)
    unfolding astream_run
    astream_run-Agreement p user a store =
        rw
          (
            invoke_lem p user a store,
            listen_root (trace ops w recursion_limit none (at_start p user a store)) first_listener,
          )
          (Agrees-Agreement recursion_limit (at_start p user a store) first_listener
            (at_start-Agrees p user a store))
