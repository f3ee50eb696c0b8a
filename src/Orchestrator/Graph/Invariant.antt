-- ===== src/Orchestrator/Graph/Invariant.antt =====
-- Invariants of a run of orchestrator's graph, and what a worker leaves alone.
use core_heartbeat.Prelude.{
  ℕ, zero, suc, none, some, false, Bool-cases, inr, inl, Option-cases, arith, ◌≡◌, refl, ap, sym,
}
use core_heartbeat.PendingPlans.{TableOps}
use core_heartbeat.Orchestrator.State.{Call, Node, is_finish, merge}
use core_heartbeat.Orchestrator.World.{World}
use core_heartbeat.Orchestrator.Gate.{confirmation_given}
use core_heartbeat.Orchestrator.Supervisor.{supervisor}
use core_heartbeat.Orchestrator.Graph.{
  RunState, Ending, ended, node_raised, out_of_steps, decide, work, drive,
}
use core_heartbeat.Orchestrator.Graph.Reach.{decide-IsDecision, after_some}
use core_heartbeat.Orchestrator.Graph.Work.{local_llm-status, status_tools}
use core_heartbeat.Orchestrator.Graph.Bound.{drive-work, finish_is, drive_finish, drive_raised}

module _ {T : Type 0} (ops : TableOps Call T) (w : World) where
  pub drive_cut :
      (c c' : RunState T) (n : Node)
      → is_finish n ≡ false
      → decide ops w c ≡ some c'
      → c'.state.next ≡ some n
      → drive ops w (suc zero) none c ≡ out_of_steps
  unfolding drive
  drive_cut c c' Node.local_llm h e n = ground arith
  drive_cut c c' Node.tool_execution h e n = ground arith
  drive_cut c c' Node.finish h e n = cc

  module _ (Inv : RunState T → Type 0) (Post : Ending T → Type 0) (raised : Post node_raised)
      (cut : Post out_of_steps)
      (fin : (c c' : RunState T)
        → Inv c
        → decide ops w c ≡ some c'
        → c'.state.next ≡ some Node.finish
        → Post (ended c'))
      (on : (c c' : RunState T) (m : Node)
        → Inv c
        → is_finish m ≡ false
        → decide ops w c ≡ some c'
        → c'.state.next ≡ some m
        → Inv (work w m c')) where
    -- What holds at the supervisor, and after each worker at the next supervisor, gives what holds
    -- where the run ends.
    pub drive_inv : (f : ℕ) (c : RunState T) → Inv c → Post (drive ops w f none c)
    unfolding drive
    drive_inv zero c h = cut
    drive_inv (suc zero) c h = elim (Option-cases (decide ops w c)) [
      | inl e ↦ rw (drive_raised ops w zero c e) raised
      | inr (c', e) ↦
          let d = decide-IsDecision ops w c c' e in
          elim (Bool-cases (is_finish d.node)) [
            | inl done ↦
                rw (drive_finish ops w zero c c' e (finish_is d.node done d.next_node))
                  (fin c c' h e (finish_is d.node done d.next_node))
            | inr more ↦ rw (drive_cut c c' d.node more e d.next_node) cut
          ]
    ]
    drive_inv (suc (suc f)) c h = elim (Option-cases (decide ops w c)) [
      | inl e ↦ rw (drive_raised ops w (suc f) c e) raised
      | inr (c', e) ↦
          let d = decide-IsDecision ops w c c' e in
          elim (Bool-cases (is_finish d.node)) [
            | inl done ↦
                rw (drive_finish ops w (suc f) c c' e (finish_is d.node done d.next_node))
                  (fin c c' h e (finish_is d.node done d.next_node))
            | inr more ↦
                rw (drive-work ops w f c c' d.node more e d.next_node)
                  (drive_inv f (work w d.node c') (on c c' d.node h more e d.next_node))
          ]
    ]

-- The channels that no worker writes.
module _ {T : Type 0} (w : World) (c : RunState T) where
  pub status-work : (n : Node) → (work w n c).state.status ≡ c.state.status
  unfolding work
  status-work Node.local_llm = rw (local_llm-status w c.state)
  status-work Node.tool_execution = rw status_tools
  status-work Node.finish = refl

  pub user_id-work : (n : Node) → (work w n c).state.user_id ≡ c.state.user_id
  unfolding work
  user_id-work Node.local_llm = refl
  user_id-work Node.tool_execution = refl
  user_id-work Node.finish = refl

  pub confirmation-work :
      (n : Node) → confirmation_given (work w n c).state ≡ confirmation_given c.state
  unfolding work confirmation_given
  confirmation-work Node.local_llm = refl
  confirmation-work Node.tool_execution = refl
  confirmation-work Node.finish = refl

module _ {T : Type 0} (ops : TableOps Call T) (w : World) (c c' : RunState T) where
  pub user_id-decide : decide ops w c ≡ some c' → c'.state.user_id ≡ c.state.user_id
  unfolding decide merge
  user_id-decide e =
      let (u, store, o, m) = after_some c c' (supervisor ops w c.state c.store) e in
      ap (λ (d : RunState T). d.state.user_id) (sym m)

  pub confirmation-decide :
      decide ops w c ≡ some c' → confirmation_given c'.state ≡ confirmation_given c.state
  unfolding decide merge confirmation_given
  confirmation-decide e =
      let (u, store, o, m) = after_some c c' (supervisor ops w c.state c.store) e in
      ap (λ (d : RunState T). confirmation_given d.state) (sym m)
