-- ===== src/Orchestrator/Stream/Step.antt =====
-- Each worker of orchestrator.py keeps what its stream and its run agree on, and so does the turn of
-- the supervisor.
use core_heartbeat.Orchestrator.Supervisor.{supervisor}
use mathlib.Core.Path.{subst}
use core_heartbeat.Orchestrator.Graph.Reach.{decide-IsDecision, after_some, returned}
use mathlib.Core.List.{map-append}
use Prim.Native.String.{◌++◌ as str_append}
use core_heartbeat.Prelude.{
  all-append, inl, any, Option-cases, String, ◌≡◌, refl, sym, ap, ◌∙◌, List, [], ◌∷◌, ◌++◌, map,
  none, some, arith, true, false, all, concat, append-nil, str_append-nil, str_nil-append, inr,
}
use core_heartbeat.PendingPlans.{TableOps}
use core_heartbeat.Orchestrator.State.{is_local, Call, Node, GraphState, Update, merge, overwrite}
use core_heartbeat.Orchestrator.World.{World}
use core_heartbeat.Orchestrator.Compose.{generate_local}
use core_heartbeat.Orchestrator.Gate.{answered}
use core_heartbeat.Orchestrator.Tools.{tool_execution, ToolEvent}
use core_heartbeat.Orchestrator.Worker.{local_llm, emitted}
use core_heartbeat.Orchestrator.Graph.{
  after_supervisor, decide, RunState, work, or_completed, latest_local_reply,
}
use core_heartbeat.Orchestrator.Graph.Work.{local_llm-status, status_tools, answered-work}
use core_heartbeat.Orchestrator.Stream.{
  Listener, supervisor_events, TableOps, Listener, listen, worker_events,
}
use core_heartbeat.Orchestrator.Stream.Pieces.{IsUnbroken, local_message, local_llm-IsReply}
use core_heartbeat.Orchestrator.Stream.Listen.{
  supervisor_heard, text_of, calls_of, is_body, text_of-append, calls_of-append, shown_call,
  tools_heard, Says,
}
use core_heartbeat.Orchestrator.Stream.Replied.{local_heard, Replies, remembered}
use core_heartbeat.Orchestrator.Stream.Quiet.{
  supervisor-IsQuiet, is_quiet, is_stamp, IsQuiet, tools-quiet, replies, replies-append,
  replies-quiet, latest-quiet, latest_first,
}
use core_heartbeat.Orchestrator.Stream.Agree.{Agrees, replies_stay, supervisor-Agrees}

-- A reply joins those before it.
text-joined :
    (s : GraphState) (u : Update) (text before : String)
    → before ≡ concat (replies s.messages)
    → all is_quiet s.messages ≡ true
    → u.messages ≡ local_message s text ∷ []
    → str_append before text ≡ concat (replies (merge s u).messages)
unfolding merge
text-joined s u text before e q one =
    ap (λ x. str_append x text) (e ∙ ap concat (replies-quiet s.messages q))
    ∙ str_nil-append text
    ∙ sym (str_append-nil text)
    ∙ sym (
        ap concat (
          replies-append s.messages u.messages
          ∙ ap (λ (x : List String). x ++ replies u.messages) (replies-quiet s.messages q)
          ∙ ap replies one))

-- The first reply of a run.
replied-Agrees :
    {T : Type 0} (c : RunState T) (l l' : Listener) (u : Update) (text : String)
    → Agrees c l
    → answered c.state ≡ false
    → answered (merge c.state u) ≡ true
    → u.messages ≡ local_message c.state text ∷ []
    → u.status ≡ none
    → Replies l l' text
    → Agrees (record c { state = merge c.state u }) l'
unfolding merge
replied-Agrees c l l' u text a fresh now one no_status h = record {
  body =
      ap (all is_body) h.all_sent
      ∙ all-append is_body l.sent h.sent
      ∙ ground (arith, a.body, h.body_sent);
  text =
      ap text_of h.all_sent
      ∙ text_of-append l.sent h.sent
      ∙ ap (str_append (text_of l.sent)) h.text_sent
      ∙ text-joined c.state u text (text_of l.sent) a.text (a.unanswered fresh) one;
  calls =
      ap calls_of h.all_sent
      ∙ calls_of-append l.sent h.sent
      ∙ ap (λ (x : List (Call × String)). calls_of l.sent ++ x) h.calls_sent
      ∙ append-nil (calls_of l.sent)
      ∙ a.calls;
  stamped =
      h.same_status
      ∙ a.stamped
      ∙ sym (ap (λ x. or_completed (overwrite c.state.status x)) no_status);
  reply =
      h.reply
      ∙ ap (remembered text) a.reply
      ∙ sym (latest_first c.state c.state.messages text (a.unanswered fresh))
      ∙ sym (ap (λ x. latest_local_reply (c.state.messages ++ x)) one);
  unanswered = λ e. cc;
}

pub local_llm-Agrees :
    {T : Type 0} (w : World) (c : RunState T) (l : Listener)
    → Agrees c l
    → IsUnbroken (generate_local c.state (w.ollama c.state))
    → answered c.state ≡ false
    → Agrees (work w Node.local_llm c) (listen (worker_events w Node.local_llm c) l)
unfolding work worker_events
local_llm-Agrees w c l a unbroken fresh =
    let r = local_llm-IsReply w c.state unbroken in
    replied-Agrees c l _ (local_llm w c.state) r.text a fresh (answered-work w c) r.one_message
      (local_llm-status w c.state)
      (local_heard c.state (emitted w c.state) r.text (local_llm w c.state) l r.shown r.one_message
        (local_llm-status w c.state))

-- Tool calls are told of as they are made.
tools-Agrees :
    {T : Type 0} (c : RunState T) (l l' : Listener) (u : Update) (es : List ToolEvent)
    → Agrees c l
    → all is_quiet u.messages ≡ true
    → u.status ≡ none
    → (answered (merge c.state u) ≡ false → answered c.state ≡ false)
    → Says l l' "" (map shown_call es)
    → Agrees (record c { state = merge c.state u; events = c.events ++ es }) l'
unfolding merge
tools-Agrees c l l' u es a quiet no_status same h = record {
  body =
      ap (all is_body) h.all_sent
      ∙ all-append is_body l.sent h.sent
      ∙ ground (arith, a.body, h.body_sent);
  text =
      ap text_of h.all_sent
      ∙ text_of-append l.sent h.sent
      ∙ ap (str_append (text_of l.sent)) h.text_sent
      ∙ str_append-nil (text_of l.sent)
      ∙ a.text
      ∙ ap concat (
          sym
            (replies_stay c.state u (record { no_reply = quiet; stamps = ap is_stamp no_status })));
  calls =
      ap calls_of h.all_sent
      ∙ calls_of-append l.sent h.sent
      ∙ ap (λ (x : List (Call × String)). calls_of l.sent ++ x) h.calls_sent
      ∙ ap (λ (x : List (Call × String)). x ++ map shown_call es) a.calls
      ∙ sym (map-append shown_call c.events es);
  stamped =
      h.same_status
      ∙ a.stamped
      ∙ sym (ap (λ x. or_completed (overwrite c.state.status x)) no_status);
  reply = h.same_reply ∙ a.reply ∙ sym (latest-quiet c.state.messages u.messages quiet);
  unanswered = λ e.
      all-append is_quiet c.state.messages u.messages
      ∙ ground (arith, a.unanswered (same e), quiet);
}

pub tool_execution-Agrees :
    {T : Type 0} (w : World) (c : RunState T) (l : Listener)
    → Agrees c l
    → answered c.state ≡ false
    → Agrees (work w Node.tool_execution c) (listen (worker_events w Node.tool_execution c) l)
unfolding work worker_events
tool_execution-Agrees w c l a fresh =
    let es = (tool_execution w c.state).1 in
    let u = (tool_execution w c.state).0 in
    tools-Agrees c l _ u es a (tools-quiet w c.state es) (status_tools w c.state es) (λ _. fresh)
      (tools_heard es u l (status_tools w c.state es))

-- The supervisor's part: what it makes of a run and of a listener.
pub decided-Agrees :
    {T : Type 0} (ops : TableOps Call T) (w : World) (c c' : RunState T) (l : Listener)
    → Agrees c l
    → decide ops w c ≡ some c'
    → Agrees c' (listen (supervisor_events (supervisor ops w c.state c.store)) l)
unfolding decide
decided-Agrees ops w c c' l a e =
    let (u, store, o, m) = after_some c c' (supervisor ops w c.state c.store) e in
    let same = ap (any is_local) (decide-IsDecision ops w c c' e).same_visited in
    subst (λ x. Agrees x (listen (supervisor_events (supervisor ops w c.state c.store)) l)) m
      (subst (Agrees (record c { state = merge c.state u; store = store }))
        (sym (ap (λ x. listen (supervisor_events x) l) o ∙ supervisor_heard u store l))
        (supervisor-Agrees c l u store a
          (returned IsQuiet (supervisor-IsQuiet ops w c.state c.store) o)
          (ap (λ (x : RunState _). answered x.state) m ∙ same)))

pub no_supervisor :
    {T : Type 0} (ops : TableOps Call T) (w : World) (c : RunState T) (l : Listener)
    → decide ops w c ≡ none
    → listen (supervisor_events (supervisor ops w c.state c.store)) l ≡ l
unfolding decide after_supervisor listen
no_supervisor ops w c l e = elim (Option-cases (supervisor ops w c.state c.store)) [
  | inl o ↦ rw o refl
  | inr ((u, store), o) ↦ cc (sym e ∙ ap (after_supervisor c) o)
]
