-- ===== src/Orchestrator/Stream/Agree.antt =====
-- What the stream and the run of orchestrator.py agree on, and that the supervisor keeps it.

use core_heartbeat.Prelude.{
  all-append, String, ◌≡◌, refl, sym, ap, ◌∙◌, List, ◌++◌, map, Option, none, some, arith, true,
  false, all, concat, append-nil,
}
use core_heartbeat.PendingPlans.{Store}
use core_heartbeat.Orchestrator.State.{Call, Status, unset, GraphState, Update, merge, overwrite}
use core_heartbeat.Orchestrator.Gate.{answered}
use core_heartbeat.Orchestrator.Graph.{RunState, or_completed, latest_local_reply}
use core_heartbeat.Orchestrator.Stream.{Listener, Listener, stamp}
use core_heartbeat.Orchestrator.Stream.Listen.{text_of, calls_of, is_body, shown_call}
use core_heartbeat.Orchestrator.Stream.Quiet.{
  is_quiet, is_stamp, IsQuiet, replies, replies-append, replies-quiet, latest-quiet,
}

-- The stream so far and the run so far tell the same.
pub record Agrees {T : Type 0} (c : RunState T) (l : Listener) : Type 0 where
  pub body : all is_body l.sent ≡ true
  pub text : text_of l.sent ≡ concat (replies c.state.messages)
  pub calls : calls_of l.sent ≡ map shown_call c.events
  pub stamped : l.final_status ≡ or_completed c.state.status
  pub reply : l.last_local_reply ≡ latest_local_reply c.state.messages
  pub unanswered : answered c.state ≡ false → all is_quiet c.state.messages ≡ true

stamped_lem :
    (o : Option Status) (old : Status) (l : Listener)
    → is_stamp o ≡ true
    → l.final_status ≡ or_completed old
    → (stamp o l).final_status ≡ or_completed (overwrite old o)
stamped_lem none old l h e = e
stamped_lem (some unset) old l h e = cc
stamped_lem (some Status.completed) old l h e = refl
stamped_lem (some Status.halted_step_bound) old l h e = refl
stamped_lem (some Status.degraded) old l h e = refl
stamped_lem (some Status.error) old l h e = refl

-- The final state stamps the status that it holds.
pub final_status_lem :
    (x : Status) (l : Listener)
    → l.final_status ≡ or_completed x
    → (stamp (some x) l).final_status ≡ or_completed x
final_status_lem unset l e = e
final_status_lem Status.completed l e = refl
final_status_lem Status.halted_step_bound l e = refl
final_status_lem Status.degraded l e = refl
final_status_lem Status.error l e = refl

-- A stamp changes the status only.
pub stamp_fields :
    (o : Option Status) (l : Listener)
    → ((stamp o l).sent ≡ l.sent) × ((stamp o l).last_local_reply ≡ l.last_local_reply)
stamp_fields none l = (refl, refl)
stamp_fields (some unset) l = (refl, refl)
stamp_fields (some Status.completed) l = (refl, refl)
stamp_fields (some Status.halted_step_bound) l = (refl, refl)
stamp_fields (some Status.degraded) l = (refl, refl)
stamp_fields (some Status.error) l = (refl, refl)

pub replies_stay :
    (s : GraphState) (u : Update) → IsQuiet u → replies (merge s u).messages ≡ replies s.messages
unfolding merge
replies_stay s u q =
    replies-append s.messages u.messages
    ∙ ap (λ (x : List String). replies s.messages ++ x) (replies-quiet u.messages q.no_reply)
    ∙ append-nil (replies s.messages)

-- The supervisor's update and its events.
pub supervisor-Agrees :
    {T : Type 0} (c : RunState T) (l : Listener) (u : Update) (store : Store Call T)
    → Agrees c l
    → IsQuiet u
    → answered (merge c.state u) ≡ answered c.state
    → Agrees (record c { state = merge c.state u; store = store }) (stamp u.status l)
unfolding merge
supervisor-Agrees c l u store a q same = record {
  body = ap (all is_body) (stamp_fields u.status l).0 ∙ a.body;
  text =
      ap text_of (stamp_fields u.status l).0 ∙ a.text ∙ ap concat (sym (replies_stay c.state u q));
  calls = ap calls_of (stamp_fields u.status l).0 ∙ a.calls;
  stamped = stamped_lem u.status c.state.status l q.stamps a.stamped;
  reply =
      (stamp_fields u.status l).1
      ∙ a.reply
      ∙ sym (latest-quiet c.state.messages u.messages q.no_reply);
  unanswered = λ h.
      all-append is_quiet c.state.messages u.messages
      ∙ ground (arith, a.unanswered (sym same ∙ h), q.no_reply);
}
