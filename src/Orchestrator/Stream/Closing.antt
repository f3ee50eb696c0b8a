-- ===== src/Orchestrator/Stream/Closing.antt =====
-- How a run of orchestrator.py and its stream end.

use core_heartbeat.Prelude.{
  inl, String, ◌≡◌, refl, ap, ◌∙◌, List, [], ◌∷◌, ◌++◌, map, Option, none, some, true, all, concat,
  inr, ◌⊎◌,
}
use core_heartbeat.Orchestrator.Graph.{out_of_steps, node_raised, Ending, ended, RunState, outcome}
use core_heartbeat.Orchestrator.Stream.{
  Listener, Sent, Listener, stamp, closing, learned, error_status, status,
}
use core_heartbeat.Orchestrator.Stream.Listen.{text_of, calls_of, is_body, shown_call}
use core_heartbeat.Orchestrator.Stream.Quiet.{replies}
use core_heartbeat.Orchestrator.Stream.Agree.{Agrees, final_status_lem, stamp_fields}

-- The stream of a run that has ended: its body shows the replies of the run and tells of its tool
-- calls, its status is the one that the run reports, and the same reply is learned from.
pub record IsSame {T : Type 0} (c : RunState T) (r : List Sent × Option String) : Type 0 where
  pub body : List Sent
  pub then_status : r.0 ≡ body ++ (status (outcome (ended c)).status ∷ [])
  pub no_status : all is_body body ≡ true
  pub text : text_of body ≡ concat (replies c.state.messages)
  pub calls : calls_of body ≡ map shown_call c.events
  pub reply : r.1 ≡ learned (ended c)

-- The stream of a run that has not: an error after what was shown, and nothing is learned.
pub record IsCutOff (r : List Sent × Option String) : Type 0 where
  pub body : List Sent
  pub then_error : r.0 ≡ body ++ (error_status ∷ [])
  pub no_status : all is_body body ≡ true
  pub no_reply : r.1 ≡ none

abbrev pub Agreement : {T : Type 0} → Ending T → List Sent × Option String → Type 0
Agreement (ended c) r = IsSame c r
Agreement node_raised r = IsCutOff r
Agreement out_of_steps r = IsCutOff r

pub closed-IsSame :
    {T : Type 0} (c : RunState T) (l : Listener) → Agrees c l → IsSame c (closing (ended c) l)
unfolding closing learned
closed-IsSame c l a = record {
  body = l.sent;
  then_status =
      ap (λ (x : List Sent). x ++ (status (stamp (some c.state.status) l).final_status ∷ []))
        (stamp_fields (some c.state.status) l).0
      ∙ ap (λ x. l.sent ++ (status x ∷ [])) (final_status_lem c.state.status l a.stamped);
  no_status = a.body;
  text = a.text;
  calls = a.calls;
  reply = ap (λ x. some x) ((stamp_fields (some c.state.status) l).1 ∙ a.reply);
}

-- The two ways in which a stream is cut off.
pub raised-IsCutOff :
    {T : Type 0} (c : RunState T) (l : Listener)
    → Agrees c l
    → (e : Ending T) → (e ≡ node_raised) ⊎ (e ≡ out_of_steps)
    → Agreement e (closing e l)
unfolding closing
raised-IsCutOff c l a (ended c') (inl h) = cc
raised-IsCutOff c l a (ended c') (inr h) = cc
raised-IsCutOff c l a node_raised h = record {
  body = l.sent;
  then_error = refl;
  no_status = a.body;
  no_reply = refl;
}
raised-IsCutOff c l a out_of_steps h = record {
  body = l.sent;
  then_error = refl;
  no_status = a.body;
  no_reply = refl;
}
