-- ===== src/Orchestrator/Stream/Replied.antt =====
-- What the loop of `astream_run` makes of the events of local_llm.
use text.Mathlib.Text.{starts_with}
use core_heartbeat.Orchestrator.Worker.{failure_prefix}
use core_heartbeat.Orchestrator.Stream.Pieces.{local_message, Shown}
use mathlib.Core.Path.{subst}
use Prim.Native.String.{◌++◌ as str_append}
use core_heartbeat.Prelude.{
  inr, inl, Bool-cases, String, ◌≡◌, refl, sym, ap, ◌∙◌, List, [], ◌∷◌, ◌++◌, map, none, some,
  arith, true, false, is_empty, all, concat, str_append-nil, str_nil-append, if◌then◌else◌, str_eq,
  eq_iff, ◌⊎◌,
}
use core_heartbeat.Orchestrator.State.{GraphState, Node, Update}
use core_heartbeat.Orchestrator.Stream.{
  learn, on_message, surface, local_token, chain_end, Sent, token, Listener, listen, stamp, say,
  node_events, output_of, on_messages,
}
use core_heartbeat.Orchestrator.Stream.Listen.{
  Says, Says-trans, tokens_said, tokens_flag, text_of, calls_of, is_body, listen-append,
}

-- The reply to learn from, after a message with the text.
abbrev pub remembered : String → String → String
remembered text old =
    if str_eq text "" then old else if starts_with text failure_prefix then old else text

-- A reply has been shown: its text, no call and no status, and it is remembered.
pub record Replies (l l' : Listener) (text : String) : Type 0 where
  pub sent : List Sent
  pub all_sent : l'.sent ≡ l.sent ++ sent
  pub text_sent : text_of sent ≡ text
  pub calls_sent : calls_of sent ≡ []
  pub body_sent : all is_body sent ≡ true
  pub same_status : l'.final_status ≡ l.final_status
  pub reply : l'.last_local_reply ≡ remembered text l.last_local_reply

-- Learning changes the reply only.
learn_fields :
    (text : String) (m : Listener)
    → ((learn text m).sent ≡ m.sent) × ((learn text m).final_status ≡ m.final_status)
learn_fields text m = ground arith

learn_reply :
    (text : String) (l m : Listener)
    → str_eq text "" ≡ false
    → m.last_local_reply ≡ l.last_local_reply
    → (learn text m).last_local_reply ≡ remembered text l.last_local_reply
learn_reply text l m full e = ground (arith, full, e)

-- What has been said is the reply, and it is learned.
said-Replies :
    (l m : Listener) (t text : String)
    → Says l m t []
    → t ≡ text
    → str_eq text "" ≡ false
    → Replies l (learn text m) text
said-Replies l m t text h e full = record {
  sent = h.sent;
  all_sent = (learn_fields text m).0 ∙ h.all_sent;
  text_sent = h.text_sent ∙ e;
  calls_sent = h.calls_sent;
  body_sent = h.body_sent;
  same_status = (learn_fields text m).1 ∙ h.same_status;
  reply = learn_reply text l m full h.same_reply;
}

silent-Replies :
    (l m : Listener) (t text : String)
    → Says l m t []
    → t ≡ text
    → str_eq text "" ≡ true
    → Replies l m text
silent-Replies l m t text h e empty = record {
  sent = h.sent;
  all_sent = h.all_sent;
  text_sent = h.text_sent ∙ e;
  calls_sent = h.calls_sent;
  body_sent = h.body_sent;
  same_status = h.same_status;
  reply = rw empty h.same_reply;
}

surface-learn :
    (text : String) (m : Listener)
    → m.streamed_local_tokens ≡ false
    → surface text (learn text m) ≡ learn text (say (token text) m)
surface-learn text m e = ground arith

surface-learn_shown :
    (text : String) (m : Listener)
    → m.streamed_local_tokens ≡ true
    → surface text (learn text m) ≡ learn text m
surface-learn_shown text m e = ground arith

Says-say : (piece : String) (l : Listener) → Says l (say (token piece) l) piece []
Says-say piece l = record {
  sent = token piece ∷ [];
  all_sent = refl;
  text_sent = str_append-nil piece;
  calls_sent = refl;
  body_sent = refl;
  same_status = refl;
  same_reply = refl;
}

nothing_before :
    (ps : List String) (text : String) → is_empty ps ≡ true → str_append (concat ps) text ≡ text
nothing_before [] text h = str_nil-append text
nothing_before (p ∷ ps) text h = cc

-- The flag alone does not matter.
fresh_Replies :
    (l l' : Listener) (text : String)
    → Replies (record l { streamed_local_tokens = false }) l' text
    → Replies l l' text
fresh_Replies l l' text r = record {
  sent = r.sent;
  all_sent = r.all_sent;
  text_sent = r.text_sent;
  calls_sent = r.calls_sent;
  body_sent = r.body_sent;
  same_status = r.same_status;
  reply = r.reply;
}

-- What is shown of an empty text, or by some pieces, is the text.
shown_text :
    (ps : List String) (text : String)
    → Shown ps text
    → (str_eq text "" ≡ true) ⊎ (is_empty ps ≡ false)
    → concat ps ≡ text
shown_text [] text (inl e) (inl empty) = sym ((eq_iff text "").0 empty)
shown_text [] text (inl e) (inr full) = cc
shown_text (p ∷ ps) text (inl e) h = cc
shown_text ps text (inr e) h = e

-- The message of local_llm after its pieces.
message-Replies :
    (s : GraphState) (ps : List String) (text : String) (l : Listener)
    → Shown ps text
    → l.streamed_local_tokens ≡ false
    → Replies l (on_message (local_message s text) (listen (map local_token ps) l)) text
unfolding on_message
message-Replies s ps text l h fresh = elim (Bool-cases (str_eq text "")) [
  | inl empty ↦
      rw empty (silent-Replies l m (concat ps) text said (shown_text ps text h (inl empty)) empty)
  | inr full ↦ rw full (elim (Bool-cases (is_empty ps)) [
    | inl none_sent ↦
        rw (surface-learn text m (tokens_flag ps l ∙ ground (arith, none_sent, fresh))) (
          said-Replies l (say (token text) m) (str_append (concat ps) text) text
            (Says-trans said (Says-say text m)) (nothing_before ps text none_sent) full)
    | inr some_sent ↦
        rw (surface-learn_shown text m (tokens_flag ps l ∙ ground (arith, some_sent)))
          (said-Replies l m (concat ps) text said (shown_text ps text h (inr some_sent)) full)
  ])
]
  where
    m : Listener
    m = listen (map local_token ps) l

    said : Says l m (concat ps) []
    said = tokens_said ps l

-- The events of local_llm, whose update is one message and no status.
pub local_heard :
    (s : GraphState) (ps : List String) (text : String) (u : Update) (l : Listener)
    → Shown ps text
    → u.messages ≡ local_message s text ∷ []
    → u.status ≡ none
    → Replies l (listen (node_events Node.local_llm (map local_token ps) u) l) text
unfolding listen
local_heard s ps text u l h one no_status =
    let fresh = record l { streamed_local_tokens = false } in
    subst (λ x. Replies l x text)
      (sym (
        listen-append (map local_token ps) (chain_end "local_llm" (some (output_of u)) ∷ []) fresh
        ∙ ap (λ x. stamp x (on_messages u.messages (listen (map local_token ps) fresh))) no_status
        ∙ ap (λ x. on_messages x (listen (map local_token ps) fresh)) one))
      (fresh_Replies l _ text (message-Replies s ps text fresh h refl))
