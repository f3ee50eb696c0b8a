-- ===== src/Orchestrator/Stream/Listen.antt =====
-- What the loop of `astream_run` makes of the events of one node.
use mathlib.Core.Path.{subst}
use Prim.Native.String.{◌++◌ as str_append}
use core_heartbeat.Prelude.{
  String, Bool, ◌≡◌, refl, sym, ap, ◌∙◌, List, [], ◌∷◌, ◌++◌, map, none, some, arith, true, false,
  not, is_empty, all, concat, append-nil, append_assoc, str_append-nil, str_append_assoc, or-true,
  ◌||◌, str_nil-append, all-append,
}
use core_heartbeat.PendingPlans.{Store}
use core_heartbeat.Orchestrator.State.{Call, Node, Update}
use core_heartbeat.Orchestrator.Tools.{ToolEvent}
use core_heartbeat.Orchestrator.Stream.{
  GraphEvent, local_token, tool_ran, chain_end, Sent, token, tool_call, Listener, listen, stamp,
  say, node_events, supervisor_events, output_of,
}

-- The text that the client has been shown.
abbrev pub text_of : List Sent → String
text_of [] = ""
text_of (token piece ∷ xs) = str_append piece (text_of xs)
text_of (tool_call c result ∷ xs) = text_of xs
text_of (Sent.status s ∷ xs) = text_of xs
text_of (Sent.error_status ∷ xs) = text_of xs

-- The tool calls that it has been told of.
abbrev pub calls_of : List Sent → List (Call × String)
calls_of [] = []
calls_of (token piece ∷ xs) = calls_of xs
calls_of (tool_call c result ∷ xs) = (c, result) ∷ calls_of xs
calls_of (Sent.status s ∷ xs) = calls_of xs
calls_of (Sent.error_status ∷ xs) = calls_of xs

abbrev pub is_body : Sent → Bool
is_body (token piece) = true
is_body (tool_call c result) = true
is_body (Sent.status s) = false
is_body Sent.error_status = false

pub text_of-append : (xs ys : List Sent) → text_of (xs ++ ys) ≡ str_append (text_of xs) (text_of ys)
text_of-append [] ys = sym (str_nil-append (text_of ys))
text_of-append (token piece ∷ xs) ys =
    ap (str_append piece) (text_of-append xs ys)
    ∙ sym (str_append_assoc piece (text_of xs) (text_of ys))
text_of-append (tool_call c result ∷ xs) ys = text_of-append xs ys
text_of-append (Sent.status s ∷ xs) ys = text_of-append xs ys
text_of-append (Sent.error_status ∷ xs) ys = text_of-append xs ys

pub calls_of-append : (xs ys : List Sent) → calls_of (xs ++ ys) ≡ calls_of xs ++ calls_of ys
calls_of-append [] ys = refl
calls_of-append (token piece ∷ xs) ys = calls_of-append xs ys
calls_of-append (tool_call c result ∷ xs) ys = ap (λ zs. (c, result) ∷ zs) (calls_of-append xs ys)
calls_of-append (Sent.status s ∷ xs) ys = calls_of-append xs ys
calls_of-append (Sent.error_status ∷ xs) ys = calls_of-append xs ys

pub listen-append :
    (xs ys : List GraphEvent) (l : Listener) → listen (xs ++ ys) l ≡ listen ys (listen xs l)
unfolding listen
listen-append [] ys l = refl
listen-append (x ∷ xs) ys l = listen-append xs ys _

-- What one event or more have sent: a text, calls, and no status; the rest of the loop's variables
-- but the flag is as it was.
pub record Says (l l' : Listener) (text : String) (calls : List (Call × String)) : Type 0 where
  pub sent : List Sent
  pub all_sent : l'.sent ≡ l.sent ++ sent
  pub text_sent : text_of sent ≡ text
  pub calls_sent : calls_of sent ≡ calls
  pub body_sent : all is_body sent ≡ true
  pub same_status : l'.final_status ≡ l.final_status
  pub same_reply : l'.last_local_reply ≡ l.last_local_reply

pub Says-refl : (l : Listener) → Says l l "" []
Says-refl l = record {
  sent = [];
  all_sent = sym (append-nil l.sent);
  text_sent = refl;
  calls_sent = refl;
  body_sent = refl;
  same_status = refl;
  same_reply = refl;
}

pub Says-trans :
    {l m n : Listener} {t u : String} {c d : List (Call × String)}
    → Says l m t c
    → Says m n u d
    → Says l n (str_append t u) (c ++ d)
Says-trans {l} {m} {n} {t} {u} {c} {d} p q = record {
  sent = p.sent ++ q.sent;
  all_sent =
      q.all_sent
      ∙ ap (λ (x : List Sent). x ++ q.sent) p.all_sent
      ∙ append_assoc l.sent p.sent q.sent;
  text_sent =
      text_of-append p.sent q.sent
      ∙ ap (λ x. str_append x (text_of q.sent)) p.text_sent
      ∙ ap (str_append t) q.text_sent;
  calls_sent =
      calls_of-append p.sent q.sent
      ∙ ap (λ (x : List (Call × String)). x ++ calls_of q.sent) p.calls_sent
      ∙ ap (λ (x : List (Call × String)). c ++ x) q.calls_sent;
  body_sent = all-append is_body p.sent q.sent ∙ ground (arith, p.body_sent, q.body_sent);
  same_status = q.same_status ∙ p.same_status;
  same_reply = q.same_reply ∙ p.same_reply;
}

Says-token :
    (piece : String) (l : Listener) (b : Bool)
    → Says l (say (token piece) (record l { streamed_local_tokens = b })) piece []
Says-token piece l b = record {
  sent = token piece ∷ [];
  all_sent = refl;
  text_sent = str_append-nil piece;
  calls_sent = refl;
  body_sent = refl;
  same_status = refl;
  same_reply = refl;
}

Says-tool :
    (e : ToolEvent) (l : Listener)
    → Says l (say (tool_call e.call e.result) l) "" ((e.call, e.result) ∷ [])
Says-tool e l = record {
  sent = tool_call e.call e.result ∷ [];
  all_sent = refl;
  text_sent = refl;
  calls_sent = refl;
  body_sent = refl;
  same_status = refl;
  same_reply = refl;
}

-- The tokens of local_llm are shown as they come.
pub tokens_said :
    (ps : List String) (l : Listener) → Says l (listen (map local_token ps) l) (concat ps) []
unfolding listen
tokens_said [] l = Says-refl l
tokens_said (p ∷ ps) l = Says-trans (Says-token p l true) (tokens_said ps _)

pub tokens_flag :
    (ps : List String) (l : Listener)
    → (listen (map local_token ps) l).streamed_local_tokens
      ≡ (not (is_empty ps) || l.streamed_local_tokens)
unfolding listen
tokens_flag [] l = refl
tokens_flag (p ∷ ps) l = tokens_flag ps _ ∙ or-true (not (is_empty ps))

abbrev pub shown_call : ToolEvent → Call × String
shown_call e = (e.call, e.result)

tools_said :
    (es : List ToolEvent) (l : Listener)
    → Says l (listen (map tool_ran es) l) "" (map shown_call es)
unfolding listen
tools_said [] l = Says-refl l
tools_said (e ∷ es) l = Says-trans (Says-tool e l) (tools_said es _)

-- The supervisor's events only stamp the status.
pub supervisor_heard :
    {T : Type 0} (u : Update) (store : Store Call T) (l : Listener)
    → listen (supervisor_events (some (u, store))) l ≡ stamp u.status l
unfolding listen
supervisor_heard u store l = refl

-- The events of tool_execution, whose update has no status, tell of its calls.
pub tools_heard :
    (es : List ToolEvent) (u : Update) (l : Listener)
    → u.status ≡ none
    → Says l (listen (node_events Node.tool_execution (map tool_ran es) u) l) "" (map shown_call es)
unfolding listen
tools_heard es u l e =
    subst (λ x. Says l x "" (map shown_call es))
      (sym (
        listen-append (map tool_ran es) (chain_end "tool_execution" (some (output_of u)) ∷ []) l
        ∙ ap (λ x. stamp x (listen (map tool_ran es) l)) e))
      (tools_said es l)
