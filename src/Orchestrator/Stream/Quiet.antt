-- ===== src/Orchestrator/Stream/Quiet.antt =====
-- Which nodes of orchestrator.py write a reply, and the reply that a run's messages end with.
use core_heartbeat.Prelude.{
  all-append, String, Bool, ◌≡◌, refl, sym, ap, ◌∙◌, List, [], ◌∷◌, ◌++◌, map, Option, none, some,
  arith, true, false, not, all, str_eq, reverse, Bool-cases, inl, inr, if◌then◌else◌,
}
use mathlib.Core.List.{reverse-append}
use core_heartbeat.PendingPlans.{TableOps, Store}
use core_heartbeat.Orchestrator.State.{
  Call, Message, Status, unset, GraphState, Update, RoutingDecision, TokenUsage, no_usage,
}
use core_heartbeat.Orchestrator.World.{World, RoutingReply, failed, decided}
use core_heartbeat.Orchestrator.Gate.{finish_routing, finished}
use core_heartbeat.Orchestrator.Tools.{ToolEvent, tool_update}
use core_heartbeat.Orchestrator.Supervisor.{
  supervisor, structured, native_path, after_attempts, after_native, after_tool_args, attempts,
  decide_native, native_decision, max_routing_retries, step_bound, degraded,
}
use core_heartbeat.Orchestrator.Graph.{is_local_source, latest_in, latest_local_reply}
use core_heartbeat.Orchestrator.Graph.Reach.{Returns, supervisor_cases}
use core_heartbeat.Orchestrator.Stream.Replied.{remembered}
use core_heartbeat.Orchestrator.Stream.Pieces.{local_message}

abbrev pub is_quiet : Message → Bool
is_quiet m = not (is_local_source m.source)

-- A status that counts: none, or one that is not empty.
abbrev pub is_stamp : Option Status → Bool
is_stamp none = true
is_stamp (some unset) = false
is_stamp (some s) = true

-- An update without a reply.
pub record IsQuiet (u : Update) : Type 0 where
  pub no_reply : all is_quiet u.messages ≡ true
  pub stamps : is_stamp u.status ≡ true

module _ {T : Type 0} (ops : TableOps Call T) (w : World) (s : GraphState)
    (store : Store Call T) where
  finish_routing-IsQuiet :
      (d : RoutingDecision) (usage : TokenUsage) (calls : List Call)
      → IsQuiet (finish_routing ops w s d usage calls store).0
  unfolding finish_routing
  finish_routing-IsQuiet d usage calls = ground arith

  after_attempts-IsQuiet : (r : RoutingReply) → IsQuiet (after_attempts ops w s r store).0
  unfolding after_attempts
  after_attempts-IsQuiet (failed f usage) = ground arith
  after_attempts-IsQuiet (decided d usage) = finish_routing-IsQuiet d usage []

  structured-IsQuiet : IsQuiet (structured ops w s store).0
  unfolding structured
  structured-IsQuiet = after_attempts-IsQuiet (attempts w s max_routing_retries 1 no_usage)

  after_tool_args-IsQuiet :
      (d : Option RoutingDecision) (calls : List Call) (usage : TokenUsage)
      → Returns IsQuiet (after_tool_args ops w s d calls usage store)
  unfolding after_tool_args
  after_tool_args-IsQuiet none calls usage = tt
  after_tool_args-IsQuiet (some d) calls usage = finish_routing-IsQuiet d usage calls

  after_native-IsQuiet :
      (r : Option (List Call × TokenUsage)) → Returns IsQuiet (after_native ops w s r store)
  unfolding after_native
  after_native-IsQuiet none = structured-IsQuiet
  after_native-IsQuiet (some (calls, usage)) =
      after_tool_args-IsQuiet (native_decision w calls) calls usage

  native_path-IsQuiet : Returns IsQuiet (native_path ops w s store)
  unfolding native_path
  native_path-IsQuiet = after_native-IsQuiet (decide_native (w.native s))

  step_bound-IsQuiet : IsQuiet (step_bound s)
  unfolding step_bound
  step_bound-IsQuiet = ground arith

  pub supervisor-IsQuiet : Returns IsQuiet (supervisor ops w s store)
  unfolding finished degraded
  supervisor-IsQuiet =
      supervisor_cases ops w s store (Returns IsQuiet) (λ _. step_bound-IsQuiet)
        (λ _. record { no_reply = refl; stamps = refl })
        (λ _ f u. record { no_reply = refl; stamps = refl }) (λ _ _. native_path-IsQuiet)
        (λ _ _. structured-IsQuiet)

tool_messages-quiet :
    (f : ToolEvent → Message) (es : List ToolEvent)
    → ((e : ToolEvent) → is_quiet (f e) ≡ true)
    → all is_quiet (map f es) ≡ true
tool_messages-quiet f [] h = refl
tool_messages-quiet f (e ∷ es) h = ground (arith, h e, tool_messages-quiet f es h)

pub tools-quiet :
    (w : World) (s : GraphState) (es : List ToolEvent)
    → all is_quiet (tool_update w s es).messages ≡ true
tools-quiet w s [] = refl
tools-quiet w s (e ∷ es) = tool_messages-quiet _ es (λ _. refl)

-- The replies of a run, in their order.
abbrev pub replies : List Message → List String
replies [] = []
replies (m ∷ ms) =
    let rest = replies ms in if is_local_source m.source then m.content ∷ rest else rest

pub replies-append : (xs ys : List Message) → replies (xs ++ ys) ≡ replies xs ++ replies ys
replies-append [] ys = refl
replies-append (x ∷ xs) ys = ground (arith, replies-append xs ys)

pub replies-quiet : (ms : List Message) → all is_quiet ms ≡ true → replies ms ≡ []
replies-quiet [] h = refl
replies-quiet (m ∷ ms) h = ground (arith, replies-quiet ms)

all-reverse : (ms : List Message) → all is_quiet (reverse ms) ≡ all is_quiet ms
all-reverse [] = refl
all-reverse (m ∷ ms) =
    ap (all is_quiet) (reverse-append (m ∷ []) ms)
    ∙ all-append is_quiet (reverse ms) (m ∷ [])
    ∙ ground (arith, all-reverse ms)

latest_in-quiet :
    (xs ys : List Message) → all is_quiet xs ≡ true → latest_in (xs ++ ys) ≡ latest_in ys
unfolding latest_in
latest_in-quiet [] ys h = refl
latest_in-quiet (x ∷ xs) ys h = ground (arith, latest_in-quiet xs ys)

-- Messages without a reply do not change the latest one.
pub latest-quiet :
    (ms xs : List Message)
    → all is_quiet xs ≡ true
    → latest_local_reply (ms ++ xs) ≡ latest_local_reply ms
unfolding latest_local_reply
latest-quiet ms xs h =
    ap latest_in (reverse-append ms xs)
    ∙ latest_in-quiet (reverse xs) (reverse ms) (all-reverse xs ∙ h)

pub latest_none : (ms : List Message) → all is_quiet ms ≡ true → latest_local_reply ms ≡ ""
unfolding latest_local_reply
latest_none ms h = latest-quiet [] ms h

-- A reply in front of messages without one.
latest_in_first :
    (s : GraphState) (text : String) (ms : List Message)
    → latest_in ms ≡ ""
    → latest_in (local_message s text ∷ ms) ≡ remembered text ""
unfolding latest_in
latest_in_first s text ms h = elim (Bool-cases (str_eq text "")) [
  | inl e ↦ rw (e, h)
  | inr e ↦ rw e
]

-- The latest reply after the first one.
pub latest_first :
    (s : GraphState) (ms : List Message) (text : String)
    → all is_quiet ms ≡ true
    → latest_local_reply (ms ++ (local_message s text ∷ []))
      ≡ remembered text (latest_local_reply ms)
unfolding latest_local_reply
latest_first s ms text h =
    ap latest_in (reverse-append ms (local_message s text ∷ []))
    ∙ latest_in_first s text (reverse ms) (latest_none ms h)
    ∙ ap (remembered text) (sym (latest_none ms h))
