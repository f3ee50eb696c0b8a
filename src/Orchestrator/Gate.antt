-- ===== src/Orchestrator/Gate.antt =====
-- `_finish_routing` of orchestrator.py with the guards that it applies to a routing decision: the
-- saved-document pointer, the anti-reloop guard, the repeat-call guard and the write gate.
pub mod Repeat
pub mod Writes
pub mod Held
pub mod Handshake
pub mod Structured
use Prim.Native.Char.{code}
use mathlib.Core.Option
use core_heartbeat.Prelude.{
  suc, ◌==◌, ◌||◌, ℕ, String, Bool, true, false, not, ◌&&◌, Option, none, some, List, [], ◌∷◌, map,
  any, keep, one_of, is_some, is_empty, length, codes, str_eq, ltb, leb, decimal, join,
  if◌then◌else◌, concat,
}
use core_heartbeat.PendingPlans
use core_heartbeat.PendingPlans.{TableOps, Store}
use core_heartbeat.Orchestrator.State.{
  Call, Node, node_name, is_local, is_tool, is_finish, Source, Message, TokenUsage, RoutingDecision,
  Status, GraphState, Update, no_update,
}
use core_heartbeat.Orchestrator.World.{World}
use core_heartbeat.Orchestrator.Affirmation.{is_affirmation}

-- tools/catalog.py WRITE_TOOLS; tools/daily_briefing.py adds no write tool.
abbrev pub write_tools : List String
write_tools =
    "write_user_note" ∷ "create_calendar_event" ∷ "update_calendar_event" ∷ "delete_calendar_event"
    ∷ []

abbrev pub always_confirm_tools : List String
always_confirm_tools = "delete_calendar_event" ∷ []

unfoldable pub call_signature : World → Call → String
call_signature w c = concat (c.name ∷ ":" ∷ w.dumps c.args ∷ [])

-- `sig.split(":", 1)[0]`
unfoldable pub before_colon : String → String
before_colon String.[] = String.[]
before_colon (String.◌∷◌ c s) =
    let rest = before_colon s in if code c == b':' then String.[] else String.◌∷◌ c rest

-- `ran_names.count(name)`
abbrev pub times : String → List String → ℕ
times name [] = 0
times name (n ∷ ns) = let rest = times name ns in if str_eq n name then suc rest else rest

-- `_needs_confirmation`
unfoldable pub needs_confirmation : ℕ → List Call → Bool
needs_confirmation threshold calls =
    any (λ c. one_of always_confirm_tools c.name) calls
    || leb threshold (length (keep (λ c. one_of write_tools c.name) calls))

abbrev pub is_assistant : Source → Bool
is_assistant Source.assistant = true
is_assistant _ = false

-- `_confirmation_given`
unfoldable pub confirmation_given : GraphState → Bool
confirmation_given s =
    is_affirmation (codes s.intent.raw_input) && any (λ m. is_assistant m.source) s.prior_context

-- The routing that the guards pass on from one to the next.
pub record Routing : Type 0 where
  pub nxt : Node
  pub calls : Option (List Call)
  pub tool_request : Option Call
  pub pending_plan : Option (List Call)
  pub plan_note : Option String

-- The routing before the repeat-call guard: the multi-call list counts only on the way to
-- tool_execution.
unfoldable pub requested : RoutingDecision → List Call → Routing
requested d native_calls = record {
  nxt = d.next_node;
  calls = if not (is_empty native_calls) && is_tool d.next_node then some native_calls else none;
  tool_request =
      if is_tool d.next_node
      then Option.map (λ name. record { name = name; args = d.tool_args }) d.tool_name
      else none;
  pending_plan = none;
  plan_note = none;
}

-- A call that has not run this turn, of a tool that has not run too often this turn.
abbrev pub is_fresh : World → List String → Call → Bool
is_fresh w already c =
    not (one_of already (call_signature w c))
    && ltb (times c.name (map before_colon already)) w.max_same_tool_calls

abbrev pub or_compose : List Call → Routing → Routing
or_compose [] r = record r { nxt = Node.local_llm; tool_request = none; calls = none }
or_compose (c ∷ cs) r = record r { calls = some (c ∷ cs) }

abbrev pub drop_repeats : World → List String → Option (List Call) → Routing → Routing
drop_repeats w already none r = r
drop_repeats w already (some []) r = r
drop_repeats w already (some (c ∷ cs)) r = or_compose (keep (is_fresh w already) (c ∷ cs)) r

unfoldable pub repeat_guard : World → List String → Routing → Routing
repeat_guard w already r = drop_repeats w already r.calls r

-- The instruction to the composer after an approval with no plan on record.
abbrev pub no_plan_note : String
no_plan_note =
    "The user just approved something, but no pending plan is on record (it may have expired or already run). Tell them plainly that you do not have it any more and ask them to restate what they want done. Do NOT claim anything is being added or has been added."

-- `_take_pending_plan`: an empty plan is no plan.
abbrev pub plan_or_none : Option (List Call) → Option (List Call)
plan_or_none none = none
plan_or_none (some []) = none
plan_or_none (some (c ∷ cs)) = some (c ∷ cs)

-- The branch of a confirmed turn, from the plan on record.
abbrev pub confirmed : Option (List Call) → Routing → Routing
confirmed (some approved) r = record r {
  calls = some approved;
  tool_request = none;
  nxt = Node.tool_execution;
}
confirmed none r =
    if is_some r.calls then r else record r { plan_note = some no_plan_note; nxt = Node.local_llm }

abbrev pub proposed : List Call → Routing → Routing
proposed calls r = record r {
  pending_plan = some calls;
  calls = none;
  tool_request = none;
  nxt = Node.local_llm;
}

-- The batch that is held back for confirmation, if it needs any.
abbrev pub to_confirm : ℕ → Option (List Call) → Option (List Call)
to_confirm threshold none = none
to_confirm threshold (some calls) = if needs_confirmation threshold calls then some calls else none

module _ {T : Type 0} (ops : TableOps Call T) (w : World) where
  abbrev pub unconfirmed :
      GraphState → Option (List Call) → Routing → Store Call T → Routing × Store Call T
  unconfirmed s (some calls) r store = (
    proposed calls r,
    (PendingPlans.save ops w.plans (w.clock s.step) (w.net s.step) s.user_id s.intent.chat_id calls
        store).1,
  )
  unconfirmed s none r store =
      (r, PendingPlans.clear ops w.plans (w.net s.step) s.user_id s.intent.chat_id store)

  unfoldable pub write_gate : GraphState → Routing → Store Call T → Routing × Store Call T
  write_gate s r store =
      let (taken, store') =
        PendingPlans.take ops w.plans (w.clock s.step) (w.net s.step) s.user_id s.intent.chat_id
          store in
      if confirmation_given s && not (any is_tool s.visited)
      then (confirmed (plan_or_none taken.0) r, store')
      else unconfirmed s (to_confirm w.write_confirm_threshold r.calls) r store

-- The saved-document pointer: only where the router called no tool on the first step of a turn
-- without attachments.
unfoldable pub canned_reply : World → GraphState → RoutingDecision → List Call → Option String
canned_reply w s d native_calls =
    if is_local d.next_node
      && is_empty s.visited
      && is_empty native_calls
      && not (is_some d.tool_name)
      && str_eq s.documents ""
      && is_empty s.document_images
    then Option.map w.pointer_reply (w.saved_document s.intent.raw_input s.user_id)
    else none

abbrev pub names_of : List Call → String
names_of calls = join ", " (map (λ c. c.name) calls)

abbrev pub label : Routing → String
label r =
    let to = node_name r.nxt in
    elim r.pending_plan [
      | some plan ↦ concat (
          "route -> "
          ∷ to
          ∷ " (proposing "
          ∷ decimal (length plan)
          ∷ " writes for confirmation)"
          ∷ [])
      | none ↦ elim r.calls [
        | some calls ↦ concat (
            "route -> "
            ∷ to
            ∷ " ("
            ∷ decimal (length calls)
            ∷ " calls: "
            ∷ names_of calls
            ∷ ")"
            ∷ [])
        | none ↦ elim r.tool_request [
          | some call ↦ concat ("route -> " ∷ to ∷ " (" ∷ call.name ∷ ")" ∷ [])
          | none ↦ concat ("route -> " ∷ to ∷ [])
        ]
      ]
    ]

abbrev pub from_supervisor : ℕ → String → List Message
from_supervisor step content =
    record { source = Source.supervisor; content = content; step = step } ∷ []

-- The update of a turn that is over, with the message that says why.
unfoldable pub finished : ℕ → TokenUsage → String → Update
finished step usage content = record no_update {
  next = some Node.finish;
  status = some Status.completed;
  step = 1;
  usage = usage;
  tool_request = some none;
  tool_calls = some none;
  pending_plan = some none;
  plan_note = some none;
  messages = from_supervisor step content;
}

unfoldable pub routed : GraphState → TokenUsage → Option String → Routing → Update
routed s usage canned r = record no_update {
  next = some r.nxt;
  step = 1;
  usage = usage;
  tool_request = some r.tool_request;
  tool_calls = some r.calls;
  pending_plan = some r.pending_plan;
  plan_note = some r.plan_note;
  canned_reply = some (if is_local r.nxt && not (is_some r.pending_plan) then canned else none);
  messages = from_supervisor s.step (label r);
  status = if is_finish r.nxt then some Status.completed else none;
}

-- Has local_llm answered this turn?
abbrev pub answered : GraphState → Bool
answered s = any is_local s.visited

module _ {T : Type 0} (ops : TableOps Call T) (w : World) where
  unfoldable pub finish_routing :
      GraphState → RoutingDecision → TokenUsage → List Call → Store Call T → Update × Store Call T
  unfolding requested repeat_guard write_gate routed finished canned_reply
  finish_routing s d usage native_calls store =
      let (r, store') =
        write_gate ops w s (repeat_guard w s.executed_calls (requested d native_calls)) store in
      if is_local d.next_node && answered s
      then (finished s.step usage "route -> finish (guard: local_llm already replied)", store)
      else (routed s usage (canned_reply w s d native_calls) r, store')
