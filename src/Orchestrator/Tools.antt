-- ===== src/Orchestrator/Tools.antt =====
-- The node tool_execution of orchestrator.py: which of the requested calls run, for whom, and what
-- they leave in the state.
pub mod Dispatch
use core_heartbeat.Prelude.{
  concat, String, Option, none, some, List, [], ◌∷◌, ◌++◌, map, keep, one_of, if◌then◌else◌,
}
use core_heartbeat.Orchestrator.State.{
  Fields, Call, Node, Source, TokenUsage, GraphState, Update, no_update,
}
use core_heartbeat.Orchestrator.World.{
  World, Family, attachment, calendar, reit, briefing, vault, web, flight,
}
use core_heartbeat.Orchestrator.Gate.{call_signature}

-- The registries of tools/*.py.
abbrev pub registry : Family → List String
registry attachment = "reread_attachment" ∷ []
registry calendar =
    "list_calendar_events" ∷ "create_calendar_event" ∷ "update_calendar_event"
    ∷ "delete_calendar_event" ∷ []
registry reit =
    "list_reit_issuers" ∷ "list_reit_reports" ∷ "get_reit_report" ∷ "get_latest_reit_report" ∷ []
registry briefing = "get_latest_briefing" ∷ "search_briefings" ∷ []
registry vault = "read_user_note" ∷ "search_user_vault" ∷ "write_user_note" ∷ []
registry web = "search_web" ∷ "find_sources" ∷ "fetch_url" ∷ []
registry flight = "search_flights" ∷ []

abbrev pub dispatchable_tools : List String
dispatchable_tools =
    registry vault
    ++ (registry calendar
        ++ (registry reit
            ++ (registry briefing ++ (registry web ++ (registry flight ++ registry attachment)))))

-- The tests of `_dispatch_tool`, in their order.
abbrev pub family_in : List Family → String → Option Family
family_in [] name = none
family_in (f ∷ fs) name =
    let rest = family_in fs name in if one_of (registry f) name then some f else rest

abbrev pub dispatch_order : List Family
dispatch_order = attachment ∷ calendar ∷ reit ∷ briefing ∷ vault ∷ web ∷ flight ∷ []

unfoldable pub family_of : String → Option Family
family_of = family_in dispatch_order

-- `_dispatch_tool`. Its last line returns a pair of the text and None, which a message then shows
-- as a pair.
abbrev pub run_family : World → Option Family → String → Fields → String → String
run_family w (some f) name args user = w.run_tool f name user args
run_family w none name args user = concat ("(\"error: unknown tool '" ∷ name ∷ "'\", None)" ∷ [])

unfoldable pub dispatch_tool : World → String → Fields → String → String
dispatch_tool w name args user = run_family w (family_of name) name args user

abbrev pub asked : Option (List Call) → Option Call → List Call
asked (some (c ∷ cs)) single = c ∷ cs
asked (some []) none = []
asked (some []) (some c) = c ∷ []
asked none none = []
asked none (some c) = c ∷ []

-- `_requested_tool_calls`
unfoldable pub requested_tool_calls : GraphState → List Call
requested_tool_calls s =
    keep (λ c. one_of dispatchable_tools c.name) (asked s.tool_calls s.tool_request)

-- The custom event of a tool call that ran.
pub record ToolEvent : Type 0 where
  pub call : Call
  pub result : String

abbrev pub tool_usage : TokenUsage
tool_usage = record { input_tokens = 5; output_tokens = 0; total_tokens = 5 }

-- One call after another: the thread pool returns the results in the order of the calls.
unfoldable pub run_calls : World → String → List Call → List ToolEvent
unfolding dispatch_tool
run_calls w user = map (λ c. record { call = c; result = dispatch_tool w c.name c.args user })

abbrev pub tool_content : ToolEvent → String
tool_content e = concat ("[tool:" ∷ e.call.name ∷ "] " ∷ e.result ∷ [])

abbrev pub tool_update : World → GraphState → List ToolEvent → Update
tool_update w s [] = record no_update {
  messages =
      record { source = Source.tool_execution; content = "[stub] tool executed"; step = s.step }
      ∷ [];
  usage = tool_usage;
  visited = Node.tool_execution ∷ [];
  step = 1;
}
tool_update w s (e ∷ es) = record no_update {
  messages =
      map (λ e. record { source = Source.tool_execution; content = tool_content e; step = s.step })
        (e ∷ es);
  usage = tool_usage;
  visited = Node.tool_execution ∷ [];
  step = 1;
  executed_calls = map (λ e. call_signature w e.call) (e ∷ es);
}

unfoldable pub tool_execution : World → GraphState → Update × List ToolEvent
unfolding run_calls requested_tool_calls
tool_execution w s =
    let events = run_calls w s.user_id (requested_tool_calls s) in (tool_update w s events, events)
