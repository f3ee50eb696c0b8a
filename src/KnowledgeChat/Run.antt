-- ===== src/KnowledgeChat/Run.antt =====
-- knowledge_chat.py: one turn of the chat: its rounds and the events that it yields.
use core_heartbeat.Prelude.{
  ℕ, zero, suc, ◌+◌, Bool, true, false, not, ◌&&◌, ◌||◌, Option, none, some, List, [], ◌∷◌, ◌++◌,
  keep, length, is_empty, codes, if◌then◌else◌, leb, ltb, is_space, strip, map, reverse,
}
use core_heartbeat.KnowledgeChat.Text.{Text, glue, has_citation}
use core_heartbeat.KnowledgeChat.Context.{TurnContext, Source, Dict, cited_sources}
use core_heartbeat.KnowledgeChat.Lines.{blank_line, take_list}
use core_heartbeat.KnowledgeChat.History.{history_contents, library_block, discussed_block}
use core_heartbeat.KnowledgeChat.World.{
  World, Request, Call, Part, user, model, Shown, Content, Mode, off, auto, must_call, Reply, found,
  not_found, raised, Document,
}
use core_heartbeat.KnowledgeChat.Calls.{texts_of, calls_of, Slot, waiting, gather, responses}

pub data Status : Type 0 where
  completed : Status
  failed : Status

pub data Event : Type 0 where
  token : Text → Event
  tool_call : Call → Event
  sources : List Source → Event
  status : Status → Event

-- The local variables of `run`, and the events yielded so far.
pub record State : Type 0 where
  pub contents : List Content
  pub ctx : TurnContext
  pub answer_parts : List Text
  pub tools_called : Bool
  pub force_tools : Bool
  pub events : List Event

-- How a round leaves the loop's body: to the next round, by `break`, or by `return`.
pub data Exit : Type 0 where
  again broke returned : Exit

abbrev pub max_calls_per_round : ℕ
max_calls_per_round = 6

abbrev pub memory_answer_chars : ℕ
memory_answer_chars = 80

module _ (w : World) (req : Request) where
  abbrev pub ungrounded : Text → Bool
  ungrounded answer =
      has_citation w.unicode answer
      || (not (is_empty req.history) && ltb memory_answer_chars (length answer))

  abbrev pub streamed : List Text → State → State
  streamed texts s = record s {
    answer_parts = s.answer_parts ++ texts;
    events = s.events ++ map token texts;
  }

  abbrev pub ground_nudge : Text
  ground_nudge =
      codes
        "Before answering, search or read the knowledge base in this turn. Earlier answers in the conversation are not evidence, and their citation numbers do not refer to anything you have retrieved now."

  abbrev pub apology : Text
  apology =
      codes "The knowledge chat couldn't reach the model just now. Please try again in a moment."

  abbrev pub failed_now : State → State
  failed_now s = record s { events = s.events ++ (token apology ∷ status failed ∷ []) }

  abbrev pub lost : State → Exit × State
  lost s = if is_empty s.answer_parts then (returned, failed_now s) else (broke, s)

  abbrev pub sent_back : Text → State → State
  sent_back held s = record s {
    contents =
        s.contents
        ++ (record { role = model; parts = Shown.text held ∷ [] }
            ∷ record { role = user; parts = Shown.text ground_nudge ∷ [] }
            ∷ []);
    force_tools = true;
  }

  -- A round without calls, with the text it held back.
  abbrev pub spoke : Bool → Text → State → Exit × State
  spoke buffering held s =
      if buffering && not s.force_tools && ungrounded held
      then (again, sent_back held s)
      else if is_empty held
      then (broke, s)
      else (broke, streamed (held ∷ []) s)

  abbrev pub answered_calls : List Part → List Call → List Slot × TurnContext → State → State
  answered_calls parts calls (slots, ctx) s = record s {
    contents =
        s.contents
        ++ (record { role = model; parts = map Shown.echoed parts }
            ∷ record { role = user; parts = responses w slots }
            ∷ []);
    ctx = ctx;
    tools_called = true;
    force_tools = false;
    events = s.events ++ map tool_call calls;
  }

  -- A round with calls: at most six of them run.
  abbrev pub ran_calls : ℕ → List Part → State → State
  ran_calls n parts s =
      let calls = take_list max_calls_per_round (calls_of parts) in
      answered_calls parts calls (gather w (w.order n) (map waiting calls) s.ctx) s

  abbrev pub worked : ℕ → List Part → Bool → State → State
  worked n parts streamed_this_round s =
      let s' = ran_calls n parts s in
      if streamed_this_round then streamed (blank_line ∷ []) s' else s'

  abbrev pub mode_of : Bool → Bool → Mode
  mode_of tools_enabled force = if tools_enabled then (if force then must_call else auto) else off

  -- What follows a stream, when it has been read.
  abbrev pub after_stream : ℕ → Bool → Bool → Reply → State → Exit × State
  after_stream n tools_enabled buffering r s =
      let texts = texts_of r.parts in
      let s' = streamed (if buffering then [] else texts) s in
      if r.fails
      then lost s'
      else if is_empty (calls_of r.parts)
      then spoke buffering (glue (if buffering then texts else [])) s'
      else if not tools_enabled
      then (broke, s')
      else (again, worked n r.parts (not buffering && not (is_empty texts)) s')

  unfoldable pub one_round : ℕ → Text → State → Exit × State
  one_round n system s =
      let tools_enabled = leb n w.settings.max_rounds in
      after_stream n tools_enabled (not s.tools_called && tools_enabled)
        (w.stream n system s.contents (mode_of tools_enabled s.force_tools)) s

  abbrev pub next_round : (State → Bool × State) → Exit × State → Bool × State
  next_round later (again, s) = later s
  next_round later (broke, s) = (true, s)
  next_round later (returned, s) = (false, s)

  -- The rounds from one on, at most `left` of them: whether the turn goes on to its end, and the
  -- state.
  unfoldable pub rounds : ℕ → ℕ → Text → State → Bool × State
  unfolding one_round
  rounds zero n system s = (true, s)
  rounds (suc left) n system s =
      next_round (λ s'. rounds left (suc n) system s') (one_round n system s)

  abbrev pub library : Option (List Document)
  library = elim (w.library) [ found docs ↦ some docs | not_found body ↦ none | raised name ↦ none ]

  -- The later of two summaries of one title is the one that counts.
  abbrev pub summaries_of : Option (List Document) → Dict Text
  summaries_of none = []
  summaries_of (some docs) = reverse (
      map (λ (d : Document). (strip is_space d.title, d.summary))
        (keep (λ d. not (is_empty d.title)) docs))

  abbrev pub first_state : State
  first_state = record {
    contents = history_contents w.settings.history_turns req;
    ctx = record { passages = []; by_key = []; chars = 0; summaries = summaries_of library };
    answer_parts = [];
    tools_called = false;
    force_tools = false;
    events = [];
  }

  abbrev pub no_answer : Text
  no_answer =
      codes
        "I couldn't put together an answer from the knowledge base. Try rephrasing the question."

  abbrev pub closing : State → List Event
  closing s =
      let answer = strip is_space (glue s.answer_parts) in
      if is_empty answer
      then token no_answer ∷ sources [] ∷ status completed ∷ []
      else sources (cited_sources w.unicode answer s.ctx) ∷ status completed ∷ []

  abbrev pub finished : Bool × State → List Event
  finished (true, s) = s.events ++ closing s
  finished (false, s) = s.events

  unfoldable pub last_state : Bool × State
  unfolding rounds library_block discussed_block
  last_state =
      rounds (w.settings.max_rounds + 1) 1
        (w.prompt (library_block library) (discussed_block w.settings.history_turns req))
        first_state

  unfoldable pub run : List Event
  unfolding last_state
  run =
      if w.has_client
      then finished last_state
      else token (codes "Knowledge chat is not configured (no model key).") ∷ status failed ∷ []
