-- ===== src/KnowledgeChat/Tests.antt =====
-- Witnesses of the theorems on knowledge_chat.py: a follow-up that is first answered from memory, sent
-- back, and then answered from a search.
use core_heartbeat.KnowledgeChat.Grounding.{IsGrounded, turn-IsGrounded}
use core_heartbeat.KnowledgeChat.Conversation.{
  AlternatesFrom, EndsWith, last_turn, history_turns-Alternates,
}
use core_heartbeat.KnowledgeChat.Evidence.{AllEvidence, shown_sources, turn_sources-AllEvidence}
use core_heartbeat.KnowledgeChat.Budget.{turn_passages-IsSound}
use core_heartbeat.KnowledgeChat.Passages.{IsSound}
use core_heartbeat.KnowledgeChat.Ending.{IsTurn, run-IsTurn, spoken}
use core_heartbeat.Prelude.{
  ℕ, ◌-◌, refl, true, false, ◌&&◌, none, some, List, [], ◌∷◌, leb, codes, if◌then◌else◌, strip,
  is_space, arith,
}
use core_heartbeat.KnowledgeChat.Text.{Unicode}
use core_heartbeat.KnowledgeChat.World.{
  World, Settings, Request, user, model, Chunk, Document, found, raised, Call, called, said, Mode,
  off, auto, must_call, Reply,
}
use core_heartbeat.KnowledgeChat.History.{history_turns}
use core_heartbeat.KnowledgeChat.Run.{run, last_state}

abbrev letters : Unicode
letters = record {
  is_word = λ c. leb 97 c && leb c 122;
  digit_value = λ c. if leb 48 c && leb c 57 then some (c - 48) else none;
}

abbrev limits : Settings
limits = record {
  max_rounds = 4;
  search_top_k = 8;
  passage_chars = 1500;
  read_max_chunks = 12;
  read_passage_chars = 2000;
  context_chars = 40000;
  history_turns = 20;
  below_min = λ s. false;
}

abbrev chunk : Chunk
chunk = record {
  id = codes "7";
  document_id = codes "d";
  title = codes "Weekly";
  chunk_index = some 2;
  content = codes "Spreads widened.";
  parent_content = [];
  created_at = codes "2026-09-11";
  score = some 5;
}

abbrev look_up : Call
look_up = record {
  name = codes "search_knowledge";
  args = record { query = codes "spreads"; documents = []; document = []; focus = [] };
}

-- What the model says in a round.
abbrev speech : ℕ → Mode → Reply
speech n must_call = record { parts = called look_up ∷ []; fails = false }
speech n off = record { parts = []; fails = false }
speech n auto =
    if leb n 1
    then record { parts = said (codes "As before [1].") false ∷ []; fails = false }
    else record { parts = said (codes "They widened [1].") false ∷ []; fails = false }

abbrev library_of_one : List Document
library_of_one =
    record {
      id = codes "d";
      title = codes "Weekly";
      created_at = codes "2026-09-11";
      summary = codes "Spreads.";
    }
    ∷ []

abbrev chat : World
chat = record {
  settings = limits;
  unicode = letters;
  has_client = true;
  repr = λ t. t;
  library = found library_of_one;
  list_documents = found library_of_one;
  search = λ query k titles. found (chunk ∷ []);
  search_each = λ query k titles. found ((chunk ∷ []) ∷ []);
  read_document = λ title focus k. raised (codes "TimeoutException");
  prompt = λ a b. b;
  stream = λ n system contents mode. speech n mode;
  order = λ n. 0 ∷ [];
}

abbrev follow_up : Request
follow_up = record {
  text = codes "And the spreads?";
  history =
      record { role = model; content = codes "Hello"; sources = [] }
      ∷ record { role = user; content = codes "The Weekly?"; sources = [] }
      ∷ [];
}

run-IsTurn_example : IsTurn (run chat follow_up)
run-IsTurn_example = run-IsTurn chat follow_up

turn_passages-IsSound_example : IsSound 40000 (last_state chat follow_up).1.ctx
turn_passages-IsSound_example = turn_passages-IsSound chat follow_up

turn_sources-AllEvidence_example :
    AllEvidence letters
      (strip is_space (spoken (run chat follow_up)))
      (last_state chat follow_up).1.ctx.passages
      (shown_sources (run chat follow_up))
turn_sources-AllEvidence_example = turn_sources-AllEvidence chat follow_up

history_turns-Alternates_example :
    AlternatesFrom user (history_turns 20 follow_up)
    × EndsWith user (strip is_space follow_up.text) (last_turn (history_turns 20 follow_up))
history_turns-Alternates_example = history_turns-Alternates 20 follow_up

turn-IsGrounded_example : IsGrounded chat follow_up (last_state chat follow_up)
turn-IsGrounded_example =
    turn-IsGrounded chat follow_up (omega arith) (λ n system contents ok. refl)
