-- ===== src/KnowledgeChat/World.antt =====
-- What a turn of knowledge_chat.py is given: its request, its settings, the knowledge base and the
-- model. All of it is a parameter of the model; the settings are taken to be no negative numbers.
use core_heartbeat.Prelude.{ℕ, Bool, Option, List}
use core_heartbeat.KnowledgeChat.Text.{Text, Unicode}

-- A passage that a search returns; the score is a float, by its bits, and none if it is no number.
-- A text that the service leaves out is empty.
pub record Chunk : Type 0 where
  pub id : Text
  pub document_id : Text
  pub title : Text
  pub chunk_index : Option ℕ
  pub content : Text
  pub parent_content : Text
  pub created_at : Text
  pub score : Option ℕ

pub record Document : Type 0 where
  pub id : Text
  pub title : Text
  pub created_at : Text
  pub summary : Text

pub record Reading : Type 0 where
  pub document : Document
  pub chunks : List Chunk
  pub alternatives : List Text

-- The body of KbNotFound: the titles of the alternatives, for each reference and over all.
pub record NotFound : Type 0 where
  pub unresolved : List (List Text)
  pub alternatives : List Text

-- How a call of the knowledge base ends; an exception has the name of its type.
pub data Fetched (A : Type 0) : Type 0 where
  found : A → Fetched A
  not_found : NotFound → Fetched A
  raised : Text → Fetched A

-- The arguments of a tool call, each as `str` gives it and empty where it is left out.
pub record Args : Type 0 where
  pub query : Text
  pub documents : List Text
  pub document : Text
  pub focus : Text

pub record Call : Type 0 where
  pub name : Text
  pub args : Args

-- A part of a chunk of the model's stream: a call, a text with its mark for a thought, or neither.
pub data Part : Type 0 where
  called : Call → Part
  said : Text → Bool → Part
  other : Part

pub data Role : Type 0 where
  user model : Role

-- The parts of a turn that the model is shown.
pub data Shown : Type 0 where
  text : Text → Shown
  echoed : Part → Shown
  response : Text → Text → Shown

pub record Content : Type 0 where
  pub role : Role
  pub parts : List Shown

-- The mode of function calling.
pub data Mode : Type 0 where
  off auto must_call : Mode

-- What one request to the model streams, and whether it raises after that.
pub record Reply : Type 0 where
  pub parts : List Part
  pub fails : Bool

-- `KnowledgeTurn`, with the titles of its sources, and `KnowledgeChatRequest`
pub record Turn : Type 0 where
  pub role : Role
  pub content : Text
  pub sources : List Text

pub record Request : Type 0 where
  pub text : Text
  pub history : List Turn

pub record Settings : Type 0 where
  pub max_rounds : ℕ
  pub search_top_k : ℕ
  pub passage_chars : ℕ
  pub read_max_chunks : ℕ
  pub read_passage_chars : ℕ
  pub context_chars : ℕ
  pub history_turns : ℕ
  -- `float(score) < MIN_SCORE`
  pub below_min : ℕ → Bool

pub record World : Type 0 where
  pub settings : Settings
  pub unicode : Unicode
  -- whether there is a key for the model
  pub has_client : Bool
  -- `repr` of a text
  pub repr : Text → Text
  -- `kbstore.list_documents`, at the start of the turn and in a tool call
  pub library : Fetched (List Document)
  pub list_documents : Fetched (List Document)
  -- `kbstore.search`: the query, how many, and the titles to search in
  pub search : Text → ℕ → List Text → Fetched (List Chunk)
  -- `asyncio.gather` of one search for each title: the results in order or the first failure
  pub search_each : Text → ℕ → List Text → Fetched (List (List Chunk))
  -- `kbstore.read_document`: the title, the topic, and how many passages
  pub read_document : Text → Text → ℕ → Fetched Reading
  -- `system_prompt`, of the two blocks that depend on the library and on the history
  pub prompt : Text → Text → Text
  -- the model, in a round, by the prompt, the contents and the mode
  pub stream : ℕ → Text → List Content → Mode → Reply
  -- the order in which the tool calls of a round come back from the knowledge base
  pub order : ℕ → List ℕ
