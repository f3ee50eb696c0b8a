-- ===== src/KnowledgeChat/Tools.antt =====
-- knowledge_chat.py: the three tools, and the dispatch that never raises.
use core_heartbeat.Prelude.{
  Bool, false, not, none, some, List, [], ◌∷◌, ◌++◌, all, keep, length, is_empty, codes, same_codes,
  decimal, if◌then◌else◌, is_space, strip, map,
}
use core_heartbeat.KnowledgeChat.Text.{Text, clip, glue, join_with, take_text, or_text}
use core_heartbeat.KnowledgeChat.Context.{TurnContext, Found, Passage, dict_get}
use core_heartbeat.KnowledgeChat.World.{
  World, Chunk, Document, Reading, Fetched, found, not_found, raised, Args, Call,
}
use core_heartbeat.KnowledgeChat.Lines.{
  newline, blank_line, quoted, distinct, nonempty, title_or_untitled, added_note, not_found_text,
  scoped_weak_max, take_list, merge_fetched, per_document, bracketed, budget_line, add_each,
}

module _ (w : World) where
  abbrev pub is_weak : Chunk → Bool
  is_weak c = elim c.score [ none ↦ false | some s ↦ w.settings.below_min s ]

  -- The search: one for each document where several are named.
  unfoldable pub search_chunks : Text → List Text → Fetched (List Chunk)
  search_chunks query [] = w.search query w.settings.search_top_k []
  search_chunks query (d ∷ []) = w.search query w.settings.search_top_k (d ∷ [])
  search_chunks query (d ∷ e ∷ ds) = merge_fetched (
      w.search_each query (per_document w.settings.search_top_k (length (d ∷ e ∷ ds))) (d ∷ e ∷ ds))

  -- No floor inside named documents, but few passages where all are weak.
  unfoldable pub relevant : List Text → List Chunk → List Chunk
  relevant [] chunks = keep (λ c. not (is_weak c)) chunks
  relevant (d ∷ ds) chunks = if all is_weak chunks then take_list scoped_weak_max chunks else chunks

  unfoldable pub search_found : Chunk → Found
  unfolding clip
  search_found c =
      let body = or_text c.parent_content c.content in
      record {
        key = codes "chunk:" ++ c.id;
        document_id = c.document_id;
        title = title_or_untitled c.title;
        chunk_index = c.chunk_index;
        text = clip body w.settings.passage_chars;
        weak = is_weak c;
        excerpt = or_text c.content body;
      }

  abbrev pub search_line : Passage → Chunk → Text
  search_line p c = glue (
      bracketed p.n
      ∷ p.title
      ∷ added_note c.created_at
      ∷ (if is_weak c then codes " — weak match, check it actually answers the question" else [])
      ∷ newline
      ∷ p.text
      ∷ [])

  -- What each named document says overall.
  abbrev pub summary_lines : TurnContext → List Text → List Text
  summary_lines ctx [] = []
  summary_lines ctx (title ∷ titles) =
      let rest = summary_lines ctx titles in
      elim (dict_get title ctx.summaries) [
        | none ↦ rest
        | some summary ↦
            if is_empty summary
            then rest
            else glue (
                codes "SUMMARY of "
                ∷ title
                ∷ codes
                    " (not citable — search it with more specific terms to find the passages behind it): "
                ∷ clip summary 400
                ∷ [])
              ∷ rest
      ]

  abbrev pub summaries_for : TurnContext → List Text → List Chunk → List Text
  summaries_for ctx [] chunks = []
  summaries_for ctx (d ∷ ds) chunks =
      summary_lines ctx (distinct (nonempty (map (λ c. c.title) chunks)))

  abbrev pub searched_text : List Text → List Text × Bool × TurnContext → Text × TurnContext
  searched_text heading (lines, full, ctx) =
      (join_with blank_line (heading ++ (lines ++ (if full then budget_line ∷ [] else []))), ctx)

  abbrev pub search_text : TurnContext → List Text → List Chunk → Text × TurnContext
  search_text ctx documents [] =
      (codes "No passages in the knowledge base are relevant to this query.", ctx)
  search_text ctx documents (c ∷ cs) =
      searched_text (summaries_for ctx documents (c ∷ cs))
        (add_each w.settings.context_chars search_found search_line ctx (c ∷ cs))

  abbrev pub unreached : Text → Text
  unreached name = glue (
      codes "error: the knowledge base could not be reached ("
      ∷ name
      ∷ codes "). Tell the user to try again shortly."
      ∷ [])

  abbrev pub search_result : TurnContext → List Text → Fetched (List Chunk) → Text × TurnContext
  search_result ctx documents (found chunks) = search_text ctx documents (relevant documents chunks)
  search_result ctx documents (not_found body) = (
    not_found_text body
        (or_text (join_with (codes ", ") (map quoted documents)) (codes "that reference")),
    ctx,
  )
  search_result ctx documents (raised name) = (unreached name, ctx)

  -- `_tool_search`, with what `run_tool` makes of an exception
  unfoldable pub tool_search : TurnContext → Args → Text × TurnContext
  unfolding is_space search_chunks
  tool_search ctx args =
      let query = strip is_space args.query in
      let documents = keep (λ d. not (is_empty (strip is_space d))) args.documents in
      if is_empty query
      then (codes "error: query is required", ctx)
      else search_result ctx documents (search_chunks query documents)

  unfoldable pub read_found : Document → Chunk → Found
  unfolding clip
  read_found doc c = record {
    key = glue (
        codes "doc:"
        ∷ doc.id
        ∷ codes ":"
        ∷ elim c.chunk_index [ none ↦ codes "None" | some i ↦ codes (decimal i) ]
        ∷ []);
    document_id = doc.id;
    title = title_or_untitled doc.title;
    chunk_index = c.chunk_index;
    text = clip c.content w.settings.read_passage_chars;
    weak = false;
    excerpt = [];
  }

  abbrev pub read_line : Passage → Chunk → Text
  read_line p c = bracketed p.n ++ p.text

  abbrev pub heading : Document → Text
  heading doc = join_with newline (
      (codes "DOCUMENT: " ++ title_or_untitled doc.title)
        ∷ (if is_empty doc.created_at
            then []
            else (codes "Added: " ++ take_text 10 doc.created_at) ∷ [])
      ++ (if is_empty doc.summary
          then []
          else (codes "Summary written when it was added (cite a passage, not this line): "
              ++ strip is_space doc.summary)
            ∷ []))

  abbrev pub or_no_passages : List Text → List Text
  or_no_passages [] = codes "No readable passages are stored for this document." ∷ []
  or_no_passages (l ∷ ls) = l ∷ ls

  abbrev pub read_text : Reading → List Text × Bool × TurnContext → Text × TurnContext
  read_text r (lines, full, ctx) = (
    join_with blank_line (
        heading r.document ∷ or_no_passages lines
        ++ ((if full then budget_line ∷ [] else [])
            ++ (if is_empty (nonempty r.alternatives)
                then []
                else (codes "Other documents with similar titles: "
                    ++ join_with (codes "; ") (nonempty r.alternatives))
                  ∷ []))),
    ctx,
  )

  abbrev pub read_result : TurnContext → Text → Fetched Reading → Text × TurnContext
  read_result ctx document (found r) =
      read_text r (add_each w.settings.context_chars (read_found r.document) read_line ctx r.chunks)
  read_result ctx document (not_found body) = (not_found_text body (quoted document), ctx)
  read_result ctx document (raised name) = (unreached name, ctx)

  -- `_tool_read`
  unfoldable pub tool_read : TurnContext → Args → Text × TurnContext
  unfolding is_space
  tool_read ctx args =
      let document = strip is_space args.document in
      if is_empty document
      then (codes "error: document is required", ctx)
      else read_result ctx document
          (w.read_document document (strip is_space args.focus) w.settings.read_max_chunks)

  abbrev pub list_line : Document → Text
  list_line d = glue (
      codes "- "
      ∷ title_or_untitled d.title
      ∷ codes " (added "
      ∷ take_text 10 d.created_at
      ∷ codes ")"
      ∷ (if is_empty d.summary then [] else codes ": " ++ clip d.summary 300)
      ∷ [])

  abbrev pub list_result : Fetched (List Document) → Text
  list_result (found []) = codes "The knowledge base has no documents."
  list_result (found (d ∷ ds)) =
      join_with newline
        ((codes (decimal (length (d ∷ ds))) ++ codes " document(s):") ∷ map list_line (d ∷ ds))
  list_result (not_found body) = unreached (codes "KbNotFound")
  list_result (raised name) = unreached name

  -- `_tool_list`
  unfoldable pub tool_list : Text
  tool_list = list_result w.list_documents

  unfoldable pub run_tool : TurnContext → Call → Text × TurnContext
  unfolding tool_search tool_read tool_list
  run_tool ctx c =
      if same_codes c.name (codes "search_knowledge")
      then tool_search ctx c.args
      else if same_codes c.name (codes "read_document")
      then tool_read ctx c.args
      else if same_codes c.name (codes "list_documents")
      then (tool_list, ctx)
      else (codes "error: unknown tool " ++ w.repr c.name, ctx)
