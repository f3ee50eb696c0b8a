-- ===== src/KnowledgeChat/History.antt =====
-- knowledge_chat.py: the conversation as the model is shown it, and the blocks of the system prompt
-- that tell of the library and of the documents discussed.
use core_heartbeat.Prelude.{
  ℕ, ◌-◌, Bool, true, false, not, Option, none, some, List, [], ◌∷◌, ◌++◌, keep, length, is_empty,
  codes, same_codes, decimal, last_of, if◌then◌else◌, ltb, is_space, strip, map,
}
use core_heartbeat.KnowledgeChat.Text.{Text, glue, join_with, take_text}
use core_heartbeat.KnowledgeChat.Lines.{
  newline, blank_line, take_list, title_or_untitled, added_note,
}
use core_heartbeat.KnowledgeChat.World.{Role, user, model, Shown, Content, Turn, Request, Document}

abbrev pub same_role : Role → Role → Bool
same_role user user = true
same_role user model = false
same_role model user = false
same_role model model = true

-- A turn put after the others, joined to the last one where the roles are the same.
unfoldable pub say : Role → Text → List (Role × Text) → List (Role × Text)
say role text [] = (role, text) ∷ []
say role text ((r, t) ∷ []) =
    if same_role r role then (role, t ++ (blank_line ++ text)) ∷ [] else (r, t) ∷ (role, text) ∷ []
say role text (x ∷ y ∷ rest) = x ∷ say role text (y ∷ rest)

abbrev pub said_turn : List (Role × Text) → Turn → List (Role × Text)
said_turn turns t =
    let text = strip is_space t.content in if is_empty text then turns else say t.role text turns

unfoldable pub prior_turns : List (Role × Text) → List Turn → List (Role × Text)
prior_turns turns [] = turns
prior_turns turns (t ∷ ts) = prior_turns (said_turn turns t) ts

unfoldable pub from_user : List (Role × Text) → List (Role × Text)
from_user [] = []
from_user ((user, t) ∷ rest) = (user, t) ∷ rest
from_user ((model, t) ∷ rest) = from_user rest

-- The turns and the new question, of which the last `limit` turns are kept.
unfoldable pub history_turns : ℕ → Request → List (Role × Text)
unfolding say prior_turns from_user is_space
history_turns limit req =
    say user (strip is_space req.text) (from_user (prior_turns [] (last_of limit req.history)))

unfoldable pub history_contents : ℕ → Request → List Content
unfolding history_turns
history_contents limit req =
    map (λ t. record { role = t.0; parts = Shown.text t.1 ∷ [] }) (history_turns limit req)

abbrev pub library_titles : ℕ
library_titles = 200

abbrev pub library_line : Document → Text
library_line d =
    glue (codes "- " ∷ title_or_untitled d.title ∷ added_note (take_text 10 d.created_at) ∷ [])

-- `_library_block`, none where the documents could not be loaded
unfoldable pub library_block : Option (List Document) → Text
library_block none =
    codes "The document list could not be loaded; use list_documents or search_knowledge.\n"
library_block (some []) =
    codes "The knowledge base is EMPTY — there are no documents to answer from.\n"
library_block (some (d ∷ ds)) =
    let docs = d ∷ ds in
    let count = length docs in
    join_with newline (
      glue (
          codes "The knowledge base holds "
          ∷ codes (decimal count)
          ∷ codes " document(s), newest first:"
          ∷ [])
        ∷ map library_line (take_list library_titles docs)
      ++ (if ltb library_titles count
          then glue (
              codes "- … and "
              ∷ codes (decimal (count - library_titles))
              ∷ codes " more (use list_documents)"
              ∷ [])
            ∷ []
          else []))
    ++ newline

-- A title moved to the end.
unfoldable pub mention : List Text → Text → List Text
mention titles t = keep (λ x. not (same_codes x t)) titles ++ (t ∷ [])

abbrev pub mention_all : List Text → List Text → List Text
mention_all titles [] = titles
mention_all titles (t ∷ ts) = mention_all (mention titles t) ts

unfoldable pub discussed : List Text → List Turn → List Text
discussed titles [] = titles
discussed titles (t ∷ ts) =
    discussed (elim t.role [ user ↦ titles | model ↦ mention_all titles t.sources ]) ts

-- `_discussed_block`
unfoldable pub discussed_block : ℕ → Request → Text
unfolding discussed
discussed_block limit req =
    let titles = discussed [] (last_of limit req.history) in
    if is_empty titles
    then []
    else glue (
        codes
          "Documents earlier answers in this conversation cited (most recent last) — \"that report\", \"it\", \"the other one\" refer to these:\n"
        ∷ join_with newline (map (λ t. codes "- " ++ t) (last_of 10 titles))
        ∷ blank_line
        ∷ [])
