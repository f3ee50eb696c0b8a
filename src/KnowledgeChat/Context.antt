-- ===== src/KnowledgeChat/Context.antt =====
-- knowledge_chat.py: the passages that a turn has retrieved, and which of them an answer cites.
use core_heartbeat.Prelude.{
  ℕ, ◌+◌, Bool, false, not, ◌&&◌, ◌==◌, Option, none, some, List, [], ◌∷◌, ◌++◌, any, all, keep,
  length, is_empty, codes, same_codes, if◌then◌else◌, ltb, is_space, strip, map,
}
use core_heartbeat.KnowledgeChat.Text.{
  Text, Unicode, clip, or_text, cited_numbers, has_citation, has_phrase, sentences_from, Place,
}

pub record Passage : Type 0 where
  pub n : ℕ
  pub key : Text
  pub document_id : Text
  pub title : Text
  pub chunk_index : Option ℕ
  pub text : Text
  pub weak : Bool
  pub excerpt : Text

-- A dict, its first entry of a key before the others.
abbrev pub Dict : Type 0 → Type 0
Dict A = List (Text × A)

abbrev pub dict_get {ℓ} : {A : Type ℓ} → Text → List (Text × A) → Option A
dict_get key [] = none
dict_get key ((k, v) ∷ rest) = if same_codes k key then some v else dict_get key rest

pub record TurnContext : Type 0 where
  pub passages : List Passage
  pub by_key : Dict Passage
  pub chars : ℕ
  pub summaries : Dict Text

-- What `add` is given, besides the number of the passage.
pub record Found : Type 0 where
  pub key : Text
  pub document_id : Text
  pub title : Text
  pub chunk_index : Option ℕ
  pub text : Text
  pub weak : Bool
  pub excerpt : Text

abbrev pub numbered : ℕ → Found → Passage
numbered n f = record {
  n = n;
  key = f.key;
  document_id = f.document_id;
  title = f.title;
  chunk_index = f.chunk_index;
  text = f.text;
  weak = f.weak;
  excerpt = or_text f.excerpt f.text;
}

abbrev pub with_passage : TurnContext → Passage → TurnContext
with_passage ctx p = record ctx {
  passages = ctx.passages ++ (p ∷ []);
  by_key = (p.key, p) ∷ ctx.by_key;
  chars = ctx.chars + length p.text;
}

abbrev pub known_or_new : ℕ → TurnContext → Found → Option Passage → Option Passage × TurnContext
known_or_new context_chars ctx f (some p) = (some p, ctx)
known_or_new context_chars ctx f none =
    if ltb context_chars (ctx.chars + length f.text)
    then (none, ctx)
    else let p = numbered (length ctx.passages + 1) f in (some p, with_passage ctx p)

-- `TurnContext.add`, within CONTEXT_CHARS: the passage, none where it has no room.
unfoldable pub add : ℕ → TurnContext → Found → Option Passage × TurnContext
add context_chars ctx f = known_or_new context_chars ctx f (dict_get f.key ctx.by_key)

-- The entries of the `sources` event.
pub record Source : Type 0 where
  pub n : ℕ
  pub document_id : Text
  pub title : Text
  pub chunk_index : Option ℕ
  pub excerpt : Text

abbrev pub excerpt_chars : ℕ
excerpt_chars = 400

-- `_META`, each optional word written out, and `_CONTRAST`
abbrev pub meta_phrases : List Text
meta_phrases = map codes (
    "knowledge base" ∷ "my documents" ∷ "your documents" ∷ "cannot answer" ∷ "can't answer"
    ∷ "unable to answer" ∷ "unable to find" ∷ "does not contain" ∷ "does not cover"
    ∷ "does not mention" ∷ "does not include" ∷ "does not discuss" ∷ "doesn't contain"
    ∷ "doesn't cover" ∷ "doesn't mention" ∷ "doesn't include" ∷ "doesn't discuss" ∷ "do not contain"
    ∷ "do not cover" ∷ "not covered" ∷ "no relevant information" ∷ "no information" ∷ [])

abbrev pub contrast_phrases : List Text
contrast_phrases = map codes ("but" ∷ "however" ∷ "although" ∷ "though" ∷ "whereas" ∷ [])

abbrev pub source_of : Passage → Source
source_of p = record {
  n = p.n;
  document_id = p.document_id;
  title = p.title;
  chunk_index = p.chunk_index;
  excerpt = clip p.excerpt excerpt_chars;
}

module _ (u : Unicode) where
  -- A sentence about the knowledge base itself.
  unfoldable pub is_about_base : Text → Bool
  unfolding has_phrase
  is_about_base s = has_phrase u meta_phrases false s && not (has_phrase u contrast_phrases false s)

  unfoldable pub cited_sentences : Text → List Text
  unfolding sentences_from has_citation is_space
  cited_sentences answer =
      keep (has_citation u) (sentences_from Place.within (strip is_space answer))

  unfoldable pub cited_passages : Text → List Passage → List Passage
  unfolding cited_numbers
  cited_passages answer passages = keep (λ p. any (λ m. m == p.n) (cited_numbers u answer)) passages

  unfoldable pub cited_sources : Text → TurnContext → List Source
  unfolding cited_sentences is_about_base cited_passages
  cited_sources answer ctx =
      let cited = cited_sentences answer in
      if not (is_empty cited) && all is_about_base cited
      then []
      else map source_of (cited_passages answer ctx.passages)
