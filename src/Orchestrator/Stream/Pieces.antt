-- ===== src/Orchestrator/Stream/Pieces.antt =====
-- What the composers of orchestrator.py have shown when they return, and the message of local_llm.
use core_heartbeat.Prelude.{
  String, ◌≡◌, refl, ◌⊎◌, inl, inr, List, [], ◌∷◌, Option, none, some, Bool-cases, str_eq, is_empty,
  if_cases, concat, str_append-nil,
}
use core_heartbeat.Orchestrator.State.{Message, Source, GraphState, TokenUsage, Update}
use core_heartbeat.Orchestrator.World.{World}
use core_heartbeat.Orchestrator.Compose.{
  Composition, composed, not_composed, Composing, Close, closed, timed_out, broken, raised, Reading,
  OllamaLine, OllamaReply, refused, lines, CloudChunk, CloudReply, chunks, no_client, unsupported,
  at_close, read_lines, nothing_read, generate_local, cut_off, read_chunks, generate_cloud,
  with_counts, with_response, with_text, chunk_usage,
}
use core_heartbeat.Orchestrator.Worker.{
  local_llm, compose, composed_update, canned_or, canned_pieces, emitted, or_local,
}

-- Nothing has been shown of a text, or all of it.
abbrev pub Shown : List String → String → Type 0
Shown pieces text = (pieces ≡ []) ⊎ (concat pieces ≡ text)

-- Whatever is returned has been shown whole or not at all.
abbrev Whole : List String → Composition → Type 0
Whole pieces (composed text usage) = Shown pieces text
Whole pieces (not_composed category) = pieces ≡ []

-- The same where something is returned.
abbrev Kept : List String → Composition → Type 0
Kept pieces (composed text usage) = Shown pieces text
Kept pieces (not_composed category) = Unit

-- The local model's stream does not break after its first piece.
abbrev pub IsUnbroken : Composing → Type 0
IsUnbroken c = (category : String) → c.result ≡ not_composed category → c.pieces ≡ []

Kept-Whole :
    (pieces : List String) (r : Composition)
    → Kept pieces r
    → ((category : String) → r ≡ not_composed category → pieces ≡ [])
    → Whole pieces r
Kept-Whole pieces (composed text usage) h u = h
Kept-Whole pieces (not_composed category) h u = u category refl

at_close-Kept : (e : Close) (r : Reading) → Kept (at_close e r).pieces (at_close e r).result
at_close-Kept closed r =
    if_cases (λ (c : Composing). Kept c.pieces c.result) r.saw_response (λ _. inr refl) (λ _. tt)
at_close-Kept timed_out r = tt
at_close-Kept broken r = tt
at_close-Kept raised r = tt

read_lines-Kept :
    (ls : List OllamaLine) (e : Close) (r : Reading)
    → Kept (read_lines ls e r).pieces (read_lines ls e r).result
unfolding read_lines
read_lines-Kept [] e r = at_close-Kept e r
read_lines-Kept (OllamaLine.blank ∷ ls) e r = read_lines-Kept ls e r
read_lines-Kept (OllamaLine.malformed ∷ ls) e r = tt
read_lines-Kept (OllamaLine.no_object ∷ ls) e r = tt
read_lines-Kept (OllamaLine.failed ∷ ls) e r = tt
read_lines-Kept (OllamaLine.object o ∷ ls) e r =
    read_lines-Kept ls e (with_counts o (with_response o.response r))

generate_local-Kept :
    (s : GraphState) (reply : OllamaReply)
    → Kept (generate_local s reply).pieces (generate_local s reply).result
unfolding generate_local
generate_local-Kept s refused =
    if_cases (λ (c : Composing). Kept c.pieces c.result) (is_empty s.document_images) (λ _. tt)
      (λ _. inl refl)
generate_local-Kept s (lines ls e) =
    if_cases (λ (c : Composing). Kept c.pieces c.result) (is_empty s.document_images)
      (λ _. read_lines-Kept ls e nothing_read) (λ _. inl refl)

cut_off-Whole :
    (parts : List String) (usage : TokenUsage) (category : String)
    → Whole (cut_off parts usage category).pieces (cut_off parts usage category).result
cut_off-Whole [] usage category = refl
cut_off-Whole (p ∷ ps) usage category = inr refl

read_chunks-Whole :
    (cs : List CloudChunk) (e : Close) (parts : List String) (usage : TokenUsage)
    → Whole (read_chunks cs e parts usage).pieces (read_chunks cs e parts usage).result
unfolding read_chunks
read_chunks-Whole [] closed parts usage = inr refl
read_chunks-Whole [] timed_out parts usage = cut_off-Whole parts usage "timeout"
read_chunks-Whole [] broken parts usage = cut_off-Whole parts usage "unreachable"
read_chunks-Whole [] raised parts usage = cut_off-Whole parts usage "unreachable"
read_chunks-Whole (c ∷ cs) e parts usage =
    read_chunks-Whole cs e (with_text parts c.text) (chunk_usage c.usage_metadata usage)

generate_cloud-Whole :
    (reply : CloudReply) → Whole (generate_cloud reply).pieces (generate_cloud reply).result
unfolding generate_cloud
generate_cloud-Whole no_client = refl
generate_cloud-Whole unsupported = refl
generate_cloud-Whole (chunks cs e) = read_chunks-Whole cs e [] _

or_local-Whole :
    (pieces : List String) (r : Composition) (local : Composing)
    → Whole pieces r
    → Whole local.pieces local.result
    → Whole (or_local pieces r local).pieces (or_local pieces r local).result
or_local-Whole pieces (composed text usage) local h l = h
or_local-Whole pieces (not_composed category) local h l = rw h l

module _ (w : World) (s : GraphState) (unbroken : IsUnbroken (generate_local s (w.ollama s))) where
  compose-Whole : Whole (compose w s).pieces (compose w s).result
  unfolding compose
  compose-Whole =
      let local =
        Kept-Whole (generate_local s (w.ollama s)).pieces (generate_local s (w.ollama s)).result
          (generate_local-Kept s (w.ollama s)) unbroken in
      if_cases (λ (c : Composing). Whole c.pieces c.result) w.local_compose (λ _. local)
        (λ _.
          or_local-Whole _ (generate_cloud (w.cloud s)).result _ (generate_cloud-Whole (w.cloud s))
            local)

-- The one message of local_llm's update.
abbrev pub local_message : GraphState → String → Message
local_message s text = record { source = Source.local_llm; content = text; step = s.step }

-- An update with one message, of which nothing has been shown or all.
pub record IsReply (s : GraphState) (pieces : List String) (u : Update) : Type 0 where
  pub text : String
  pub one_message : u.messages ≡ local_message s text ∷ []
  pub shown : Shown pieces text

composed-IsReply :
    (s : GraphState) (pieces : List String) (r : Composition)
    → Whole pieces r
    → IsReply s pieces (composed_update s r)
composed-IsReply s pieces (composed text usage) h = record {
  text = text;
  one_message = refl;
  shown = h;
}
composed-IsReply s pieces (not_composed category) h = record {
  text = _;
  one_message = refl;
  shown = inl h;
}

canned-IsReply :
    (s : GraphState) (canned : Option String) (pieces : List String) (u : Update)
    → IsReply s pieces u
    → IsReply s (canned_pieces canned pieces) (canned_or canned u s)
canned-IsReply s none pieces u h = h
canned-IsReply s (some canned) pieces u h = elim (Bool-cases (str_eq canned "")) [
  | inl e ↦ rw e h
  | inr e ↦ rw e (record { text = canned; one_message = refl; shown = inr (str_append-nil canned) })
]

pub local_llm-IsReply :
    (w : World) (s : GraphState)
    → IsUnbroken (generate_local s (w.ollama s))
    → IsReply s (emitted w s) (local_llm w s)
unfolding local_llm emitted
local_llm-IsReply w s unbroken =
    canned-IsReply s s.canned_reply (compose w s).pieces (composed_update s (compose w s).result)
      (composed-IsReply s (compose w s).pieces (compose w s).result (compose-Whole w s unbroken))
