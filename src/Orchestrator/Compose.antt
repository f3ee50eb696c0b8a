-- ===== src/Orchestrator/Compose.antt =====
-- `generate_local` and `generate_cloud` of orchestrator.py, over what the model sends: the pieces that
-- are handed to `on_token` while they arrive, and what is returned.
use core_heartbeat.Prelude.{
  ℕ, ◌+◌, String, Bool, true, false, Option, none, some, List, [], ◌∷◌, ◌++◌, ◌||◌, is_empty,
  is_some, str_eq, concat, if◌then◌else◌,
}
use core_heartbeat.Orchestrator.State.{TokenUsage, no_usage, GraphState}

-- A composition: the text or the category of the worker's failure.
pub data Composition : Type 0 where
  composed : String → TokenUsage → Composition
  not_composed : String → Composition

-- The pieces that have been shown, and what the composer returns.
pub record Composing : Type 0 where
  pub pieces : List String
  pub result : Composition

-- `get(source, key, 0) or 0`
abbrev pub or_zero : Option ℕ → ℕ
or_zero none = 0
or_zero (some n) = n

-- `_usage_from` with no key for the total, and with one.
unfoldable pub usage_from : Option ℕ → Option ℕ → TokenUsage
usage_from input output = record {
  input_tokens = or_zero input;
  output_tokens = or_zero output;
  total_tokens = or_zero input + or_zero output;
}

unfoldable pub usage_with_total : Option ℕ → Option ℕ → Option ℕ → TokenUsage
usage_with_total input output total = record {
  input_tokens = or_zero input;
  output_tokens = or_zero output;
  total_tokens = or_zero total;
}

-- An object of Ollama's stream without an error: its `response`, unless there is no such key (a null
-- counts as empty), and its counts.
pub record OllamaObject : Type 0 where
  pub response : Option (Option String)
  pub prompt_eval_count : Option ℕ
  pub eval_count : Option ℕ

-- A line of the stream: empty, no JSON, JSON that is no object, an object with an error, or any other.
pub data OllamaLine : Type 0 where
  blank malformed no_object failed : OllamaLine
  object : OllamaObject → OllamaLine

-- How a stream ends: by itself, or by an exception of the transport, a timeout or another.
pub data Close : Type 0 where
  closed timed_out broken raised : Close

-- A status other than 2xx, or lines and their end, which stands for a failed connection too.
pub data OllamaReply : Type 0 where
  refused : OllamaReply
  lines : List OllamaLine → Close → OllamaReply

-- The variables of the loop.
pub record Reading : Type 0 where
  pub parts : List String
  pub saw_response : Bool
  pub usage : TokenUsage

abbrev pub with_part : List String → String → List String
with_part parts piece = if str_eq piece "" then parts else parts ++ (piece ∷ [])

abbrev pub with_response : Option (Option String) → Reading → Reading
with_response none r = r
with_response (some none) r = record r { saw_response = true }
with_response (some (some piece)) r = record r {
  parts = with_part r.parts piece;
  saw_response = true;
}

abbrev pub with_counts : OllamaObject → Reading → Reading
with_counts o r =
    if is_some o.prompt_eval_count || is_some o.eval_count
    then record r { usage = usage_from o.prompt_eval_count o.eval_count }
    else r

abbrev pub lost : Reading → String → Composing
lost r category = record { pieces = r.parts; result = not_composed category }

abbrev pub at_close : Close → Reading → Composing
at_close closed r =
    if r.saw_response
    then record { pieces = r.parts; result = composed (concat r.parts) r.usage }
    else lost r "invalid_output"
at_close timed_out r = lost r "timeout"
at_close broken r = lost r "unreachable"
at_close raised r = lost r "unreachable"

unfoldable pub read_lines : List OllamaLine → Close → Reading → Composing
unfolding usage_from
read_lines [] ending r = at_close ending r
read_lines (blank ∷ ls) ending r = read_lines ls ending r
read_lines (malformed ∷ ls) ending r = lost r "invalid_output"
read_lines (no_object ∷ ls) ending r = lost r "unreachable"
read_lines (failed ∷ ls) ending r = lost r "invalid_output"
read_lines (object o ∷ ls) ending r =
    read_lines ls ending (with_counts o (with_response o.response r))

abbrev pub nothing_read : Reading
nothing_read = record { parts = []; saw_response = false; usage = no_usage }

abbrev pub ollama_result : OllamaReply → Composing
ollama_result refused = lost nothing_read "invalid_output"
ollama_result (lines ls ending) = read_lines ls ending nothing_read

-- What the local model says of a turn with images.
abbrev pub no_vision : String
no_vision =
    "I can read the text extracted from your image, but the local model can't see images. The cloud model is unavailable right now — please try again shortly."

unfoldable pub generate_local : GraphState → OllamaReply → Composing
unfolding read_lines
generate_local s reply =
    if is_empty s.document_images
    then ollama_result reply
    else record { pieces = []; result = composed no_vision no_usage }

-- A chunk of the cloud model: its text, and its usage metadata with the three counts.
pub record CloudChunk : Type 0 where
  pub text : Option String
  pub usage_metadata : Option (Option ℕ × Option ℕ × Option ℕ)

-- No client, a provider whose streaming is not wired, or a stream.
pub data CloudReply : Type 0 where
  no_client unsupported : CloudReply
  chunks : List CloudChunk → Close → CloudReply

-- `_extract_usage(chunk)`, where the chunk has metadata.
abbrev pub chunk_usage : Option (Option ℕ × Option ℕ × Option ℕ) → TokenUsage → TokenUsage
chunk_usage none usage = usage
chunk_usage (some (input, output, total)) usage = usage_with_total input output total

abbrev pub with_text : List String → Option String → List String
with_text parts none = parts
with_text parts (some piece) = with_part parts piece

-- The first failure of a stream; one that has shown a part is kept as it is.
abbrev pub cut_off : List String → TokenUsage → String → Composing
cut_off [] usage category = record { pieces = []; result = not_composed category }
cut_off (p ∷ ps) usage category = record {
  pieces = p ∷ ps;
  result = composed (concat (p ∷ ps)) usage;
}

abbrev pub at_end : Close → List String → TokenUsage → Composing
at_end closed parts usage = record { pieces = parts; result = composed (concat parts) usage }
at_end timed_out parts usage = cut_off parts usage "timeout"
at_end broken parts usage = cut_off parts usage "unreachable"
at_end raised parts usage = cut_off parts usage "unreachable"

unfoldable pub read_chunks : List CloudChunk → Close → List String → TokenUsage → Composing
unfolding usage_with_total
read_chunks [] ending parts usage = at_end ending parts usage
read_chunks (c ∷ cs) ending parts usage =
    read_chunks cs ending (with_text parts c.text) (chunk_usage c.usage_metadata usage)

unfoldable pub generate_cloud : CloudReply → Composing
unfolding read_chunks
generate_cloud no_client = record { pieces = []; result = not_composed "unreachable" }
generate_cloud unsupported = record { pieces = []; result = not_composed "invalid_output" }
generate_cloud (chunks cs ending) = read_chunks cs ending [] no_usage
