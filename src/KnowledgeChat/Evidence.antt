-- ===== src/KnowledgeChat/Evidence.antt =====
-- The sources that a turn of knowledge_chat.py shows under its answer.
use mathlib.Core.Bool.{false}
use mathlib.Core.Path.{subst}
use core_heartbeat.KnowledgeChat.Ending.{IsKept, IsTurn, progress_kept, spoken, spoken-append}
use core_heartbeat.KnowledgeChat.World.{Request, World, Call}
use core_heartbeat.KnowledgeChat.Induction.{IsKeptByRounds, Done, last_state-Done}
use core_heartbeat.KnowledgeChat.Calls.{calls_of}
use core_heartbeat.KnowledgeChat.Lines.{take_list}
use core_heartbeat.Prelude.{
  Bool, ℕ, suc, ◌+◌, ◌≡◌, refl, sym, ap, ◌∙◌, true, not, ◌&&◌, List, [], ◌∷◌, ◌++◌, all, any, ◌==◌,
  is_empty, if_cases, arith, map, Option, none, some, zero, append_assoc, append-nil, strip,
  is_space,
}
use core_heartbeat.KnowledgeChat.Text.{Text, Unicode, cited_numbers, glue}
use core_heartbeat.KnowledgeChat.Context.{
  Passage, TurnContext, Source, source_of, cited_passages, cited_sentences, is_about_base,
  cited_sources,
}
use core_heartbeat.KnowledgeChat.Run.{
  State, Event, token, tool_call, sources, status, max_calls_per_round, apology, failed, closing,
  finished, run, last_state, no_answer, completed,
}

-- The sources that the events show.
abbrev pub shown_sources : List Event → List Source
shown_sources [] = []
shown_sources (token t ∷ es) = shown_sources es
shown_sources (tool_call c ∷ es) = shown_sources es
shown_sources (sources ss ∷ es) = ss ++ shown_sources es
shown_sources (status s ∷ es) = shown_sources es

-- `passages[i]`
abbrev pub nth : ℕ → List Passage → Option Passage
nth i [] = none
nth zero (p ∷ ps) = some p
nth (suc i) (p ∷ ps) = nth i ps

-- The source is the excerpt of a passage of the turn, and the text cites its number.
pub record IsEvidence (u : Unicode) (answer : Text) (passages : List Passage) (s : Source)
    : Type 0 where
  pub position : ℕ
  pub passage : Passage
  pub stands : nth position passages ≡ some passage
  pub shows : s ≡ source_of passage
  pub cited : any (λ m. m == passage.n) (cited_numbers u answer) ≡ true

abbrev pub AllEvidence : Unicode → Text → List Passage → List Source → Type 0
AllEvidence u answer passages [] = Unit
AllEvidence u answer passages (s ∷ ss) =
    IsEvidence u answer passages s × AllEvidence u answer passages ss

kept-AllEvidence :
    (u : Unicode) (answer : Text) (passages : List Passage) (k : ℕ) (ps : List Passage)
    → ((i : ℕ) → nth i ps ≡ nth (k + i) passages)
    → AllEvidence u answer passages (map source_of (cited_passages u answer ps))
unfolding cited_passages
kept-AllEvidence u answer passages k [] at = tt
kept-AllEvidence u answer passages k (p ∷ ps) at =
    let rest =
      kept-AllEvidence u answer passages (suc k) ps
        (λ i. at (suc i) ∙ ap (λ j. nth j passages) (omega arith)) in
    if_cases (λ qs. AllEvidence u answer passages (map source_of qs))
      (any (λ m. m == p.n) (cited_numbers u answer))
      (λ c. (
        record {
          position = k;
          passage = p;
          stands = ap (λ j. nth j passages) (omega arith) ∙ sym (at 0);
          shows = refl;
          cited = c;
        },
        rest,
      ))
      (λ _. rest)

cited_sources-AllEvidence :
    (u : Unicode) (answer : Text) (ctx : TurnContext)
    → AllEvidence u answer ctx.passages (cited_sources u answer ctx)
unfolding cited_sources
cited_sources-AllEvidence u answer ctx =
    let cited = cited_sentences u answer in
    if_cases (AllEvidence u answer ctx.passages)
      (not (is_empty cited) && all (is_about_base u) cited) (λ _. tt)
      (λ _.
        kept-AllEvidence u answer ctx.passages 0 ctx.passages
          (λ i. ap (λ j. nth j ctx.passages) (omega arith)))

shown_sources-append :
    (xs ys : List Event) → shown_sources (xs ++ ys) ≡ shown_sources xs ++ shown_sources ys
shown_sources-append [] ys = refl
shown_sources-append (token t ∷ xs) ys = shown_sources-append xs ys
shown_sources-append (tool_call c ∷ xs) ys = shown_sources-append xs ys
shown_sources-append (sources ss ∷ xs) ys =
    ap (λ r. ss ++ r) (shown_sources-append xs ys)
    ∙ sym (append_assoc ss (shown_sources xs) (shown_sources ys))
shown_sources-append (status s ∷ xs) ys = shown_sources-append xs ys

module _ (w : World) (req : Request) where
  abbrev NoSources : State → Type 0
  NoSources s = shown_sources s.events ≡ []

  quiet :
      (s : State) (es : List Event)
      → NoSources s
      → shown_sources es ≡ []
      → shown_sources (s.events ++ es) ≡ []
  quiet s es k e = shown_sources-append s.events es ∙ (ap (λ r. r ++ shown_sources es) k ∙ e)

  tokens_sourceless : (ts : List Text) → shown_sources (map token ts) ≡ []
  tokens_sourceless [] = refl
  tokens_sourceless (t ∷ ts) = tokens_sourceless ts

  calls_sourceless : (cs : List Call) → shown_sources (map tool_call cs) ≡ []
  calls_sourceless [] = refl
  calls_sourceless (c ∷ cs) = calls_sourceless cs

  sources_kept : IsKeptByRounds w req NoSources NoSources
  sources_kept = record {
    streams = λ ts s k. quiet s (map token ts) k (tokens_sourceless ts);
    sends_back = λ held s k. k;
    runs = λ n parts s k.
        let calls = take_list max_calls_per_round (calls_of parts) in
        quiet s (map tool_call calls) k (calls_sourceless calls);
    fails = λ s k. quiet s (token (apology w req) ∷ status failed ∷ []) k refl;
  }

  moved :
      (a b : Text) (ps : List Passage) (ss tt' : List Source)
      → a ≡ b
      → ss ≡ tt'
      → AllEvidence w.unicode a ps ss
      → AllEvidence w.unicode b ps tt'
  moved a b ps ss tt' e f h =
      subst (λ x. AllEvidence w.unicode x ps tt') e
        (subst (λ xs. AllEvidence w.unicode a ps xs) f h)

  closing-AllEvidence :
      (s : State)
      → IsKept s
      → NoSources s
      → AllEvidence w.unicode
          (strip is_space (spoken (s.events ++ closing w req s)))
          s.ctx.passages
          (shown_sources (s.events ++ closing w req s))
  closing-AllEvidence s k n =
      let answer = strip is_space (glue s.answer_parts) in
      if_cases
        (λ es.
          AllEvidence w.unicode (strip is_space (spoken (s.events ++ es))) s.ctx.passages
            (shown_sources (s.events ++ es)))
        (is_empty answer)
        (λ _.
          moved _ _ s.ctx.passages [] _ refl
            (sym (quiet s (token (no_answer w req) ∷ sources [] ∷ status completed ∷ []) n refl))
            tt)
        (λ _.
          let ss = cited_sources w.unicode answer s.ctx in
          let end = sources ss ∷ status completed ∷ [] in
          moved answer (strip is_space (spoken (s.events ++ end))) s.ctx.passages ss
            (shown_sources (s.events ++ end))
            (ap (strip is_space)
              (sym (spoken-append s.events end ∙ (append-nil (spoken s.events) ∙ k.same))))
            (sym (
              shown_sources-append s.events end
              ∙ (ap (λ r. r ++ shown_sources end) n ∙ append-nil ss)))
            (cited_sources-AllEvidence w.unicode answer s.ctx))

  finished-AllEvidence :
      (d : Bool × State)
      → Done w req IsKept (λ s. IsTurn s.events) (progress_kept w req) d
      → Done w req NoSources NoSources sources_kept d
      → AllEvidence w.unicode
          (strip is_space (spoken (finished w req d)))
          d.1.ctx.passages
          (shown_sources (finished w req d))
  finished-AllEvidence (true, s) k n = closing-AllEvidence s k n
  finished-AllEvidence (false, s) k n = moved _ _ s.ctx.passages [] _ refl (sym n) tt

  -- Every source that a turn shows is the excerpt of a passage that the turn has retrieved, and the
  -- text that the reader has been shown cites the number of that passage.
  pub turn_sources-AllEvidence :
      AllEvidence w.unicode
        (strip is_space (spoken (run w req)))
        (last_state w req).1.ctx.passages
        (shown_sources (run w req))
  unfolding run
  turn_sources-AllEvidence =
      if_cases
        (λ es.
          AllEvidence w.unicode (strip is_space (spoken es)) (last_state w req).1.ctx.passages
            (shown_sources es))
        w.has_client
        (λ _.
          finished-AllEvidence (last_state w req)
            (last_state-Done w req IsKept (λ s. IsTurn s.events) (progress_kept w req)
              (record { progress = refl; same = refl }))
            (last_state-Done w req NoSources NoSources sources_kept refl))
        (λ _. tt)
