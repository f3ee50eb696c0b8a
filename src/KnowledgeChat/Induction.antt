-- ===== src/KnowledgeChat/Induction.antt =====
-- Induction over the rounds of a turn of knowledge_chat.py.
use core_heartbeat.Prelude.{
  ℕ, zero, suc, ◌+◌, Bool, true, false, not, ◌&&◌, List, [], ◌∷◌, is_empty, if_cases, leb,
  if◌then◌else◌,
}
use core_heartbeat.KnowledgeChat.Text.{Text, glue}
use core_heartbeat.KnowledgeChat.Lines.{blank_line}
use core_heartbeat.KnowledgeChat.World.{World, Request, Part, Reply}
use core_heartbeat.KnowledgeChat.Calls.{texts_of, calls_of}
use core_heartbeat.KnowledgeChat.History.{library_block, discussed_block}
use core_heartbeat.KnowledgeChat.Run.{
  State, Exit, again, broke, returned, streamed, failed_now, sent_back, spoke, ran_calls, worked,
  ungrounded, mode_of, after_stream, one_round, next_round, rounds, first_state, last_state,
  library,
}

module _ (w : World) (req : Request) where
  -- What the steps of a round keep, and what the end by an error gives.
  pub record IsKeptByRounds (P Q : State → Type 0) : Type 1 where
    pub streams : (ts : List Text) (s : State) → P s → P (streamed w req ts s)
    pub sends_back : (held : Text) (s : State) → P s → P (sent_back w req held s)
    pub runs : (n : ℕ) (parts : List Part) (s : State) → P s → P (ran_calls w req n parts s)
    pub fails : (s : State) → P s → Q (failed_now w req s)

  module _ (P Q : State → Type 0) (h : IsKeptByRounds P Q) where
    abbrev Left : Exit × State → Type 0
    Left (again, s) = P s
    Left (broke, s) = P s
    Left (returned, s) = Q s

    abbrev pub Done : Bool × State → Type 0
    Done (true, s) = P s
    Done (false, s) = Q s

    spoke-Left :
        (buffering : Bool) (held : Text) (s : State) → P s → Left (spoke w req buffering held s)
    spoke-Left buffering held s k =
        if_cases Left (buffering && not s.force_tools && ungrounded w req held)
          (λ _. h.sends_back held s k)
          (λ _. if_cases Left (is_empty held) (λ _. k) (λ _. h.streams (held ∷ []) s k))

    worked-kept :
        (n : ℕ) (parts : List Part) (streamed_this_round : Bool) (s : State)
        → P s
        → P (worked w req n parts streamed_this_round s)
    worked-kept n parts b s k =
        let k' = h.runs n parts s k in
        if_cases P b (λ _. h.streams (blank_line ∷ []) (ran_calls w req n parts s) k') (λ _. k')

    after_stream-Left :
        (n : ℕ) (tools_enabled buffering : Bool) (r : Reply) (s : State)
        → P s
        → Left (after_stream w req n tools_enabled buffering r s)
    after_stream-Left n tools_enabled buffering r s k =
        let texts = texts_of r.parts in
        let s' = streamed w req (if buffering then [] else texts) s in
        let k' = h.streams (if buffering then [] else texts) s k in
        if_cases Left r.fails
          (λ _. if_cases Left (is_empty s'.answer_parts) (λ _. h.fails s' k') (λ _. k'))
          (λ _.
            if_cases Left (is_empty (calls_of r.parts))
              (λ _. spoke-Left buffering (glue (if buffering then texts else [])) s' k')
              (λ _.
                if_cases Left (not tools_enabled) (λ _. k')
                  (λ _. worked-kept n r.parts (not buffering && not (is_empty texts)) s' k')))

    one_round-Left : (n : ℕ) (system : Text) (s : State) → P s → Left (one_round w req n system s)
    unfolding one_round
    one_round-Left n system s k =
        let tools_enabled = leb n w.settings.max_rounds in
        after_stream-Left n tools_enabled (not s.tools_called && tools_enabled)
          (w.stream n system s.contents (mode_of w req tools_enabled s.force_tools)) s k

    next_round-Done :
        (later : State → Bool × State)
        → ((s : State) → P s → Done (later s))
        → (e : Exit × State) → Left e
        → Done (next_round w req later e)
    next_round-Done later g (again, s) k = g s k
    next_round-Done later g (broke, s) k = k
    next_round-Done later g (returned, s) k = k

    pub rounds-Done :
        (left n : ℕ) (system : Text) (s : State) → P s → Done (rounds w req left n system s)
    unfolding rounds
    rounds-Done zero n system s k = k
    rounds-Done (suc left) n system s k =
        next_round-Done (λ s'. rounds w req left (suc n) system s')
          (rounds-Done left (suc n) system) (one_round w req n system s)
          (one_round-Left n system s k)

    -- A turn ends in a state that its rounds have kept.
    pub last_state-Done : P (first_state w req) → Done (last_state w req)
    unfolding last_state
    last_state-Done k =
        rounds-Done (w.settings.max_rounds + 1) 1
          (w.prompt (library_block (library w req)) (discussed_block w.settings.history_turns req))
          (first_state w req) k
