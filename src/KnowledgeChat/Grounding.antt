-- ===== src/KnowledgeChat/Grounding.antt =====
-- When a turn of knowledge_chat.py may answer without having called a tool.
use mathlib.Core.Path.{subst}
use core_heartbeat.KnowledgeChat.History.{library_block, discussed_block}
use core_heartbeat.KnowledgeChat.Calls.{calls_of, texts_of}
use core_heartbeat.KnowledgeChat.Run.{
  ungrounded, mode_of, rounds, next_round, one_round, after_stream, worked, streamed, State, Exit,
  library, first_state, last_state, sent_back,
}
use core_heartbeat.Prelude.{
  sym, ◌≤◌, append-nil, suc, ℕ, ◌≡◌, refl, ap, ◌∙◌, Bool, true, false, not, ◌&&◌, List, [], ◌++◌,
  is_empty, if_cases, arith, leb, and-false, ◌-◌,
}
use core_heartbeat.KnowledgeChat.Text.{Text, glue, has_citation}
use core_heartbeat.KnowledgeChat.World.{World, Request, Content, must_call, Reply, Part, auto}
use core_heartbeat.KnowledgeChat.Induction.{IsKeptByRounds, Done, rounds-Done}

module _ (w : World) (req : Request) where
  -- A model that is told to call a tool does so, unless the request fails.
  abbrev pub ObeysMustCall : Type 0
  ObeysMustCall =
      (n : ℕ) (system : Text) (contents : List Content)
      → (w.stream n system contents must_call).fails ≡ false
      → is_empty (calls_of (w.stream n system contents must_call).parts) ≡ false

  -- Without a tool call, the answer is not one that has to be grounded.
  abbrev pub IsGrounded : Bool × State → Type 0
  IsGrounded (b, s) = s.tools_called ≡ false → ungrounded w req (glue s.answer_parts) ≡ false

  tools_kept : IsKeptByRounds w req (λ s. s.tools_called ≡ true) (λ s. s.tools_called ≡ true)
  tools_kept = record {
    streams = λ ts s k. k;
    sends_back = λ held s k. k;
    runs = λ n parts s k. refl;
    fails = λ s k. k;
  }

  called_once :
      (d : Bool × State)
      → Done w req (λ s. s.tools_called ≡ true) (λ s. s.tools_called ≡ true) tools_kept d
      → IsGrounded d
  called_once (true, s) k = λ no. ground (arith, k, no)
  called_once (false, s) k = λ no. ground (arith, k, no)

  called-IsGrounded :
      (left n : ℕ) (system : Text) (s : State)
      → s.tools_called ≡ true
      → IsGrounded (rounds w req left n system s)
  called-IsGrounded left n system s k = called_once (rounds w req left n system s) (
      rounds-Done w req (λ s. s.tools_called ≡ true) (λ s. s.tools_called ≡ true) tools_kept left n
        system s k)

  -- A round that buffers, in a state that holds no answer yet.
  enabled :
      (n : ℕ) (system : Text) (s : State)
      → leb n w.settings.max_rounds ≡ true
      → s.tools_called ≡ false
      → one_round w req n system s
        ≡ after_stream w req n true true
            (w.stream n system s.contents (mode_of w req true s.force_tools))
            s
  unfolding one_round
  enabled n system s e f =
      ap
        (λ b.
          after_stream w req n b (not s.tools_called && b)
            (w.stream n system s.contents (mode_of w req b s.force_tools)) s)
        e
      ∙ ap
          (λ c.
            after_stream w req n true (not c && true)
              (w.stream n system s.contents (mode_of w req true s.force_tools)) s)
          f

  unanswered :
      (s : State) → s.answer_parts ≡ [] → ungrounded w req (glue (s.answer_parts ++ [])) ≡ false
  unfolding has_citation
  unanswered s e =
      ap (λ ps. ungrounded w req (glue (ps ++ []))) e ∙ and-false (not (is_empty req.history))

  -- The rest of a turn, after a round with calls.
  worked-IsGrounded :
      (left n : ℕ) (system : Text) (m : ℕ) (parts : List Part) (b : Bool) (s : State)
      → IsGrounded (rounds w req left n system (worked w req m parts b s))
  worked-IsGrounded left n system m parts b s =
      if_cases (λ s'. IsGrounded (rounds w req left n system s')) b
        (λ _. called-IsGrounded left n system _ refl) (λ _. called-IsGrounded left n system _ refl)

  module _ (left n : ℕ) (system : Text) where
    abbrev Grounds : Exit × State → Type 0
    Grounds e = IsGrounded (next_round w req (λ s'. rounds w req left n system s') e)

    -- The round in which the model must call a tool.
    forced-Grounds :
        (m : ℕ) (r : Reply) (s : State)
        → s.answer_parts ≡ []
        → (r.fails ≡ false → is_empty (calls_of r.parts) ≡ false)
        → Grounds (after_stream w req m true true r s)
    forced-Grounds m r s e obeys =
        let s' = streamed w req [] s in
        if_cases Grounds r.fails
          (λ _.
            if_cases Grounds (is_empty s'.answer_parts) (λ _ _. unanswered s e)
              (λ _ _. unanswered s e))
          (λ ok.
            if_cases Grounds (is_empty (calls_of r.parts))
              (λ none_called. ground (arith, obeys ok, none_called))
              (λ _. worked-IsGrounded left n system m r.parts false s'))

  -- The second round, after an answer that was sent back.
  forced-IsGrounded :
      (left n : ℕ) (system : Text) (s : State)
      → ObeysMustCall
      → leb n w.settings.max_rounds ≡ true
      → s.tools_called ≡ false
      → s.force_tools ≡ true
      → s.answer_parts ≡ []
      → IsGrounded (rounds w req (suc left) n system s)
  unfolding rounds
  forced-IsGrounded left n system s obeys e f g parts =
      subst (λ x. IsGrounded (next_round w req (λ s'. rounds w req left (suc n) system s') x))
        (sym (enabled n system s e f))
        (subst
          (λ b. IsGrounded (
            next_round w req (λ s'. rounds w req left (suc n) system s')
              (after_stream w req n true true (w.stream n system s.contents (mode_of w req true b))
                s)))
          (sym g)
          (forced-Grounds left (suc n) system n (w.stream n system s.contents must_call) s parts
            (obeys n system s.contents)))

  -- The first round.
  first-Grounds :
      (left n : ℕ) (system : Text) (r : Reply)
      → ((s : State)
          → s.tools_called ≡ false
          → s.force_tools ≡ true
          → s.answer_parts ≡ []
          → IsGrounded (rounds w req left n system s))
      → Grounds left n system (after_stream w req 1 true true r (first_state w req))
  first-Grounds left n system r later =
      let P = Grounds left n system in
      let s = first_state w req in
      let held = glue (texts_of r.parts) in
      if_cases P r.fails (λ _ _. unanswered s refl)
        (λ _.
          if_cases P (is_empty (calls_of r.parts))
            (λ _.
              if_cases P (ungrounded w req held)
                (λ _. later (sent_back w req held (streamed w req [] s)) refl refl refl)
                (λ grounded.
                  if_cases P (is_empty held) (λ _ _. unanswered s refl)
                    (λ _ _. ap (ungrounded w req) (append-nil held) ∙ grounded)))
            (λ _. worked-IsGrounded left n system 1 r.parts false (streamed w req [] s)))

  two_rounds :
      (left : ℕ) (system : Text)
      → 2 ≤ w.settings.max_rounds
      → ObeysMustCall
      → IsGrounded (rounds w req (suc (suc left)) 1 system (first_state w req))
  unfolding rounds
  two_rounds left system two obeys =
      subst (Grounds (suc left) 2 system)
        (sym (enabled 1 system (first_state w req) (ground (arith, two)) refl))
        (first-Grounds (suc left) 2 system (w.stream 1 system (first_state w req).contents auto)
          (λ s f g e. forced-IsGrounded left 2 system s obeys (ground (arith, two)) f g e))

  -- With two rounds or more, and a model that calls a tool when it is told to, a turn that has called
  -- no tool has no answer, or one that cites nothing and is short unless it is the first of its
  -- conversation.
  pub turn-IsGrounded : 2 ≤ w.settings.max_rounds → ObeysMustCall → IsGrounded (last_state w req)
  unfolding last_state
  turn-IsGrounded two obeys =
      let system =
        w.prompt (library_block (library w req)) (discussed_block w.settings.history_turns req) in
      let left = w.settings.max_rounds - 1 in
      subst (λ k. IsGrounded (rounds w req k 1 system (first_state w req))) {x = suc (suc left)}
        (omega (arith, two)) (two_rounds left system two obeys)
