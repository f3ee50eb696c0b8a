-- ===== src/KnowledgeChat/Budget.antt =====
-- The context budget over a whole turn of knowledge_chat.py.
use mathlib.Core.Bool.{false, true}
use core_heartbeat.KnowledgeChat.Passages.{IsSound, gather-SlotsFine}
use core_heartbeat.KnowledgeChat.Induction.{IsKeptByRounds, Done, last_state-Done}
use core_heartbeat.KnowledgeChat.Run.{State, max_calls_per_round, last_state}
use core_heartbeat.Prelude.{map, refl, Bool, arith}
use core_heartbeat.KnowledgeChat.Lines.{take_list}
use core_heartbeat.KnowledgeChat.World.{Request, World}
use core_heartbeat.KnowledgeChat.Calls.{calls_of, waiting}

module _ (w : World) (req : Request) where
  abbrev StateFine : State → Type 0
  StateFine s = IsSound w.settings.context_chars s.ctx

  passages_kept : IsKeptByRounds w req StateFine StateFine
  passages_kept = record {
    streams = λ ts s k. k;
    sends_back = λ held s k. k;
    runs = λ n parts s k.
        gather-SlotsFine w (w.order n)
          (map waiting (take_list max_calls_per_round (calls_of parts))) s.ctx k;
    fails = λ s k. k;
  }

  at_end : (d : Bool × State) → Done w req StateFine StateFine passages_kept d → StateFine d.1
  at_end (true, s) k = k
  at_end (false, s) k = k

  -- At the end of a turn, whatever tools it has called and in whatever order their results have come,
  -- the passages have the numbers 1, 2, … in the order in which they came, no two share a key, and
  -- their texts together are no longer than the context budget.
  pub turn_passages-IsSound : IsSound w.settings.context_chars (last_state w req).1.ctx
  turn_passages-IsSound = at_end (last_state w req) (
      last_state-Done w req StateFine StateFine passages_kept
        (record { order = tt; keys = tt; same = refl; counted = refl; within = omega arith }))
