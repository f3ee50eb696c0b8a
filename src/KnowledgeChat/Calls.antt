-- ===== src/KnowledgeChat/Calls.antt =====
-- knowledge_chat.py: what a stream of the model holds, and how the calls of a round are run.
use core_heartbeat.Prelude.{ℕ, zero, suc, true, false, List, [], ◌∷◌}
use core_heartbeat.KnowledgeChat.Text.{Text}
use core_heartbeat.KnowledgeChat.Context.{TurnContext}
use core_heartbeat.KnowledgeChat.Tools.{run_tool}
use core_heartbeat.KnowledgeChat.World.{World, Call, Part, called, said, other, Shown}

-- The texts of a stream that are shown, and its calls.
abbrev pub texts_of : List Part → List Text
texts_of [] = []
texts_of (called c ∷ ps) = texts_of ps
texts_of (said [] thought ∷ ps) = texts_of ps
texts_of (said (c ∷ t) true ∷ ps) = texts_of ps
texts_of (said (c ∷ t) false ∷ ps) = (c ∷ t) ∷ texts_of ps
texts_of (other ∷ ps) = texts_of ps

abbrev pub calls_of : List Part → List Call
calls_of [] = []
calls_of (called c ∷ ps) = c ∷ calls_of ps
calls_of (said t thought ∷ ps) = calls_of ps
calls_of (other ∷ ps) = calls_of ps

-- A tool call of a round, before and after its result.
pub data Slot : Type 0 where
  waiting : Call → Slot
  done : Call → Text → Slot

module _ (w : World) where
  abbrev pub settle : Slot → TurnContext → Slot × TurnContext
  settle (waiting c) ctx = let (result, ctx') = run_tool w ctx c in (done c result, ctx')
  settle (done c r) ctx = (done c r, ctx)

  -- The call at a position comes back.
  abbrev pub settle_at : ℕ → List Slot → TurnContext → List Slot × TurnContext
  settle_at n [] ctx = ([], ctx)
  settle_at zero (s ∷ slots) ctx = let (s', ctx') = settle s ctx in (s' ∷ slots, ctx')
  settle_at (suc n) (s ∷ slots) ctx =
      let (slots', ctx') = settle_at n slots ctx in (s ∷ slots', ctx')

  abbrev pub settle_all : List Slot → TurnContext → List Slot × TurnContext
  settle_all [] ctx = ([], ctx)
  settle_all (s ∷ slots) ctx =
      let (s', ctx') = settle s ctx in
      let (slots', last) = settle_all slots ctx' in (s' ∷ slots', last)

  -- `asyncio.gather` of the calls: each runs to its end when it comes back, in an order that the
  -- network decides; those that the order leaves out come last.
  unfoldable pub gather : List ℕ → List Slot → TurnContext → List Slot × TurnContext
  gather [] slots ctx = settle_all slots ctx
  gather (n ∷ order) slots ctx =
      let (slots', ctx') = settle_at n slots ctx in gather order slots' ctx'

  abbrev pub responses : List Slot → List Shown
  responses [] = []
  responses (waiting c ∷ slots) = responses slots
  responses (done c r ∷ slots) = Shown.response c.name r ∷ responses slots
