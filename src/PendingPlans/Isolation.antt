-- ===== src/PendingPlans/Isolation.antt =====
-- Sequences of calls of services/pending_plans.py, over the store and over one slot.
use core_heartbeat.Prelude.{String, ◌≡◌, refl, Option, List, [], ◌∷◌, if◌then◌else◌}
use core_heartbeat.PendingPlans.{
  Key, key, same_key, Clock, Config, Reply, TableOps, Store, save, take, clear,
}
use core_heartbeat.PendingPlans.Interface.{TableLaws}
use core_heartbeat.PendingPlans.Slot.{
  Slot, slot, slot_save, slot_cleared, slot-save, slot-take, slot-clear,
}

-- One call, with its conversation and what its request met.
pub data Call (C : Type 0) : Type 0 where
  saving : Clock → Reply → String → Option String → List C → Call C
  taking : Clock → Reply → String → Option String → Call C
  clearing : Reply → String → Option String → Call C

module _ {C : Type 0} where
  abbrev pub conversation : Call C → Key
  conversation (saving now r user chat calls) = key user chat
  conversation (taking now r user chat) = key user chat
  conversation (clearing r user chat) = key user chat

  abbrev pub slot_step : Config → Call C → Slot C → Slot C
  slot_step cfg (saving now r user chat calls) s = slot_save cfg now r calls s
  slot_step cfg (taking now r user chat) s = slot_cleared cfg r s
  slot_step cfg (clearing r user chat) s = slot_cleared cfg r s

  -- The calls that belong to another conversation are skipped.
  abbrev pub slot_run : Config → Key → List (Call C) → Slot C → Slot C
  slot_run cfg j [] s = s
  slot_run cfg j (c ∷ cs) s =
      slot_run cfg j cs (if same_key (conversation c) j then slot_step cfg c s else s)

module _ {C T : Type 0} (ops : TableOps C T) (cfg : Config) where
  abbrev pub step : Call C → Store C T → Store C T
  step (saving now r user chat calls) s = (save ops cfg now r user chat calls s).1
  step (taking now r user chat) s = (take ops cfg now r user chat s).1
  step (clearing r user chat) s = clear ops cfg r user chat s

  abbrev pub run : List (Call C) → Store C T → Store C T
  run [] s = s
  run (c ∷ cs) s = run cs (step c s)

module _ {C T : Type 0} (ops : TableOps C T) (laws : TableLaws ops) (cfg : Config) where
  slot-step :
      (c : Call C) (s : Store C T) (j : Key)
      → slot ops (step ops cfg c s) j
        ≡ (if same_key (conversation c) j then slot_step cfg c (slot ops s j) else slot ops s j)
  slot-step (saving now r user chat calls) s j = slot-save ops laws cfg r user chat s j now calls
  slot-step (taking now r user chat) s j = slot-take ops laws cfg r user chat s j now
  slot-step (clearing r user chat) s j = slot-clear ops laws cfg r user chat s j

  -- After any sequence of calls, whatever their requests met, the memory entry and the table row of
  -- a conversation are what its own calls alone make of them: no call of another user or of
  -- another chat changes them.
  pub slot-run :
      (cs : List (Call C)) (s : Store C T) (j : Key)
      → slot ops (run ops cfg cs s) j ≡ slot_run cfg j cs (slot ops s j)
  slot-run [] s j = refl
  slot-run (c ∷ cs) s j = rw (← slot-step c s j) (slot-run cs (step ops cfg c s) j)
