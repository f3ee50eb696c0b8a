-- ===== src/PendingPlans/Slot.antt =====
-- The store of services/pending_plans.py seen from one conversation: a memory entry and a row.
-- Each call acts on the slot of its own conversation by a function that knows of no other.
use core_heartbeat.Prelude.{
  ◌+◌, String, ◌≡◌, Bool, true, false, Option, none, some, List, arith, if◌then◌else◌,
}
use core_heartbeat.PendingPlans.{
  Key, key, same_key, same_key_refl, lookup, lookup-put, lookup-without, Row, Entry, instant, Clock,
  Config, Reply, served, unserved, lost, Source, memory, TableOps, Store, save, take, clear, live,
  from_row,
}
use core_heartbeat.PendingPlans.Interface.{TableLaws}

pub record Slot (C : Type 0) : Type 0 where
  pub entry : Option (Entry C)
  pub row : Option (Row C)

module _ {C : Type 0} where
  -- The row after a request that writes `new`: only a request that the server carried out counts.
  abbrev pub written : Bool → Reply → Option (Row C) → Option (Row C) → Option (Row C)
  written false r new old = old
  written true served new old = new
  written true unserved new old = old
  written true lost new old = new

  abbrev pub saved_entry : Config → Clock → List C → Entry C
  saved_entry cfg now calls = record { expires_at = now.monotonic + cfg.ttl; calls = calls }

  abbrev pub saved_row : Config → Clock → List C → Row C
  saved_row cfg now calls = record { calls = calls; expires_at = instant (now.wall + cfg.ttl) }

  abbrev pub slot_save : Config → Clock → Reply → List C → Slot C → Slot C
  slot_save cfg now r calls s = record {
    entry = some (record { expires_at = now.monotonic + cfg.ttl; calls = calls });
    row =
        written cfg.configured r
          (some (record { calls = calls; expires_at = instant (now.wall + cfg.ttl) })) s.row;
  }

  abbrev pub slot_cleared : Config → Reply → Slot C → Slot C
  slot_cleared cfg r s = record { entry = none; row = written cfg.configured r none s.row }

  -- What a `take` returns: the row decides if the table answers, else the memory.
  abbrev pub slot_reply : Bool → Reply → Clock → Slot C → Option (List C) × Source
  slot_reply true served now s = from_row now.wall s.row
  slot_reply true unserved now s = (live now.monotonic s.entry, memory)
  slot_reply true lost now s = (live now.monotonic s.entry, memory)
  slot_reply false r now s = (live now.monotonic s.entry, memory)

module _ {C T : Type 0} (ops : TableOps C T) where
  abbrev pub slot : Store C T → Key → Slot C
  slot s k = record { entry = lookup k s.entries; row = ops.row s.table k }

module _ {C T : Type 0} (ops : TableOps C T) (laws : TableLaws ops) (cfg : Config) where
  module _ (r : Reply) (user : String) (chat : Option String) (s : Store C T) (j : Key) where
    pub slot-save :
        (now : Clock) (calls : List C)
        → slot ops (save ops cfg now r user chat calls s).1 j ≡ (
            if same_key (key user chat) j
            then slot_save cfg now r calls (slot ops s j)
            else slot ops s j)
    unfolding save
    slot-save now calls = ground (
      arith,
      lookup-put (key user chat) j (saved_entry cfg now calls) s.entries,
      laws.row-upsert s.table (key user chat) j (saved_row cfg now calls),
    )

    pub slot-take :
        (now : Clock)
        → slot ops (take ops cfg now r user chat s).1 j
          ≡ (if same_key (key user chat) j then slot_cleared cfg r (slot ops s j) else slot ops s j)
    unfolding take
    slot-take now = ground (
      arith,
      lookup-without (key user chat) j s.entries,
      laws.row-delete s.table (key user chat) j,
    )

    pub slot-clear :
        slot ops (clear ops cfg r user chat s) j
        ≡ (if same_key (key user chat) j then slot_cleared cfg r (slot ops s j) else slot ops s j)
    unfolding clear
    slot-clear = ground (
      arith,
      lookup-without (key user chat) j s.entries,
      laws.row-delete s.table (key user chat) j,
    )

  pub reply-take :
      (now : Clock) (r : Reply) (user : String) (chat : Option String) (s : Store C T)
      → (take ops cfg now r user chat s).0
        ≡ slot_reply cfg.configured r now (slot ops s (key user chat))
  unfolding take
  reply-take now r user chat s = ground arith

  -- The same at the conversation that the call is about.
  module _ (r : Reply) (user : String) (chat : Option String) (s : Store C T) where
    pub slot-save_self :
        (now : Clock) (calls : List C)
        → slot ops (save ops cfg now r user chat calls s).1 (key user chat)
          ≡ slot_save cfg now r calls (slot ops s (key user chat))
    slot-save_self now calls =
        rw (slot-save r user chat s (key user chat) now calls, same_key_refl (key user chat))

    pub slot-take_self :
        (now : Clock)
        → slot ops (take ops cfg now r user chat s).1 (key user chat)
          ≡ slot_cleared cfg r (slot ops s (key user chat))
    slot-take_self now =
        rw (slot-take r user chat s (key user chat) now, same_key_refl (key user chat))

    pub slot-clear_self :
        slot ops (clear ops cfg r user chat s) (key user chat)
        ≡ slot_cleared cfg r (slot ops s (key user chat))
    slot-clear_self = rw (slot-clear r user chat s (key user chat), same_key_refl (key user chat))
