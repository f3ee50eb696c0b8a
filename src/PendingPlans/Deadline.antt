-- ===== src/PendingPlans/Deadline.antt =====
-- No plan outlives its lifetime.
use core_heartbeat.Prelude.{
  ℕ, ◌+◌, ◌≤◌, String, refl, ap, ◌∙◌, le→leb, ◌≡◌, Bool, Option, none, some, List, [], ◌∷◌, arith,
  if◌then◌else◌,
}
use core_heartbeat.PendingPlans.{
  live, from_row, Key, key, same_key, Row, Entry, Expiry, missing, unreadable, instant, Clock,
  Config, Reply, TableOps, Store, take, expired,
}
use core_heartbeat.PendingPlans.Interface.{TableLaws}
use core_heartbeat.PendingPlans.Slot.{Slot, slot, slot_save, slot_cleared, slot_reply, reply-take}
use core_heartbeat.PendingPlans.Isolation.{Call, saving, taking, clearing, slot_run, slot-run, run}

-- Every `save` of the sequence happened at `last` or before, on both clocks.
abbrev pub SavedBy : {C : Type 0} → Clock → List (Call C) → Type 0
SavedBy last [] = Unit
SavedBy last (saving now r user chat calls ∷ cs) =
    (now.monotonic ≤ last.monotonic) × (now.wall ≤ last.wall) × SavedBy last cs
SavedBy last (taking now r user chat ∷ cs) = SavedBy last cs
SavedBy last (clearing r user chat ∷ cs) = SavedBy last cs

abbrev EntryBy : {C : Type 0} → ℕ → Option (Entry C) → Type 0
EntryBy t none = Unit
EntryBy t (some e) = e.expires_at ≤ t

abbrev DueBy : ℕ → Expiry → Type 0
DueBy t missing = ⊥
DueBy t unreadable = ⊥
DueBy t (instant d) = d ≤ t

abbrev RowBy : {C : Type 0} → ℕ → Option (Row C) → Type 0
RowBy t none = Unit
RowBy t (some r) = DueBy t r.expires_at

-- Both copies of the plan are due at the end of the lifetime of the last `save`.
record IsDue {C : Type 0} (cfg : Config) (last : Clock) (s : Slot C) : Type 0 where
  entry_due : EntryBy (last.monotonic + cfg.ttl) s.entry
  row_due : RowBy (last.wall + cfg.ttl) s.row

module _ {C : Type 0} (cfg : Config) (last : Clock) where
  save-IsDue :
      (now : Clock) (r : Reply) (calls : List C) (b : Bool) (s : Slot C)
      → now.monotonic ≤ last.monotonic
      → now.wall ≤ last.wall
      → IsDue cfg last s
      → IsDue cfg last (if b then slot_save cfg now r calls s else s)
  save-IsDue now r calls b s m w h = ground arith

  cleared-IsDue :
      (r : Reply) (b : Bool) (s : Slot C)
      → IsDue cfg last s
      → IsDue cfg last (if b then slot_cleared cfg r s else s)
  cleared-IsDue r b s h = ground arith

  row_due_reply :
      (now : ℕ) (row : Option (Row C))
      → last.wall + cfg.ttl ≤ now
      → RowBy (last.wall + cfg.ttl) row
      → (from_row now row).0 ≡ none
  unfolding expired
  row_due_reply now none w h = refl
  row_due_reply now (some row) w h = due row.expires_at h
    where
      due :
          (e : Expiry)
          → DueBy (last.wall + cfg.ttl) e
          → (from_row now (some (record row { expires_at = e }))).0 ≡ none
      due missing d = absurd d
      due unreadable d = absurd d
      due (instant t) d = rw (le→leb t now (omega arith))

  entry_due_reply :
      (now : ℕ) (entry : Option (Entry C))
      → last.monotonic + cfg.ttl ≤ now
      → EntryBy (last.monotonic + cfg.ttl) entry
      → live now entry ≡ none
  entry_due_reply now none m h = refl
  entry_due_reply now (some e) m h = ground arith

  reply_due :
      (r : Reply) (now : Clock) (s : Slot C)
      → last.monotonic + cfg.ttl ≤ now.monotonic
      → last.wall + cfg.ttl ≤ now.wall
      → IsDue cfg last s
      → (slot_reply cfg.configured r now s).0 ≡ none
  reply_due r now s m w h = ground (
    arith,
    row_due_reply now.wall s.row w h.row_due,
    entry_due_reply now.monotonic s.entry m h.entry_due,
  )

  slot_run-IsDue :
      (k : Key) (cs : List (Call C)) (s : Slot C)
      → SavedBy last cs
      → IsDue cfg last s
      → IsDue cfg last (slot_run cfg k cs s)
  slot_run-IsDue k [] s b h = h
  slot_run-IsDue k (saving now r user chat calls ∷ cs) s b h =
      slot_run-IsDue k cs _ b.2 (save-IsDue now r calls (same_key (key user chat) k) s b.0 b.1 h)
  slot_run-IsDue k (taking now r user chat ∷ cs) s b h =
      slot_run-IsDue k cs _ b (cleared-IsDue r (same_key (key user chat) k) s h)
  slot_run-IsDue k (clearing r user chat ∷ cs) s b h =
      slot_run-IsDue k cs _ b (cleared-IsDue r (same_key (key user chat) k) s h)

module _ {C T : Type 0} (ops : TableOps C T) (laws : TableLaws ops) (cfg : Config) where
  -- From a store with no plans, after any sequence of calls in which every `save` happened at
  -- `last` or before, a `take` at `last` plus the lifetime or later returns no plan, whatever
  -- the requests met: over the table and over the memory, no plan outlives its lifetime.
  pub take_expired :
      (s : Store C T) (cs : List (Call C)) (last now : Clock) (r : Reply) (user : String)
      (chat : Option String)
      → slot ops s (key user chat) ≡ record { entry = none; row = none }
      → SavedBy last cs
      → last.monotonic + cfg.ttl ≤ now.monotonic
      → last.wall + cfg.ttl ≤ now.wall
      → (take ops cfg now r user chat (run ops cfg cs s)).0.0 ≡ none
  take_expired s cs last now r user chat fresh by m w =
      let k = key user chat in
      let due =
        slot_run-IsDue cfg last k cs (record { entry = none; row = none }) by
          (record { entry_due = tt; row_due = tt }) in
      let e = slot-run ops laws cfg cs s k ∙ ap (slot_run cfg k cs) fresh in
      rw (reply-take ops laws cfg now r user chat (run ops cfg cs s), e)
        (reply_due cfg last r now _ m w due)
