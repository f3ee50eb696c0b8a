-- ===== src/PendingPlans.antt =====
-- services/pending_plans.py: write actions proposed to the user and awaiting their "yes".
-- The module's dict `_memory` and the Supabase table are the state; every public call returns the
-- new state. What one request met on the network is the argument `Reply`; the table itself is not
-- part of the repository and enters as the interface `Table`.
mod Slots
pub mod Interface
pub mod Deadline
pub mod RoundTrip
pub mod SingleUse
pub mod Isolation
pub mod Slot
pub mod Tests
unfoldable pub use Slots.*
use core_heartbeat.Prelude.{
  ℕ, ◌+◌, String, Bool, true, false, Option, none, some, List, [], ◌∷◌, leb, ltb, is_empty,
  if◌then◌else◌,
}

-- `expires_at` of a row: absent, not a timestamp, or an instant in seconds.
pub data Expiry : Type 0 where
  missing unreadable : Expiry
  instant : ℕ → Expiry

pub record Row (C : Type 0) : Type 0 where
  pub calls : List C
  pub expires_at : Expiry

-- An entry of `_memory`: `(time.monotonic() + PLAN_TTL_S, list(calls))`.
pub record Entry (C : Type 0) : Type 0 where
  pub expires_at : ℕ
  pub calls : List C

-- How one HTTP request ended: answered; not carried out (no connection, an error status); or
-- carried out by the server with the answer lost or unreadable.
pub data Reply : Type 0 where
  served unserved lost : Reply

-- The two clocks at a call, in seconds: `time.monotonic()` and the wall clock in UTC.
pub record Clock : Type 0 where
  pub monotonic : ℕ
  pub wall : ℕ

-- The `source` that `take` reports and the backend that `save` reports.
pub data Source : Type 0 where
  db memory db_expired db_miss : Source

-- `_config()` is not None, and `PLAN_TTL_S`.
pub record Config : Type 0 where
  pub configured : Bool
  pub ttl : ℕ

-- The Supabase table `pending_plans` with its primary key (user_id, chat_id), as PostgREST
-- documents it: `POST` with `resolution=merge-duplicates` replaces the row of that key, `DELETE`
-- with an equality filter on both columns removes that row and no other.
pub record TableOps (C T : Type 0) : Type 0 where
  pub row : T → Key → Option (Row C)
  pub upsert : T → Key → Row C → T
  pub delete : T → Key → T

pub record Store (C T : Type 0) : Type 0 where
  pub entries : Dict (Entry C)
  pub table : T

module _ {C : Type 0} where
  abbrev pub live : ℕ → Option (Entry C) → Option (List C)
  live now none = none
  live now (some e) = if ltb now e.expires_at then some e.calls else none

  -- `list(calls) or None`
  abbrev pub or_none : List C → Option (List C)
  or_none [] = none
  or_none (c ∷ cs) = some (c ∷ cs)

-- What `save` reports: only an answered request counts as persisted.
abbrev backend : Reply → Source
backend served = db
backend unserved = memory
backend lost = memory

unfoldable pub expired : ℕ → Expiry → Bool
expired now missing = false
expired now unreadable = false
expired now (instant t) = leb t now

module _ {C : Type 0} where
  abbrev pub from_row : ℕ → Option (Row C) → Option (List C) × Source
  from_row now none = (none, db_miss)
  from_row now (some r) =
      if expired now r.expires_at then (none, db_expired) else (or_none r.calls, db)

module _ {C T : Type 0} where
  unfoldable pub mem_save : Config → Clock → Key → List C → Store C T → Store C T
  mem_save cfg now k calls s = record s {
    entries = put k (record { expires_at = now.monotonic + cfg.ttl; calls = calls }) s.entries;
  }

  unfoldable pub mem_take : Clock → Key → Store C T → Option (List C) × Store C T
  mem_take now k s =
      (live now.monotonic (lookup k s.entries), record s { entries = without k s.entries })

  unfoldable pub mem_clear : Key → Store C T → Store C T
  mem_clear k s = record s { entries = without k s.entries }

module _ {C T : Type 0} (ops : TableOps C T) where
  -- What the server does with the row, whether or not its answer arrives.
  abbrev posted : Reply → Key → Row C → T → T
  posted served k r t = ops.upsert t k r
  posted unserved k r t = t
  posted lost k r t = ops.upsert t k r

  abbrev deleted : Reply → Key → T → T
  deleted served k t = ops.delete t k
  deleted unserved k t = t
  deleted lost k t = ops.delete t k

  unfoldable pub save :
      Config → Clock → Reply → String → Option String → List C → Store C T → Source × Store C T
  unfolding mem_save
  save cfg now r user chat calls s =
      let k = key user chat in
      let s' = mem_save cfg now k calls s in
      let new_row : Row C = record { calls = calls; expires_at = instant (now.wall + cfg.ttl) } in
      if cfg.configured
      then (backend r, record s' { table = posted r k new_row s'.table })
      else (memory, s')

  -- The `except` branch, and the path without configuration: the memory decides.
  abbrev fall_back : Clock → Key → Store C T → (Option (List C) × Source) × Store C T
  fall_back now k s = let (calls, s') = mem_take now k s in ((calls, memory), s')

  abbrev answer : Reply → Clock → Key → Store C T → (Option (List C) × Source) × Store C T
  answer served now k s = (
    from_row now.wall (ops.row s.table k),
    record (mem_clear k s) { table = ops.delete s.table k },
  )
  answer unserved now k s = fall_back now k s
  answer lost now k s = fall_back now k (record s { table = ops.delete s.table k })

  unfoldable pub take :
      Config
      → Clock
      → Reply
      → String
      → Option String
      → Store C T
      → (Option (List C) × Source) × Store C T
  unfolding mem_take mem_clear
  take cfg now r user chat s =
      let k = key user chat in if cfg.configured then answer r now k s else fall_back now k s

  unfoldable pub clear : Config → Reply → String → Option String → Store C T → Store C T
  unfolding mem_clear
  clear cfg r user chat s =
      let k = key user chat in
      let s' = mem_clear k s in
      if cfg.configured then record s' { table = deleted r k s'.table } else s'
