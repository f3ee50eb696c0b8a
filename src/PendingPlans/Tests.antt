-- ===== src/PendingPlans/Tests.antt =====
-- Witnesses and runs of services/pending_plans.py, over a table that is a list of rows.
use core_heartbeat.Prelude.{ℕ, ◌≡◌, refl, true, none, some, List, [], ◌∷◌, arith}
use core_heartbeat.PendingPlans.{
  Dict, key, lookup, put, without, lookup-put, lookup-without, Row, Clock, Config, served, unserved,
  lost, db, db_expired, db_miss, TableOps, Store, save, take, expired,
}
use core_heartbeat.PendingPlans.Interface.{TableLaws}
use core_heartbeat.PendingPlans.Slot.{slot}
use core_heartbeat.PendingPlans.Isolation.{Call, saving, taking, run, slot_run, slot-run}
use core_heartbeat.PendingPlans.RoundTrip.{take-save}
use core_heartbeat.PendingPlans.SingleUse.{take_once}
use core_heartbeat.PendingPlans.Deadline.{take_expired}

abbrev list_ops : TableOps ℕ (Dict (Row ℕ))
list_ops = record {
  row = λ t k. lookup k t;
  upsert = λ t k r. put k r t;
  delete = λ t k. without k t;
}

list_laws : TableLaws list_ops
list_laws = record {
  row-upsert = λ t k j r. lookup-put k j r t;
  row-delete = λ t k j. lookup-without k j t;
}

abbrev config : Config
config = record { configured = true; ttl = 1800 }

abbrev at : ℕ → Clock
at t = record { monotonic = t; wall = t }

abbrev fresh : Store ℕ (Dict (Row ℕ))
fresh = record { entries = []; table = [] }

take-save_example :
    (take list_ops config
      (at 60)
      served
      "ana"
      (some "c1")
      (save list_ops config (at 0) served "ana" (some "c1") (1 ∷ 2 ∷ []) fresh).1).0
    ≡ (some (1 ∷ 2 ∷ []), db)
take-save_example =
    take-save list_ops list_laws config "ana" (some "c1") fresh (at 0) (at 60) 1 (2 ∷ []) refl
      (omega arith)

abbrev proposed : Store ℕ (Dict (Row ℕ))
proposed = (save list_ops config (at 0) served "ana" none (1 ∷ []) fresh).1

abbrev others : List (Call ℕ)
others = saving (at 70) served "ben" none (7 ∷ []) ∷ taking (at 71) lost "ana" none ∷ []

take_once_example :
    (take list_ops config
      (at 80)
      served
      "ana"
      none
      (run list_ops config others (take list_ops config (at 60) served "ana" none proposed).1)).0.0
    ≡ none
take_once_example =
    take_once list_ops list_laws config "ana" none proposed (at 60) (at 80) served others refl
      (refl, tt)

abbrev revised : Store ℕ (Dict (Row ℕ))
revised = (save list_ops config (at 30) unserved "ana" none (2 ∷ []) proposed).1

slot-run_example :
    slot list_ops (run list_ops config others proposed) (key "ana" none)
    ≡ slot_run config (key "ana" none) others (slot list_ops proposed (key "ana" none))
slot-run_example = slot-run list_ops list_laws config others proposed (key "ana" none)

abbrev saves : List (Call ℕ)
saves = saving (at 5) served "ana" none (1 ∷ []) ∷ saving (at 9) unserved "ana" none (2 ∷ []) ∷ []

take_expired_example :
    (take list_ops config (at 1810) served "ana" none (run list_ops config saves fresh)).0.0 ≡ none
unfolding lookup
take_expired_example =
    take_expired list_ops list_laws config fresh saves (at 10) (at 1810) served "ana" none refl
      (omega arith) (omega arith) (omega arith)

-- An empty chat id and an absent one share a slot, and a real id does not.
slots_shared :
    (take list_ops config (at 60) served "ana" (some "") proposed).0 ≡ (some (1 ∷ []), db)
unfolding take save expired lookup put without
slots_shared = refl

slots_apart : (take list_ops config (at 60) served "ana" (some "c2") proposed).0 ≡ (none, db_miss)
unfolding take save expired lookup put without
slots_apart = refl

too_late : (take list_ops config (at 1800) served "ana" none proposed).0 ≡ (none, db_expired)
unfolding take save expired lookup put without
too_late = refl
