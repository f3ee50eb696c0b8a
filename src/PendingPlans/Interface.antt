-- ===== src/PendingPlans/Interface.antt =====
-- What services/pending_plans.py relies on in the table `pending_plans`, as laws of its interface.
use core_heartbeat.Prelude.{◌≡◌, none, some, if◌then◌else◌}
use core_heartbeat.PendingPlans.{Key, same_key, Row, TableOps}

pub record TableLaws {C T : Type 0} (ops : TableOps C T) : Type 0 where
  pub row-upsert :
      (t : T) (k j : Key) (r : Row C)
      → ops.row (ops.upsert t k r) j ≡ (if same_key k j then some r else ops.row t j)
  pub row-delete :
      (t : T) (k j : Key)
      → ops.row (ops.delete t k) j ≡ (if same_key k j then none else ops.row t j)
