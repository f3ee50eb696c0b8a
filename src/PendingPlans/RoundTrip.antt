-- ===== src/PendingPlans/RoundTrip.antt =====
-- A saved plan comes back, over the table and over the fallback; a cleared one does not.
use core_heartbeat.Prelude.{◌+◌, ◌<◌, String, ◌≡◌, true, Option, none, some, List, ◌∷◌, arith}
use core_heartbeat.PendingPlans.{
  key, same_key_refl, Clock, Config, Reply, served, unserved, db, memory, TableOps, Store, save,
  take, clear, expired,
}
use core_heartbeat.PendingPlans.Interface.{TableLaws}
use core_heartbeat.PendingPlans.Slot.{slot-save, slot-clear, reply-take}

module _ {C T : Type 0} (ops : TableOps C T) (laws : TableLaws ops) (cfg : Config) (user : String)
    (chat : Option String) (s : Store C T) where
  -- With the table answering both requests, a plan that was proposed comes back whole from the
  -- table until its lifetime is over.
  pub take-save :
      (t0 t1 : Clock) (c : C) (cs : List C)
      → cfg.configured ≡ true
      → t1.wall < t0.wall + cfg.ttl
      → (take ops cfg t1 served user chat (save ops cfg t0 served user chat (c ∷ cs) s).1).0
        ≡ (some (c ∷ cs), db)
  unfolding expired
  take-save t0 t1 c cs conf young =
      rw
        (
          reply-take ops laws cfg t1 served user chat
              (save ops cfg t0 served user chat (c ∷ cs) s).1,
          slot-save ops laws cfg served user chat s (key user chat) t0 (c ∷ cs),
          same_key_refl (key user chat),
          conf,
        )
        (ground arith)

  -- Whatever became of the request that saved it, a plan comes back from the process memory when
  -- the request that takes it is not carried out, until its lifetime is over.
  take-save_memory :
      (t0 t1 : Clock) (r : Reply) (calls : List C)
      → t1.monotonic < t0.monotonic + cfg.ttl
      → (take ops cfg t1 unserved user chat (save ops cfg t0 r user chat calls s).1).0
        ≡ (some calls, memory)
  take-save_memory t0 t1 r calls young =
      rw
        (
          reply-take ops laws cfg t1 unserved user chat (save ops cfg t0 r user chat calls s).1,
          slot-save ops laws cfg r user chat s (key user chat) t0 calls,
          same_key_refl (key user chat),
        )
        (ground arith)

  -- After a `clear` that the table carried out, no later `take` of the conversation has a plan.
  take-clear :
      (t : Clock) (r : Reply)
      → (take ops cfg t r user chat (clear ops cfg served user chat s)).0.0 ≡ none
  take-clear t r =
      rw
        (
          reply-take ops laws cfg t r user chat (clear ops cfg served user chat s),
          slot-clear ops laws cfg served user chat s (key user chat),
          same_key_refl (key user chat),
        )
        (ground arith)
