-- ===== src/PendingPlans/SingleUse.antt =====
-- How often a plan can be released, and which one.
use core_heartbeat.Prelude.{
  ◌+◌, ◌<◌, String, ◌≡◌, refl, ap, ◌∙◌, Bool, true, false, Option, none, some, List, [], ◌∷◌, arith,
  if◌then◌else◌,
}
use core_heartbeat.PendingPlans.{
  Key, key, same_key, Clock, Config, Reply, served, unserved, TableOps, Store, save, take, expired,
}
use core_heartbeat.PendingPlans.Interface.{TableLaws}
use core_heartbeat.PendingPlans.Slot.{
  Slot, slot, slot_save, slot_cleared, slot_reply, slot-save_self, slot-take_self, reply-take,
}
use core_heartbeat.PendingPlans.Isolation.{Call, saving, taking, clearing, slot_run, slot-run, run}

-- The calls hold no `save` into the conversation `j`.
abbrev pub NoSave : {C : Type 0} → Key → List (Call C) → Type 0
NoSave j [] = Unit
NoSave j (saving now r user chat calls ∷ cs) = (same_key (key user chat) j ≡ false) × NoSave j cs
NoSave j (taking now r user chat ∷ cs) = NoSave j cs
NoSave j (clearing r user chat ∷ cs) = NoSave j cs

abbrev bare : {C : Type 0} → Slot C
bare = record { entry = none; row = none }

cleared_or_kept :
    {C : Type 0} (b : Bool) (cfg : Config) (r : Reply)
    → (if b then slot_cleared cfg r (bare {C = C}) else bare) ≡ bare
cleared_or_kept b cfg r = ground arith

slot_run-bare :
    {C : Type 0} (cfg : Config) (j : Key) (cs : List (Call C))
    → NoSave j cs
    → slot_run cfg j cs bare ≡ bare
slot_run-bare cfg j [] h = refl
slot_run-bare cfg j (saving now r user chat calls ∷ cs) h = rw h.0 (slot_run-bare cfg j cs h.1)
slot_run-bare cfg j (taking now r user chat ∷ cs) h =
    rw (cleared_or_kept (same_key (key user chat) j) cfg r) (slot_run-bare cfg j cs h)
slot_run-bare cfg j (clearing r user chat ∷ cs) h =
    rw (cleared_or_kept (same_key (key user chat) j) cfg r) (slot_run-bare cfg j cs h)

module _ {C T : Type 0} (ops : TableOps C T) (laws : TableLaws ops) (cfg : Config) (user : String)
    (chat : Option String) where
  take_empties :
      (s : Store C T) (now : Clock)
      → cfg.configured ≡ true
      → slot ops (take ops cfg now served user chat s).1 (key user chat) ≡ bare
  take_empties s now conf = rw (slot-take_self ops laws cfg served user chat s now, conf)

  bare_reply :
      (t : Store C T) (now : Clock) (r : Reply)
      → slot ops t (key user chat) ≡ bare
      → (take ops cfg now r user chat t).0.0 ≡ none
  bare_reply t now r e = rw (reply-take ops laws cfg now r user chat t, e) (ground arith)

  -- What a `take` returns, from the slot.
  reply_at :
      (t : Store C T) (now : Clock) (r : Reply) {sl : Slot C}
      → slot ops t (key user chat) ≡ sl
      → (take ops cfg now r user chat t).0 ≡ slot_reply cfg.configured r now sl
  reply_at t now r e =
      reply-take ops laws cfg now r user chat t ∙ ap (slot_reply cfg.configured r now) e

  -- Once the table has answered a `take`, the conversation has no plan: whatever calls follow, of
  -- this conversation or of others, and whatever their requests meet, no later `take` returns
  -- one until a `save` into this conversation.
  pub take_once :
      (s : Store C T) (t0 t1 : Clock) (r : Reply) (cs : List (Call C))
      → cfg.configured ≡ true
      → NoSave (key user chat) cs
      → (take ops cfg t1 r user chat (run ops cfg cs (take ops cfg t0 served user chat s).1)).0.0
        ≡ none
  take_once s t0 t1 r cs conf quiet =
      bare_reply (run ops cfg cs (take ops cfg t0 served user chat s).1) t1 r (
        slot-run ops laws cfg cs (take ops cfg t0 served user chat s).1 (key user chat)
        ∙ rw (take_empties s t0 conf) (slot_run-bare cfg (key user chat) cs quiet))

  -- A `take` that the table did not carry out returns the plan from memory and leaves the row:
  -- the next `take` that the table answers returns the same plan a second time.
  released_twice :
      (s : Store C T) (t0 t1 t2 : Clock) (c : C) (cs : List C)
      → cfg.configured ≡ true
      → t1.monotonic < t0.monotonic + cfg.ttl
      → t2.wall < t0.wall + cfg.ttl
      → let saved = (save ops cfg t0 served user chat (c ∷ cs) s).1 in
        let first = take ops cfg t1 unserved user chat saved in
        let second = take ops cfg t2 served user chat first.1 in
        (first.0.0 ≡ some (c ∷ cs)) × (second.0.0 ≡ some (c ∷ cs))
  unfolding expired
  released_twice s t0 t1 t2 c cs conf young1 young2 =
      let saved = (save ops cfg t0 served user chat (c ∷ cs) s).1 in
      let first = (take ops cfg t1 unserved user chat saved).1 in
      let e = slot-save_self ops laws cfg served user chat s t0 (c ∷ cs) in
      let e' =
        slot-take_self ops laws cfg unserved user chat saved t1
        ∙ ap (slot_cleared cfg unserved) e in
      (
        rw (reply_at saved t1 unserved e) (ground arith),
        rw (reply_at first t2 served e') (ground arith),
      )

  -- A plan whose `save` the table did not carry out does not replace the row of an earlier plan:
  -- the next `take` that the table answers returns the earlier plan, and the later one is gone.
  older_plan_returned :
      (s : Store C T) (t0 t1 t2 t3 : Clock) (r : Reply) (c : C) (cs newer : List C)
      → cfg.configured ≡ true
      → t2.wall < t0.wall + cfg.ttl
      → let proposed = (save ops cfg t0 served user chat (c ∷ cs) s).1 in
        let revised = (save ops cfg t1 unserved user chat newer proposed).1 in
        let taken = take ops cfg t2 served user chat revised in
        (taken.0.0 ≡ some (c ∷ cs)) × ((take ops cfg t3 r user chat taken.1).0.0 ≡ none)
  unfolding expired
  older_plan_returned s t0 t1 t2 t3 r c cs newer conf young =
      let proposed = (save ops cfg t0 served user chat (c ∷ cs) s).1 in
      let revised = (save ops cfg t1 unserved user chat newer proposed).1 in
      let e = slot-save_self ops laws cfg served user chat s t0 (c ∷ cs) in
      let e' =
        slot-save_self ops laws cfg unserved user chat proposed t1 newer
        ∙ ap (slot_save cfg t1 unserved newer) e in
      (
        rw (reply_at revised t2 served e') (ground arith),
        bare_reply (take ops cfg t2 served user chat revised).1 t3 r (take_empties revised t2 conf),
      )
