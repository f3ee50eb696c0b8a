-- ===== src/Orchestrator/Gate/Repeat.antt =====
-- The repeat-call guard of orchestrator._finish_routing.
use Prim.Native.Char.{code}
use Prim.Native.String.{String, ◌++◌ as str_append}
use Prim.Native.String.append
use mathlib.Core.Path.{subst}
use core_heartbeat.Prelude.{
  ◌≡◌, refl, ap, sym, ◌∙◌, true, Option, none, some, List, [], ◌∷◌, all, keep, all-keep, All, map,
  one_of, ◌<◌, false, and_both, String, arith, ◌==◌,
}
use core_heartbeat.PendingPlans.{TableOps, Store}
use core_heartbeat.Orchestrator.State.{Call, TokenUsage, RoutingDecision, GraphState}
use core_heartbeat.Orchestrator.World.{World}
use core_heartbeat.Orchestrator.Gate.{
  Routing, is_fresh, or_compose, drop_repeats, confirmation_given, write_gate, repeat_guard,
  requested, finish_routing, before_colon, call_signature, times,
}

some_inj : {xs ys : List Call} → some xs ≡ some ys → xs ≡ ys
some_inj e = cc

or_compose_fresh :
    (w : World) (already : List String) (kept : List Call) (r : Routing) (cs : List Call)
    → all (is_fresh w already) kept ≡ true
    → (or_compose kept r).calls ≡ some cs
    → all (is_fresh w already) cs ≡ true
or_compose_fresh w already [] r cs h e = ground arith
or_compose_fresh w already (k ∷ ks) r cs h e =
    subst (λ l. all (is_fresh w already) l ≡ true) (some_inj e) h

drop_repeats_fresh :
    (w : World) (already : List String) (calls : Option (List Call)) (r : Routing) (cs : List Call)
    → r.calls ≡ calls
    → (drop_repeats w already calls r).calls ≡ some cs
    → all (is_fresh w already) cs ≡ true
drop_repeats_fresh w already none r cs e h = ground arith
drop_repeats_fresh w already (some []) r cs e h =
    subst (λ l. all (is_fresh w already) l ≡ true) (some_inj (sym e ∙ h)) refl
drop_repeats_fresh w already (some (k ∷ ks)) r cs e h =
    or_compose_fresh w already (keep (is_fresh w already) (k ∷ ks)) r cs
      (all-keep (is_fresh w already) (k ∷ ks)) h

-- The signature of the call is not among those of the calls that have run, and fewer of these are
-- calls of its tool than the bound.
pub record IsUnrun (w : World) (already : List String) (c : Call) : Type 0 where
  pub new : one_of already (call_signature w c) ≡ false
  pub rare : times c.name (map before_colon already) < w.max_same_tool_calls

fresh-AllUnrun :
    (w : World) (already : List String) (cs : List Call)
    → all (is_fresh w already) cs ≡ true
    → All (IsUnrun w already) cs
fresh-AllUnrun w already [] h = tt
fresh-AllUnrun w already (c ∷ cs) h =
    let both = and_both (is_fresh w already c) (all (is_fresh w already) cs) h in
    (
      record { new = ground (arith, both.0); rare = ground (arith, both.0) },
      fresh-AllUnrun w already cs both.1,
    )

module _ {T : Type 0} (ops : TableOps Call T) (w : World) where
  gate_passes :
      (s : GraphState) (r : Routing) (store : Store Call T) (cs : List Call)
      → confirmation_given s ≡ false
      → (write_gate ops w s r store).0.calls ≡ some cs
      → r.calls ≡ some cs
  unfolding write_gate
  gate_passes s r store cs conf e = ground arith

  -- On a turn without confirmation, each call in the list of calls of the update of the routing guards
  -- has a signature, its name with its arguments, that no call of this turn had, and its tool has run
  -- fewer times in this turn than the bound. A single request of the structured path, which is not in
  -- that list, is not looked at.
  pub no_repeated_call :
      (s : GraphState) (d : RoutingDecision) (usage : TokenUsage) (native_calls : List Call)
      (store : Store Call T) (cs : List Call)
      → confirmation_given s ≡ false
      → (finish_routing ops w s d usage native_calls store).0.tool_calls ≡ some (some cs)
      → All (IsUnrun w s.executed_calls) cs
  unfolding finish_routing
  no_repeated_call s d usage native_calls store cs conf e =
      let r = requested d native_calls in
      fresh-AllUnrun w s.executed_calls cs (
        drop_repeats_fresh w s.executed_calls r.calls r cs refl
          (gate_passes s (repeat_guard w s.executed_calls r) store cs conf (ground arith)))

-- No character of the text is a colon.
abbrev pub NoColon : String → Type 0
NoColon String.[] = Unit
NoColon (String.◌∷◌ c s) = ((code c == b':') ≡ false) × NoColon s

before_colon-append :
    (s t : String) → NoColon s → before_colon (str_append s (str_append ":" t)) ≡ s
unfolding before_colon
before_colon-append String.[] t h = rw append.nil (rw append.cons refl)
before_colon-append (String.◌∷◌ c s) t h =
    simp append.cons (rw h.0 (ap (String.◌∷◌ c) (before_colon-append s t h.1)))

-- The repeat guard recovers a tool's name from the signature of its call, for every name without a
-- colon and whatever the arguments: the calls that it counts are the calls of that tool.
name_of_signature :
    (w : World) (c : Call) → NoColon c.name → before_colon (call_signature w c) ≡ c.name
unfolding call_signature
name_of_signature w c h = before_colon-append c.name (str_append (w.dumps c.args) "") h
