-- ===== src/Orchestrator/Tools/Dispatch.antt =====
-- Which calls run in tool_execution of orchestrator.py, and for whom.
use mathlib.Core.Path.{subst}
use core_heartbeat.Prelude.{
  String, ◌≡◌, refl, sym, ◌∙◌, ◌++◌, ◌||◌, any-append, str_eq, if◌then◌else◌, and_both, Bool, true,
  none, some, List, [], ◌∷◌, one_of, any, all, all-keep, is_some, arith, All, Option, Bool-cases,
  inl, inr, some_inj,
}
use core_heartbeat.Orchestrator.State.{Call, GraphState}
use core_heartbeat.Orchestrator.World.{
  World, Family, attachment, calendar, reit, briefing, vault, web, flight,
}
use core_heartbeat.Orchestrator.Tools.{
  registry, dispatchable_tools, family_of, family_in, dispatch_order, run_family, dispatch_tool,
  asked, requested_tool_calls, ToolEvent, run_calls, tool_execution,
}

any_of_seven :
    (p : String → Bool) (a b c d e f g : List String)
    → any p (a ++ (b ++ (c ++ (d ++ (e ++ (f ++ g))))))
      ≡ (any p a || (any p b || (any p c || (any p d || (any p e || (any p f || any p g))))))
any_of_seven p a b c d e f g = simp any-append

-- The tests of the filter and of the dispatcher, in their two orders.
one_of_seven :
    (v c r b w f a : Bool)
    → (v || (c || (r || (b || (w || (f || a)))))) ≡ true
    → is_some (
        if a
        then some attachment
        else if c
        then some calendar
        else if r
        then some reit
        else if b
        then some briefing
        else if v
        then some vault
        else if w
        then some web
        else if f
        then some flight
        else none)
      ≡ true
one_of_seven v c r b w f a h = ground arith

-- Every name that passes the vocabulary filter belongs to a family, so the last line of
-- `_dispatch_tool`, which returns a pair in place of a text, is never reached from tool_execution.
dispatchable_has_family :
    (name : String) → one_of dispatchable_tools name ≡ true → is_some (family_of name) ≡ true
unfolding family_of
dispatchable_has_family name h =
    one_of_seven (named vault) (named calendar) (named reit) (named briefing) (named web)
      (named flight) (named attachment)
      (sym (
          any_of_seven (λ n. str_eq n name) (registry vault) (registry calendar) (registry reit)
            (registry briefing) (registry web) (registry flight) (registry attachment))
        ∙ h)
  where
    named : Family → Bool
    named f = one_of (registry f) name

-- The dispatcher takes a family whose registry has the name.
family_in-registry :
    (fs : List Family) (name : String) (f : Family)
    → family_in fs name ≡ some f
    → one_of (registry f) name ≡ true
family_in-registry [] name f e = ground arith
family_in-registry (g ∷ fs) name f e = elim (Bool-cases (one_of (registry g) name)) [
  | inl h ↦
      let same : some g ≡ some f = sym (rw h refl) ∙ e in
      subst (λ k. one_of (registry k) name ≡ true) (some_inj same) h
  | inr h ↦ family_in-registry fs name f (sym (rw h refl) ∙ e)
]

-- The result of a call is what the back end of the tool's family returned, asked with the id of the
-- user and the arguments of the call.
pub record IsConfined (w : World) (user : String) (e : ToolEvent) : Type 0 where
  pub family : Family
  pub known : one_of (registry family) e.call.name ≡ true
  pub for_user : e.result ≡ w.run_tool family e.call.name user e.call.args

abbrev pub AllConfined : World → String → List ToolEvent → Type 0
AllConfined w user = All (IsConfined w user)

-- What the dispatcher returns for a name, by the family that it takes.
dispatched-IsConfined :
    (w : World) (user : String) (c : Call) (o : Option Family)
    → family_of c.name ≡ o
    → is_some o ≡ true
    → IsConfined w user (record { call = c; result = run_family w o c.name c.args user })
unfolding family_of
dispatched-IsConfined w user c none e h = ground arith
dispatched-IsConfined w user c (some f) e h = record {
  family = f;
  known = family_in-registry dispatch_order c.name f e;
  for_user = refl;
}

run_calls-AllConfined :
    (w : World) (user : String) (cs : List Call)
    → all (λ c. one_of dispatchable_tools c.name) cs ≡ true
    → AllConfined w user (run_calls w user cs)
unfolding run_calls dispatch_tool
run_calls-AllConfined w user [] h = tt
run_calls-AllConfined w user (c ∷ cs) h =
    let both = and_both _ _ h in
    (
      dispatched-IsConfined w user c (family_of c.name) refl
          (dispatchable_has_family c.name both.0),
      run_calls-AllConfined w user cs both.1,
    )

-- Every tool call that the node runs is run for the user of the state, by a known tool.
pub tool_execution-AllConfined :
    (w : World) (s : GraphState) → AllConfined w s.user_id (tool_execution w s).1
unfolding tool_execution requested_tool_calls
tool_execution-AllConfined w s =
    run_calls-AllConfined w s.user_id _ (
      all-keep (λ (c : Call). one_of dispatchable_tools c.name) (asked s.tool_calls s.tool_request))
