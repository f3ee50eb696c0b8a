-- ===== src/Orchestrator/Supervisor/Retry.antt =====
-- The retry loop around orchestrator.request_routing_decision, in the node supervisor.
use mathlib.Core.Path.{subst}
use core_heartbeat.Prelude.{
  if_cases, ℕ, zero, suc, ◌+◌, ◌<◌, ◌≤◌, ◌≡◌, refl, sym, ◌∙◌, ap, Bool, true, false, ◌⊎◌, inl, inr,
  arith, if◌then◌else◌,
}
use core_heartbeat.PendingPlans.{TableOps, Store}
use core_heartbeat.Orchestrator.State.{
  TokenUsage, no_usage, add_usage, GraphState, Call, Category, timeout, network, invalid_output,
  missing_credential, auth,
}
use core_heartbeat.Orchestrator.World.{World, RoutingReply, failed, decided}
use core_heartbeat.Orchestrator.Supervisor.{
  attempts, is_retryable, max_routing_retries, last_attempt, or_retry, structured, after_attempts,
}

abbrev pub usage_of : RoutingReply → TokenUsage
usage_of (failed f u) = u
usage_of (decided d u) = u

-- A timeout, a failure of the network or an output that is not valid.
abbrev pub IsPassing : Category → Type 0
IsPassing timeout = Unit
IsPassing network = Unit
IsPassing invalid_output = Unit
IsPassing missing_credential = ⊥
IsPassing auth = ⊥

-- A failure of such a kind.
abbrev pub IsPassed : RoutingReply → Type 0
IsPassed (failed f u) = IsPassing f.category
IsPassed (decided d u) = ⊥

passing_lem : (c : Category) → is_retryable c ≡ true → IsPassing c
passing_lem timeout h = tt
passing_lem network h = tt
passing_lem invalid_output h = tt
passing_lem missing_credential h = ground arith
passing_lem auth h = ground arith

lasting_lem : (c : Category) → is_retryable c ≡ false → ¬ IsPassing c
lasting_lem timeout h = λ _. ground (arith, h)
lasting_lem network h = λ _. ground (arith, h)
lasting_lem invalid_output h = λ _. ground (arith, h)
lasting_lem missing_credential h = λ x. x
lasting_lem auth h = λ x. x

-- A failure that the loop takes for one.
abbrev pub is_again : RoutingReply → Bool
is_again (failed f u) = is_retryable f.category
is_again (decided d u) = false

again-IsPassed : (r : RoutingReply) → is_again r ≡ true → IsPassed r
again-IsPassed (failed f u) h = passing_lem f.category h
again-IsPassed (decided d u) h = ground arith

over-IsLasting : (r : RoutingReply) → is_again r ≡ false → ¬ IsPassed r
over-IsLasting (failed f u) h = lasting_lem f.category h
over-IsLasting (decided d u) h = λ x. x

abbrev pub with_usage : TokenUsage → RoutingReply → RoutingReply
with_usage usage (failed f u) = failed f usage
with_usage usage (decided d u) = decided d usage

last_attempt-usage :
    (usage : TokenUsage) (r : RoutingReply)
    → last_attempt usage r ≡ with_usage (add_usage usage (usage_of r)) r
last_attempt-usage usage (failed f u) = refl
last_attempt-usage usage (decided d u) = refl

or_retry-again :
    (usage : TokenUsage) (again : TokenUsage → RoutingReply) (r : RoutingReply)
    → or_retry usage again r ≡ (
        if is_again r
        then again (add_usage usage (usage_of r))
        else with_usage (add_usage usage (usage_of r)) r)
or_retry-again usage again (failed f u) = refl
or_retry-again usage again (decided d u) = refl

module _ (w : World) (s : GraphState) where
  -- What the attempts from `first` on, with `more` after it, have used in all.
  abbrev pub spent : ℕ → ℕ → TokenUsage → TokenUsage
  unfolding add_usage
  spent first zero usage = add_usage usage (usage_of (w.routing first s))
  spent first (suc more) usage =
      spent (first + 1) more (add_usage usage (usage_of (w.routing first s)))

  -- The result is that of the last attempt, with the usage of all; every attempt before it met a
  -- timeout, a failure of the network or an invalid output; and the last did not, unless `left` attempts
  -- came before it.
  pub record IsAttempts (left first : ℕ) (usage : TokenUsage) (r : RoutingReply) : Type 0 where
    pub last : ℕ
    pub bound : last ≤ left
    pub result : r ≡ with_usage (spent first last usage) (w.routing (first + last) s)
    pub before : (n : ℕ) → n < last → IsPassed (w.routing (first + n) s)
    pub settled : (last ≡ left) ⊎ (¬ IsPassed (w.routing (first + last) s))

  -- An attempt after which there is no other.
  IsAttempts-last :
      (left first : ℕ) (usage : TokenUsage)
      → (left ≡ 0) ⊎ (is_again (w.routing first s) ≡ false)
      → IsAttempts left first usage
          (with_usage (add_usage usage (usage_of (w.routing first s))) (w.routing first s))
  unfolding spent
  IsAttempts-last left first usage e = record {
    last = 0;
    bound = omega arith;
    result =
        ap (λ n. with_usage (add_usage usage (usage_of (w.routing first s))) (w.routing n s))
          (omega arith);
    before = λ n h. ground arith;
    settled = elim e [
      | inl none_left ↦ inl (sym none_left)
      | inr over ↦ inr (
          over-IsLasting (w.routing (first + 0) s)
            (ap (λ n. is_again (w.routing n s)) (omega arith) ∙ over))
    ];
  }

  IsAttempts-again :
      (left first : ℕ) (usage : TokenUsage) (r : RoutingReply)
      → is_again (w.routing first s) ≡ true
      → IsAttempts left (first + 1) (add_usage usage (usage_of (w.routing first s))) r
      → IsAttempts (suc left) first usage r
  unfolding spent
  IsAttempts-again left first usage r again rest = record {
    last = suc rest.last;
    bound = omega (arith, rest.bound);
    result =
        rest.result
        ∙ ap (λ n. with_usage (spent first (suc rest.last) usage) (w.routing n s)) (omega arith);
    before = before;
    settled = elim rest.settled [
      | inl all ↦ inl (ap suc all)
      | inr over ↦ inr (subst (λ n. ¬ IsPassed (w.routing n s)) (omega arith) over)
    ];
  }
    where
      before : (n : ℕ) → n < suc rest.last → IsPassed (w.routing (first + n) s)
      before zero h =
          again-IsPassed (w.routing (first + 0) s)
            (ap (λ n. is_again (w.routing n s)) (omega arith) ∙ again)
      before (suc n) h =
          subst (λ n. IsPassed (w.routing n s)) (omega arith) (rest.before n (omega (arith, h)))

  attempts-IsAttempts :
      (left first : ℕ) (usage : TokenUsage)
      → IsAttempts left first usage (attempts w s left first usage)
  unfolding attempts
  attempts-IsAttempts zero first usage =
      subst (IsAttempts zero first usage) (sym (last_attempt-usage usage (w.routing first s)))
        (IsAttempts-last zero first usage (inl refl))
  attempts-IsAttempts (suc left) first usage =
      subst (IsAttempts (suc left) first usage)
        (sym (or_retry-again usage (λ u. attempts w s left (first + 1) u) (w.routing first s)))
        (if_cases (IsAttempts (suc left) first usage) (is_again (w.routing first s))
          (λ again.
            IsAttempts-again left first usage _ again (attempts-IsAttempts left (first + 1) _))
          (λ over. IsAttempts-last (suc left) first usage (inr over)))

-- The structured path of a routing turn: what its attempts give, and what is made of it.
pub record IsAsked {T : Type 0} (ops : TableOps Call T) (w : World) (s : GraphState)
    (store : Store Call T) : Type 0 where
  pub reply : RoutingReply
  pub asked : IsAttempts w s 2 1 no_usage reply
  pub turn : structured ops w s store ≡ after_attempts ops w s reply store

-- The structured path of a routing turn, which follows a failed native request or stands without one,
-- asks the model at most three times: again after a timeout, a network failure or an invalid output,
-- and only then. The turn goes on with the result of the last attempt, and with the usage that is the
-- sum over all of them.
pub routing_attempts :
    {T : Type 0} (ops : TableOps Call T) (w : World) (s : GraphState) (store : Store Call T)
    → IsAsked ops w s store
unfolding structured
routing_attempts ops w s store = record {
  reply = attempts w s max_routing_retries 1 no_usage;
  asked = attempts-IsAttempts w s 2 1 no_usage;
  turn = refl;
}
