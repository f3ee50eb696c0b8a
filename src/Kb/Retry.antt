-- ===== src/Kb/Retry.antt =====
-- When services/kb.py `_request` tries again.
use mathlib.Core.Path.{subst}
use core_heartbeat.Prelude.{
  inl, inr, ◌⊎◌, ◌∙◌, ◌||◌, ◌==◌, leb, if◌then◌else◌, ap, sym, ℕ, zero, suc, ◌+◌, ◌<◌, ◌≤◌, ◌≡◌,
  refl, Bool, true, [], arith, length,
}
use core_heartbeat.Kb.{
  Answer, Outcome, Verdict, final, retry, verdict, Trace, from_verdict, last_verdict, attempt_loop,
  request, transport_error, response, transport_raised, not_found, status_error, body_or_empty,
  body_of,
}

-- A transport error or a status of 500 and more.
abbrev pub IsTransient : Answer → Type 0
IsTransient transport_error = Unit
IsTransient (response status body) = 500 ≤ status

-- What an answer means when no attempt follows: a body is returned only for a status that is no error.
abbrev pub meaning : (ℕ → Bool) → Answer → Outcome
meaning is_error transport_error = transport_raised
meaning is_error (response status body) =
    if status == 404
    then not_found (body_or_empty body)
    else if leb 500 status || is_error status
    then status_error status
    else body_of body

-- What a verdict holds.
abbrev outcome_of : Verdict → Outcome
outcome_of (final o) = o
outcome_of (retry o) = o

verdict_lem :
    (is_error : ℕ → Bool) (a : Answer) → outcome_of (verdict is_error a) ≡ meaning is_error a
verdict_lem is_error transport_error = refl
verdict_lem is_error (response status body) = ground arith

final-settled :
    (is_error : ℕ → Bool) (a : Answer) (o : Outcome)
    → verdict is_error a ≡ final o
    → ¬ IsTransient a
final-settled is_error transport_error o e = λ t. ground (arith, e)
final-settled is_error (response status body) o e = λ t. ground (arith, e, t)

retry-IsTransient :
    (is_error : ℕ → Bool) (a : Answer) (o : Outcome) → verdict is_error a ≡ retry o → IsTransient a
retry-IsTransient is_error transport_error o e = tt
retry-IsTransient is_error (response status body) o e = ground arith

-- The run ends with what the answer of its last attempt means; every answer before it is transient,
-- and it is not transient itself unless `left` attempts came before it; there is one sleep between
-- two attempts.
pub record IsRun (is_error : ℕ → Bool) (answer : ℕ → Answer) (left first : ℕ) (t : Trace)
    : Type 0 where
  pub last : ℕ
  pub count : t.attempts ≡ suc last
  pub bound : last ≤ left
  pub ends : t.outcome ≡ meaning is_error (answer (first + last))
  pub before : (n : ℕ) → n < last → IsTransient (answer (first + n))
  pub settled : (last ≡ left) ⊎ (¬ IsTransient (answer (first + last)))
  pub pauses : length t.sleeps ≡ last

module _ (is_error : ℕ → Bool) (answer : ℕ → Answer) where
  -- The verdict on the answer of an attempt that is written as the first one.
  at_first :
      (first : ℕ) (v : Verdict)
      → verdict is_error (answer first) ≡ v
      → verdict is_error (answer (first + 0)) ≡ v
  at_first first v e = ap (λ n. verdict is_error (answer n)) (omega arith) ∙ e

  -- The attempts after the first one, counted from it.
  from_next : (first n : ℕ) → answer (suc first + n) ≡ answer (first + suc n)
  from_next first n = ap answer (omega arith)

  IsRun-final :
      (left first : ℕ) (o : Outcome)
      → verdict is_error (answer first) ≡ final o
      → IsRun is_error answer left first (record { outcome = o; attempts = 1; sleeps = [] })
  IsRun-final left first o e = record {
    last = 0;
    count = refl;
    bound = omega arith;
    ends =
        sym (ap outcome_of (at_first first (final o) e))
        ∙ verdict_lem is_error (answer (first + 0));
    before = λ n h. ground arith;
    settled = inr (final-settled is_error (answer (first + 0)) o (at_first first (final o) e));
    pauses = refl;
  }

  IsRun-last :
      (first : ℕ) (v : Verdict)
      → verdict is_error (answer first) ≡ v
      → IsRun is_error answer 0 first (last_verdict v)
  IsRun-last first (final o) e = IsRun-final 0 first o e
  IsRun-last first (retry o) e = record {
    last = 0;
    count = refl;
    bound = omega arith;
    ends =
        sym (ap outcome_of (at_first first (retry o) e))
        ∙ verdict_lem is_error (answer (first + 0));
    before = λ n h. ground arith;
    settled = inl refl;
    pauses = refl;
  }

  IsRun-from :
      (left first : ℕ) (later : Trace) (v : Verdict)
      → verdict is_error (answer first) ≡ v
      → IsRun is_error answer left (suc first) later
      → IsRun is_error answer (suc left) first (from_verdict first later v)
  IsRun-from left first later (final o) e r = IsRun-final (suc left) first o e
  IsRun-from left first later (retry o) e r = record {
    last = suc r.last;
    count = ap suc r.count;
    bound = omega (arith, r.bound);
    ends = r.ends ∙ ap (meaning is_error) (from_next first r.last);
    before = before;
    settled = elim r.settled [
      | inl all ↦ inl (ap suc all)
      | inr over ↦ inr (subst (λ a. ¬ IsTransient a) (from_next first r.last) over)
    ];
    pauses = ap suc r.pauses;
  }
    where
      before : (n : ℕ) → n < suc r.last → IsTransient (answer (first + n))
      before zero h =
          subst (λ k. IsTransient (answer k)) (omega arith)
            (retry-IsTransient is_error (answer first) o e)
      before (suc n) h =
          subst (λ k. IsTransient (answer k)) (omega arith) (r.before n (omega (arith, h)))

  attempt_loop-IsRun :
      (left first : ℕ) → IsRun is_error answer left first (attempt_loop is_error answer left first)
  unfolding attempt_loop
  attempt_loop-IsRun zero first = IsRun-last first (verdict is_error (answer first)) refl
  attempt_loop-IsRun (suc left) first =
      IsRun-from left first (attempt_loop is_error answer left (suc first))
        (verdict is_error (answer first)) refl (attempt_loop-IsRun left (suc first))

  -- A configured request tries again after a transport error or a status of 500 and more, and only
  -- then, for at most three attempts in all, and it stops before the third only at an answer that is
  -- neither. Its result is what the last answer means: not found for 404, an error for a status of 500
  -- and more or another error status, a transport error, or else the body, which may be unreadable. It
  -- sleeps once between two attempts.
  pub request-IsRun : IsRun is_error answer 2 0 (request true is_error answer)
  unfolding request
  request-IsRun = attempt_loop-IsRun 2 0
