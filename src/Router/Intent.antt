-- ===== src/Router/Intent.antt =====
-- router.py: the confidence threshold, and the two intent endpoints that it guards. A float is
-- an argument, with the order that Python gives it.
use core_heartbeat.Prelude.{
  refl, Option-cases, inr, inl, Bool-cases, and_both, arith, true, ◌≡◌, ℕ, Bool, not, ◌&&◌, Option,
  none, some, List, is_empty, is_space, strip, if◌then◌else◌,
}

-- `leq x y` is `x <= y`; `parse` is `float(raw)`, none where it raises.
pub record Floats (F : Type 0) : Type 0 where
  pub leq : F → F → Bool
  pub zero : F
  pub half : F
  pub one : F
  pub parse : List ℕ → Option F

pub data Loaded (F : Type 0) : Type 0 where
  threshold : F → Loaded F
  not_a_number : Loaded F
  out_of_range : Loaded F

module _ {F : Type 0} (fl : Floats F) where
  -- `0.0 <= value <= 1.0`
  abbrev pub in_range : F → Bool
  in_range value = fl.leq fl.zero value && fl.leq value fl.one

  abbrev checked : Option F → Loaded F
  checked none = not_a_number
  checked (some value) = if not (in_range value) then out_of_range else threshold value

  -- `load_confidence_threshold`
  unfoldable pub load_confidence_threshold : Option (List ℕ) → Loaded F
  load_confidence_threshold none = threshold fl.half
  load_confidence_threshold (some raw) =
      if is_empty (strip is_space raw) then threshold fl.half else checked (fl.parse raw)

  -- `decide`
  abbrev pub accepts : F → F → Bool
  accepts confidence limit = fl.leq limit confidence

  -- The answer of an intent endpoint: the outcome of a run, or the rejection with both numbers.
  pub data Answer (R : Type 0) : Type 0 where
    accepted : R → Answer R
    rejected : F → F → Answer R

  -- `submit_intent` and, with the run's events for its outcome, `submit_intent_stream`
  unfoldable pub submit_intent : {R : Type 0} → R → F → F → Answer R
  submit_intent run confidence limit =
      if accepts confidence limit then accepted run else rejected confidence limit

  loaded_in_range :
      (half_in : in_range fl.half ≡ true) (o : Option (List ℕ)) (limit : F)
      → load_confidence_threshold o ≡ threshold limit
      → in_range limit ≡ true
  unfolding load_confidence_threshold
  loaded_in_range half_in none limit e = ground (arith, half_in)
  loaded_in_range half_in (some raw) limit e = elim (Bool-cases (is_empty (strip is_space raw))) [
    | inl blank ↦ ground (arith, half_in)
    | inr given ↦ elim (Option-cases (fl.parse raw)) [
      | inl bad ↦ ground arith
      | inr (value, found) ↦ ground arith
    ]
  ]

  -- Every threshold that loads lies between 0 and 1, whatever the environment holds; so an intent of
  -- confidence 1 is accepted under each of them, and its outcome is the run's.
  loaded_threshold :
      (half_in : in_range fl.half ≡ true) (o : Option (List ℕ)) (limit : F) {R : Type 0} (run : R)
      → load_confidence_threshold o ≡ threshold limit
      → (in_range limit ≡ true) × (submit_intent run fl.one limit ≡ accepted run)
  unfolding submit_intent
  loaded_threshold half_in o limit run e =
      let within = loaded_in_range half_in o limit e in
      (within, rw (and_both (fl.leq fl.zero limit) (fl.leq limit fl.one) within).1 refl)
