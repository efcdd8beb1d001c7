-- ===== src/Escalation/Validated.antt =====
-- src/cockpit/ops/services/escalation_policy_service.py: what a policy is that may be saved.
use cockpit_cli.Prelude.{
  All, Bool, Bool-cases, List, Option, [], ap, arith, beq_differs, codes, false, if◌then◌else◌, inl,
  inr, is_blank, is_empty, keep, length, length-keep-sort, length-sort, nat_eq, none, not, refl,
  some, sort, string_eq, suc, sym, true, ℕ, ◌+◌, ◌<◌, ◌==◌, ◌∙◌, ◌∷◌, ◌≡◌, ◌≤◌,
}
use cockpit_cli.Escalation.Sound.{not-false}
use cockpit_cli.Escalation.{
  EscalationPolicy, EscalationStep, Fault, ack_timeout_not_positive, holds_of, index_before,
  is_negative, is_positive, name_required, next_step, repeat_not_positive, repeats_negative,
  step_at, steps_required, validate_policy, validate_steps,
}

-- How many steps have the index.
abbrev pub count_at : ℕ → List EscalationStep → ℕ
count_at index steps = length (keep (λ step. step.step_index == index) steps)

-- What is required of one step.
abbrev pub IsUsable : EscalationStep → Type 0
IsUsable step =
    ((step.target_ref == "") ≡ false)
    × (holds_of (λ n. not (is_positive n)) step.ack_timeout_seconds ≡ false)
    × (holds_of (λ n. not (is_positive n)) step.repeat_page_seconds ≡ false)
    × (holds_of is_negative step.max_repeat_pages ≡ false)

-- A fault is reported unless the test fails and there is none after it.
if-none :
    (b : Bool) (fault : Fault) (rest : Option Fault)
    → (if b then some fault else rest) ≡ none
    → (b ≡ false) × (rest ≡ none)
if-none true fault rest h = absurd (cc h)
if-none false fault rest h = (refl, h)

validate_steps-cons :
    (k : ℕ) (step : EscalationStep) (steps : List EscalationStep)
    → validate_steps k (step ∷ steps) ≡ none
    → (step.step_index ≡ k) × IsUsable step × (validate_steps (suc k) steps ≡ none)
unfolding validate_steps
validate_steps-cons k step steps h =
    let (a, h1) = if-none _ _ _ h in
    let (b, h2) = if-none _ _ _ h1 in
    let (c, h3) = if-none _ _ _ h2 in
    let (d, h4) = if-none _ _ _ h3 in
    let (e, h5) = if-none _ _ _ h4 in
    ((nat_eq.beq_holds step.step_index k).0 (not-false (step.step_index == k) a), (b, c, d, e), h5)

count_below :
    (k : ℕ) (steps : List EscalationStep) (i : ℕ)
    → validate_steps k steps ≡ none
    → i < k
    → count_at i steps ≡ 0
count_below k [] i h lt = refl
count_below k (step ∷ steps) i h lt =
    let (same, usable, rest) = validate_steps-cons k step steps h in
    ground (arith, same, count_below (suc k) steps i rest (omega arith))

count_within :
    (k : ℕ) (steps : List EscalationStep) (i : ℕ)
    → validate_steps k steps ≡ none
    → k ≤ i
    → i < k + length steps
    → count_at i steps ≡ 1
count_within k [] i h low lt = absurd (omega arith)
count_within k (step ∷ steps) i h low lt =
    let (same, usable, rest) = validate_steps-cons k step steps h in
    elim (Bool-cases (step.step_index == i)) [
      | inl e ↦
          let there = (nat_eq.beq_holds step.step_index i).0 e in
          rw e (ap suc (count_below (suc k) steps i rest (omega (arith, same, there))))
      | inr e ↦
          let elsewhere = beq_differs step.step_index i e in
          rw e (
            count_within (suc k) steps i rest (omega (arith, same, elsewhere, low))
              (omega (arith, lt)))
    ]

validate_steps-IsUsable :
    (k : ℕ) (steps : List EscalationStep) → validate_steps k steps ≡ none → All IsUsable steps
validate_steps-IsUsable k [] h = tt
validate_steps-IsUsable k (step ∷ steps) h =
    let (same, usable, rest) = validate_steps-cons k step steps h in
    (usable, validate_steps-IsUsable (suc k) steps rest)

validate_policy-steps :
    (policy : EscalationPolicy) (steps : List EscalationStep)
    → validate_policy policy steps ≡ none
    → validate_steps 0 (sort index_before steps) ≡ none
unfolding validate_policy
validate_policy-steps policy steps h =
    let ordered = validate_steps 0 (sort index_before steps) in
    let h1 =
      if-none (is_blank (codes policy.name)) name_required
        (if not (is_positive policy.default_ack_timeout_seconds)
          then some ack_timeout_not_positive
          else if not (is_positive policy.default_repeat_page_seconds)
          then some repeat_not_positive
          else if is_negative policy.max_repeat_pages
          then some repeats_negative
          else if is_empty steps
          then some steps_required
          else ordered)
        h in
    let h2 =
      if-none (not (is_positive policy.default_ack_timeout_seconds)) ack_timeout_not_positive
        (if not (is_positive policy.default_repeat_page_seconds)
          then some repeat_not_positive
          else if is_negative policy.max_repeat_pages
          then some repeats_negative
          else if is_empty steps
          then some steps_required
          else ordered)
        h1.1 in
    let h3 =
      if-none (not (is_positive policy.default_repeat_page_seconds)) repeat_not_positive
        (if is_negative policy.max_repeat_pages
          then some repeats_negative
          else if is_empty steps
          then some steps_required
          else ordered)
        h2.1 in
    let h4 =
      if-none (is_negative policy.max_repeat_pages) repeats_negative
        (if is_empty steps then some steps_required else ordered) h3.1 in
    let h5 = if-none (is_empty steps) steps_required ordered h4.1 in h5.1

next_step-step_at :
    (k : ℕ) (steps : List EscalationStep) (i : ℕ)
    → validate_steps k steps ≡ none
    → k ≤ suc i
    → next_step steps i ≡ step_at steps (suc i)
unfolding next_step step_at
next_step-step_at k [] i h le = refl
next_step-step_at k (step ∷ steps) i h le =
    let (same, usable, rest) = validate_steps-cons k step steps h in
    elim (Bool-cases (step.step_index == suc i)) [
      | inl e ↦ rw e (ground (arith, (nat_eq.beq_holds step.step_index (suc i)).0 e))
      | inr e ↦
          let elsewhere = beq_differs step.step_index (suc i) e in
          rw e (
            ground (
              arith,
              same,
              elsewhere,
              next_step-step_at (suc k) steps i rest (omega (arith, same, elsewhere, le)),
            ))
    ]

-- In a policy in which no fault is found escalation skips no step: what comes next after a step is the
-- step with the index that follows, if there is one.
pub next_step-validated :
    (policy : EscalationPolicy) (steps : List EscalationStep) (i : ℕ)
    → validate_policy policy steps ≡ none
    → next_step (sort index_before steps) i ≡ step_at (sort index_before steps) (suc i)
next_step-validated policy steps i h =
    next_step-step_at 0 (sort index_before steps) i (validate_policy-steps policy steps h)
      (omega arith)

-- The steps of a policy that is found in order: under every index below their number there is exactly
-- one of them, in whatever order they are given; and sorted by index each has a target, a timeout and
-- an interval that are positive where they are given, and no negative number of pages.
pub validate_policy-none :
    (policy : EscalationPolicy) (steps : List EscalationStep) (i : ℕ)
    → validate_policy policy steps ≡ none
    → i < length steps
    → (count_at i steps ≡ 1) × All IsUsable (sort index_before steps)
validate_policy-none policy steps i h lt =
    let ordered = validate_policy-steps policy steps h in
    (
      sym (length-keep-sort (λ step. step.step_index == i) index_before steps)
          ∙ count_within 0 (sort index_before steps) i ordered (omega arith)
              (omega (arith, length-sort index_before steps, lt)),
      validate_steps-IsUsable 0 (sort index_before steps) ordered,
    )
