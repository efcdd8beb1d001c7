-- ===== src/Escalation/Rank.antt =====
-- src/cockpit/ops/services/escalation_service.py: how many actions an engagement may still have.
use cockpit_cli.Prelude.{
  Bool, List, Option, [], arith, false, if◌then◌else◌, ltb, ltb→lt, nat_eq, none, refl, some,
  string_eq, suc, sym, true, ℕ, ◌+◌, ◌-◌, ◌<◌, ◌∷◌, ◌≡◌, ◌≤◌,
}
use cockpit_cli.Prelude.Int.{pos_part}
use cockpit_cli.OnCall.{subject_kind_eq}
use cockpit_cli.Escalation.{
  EscalationPolicy, EscalationStep, IncidentEngagement, is_active, max_repeats, next_step, step_at,
}

-- The actions of one step: its pages, the wait for the deadline, and the escalation.
abbrev pub cost : EscalationPolicy → EscalationStep → ℕ
cost policy step = pos_part (max_repeats policy step) + 2

-- The actions of the steps after the one with this index.
unfoldable pub later : EscalationPolicy → List EscalationStep → ℕ → ℕ
later policy [] index = 0
later policy (step ∷ steps) index =
    let rest = later policy steps index in
    if ltb index step.step_index then cost policy step + rest else rest

abbrev pub pages_left : EscalationPolicy → Option EscalationStep → ℕ → ℕ
pages_left policy none count = 0
pages_left policy (some step) count = pos_part (max_repeats policy step) - count

-- Whether the next action is to come before the deadline.
abbrev pub is_early : Option ℕ → Option ℕ → ℕ
is_early none deadline = 0
is_early (some at) none = 1
is_early (some at) (some deadline) = if ltb at deadline then 1 else 0

unfoldable pub rank : EscalationPolicy → List EscalationStep → IncidentEngagement → ℕ
unfolding later
rank policy steps e =
    if is_active e.status
    then suc (
        later policy steps e.current_step_index
        + (pages_left policy (step_at steps e.current_step_index) e.repeat_page_count
            + is_early e.next_action_at e.ack_deadline_at))
    else 0

later_mono :
    (policy : EscalationPolicy) (steps : List EscalationStep) (i j : ℕ)
    → i ≤ j
    → later policy steps j ≤ later policy steps i
unfolding later
later_mono policy [] i j h = omega arith
later_mono policy (t ∷ ts) i j h = ground (arith, later_mono policy ts i j h)

-- The step is found again under its index, and it is one of those that come later.
abbrev pub ComesLater : EscalationPolicy → List EscalationStep → ℕ → EscalationStep → Type 0
ComesLater policy steps i t =
    (i < t.step_index)
    × (step_at steps t.step_index ≡ some t)
    × (later policy steps t.step_index + cost policy t ≤ later policy steps i)

next_step-ComesLater_cons :
    (policy : EscalationPolicy) (u : EscalationStep) (us : List EscalationStep) (i : ℕ)
    (t : EscalationStep) (b : Bool)
    → ltb i u.step_index ≡ b
    → (next_step us i ≡ some t → ComesLater policy us i t)
    → (if b then some u else next_step us i) ≡ some t
    → ComesLater policy (u ∷ us) i t
unfolding step_at later
next_step-ComesLater_cons policy u us i t true e ih h =
    let same : u ≡ t = cc h in
    rw (sym same)
      (ltb→lt i u.step_index e, ground arith, ground (arith, later_mono policy us i u.step_index))
next_step-ComesLater_cons policy u us i t false e ih h =
    let (lt, found, low) = ih h in (lt, ground (arith, found), ground (arith, low))

pub next_step-ComesLater :
    (policy : EscalationPolicy) (steps : List EscalationStep) (i : ℕ) (t : EscalationStep)
    → next_step steps i ≡ some t
    → ComesLater policy steps i t
unfolding next_step
next_step-ComesLater policy [] i t h = absurd (grind arith)
next_step-ComesLater policy (u ∷ us) i t h =
    next_step-ComesLater_cons policy u us i t (ltb i u.step_index) refl
      (next_step-ComesLater policy us i t) h
