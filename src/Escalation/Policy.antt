-- ===== src/Escalation/Policy.antt =====
-- src/cockpit/ops/services/escalation_policy_service.py, over the two tables of
-- src/cockpit/ops/repositories/escalation.py that it writes.
use cockpit_cli.Prelude.{
  Bool, Dict, List, Option, String, [], codes, false, if◌then◌else◌, insert, is_blank, is_empty,
  keep, lookup, ltb, map, max, nat_eq, none, not, some, sort, string_eq, suc, zero, ℕ, ◌+◌, ◌==◌,
  ◌∷◌,
}
use cockpit_cli.Prelude.Int.{ltb_ℤ, pos, pos_part, ℤ}
use cockpit_cli.OnCall.{microseconds, subject_kind_eq}
use cockpit_cli.Escalation.Data.{EscalationPolicy, EscalationStep}

pub record Policies : Type 0 where
  pub policies : Dict String EscalationPolicy
  pub steps : Dict String EscalationStep

pub record EscalationPolicyDetail : Type 0 where
  pub policy : EscalationPolicy
  pub steps : List EscalationStep

-- What `_validate_policy` finds fault with.
pub data Fault : Type 0 where
  name_required ack_timeout_not_positive repeat_not_positive repeats_negative steps_required : Fault
  not_contiguous target_required step_ack_timeout step_repeat step_repeats : ℕ → Fault

unfoldable pub get_policy : Policies → String → Option EscalationPolicy
unfolding lookup
get_policy p id = lookup id p.policies

abbrev pub values : Dict String EscalationStep → List EscalationStep
values = map (λ (key, step). step)

abbrev pub index_before : EscalationStep → EscalationStep → Bool
index_before a b = ltb a.step_index b.step_index

-- `list_for_policy`
unfoldable pub list_for_policy : Policies → String → List EscalationStep
unfolding sort
list_for_policy p id = sort index_before (keep (λ step. step.policy_id == id) (values p.steps))

unfoldable pub detail_found :
    Policies → String → Option EscalationPolicy → Option EscalationPolicyDetail
unfolding list_for_policy
detail_found p id none = none
detail_found p id (some policy) = some (record { policy = policy; steps = list_for_policy p id })

unfoldable pub get_policy_detail : Policies → String → Option EscalationPolicyDetail
unfolding get_policy detail_found
get_policy_detail p id = detail_found p id (get_policy p id)

abbrev pub is_positive : ℤ → Bool
is_positive n = ltb_ℤ (pos 0) n

abbrev pub is_negative : ℤ → Bool
is_negative n = ltb_ℤ n (pos 0)

-- `value is not None and ...`
abbrev pub holds_of : (ℤ → Bool) → Option ℤ → Bool
holds_of p none = false
holds_of p (some n) = p n

-- The loop over the ordered steps; `none` if there is no fault.
unfoldable pub validate_steps : ℕ → List EscalationStep → Option Fault
validate_steps expected_index [] = none
validate_steps expected_index (step ∷ ordered) =
    let rest = validate_steps (suc expected_index) ordered in
    if not (step.step_index == expected_index)
    then some (not_contiguous step.step_index)
    else if step.target_ref == ""
    then some (target_required step.step_index)
    else if holds_of (λ n. not (is_positive n)) step.ack_timeout_seconds
    then some (step_ack_timeout step.step_index)
    else if holds_of (λ n. not (is_positive n)) step.repeat_page_seconds
    then some (step_repeat step.step_index)
    else if holds_of is_negative step.max_repeat_pages
    then some (step_repeats step.step_index)
    else rest

-- `_validate_policy`
unfoldable pub validate_policy : EscalationPolicy → List EscalationStep → Option Fault
unfolding validate_steps sort is_blank
validate_policy policy steps =
    if is_blank (codes policy.name)
    then some name_required
    else if not (is_positive policy.default_ack_timeout_seconds)
    then some ack_timeout_not_positive
    else if not (is_positive policy.default_repeat_page_seconds)
    then some repeat_not_positive
    else if is_negative policy.max_repeat_pages
    then some repeats_negative
    else if is_empty steps
    then some steps_required
    else validate_steps 0 (sort index_before steps)

-- `delete_for_policy`
unfoldable pub delete_for_policy : String → Dict String EscalationStep → Dict String EscalationStep
delete_for_policy id = keep (λ (key, step). not (step.policy_id == id))

-- What a step is stored as.
abbrev pub persisted_step : ℕ → String → EscalationStep → EscalationStep
persisted_step now id step = record step {
  policy_id = id;
  created_at = elim step.created_at [ none ↦ some now | some at ↦ some at ];
  updated_at = some now;
}

unfoldable pub save_steps :
    ℕ → String → List EscalationStep → Dict String EscalationStep → Dict String EscalationStep
unfolding insert
save_steps now id [] d = d
save_steps now id (step ∷ steps) d =
    save_steps now id steps (insert step.id (persisted_step now id step) d)

-- What comes of `save_policy`; `lost` is its `LookupError`.
pub data Saved : Type 0 where
  saved : EscalationPolicyDetail → Policies → Saved
  invalid : Fault → Saved
  lost : Policies → Saved

unfoldable pub persist_policy : Policies → ℕ → EscalationPolicy → List EscalationStep → Policies
unfolding get_policy insert save_steps delete_for_policy
persist_policy p now policy steps = record {
  policies =
      insert policy.id
        (record policy {
          created_at = elim (get_policy p policy.id) [
            | none ↦ some now
            | some existing ↦ existing.created_at
          ];
          updated_at = some now;
        })
        p.policies;
  steps = save_steps now policy.id steps (delete_for_policy policy.id p.steps);
}

unfoldable pub give_detail : Policies → Option EscalationPolicyDetail → Saved
give_detail stored none = lost stored
give_detail stored (some detail) = saved detail stored

unfoldable pub save_valid :
    Policies → ℕ → EscalationPolicy → List EscalationStep → Option Fault → Saved
unfolding persist_policy get_policy_detail give_detail
save_valid p now policy steps (some fault) = invalid fault
save_valid p now policy steps none =
    let stored = persist_policy p now policy steps in
    give_detail stored (get_policy_detail stored policy.id)

unfoldable pub save_policy : Policies → ℕ → EscalationPolicy → List EscalationStep → Saved
unfolding validate_policy save_valid
save_policy p now policy steps = save_valid p now policy steps (validate_policy policy steps)

-- How a deletion ends, with the tables that it leaves.
pub data Deletion : Type 0 where
  policy_deleted attribute_error : Policies → Deletion

abbrev pub tables_of : Deletion → Policies
tables_of (policy_deleted p) = p
tables_of (attribute_error p) = p

-- `delete_policy`: it deletes the steps, and then asks the repository of policies for `delete`, which that
-- does not have.
unfoldable pub delete_policy : Policies → String → Deletion
unfolding delete_for_policy
delete_policy p id = attribute_error (record p { steps = delete_for_policy id p.steps })

-- `first_step`; `none` is its `EscalationPolicyValidationError`.
unfoldable pub first_step : List EscalationStep → Option EscalationStep
first_step [] = none
first_step (step ∷ steps) = some step

-- The loops of `step_at` and `next_step`, over the steps of the policy
unfoldable pub step_at : List EscalationStep → ℕ → Option EscalationStep
step_at [] index = none
step_at (step ∷ steps) index =
    let rest = step_at steps index in if step.step_index == index then some step else rest

unfoldable pub next_step : List EscalationStep → ℕ → Option EscalationStep
next_step [] index = none
next_step (step ∷ steps) index =
    let rest = next_step steps index in if ltb index step.step_index then some step else rest

-- `value or default`
abbrev pub or_default : Option ℤ → ℤ → ℤ
or_default none n = n
or_default (some (pos zero)) n = n
or_default (some k) n = k

unfoldable pub ack_timeout_seconds : EscalationPolicy → EscalationStep → ℤ
ack_timeout_seconds policy step =
    or_default step.ack_timeout_seconds policy.default_ack_timeout_seconds

unfoldable pub repeat_page_seconds : EscalationPolicy → EscalationStep → ℤ
repeat_page_seconds policy step =
    or_default step.repeat_page_seconds policy.default_repeat_page_seconds

unfoldable pub max_repeats : EscalationPolicy → EscalationStep → ℤ
max_repeats policy step = elim step.max_repeat_pages [ none ↦ policy.max_repeat_pages | some n ↦ n ]

unfoldable pub ack_deadline_for : EscalationPolicy → EscalationStep → ℕ → ℕ
unfolding ack_timeout_seconds
ack_deadline_for policy step at =
    at + microseconds (max 1 (pos_part (ack_timeout_seconds policy step)))

unfoldable pub next_repeat_at : EscalationPolicy → EscalationStep → ℕ → ℕ
unfolding repeat_page_seconds
next_repeat_at policy step at =
    at + microseconds (max 1 (pos_part (repeat_page_seconds policy step)))
