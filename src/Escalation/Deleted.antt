-- ===== src/Escalation/Deleted.antt =====
-- src/cockpit/ops/services/escalation_policy_service.py: what a deletion leaves.
use cockpit_cli.Prelude.{
  Bool-cases, Dict, String, [], ap, arith, false, inl, inr, keep, nat_eq, none, refl, string_eq,
  ◌==◌, ◌∙◌, ◌∷◌, ◌≡◌,
}
use cockpit_cli.Escalation.{
  EscalationStep, Policies, attribute_error, delete_for_policy, delete_policy, first_step,
  get_policy, list_for_policy, tables_of, values,
}

keep-values-deleted :
    (id other : String) (d : Dict String EscalationStep)
    → (id == other) ≡ false
    → keep (λ step. step.policy_id == other) (values (delete_for_policy id d))
      ≡ keep (λ step. step.policy_id == other) (values d)
unfolding delete_for_policy
keep-values-deleted id other [] n = refl
keep-values-deleted id other ((key, step) ∷ d) n = elim (Bool-cases (step.policy_id == id)) [
  | inl e ↦
      let same = (string_eq.beq_holds step.policy_id id).0 e in
      let differs : (step.policy_id == other) ≡ false = ap (λ x. x == other) same ∙ n in
      rw e (rw differs (keep-values-deleted id other d n))
  | inr e ↦ rw e (rw (keep-values-deleted id other d n) refl)
]

pub keep-values_deleted :
    (id : String) (d : Dict String EscalationStep)
    → keep (λ step. step.policy_id == id) (values (delete_for_policy id d)) ≡ []
unfolding delete_for_policy
keep-values_deleted id [] = refl
keep-values_deleted id ((key, step) ∷ d) = ground (arith, keep-values_deleted id d)

-- A deletion raises AttributeError. After it the policy is still stored, without any steps, and the
-- steps of every other policy are those from before.
pub delete_policy-steps :
    (p : Policies) (id other : String)
    → (id == other) ≡ false
    → let left = tables_of (delete_policy p id) in
      (delete_policy p id ≡ attribute_error left)
      × (get_policy left id ≡ get_policy p id)
      × (first_step (list_for_policy left id) ≡ none)
      × (list_for_policy left other ≡ list_for_policy p other)
unfolding delete_policy get_policy list_for_policy first_step
delete_policy-steps p id other n = (
  refl,
  refl,
  rw (keep-values_deleted id p.steps) refl,
  rw (keep-values-deleted id other p.steps n) refl,
)
