-- ===== src/Escalation/Saving.antt =====
-- src/cockpit/ops/services/escalation_policy_service.py: what is stored of a policy that is saved.
use mathlib.Core.List.{append-nil, append_assoc}
use cockpit_cli.Prelude.{
  All, Bool, Dict, List, String, [], ap, beq_differs, beq_refl, contains, false, if◌then◌else◌,
  insert, insert-append, keep, keep-append, keep-All, lookup, lookup-insert_ne, lookup-insert_self,
  map, map-append, nat_eq, none, refl, some, sort, string_eq, sym, true, ℕ, ◌++◌, ◌==◌, ◌∙◌, ◌∷◌,
  ◌≡◌, ◌≢◌,
}
use cockpit_cli.Escalation.{
  EscalationPolicy, EscalationStep, Policies, delete_for_policy, detail_found, get_policy,
  get_policy_detail, give_detail, index_before, list_for_policy, persist_policy, persisted_step,
  save_policy, save_steps, save_valid, saved, validate_policy, values,
}
use cockpit_cli.Escalation.Deleted.{keep-values_deleted}

abbrev pub id_of : EscalationStep → String
id_of step = step.id

-- No text stands twice in the list.
abbrev pub AreDistinct : List String → Type 0
AreDistinct [] = Unit
AreDistinct (x ∷ xs) = (contains x xs ≡ false) × AreDistinct xs

-- None of the ids is a key of the table.
abbrev pub AreNew : List EscalationStep → Dict String EscalationStep → Type 0
AreNew steps d = All (λ step. lookup step.id d ≡ none) steps

contains_step :
    (x y : String) (ys : List String) (b : Bool)
    → (x == y) ≡ b
    → (if b then true else contains x ys) ≡ false
    → (x ≢ y) × (contains x ys ≡ false)
contains_step x y ys true e h = absurd (cc h)
contains_step x y ys false e h = (beq_differs x y e, h)

AreNew-insert :
    (step : EscalationStep) (row : EscalationStep) (steps : List EscalationStep)
    (d : Dict String EscalationStep)
    → contains step.id (map id_of steps) ≡ false
    → AreNew steps d
    → AreNew steps (insert step.id row d)
AreNew-insert step row [] d h hs = tt
AreNew-insert step row (t ∷ ts) d h (k, ks) =
    let (differs, rest) = contains_step step.id t.id (map id_of ts) (step.id == t.id) refl h in
    (
      lookup-insert_ne t.id step.id row d (λ p. differs (sym p)) ∙ k,
      AreNew-insert step row ts d rest ks,
    )

save_steps-append :
    (now : ℕ) (id : String) (steps : List EscalationStep) (d : Dict String EscalationStep)
    → AreDistinct (map id_of steps)
    → AreNew steps d
    → save_steps now id steps d ≡ d ++ map (λ step. (step.id, persisted_step now id step)) steps
unfolding save_steps
save_steps-append now id [] d h hs = sym (append-nil d)
save_steps-append now id (t ∷ ts) d (h, k) (new, news) =
    let row = persisted_step now id t in
    save_steps-append now id ts (insert t.id row d) k (AreNew-insert t row ts d h news)
    ∙ (ap (λ x. x ++ map (λ step. (step.id, persisted_step now id step)) ts)
          (insert-append t.id row d new)
        ∙ append_assoc d ((t.id, row) ∷ [])
            (map (λ step. (step.id, persisted_step now id step)) ts))

values-rows :
    (now : ℕ) (id : String) (steps : List EscalationStep)
    → values (map (λ step. (step.id, persisted_step now id step)) steps)
      ≡ map (persisted_step now id) steps
values-rows now id [] = refl
values-rows now id (t ∷ ts) = ap (λ x. persisted_step now id t ∷ x) (values-rows now id ts)

rows-own :
    (now : ℕ) (id : String) (steps : List EscalationStep)
    → All (λ step. (step.policy_id == id) ≡ true) (map (persisted_step now id) steps)
rows-own now id [] = tt
rows-own now id (t ∷ ts) = (beq_refl id, rows-own now id ts)

-- The policy as it is stored.
abbrev pub stored_policy : Policies → ℕ → EscalationPolicy → EscalationPolicy
stored_policy p now policy = record policy {
  created_at = elim (get_policy p policy.id) [
    | none ↦ some now
    | some existing ↦ existing.created_at
  ];
  updated_at = some now;
}

list_for_policy-saved :
    (p : Policies) (now : ℕ) (policy : EscalationPolicy) (steps : List EscalationStep)
    → AreDistinct (map id_of steps)
    → AreNew steps (delete_for_policy policy.id p.steps)
    → list_for_policy (persist_policy p now policy steps) policy.id
      ≡ sort index_before (map (persisted_step now policy.id) steps)
unfolding persist_policy list_for_policy
list_for_policy-saved p now policy steps distinct new =
    let own : EscalationStep → Bool = λ step. step.policy_id == policy.id in
    let others = delete_for_policy policy.id p.steps in
    let rows = map (λ step. (step.id, persisted_step now policy.id step)) steps in
    ap (λ x. sort index_before x)
      (ap (λ x. keep own (values x)) (save_steps-append now policy.id steps others distinct new)
        ∙ (ap (λ x. keep own x) (map-append (λ (key, step). step) others rows)
            ∙ (keep-append own (values others) (values rows)
                ∙ (ap (λ x. x ++ keep own (values rows)) (keep-values_deleted policy.id p.steps)
                    ∙ (ap (λ x. keep own x) (values-rows now policy.id steps)
                        ∙ keep-All own (map (persisted_step now policy.id) steps)
                            (rows-own now policy.id steps))))))

get_policy-stored :
    (p : Policies) (now : ℕ) (policy : EscalationPolicy) (steps : List EscalationStep)
    → get_policy (persist_policy p now policy steps) policy.id ≡ some (stored_policy p now policy)
unfolding persist_policy get_policy
get_policy-stored p now policy steps =
    lookup-insert_self policy.id (stored_policy p now policy) p.policies

-- What is saved is what is read. A policy in which no fault is found is saved and given back with the
-- steps as they are stored, sorted by their index, and none other: none of the steps that the policy had
-- before, and every one that it is given. The ids of the steps are different ones, and those of no other
-- policy's steps.
pub save_policy-detail :
    (p : Policies) (now : ℕ) (policy : EscalationPolicy) (steps : List EscalationStep)
    → validate_policy policy steps ≡ none
    → AreDistinct (map id_of steps)
    → AreNew steps (delete_for_policy policy.id p.steps)
    → save_policy p now policy steps
      ≡ saved
          (record {
            policy = stored_policy p now policy;
            steps = sort index_before (map (persisted_step now policy.id) steps);
          })
          (persist_policy p now policy steps)
unfolding save_policy save_valid get_policy_detail detail_found give_detail
save_policy-detail p now policy steps valid distinct new =
    let after = persist_policy p now policy steps in
    ap (save_valid p now policy steps) valid
    ∙ (ap (λ x. give_detail after (detail_found after policy.id x))
          (get_policy-stored p now policy steps)
        ∙ ap (λ x. saved (record { policy = stored_policy p now policy; steps = x }) after)
            (list_for_policy-saved p now policy steps distinct new))
