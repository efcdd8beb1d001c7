-- ===== src/Notify/Silenced.antt =====
-- src/cockpit/notifications/services/suppression_service.py: which rules hold a notification back, said
-- without the service's own tests.
use cockpit_cli.Prelude.{
  Bool-cases, Eq, List, Option, [], any, arith, contains, inl, inr, is_some, leb, nat_eq, none,
  refl, some, string_eq, sym, true, ℕ, ◌&&◌, ◌==◌, ◌↔◌, ◌∙◌, ◌∷◌, ◌≡◌, ◌≤◌, ◌⊎◌,
}
use cockpit_cli.Enums.{
  component_kind_eq, event_class_eq, incident_status_eq, severity_eq, target_risk_eq,
}
use cockpit_cli.Notify.{
  Candidate, NotificationSuppressionRule, admits, admits_any, evaluate, is_in_force,
  matches_suppression,
}
use cockpit_cli.Notify.Routes.{evaluate-any}

module _ {A : Type 0} where
  -- The value stands in the list.
  abbrev pub IsListed : A → List A → Type 0
  IsListed x [] = ⊥
  IsListed x (y ∷ ys) = (x ≡ y) ⊎ IsListed x ys

  -- A criterion without values asks for nothing; another one lists what it asks for.
  abbrev pub IsAdmitted : List A → A → Type 0
  IsAdmitted [] x = Unit
  IsAdmitted (y ∷ ys) x = IsListed x (y ∷ ys)

  abbrev pub IsAdmittedAny : List A → Option A → Type 0
  IsAdmittedAny ys none = Unit
  IsAdmittedAny ys (some x) = IsAdmitted ys x

abbrev pub HasBegun : ℕ → Option ℕ → Type 0
HasBegun now none = Unit
HasBegun now (some at) = at ≤ now

abbrev pub HasNotEnded : ℕ → Option ℕ → Type 0
HasNotEnded now none = Unit
HasNotEnded now (some at) = now ≤ at

-- The rule is enabled, its time has begun and not ended, and each of its criteria admits the candidate.
pub record Silences (now : ℕ) (c : Candidate) (rule : NotificationSuppressionRule) : Type 0 where
  pub enabled : rule.enabled ≡ true
  pub begun : HasBegun now rule.starts_at
  pub not_ended : HasNotEnded now rule.ends_at
  pub event : IsAdmitted rule.event_classes c.event_class
  pub component : IsAdmittedAny rule.component_kinds c.component_kind
  pub severity : IsAdmitted rule.severities c.severity
  pub risk : IsAdmitted rule.risk_levels c.risk_level

-- One of the rules does.
abbrev pub AnySilences : ℕ → Candidate → List NotificationSuppressionRule → Type 0
AnySilences now c [] = ⊥
AnySilences now c (rule ∷ rules) = Silences now c rule ⊎ AnySilences now c rules

module _ {A : Type 0} ⦃e : Eq A⦄ where
  contains_iff : (x : A) (ys : List A) → (contains x ys ≡ true) ↔ IsListed x ys
  contains_iff x [] = (λ h. absurd (cc h), λ h. absurd h)
  contains_iff x (y ∷ ys) =
      let (to, from) = contains_iff x ys in
      let (same, equal) = e.beq_holds x y in
      elim (Bool-cases (x == y)) [
        | inl p ↦ rw p (λ h. inl (same p), λ h. refl)
        | inr p ↦
            rw p
              (λ h. inr (to h), λ h. elim h [ inl q ↦ absurd (cc (equal q, p)) | inr q ↦ from q ])
      ]

  admits_iff : (ys : List A) (x : A) → (admits ys x ≡ true) ↔ IsAdmitted ys x
  admits_iff [] x = (λ h. tt, λ h. refl)
  admits_iff (y ∷ ys) x = contains_iff x (y ∷ ys)

  admits_any_iff : (ys : List A) (o : Option A) → (admits_any ys o ≡ true) ↔ IsAdmittedAny ys o
  admits_any_iff ys none = (λ h. tt, λ h. refl)
  admits_any_iff ys (some x) = admits_iff ys x

begun_iff :
    (now : ℕ) (o : Option ℕ)
    → (elim o [ none ↦ true | some at ↦ leb at now ] ≡ true) ↔ HasBegun now o
begun_iff now none = (λ h. tt, λ h. refl)
begun_iff now (some at) = (λ h. ground arith, λ h. ground arith)

not_ended_iff :
    (now : ℕ) (o : Option ℕ)
    → (elim o [ none ↦ true | some at ↦ leb now at ] ≡ true) ↔ HasNotEnded now o
not_ended_iff now none = (λ h. tt, λ h. refl)
not_ended_iff now (some at) = (λ h. ground arith, λ h. ground arith)

rule_iff :
    (now : ℕ) (c : Candidate) (rule : NotificationSuppressionRule)
    → ((is_in_force now rule && matches_suppression c rule) ≡ true) ↔ Silences now c rule
unfolding is_in_force matches_suppression
rule_iff now c rule =
    let begun = begun_iff now rule.starts_at in
    let not_ended = not_ended_iff now rule.ends_at in
    let event = admits_iff rule.event_classes c.event_class in
    let component = admits_any_iff rule.component_kinds c.component_kind in
    let severity = admits_iff rule.severities c.severity in
    let risk = admits_iff rule.risk_levels c.risk_level in
    (
      λ h. record {
        enabled = ground (arith, h);
        begun = begun.0 (ground (arith, h));
        not_ended = not_ended.0 (ground (arith, h));
        event = event.0 (ground (arith, h));
        component = component.0 (ground (arith, h));
        severity = severity.0 (ground (arith, h));
        risk = risk.0 (ground (arith, h));
      },
      λ h.
          rw
            (
              h.enabled,
              begun.1 h.begun,
              not_ended.1 h.not_ended,
              event.1 h.event,
              component.1 h.component,
              severity.1 h.severity,
              risk.1 h.risk,
            )
            refl,
    )

any_iff :
    (now : ℕ) (c : Candidate) (rules : List NotificationSuppressionRule)
    → (any (λ rule. is_in_force now rule && matches_suppression c rule) rules ≡ true)
      ↔ AnySilences now c rules
any_iff now c [] = (λ h. absurd (cc h), λ h. absurd h)
any_iff now c (rule ∷ rules) =
    let (to, from) = any_iff now c rules in
    let (say, said) = rule_iff now c rule in
    elim (Bool-cases (is_in_force now rule && matches_suppression c rule)) [
      | inl p ↦ rw p (λ h. inl (say p), λ h. refl)
      | inr p ↦
          rw p (λ h. inr (to h), λ h. elim h [ inl q ↦ absurd (cc (said q, p)) | inr q ↦ from q ])
    ]

-- A notification is held back exactly if some suppression rule is enabled, has begun and not ended, and
-- admits it by each of its criteria, in whatever order the rules are stored.
pub evaluate-suppresses :
    (now : ℕ) (rules : List NotificationSuppressionRule) (c : Candidate)
    → (is_some (evaluate now rules c) ≡ true) ↔ AnySilences now c rules
evaluate-suppresses now rules c =
    let same = evaluate-any now rules c in
    let (to, from) = any_iff now c rules in (λ h. to (sym same ∙ h), λ h. same ∙ from h)
