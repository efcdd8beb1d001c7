-- ===== src/Notify/Routes.antt =====
-- src/cockpit/notifications/services/policy_service.py and suppression_service.py: what a decision says.
use cockpit_cli.Prelude.{
  Bool, Bool-cases, List, Option, String, [], any, any-sort, ap, arith, contains, false,
  if◌then◌else◌, inl, inr, is_empty, is_some, keep, nat_eq, refl, some, sort, string_eq, true, ℕ,
  ◌&&◌, ◌++◌, ◌==◌, ◌||◌, ◌∙◌, ◌∷◌, ◌≡◌,
}
use cockpit_cli.Notify.{
  Candidate, NotificationRule, NotificationSuppressionRule, Tables, append_new, collect,
  decide_route, ensure_defaults, evaluate, first_match, is_in_force, list_active,
  matches_suppression, matching_rules, resolve, rule_before,
}

contains-append :
    (x id : String) (ids : List String) → contains x (ids ++ id ∷ []) ≡ (contains x ids || x == id)
contains-append x id [] = ground arith
contains-append x id (y ∷ ids) = ground (arith, contains-append x id ids)

contains-if :
    (x id : String) (ids : List String) (b : Bool)
    → contains id ids ≡ b
    → contains x (if b then ids else ids ++ id ∷ []) ≡ (contains x ids || x == id)
contains-if x id ids false h = contains-append x id ids
contains-if x id ids true h = elim (Bool-cases (x == id)) [
  | inl e ↦
      let there : contains x ids ≡ true =
        ap (λ y. contains y ids) ((string_eq.beq_holds x id).0 e) ∙ h in
      rw there refl
  | inr e ↦ rw e (ground arith)
]

contains-append_new :
    (x : String) (more ids : List String)
    → contains x (append_new ids more) ≡ (contains x ids || contains x more)
contains-append_new x [] ids = ground arith
contains-append_new x (id ∷ more) ids = ground (
  arith,
  contains-if x id ids (contains id ids) refl,
  contains-append_new x more (if contains id ids then ids else ids ++ id ∷ []),
)

contains-collect :
    (x : String) (rules : List NotificationRule) (ids : List String)
    → contains x (collect ids rules)
      ≡ (contains x ids || any (λ rule. contains x rule.channel_ids) rules)
unfolding collect
contains-collect x [] ids = ground arith
contains-collect x (rule ∷ rules) ids = ground (
  arith,
  contains-append_new x rule.channel_ids ids,
  contains-collect x rules (append_new ids rule.channel_ids),
)

decide_route-channels :
    (now : ℕ) (t : Tables) (x : String) (rules : List NotificationRule)
    → is_empty rules ≡ false
    → contains x (decide_route now t rules).channel_ids
      ≡ any (λ rule. contains x rule.channel_ids) rules
unfolding decide_route
decide_route-channels now t x [] h = absurd (cc h)
decide_route-channels now t x (rule ∷ rules) h =
    contains-collect x (sort (rule_before now) (rule ∷ rules)) []
    ∙ any-sort (λ r. contains x r.channel_ids) (rule_before now) (rule ∷ rules)

-- A notification that some enabled rule matches goes to the channels that those rules name and to no
-- other, whatever the priorities and the times of the rules are.
pub resolve-channels :
    (now : ℕ) (t : Tables) (c : Candidate) (x : String)
    → is_empty (matching_rules c (ensure_defaults now t)) ≡ false
    → contains x (resolve now t c).channel_ids
      ≡ any (λ rule. contains x rule.channel_ids) (matching_rules c (ensure_defaults now t))
unfolding resolve
resolve-channels now t c x h =
    decide_route-channels now (ensure_defaults now t) x (matching_rules c (ensure_defaults now t)) h

first_match-any_step :
    (rule : NotificationSuppressionRule) (rest : Option NotificationSuppressionRule)
    (b some_rest : Bool)
    → is_some rest ≡ some_rest
    → is_some (if b then some rule else rest) ≡ (if b then true else some_rest)
first_match-any_step rule rest true some_rest h = refl
first_match-any_step rule rest false some_rest h = h

first_match-any :
    (c : Candidate) (rules : List NotificationSuppressionRule)
    → is_some (first_match c rules) ≡ any (matches_suppression c) rules
unfolding first_match
first_match-any c [] = refl
first_match-any c (rule ∷ rules) =
    first_match-any_step rule (first_match c rules) (matches_suppression c rule)
      (any (matches_suppression c) rules) (first_match-any c rules)

any-keep :
    (p q : NotificationSuppressionRule → Bool) (rules : List NotificationSuppressionRule)
    → any p (keep q rules) ≡ any (λ rule. q rule && p rule) rules
any-keep p q [] = refl
any-keep p q (rule ∷ rules) = ground (arith, any-keep p q rules)

-- The order in which the rules are read does not matter.
pub evaluate-any :
    (now : ℕ) (rules : List NotificationSuppressionRule) (c : Candidate)
    → is_some (evaluate now rules c)
      ≡ any (λ rule. is_in_force now rule && matches_suppression c rule) rules
unfolding evaluate list_active
evaluate-any now rules c =
    first_match-any c (list_active now rules)
    ∙ (any-sort (matches_suppression c) _ (keep (is_in_force now) rules)
        ∙ any-keep (matches_suppression c) (is_in_force now) rules)
