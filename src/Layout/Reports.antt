-- ===== src/Layout/Reports.antt =====
-- src/cockpit/workspace/services/layout_service.py: when a list of reported errors is empty.
use cockpit_cli.Prelude.{
  Bool, List, [], arith, false, inl, inr, is_empty, map, nat_eq, refl, string_eq, true, ◌++◌, ◌↔◌,
  ◌∷◌, ◌≡◌, ◌≢◌, ◌⊎◌,
}
use cockpit_cli.Layout.Check.{report}

module _ {ℓ} {A : Type ℓ} where
  pub append-eq-nil : (xs ys : List A) → (xs ++ ys ≡ []) ↔ ((xs ≡ []) × (ys ≡ []))
  append-eq-nil [] ys = (λ h. (refl, h), λ (_, h). h)
  append-eq-nil (x ∷ xs) ys = (λ h. ground arith, λ (h, _). ground arith)

  pub map-eq-nil {κ} : {B : Type κ} (g : A → B) (xs : List A) → (map g xs ≡ []) ↔ (xs ≡ [])
  map-eq-nil g [] = (λ _. refl, λ _. refl)
  map-eq-nil g (x ∷ xs) = (λ h. ground arith, λ h. ground arith)

  pub report-eq-nil : (b : Bool) (e : A) → (report b e ≡ []) ↔ (b ≡ false)
  report-eq-nil true e = (λ h. ground arith, λ h. ground arith)
  report-eq-nil false e = (λ _. refl, λ _. refl)

pub not_nil {ℓ} : {A : Type ℓ} (xs : List A) → (is_empty xs ≡ false) ↔ (xs ≢ [])
not_nil [] = (λ h. ground arith, λ n. absurd (n refl))
not_nil (x ∷ xs) = (λ _ e. ground arith, λ _. refl)

pub cons_not_nil {ℓ} : {A : Type ℓ} {xs ys : List A} {x : A} → xs ≡ x ∷ ys → xs ≡ [] → ⊥
cons_not_nil h e = ground (arith, h, e)

pub List-cases {ℓ} : {A : Type ℓ} (xs : List A) → (xs ≡ []) ⊎ ((p : A × List A) × (xs ≡ p.0 ∷ p.1))
List-cases [] = inl refl
List-cases (x ∷ xs) = inr ((x, xs), refl)

pub nil_both {ℓ} :
    {A : Type ℓ} {P Q : Type 0} (xs ys : List A)
    → (xs ≡ []) ↔ P
    → (ys ≡ []) ↔ Q
    → (xs ++ ys ≡ []) ↔ (P × Q)
nil_both xs ys hx hy = (
  λ h. (hx.0 ((append-eq-nil xs ys).0 h).0, hy.0 ((append-eq-nil xs ys).0 h).1),
  λ (p, q). (append-eq-nil xs ys).1 (hx.1 p, hy.1 q),
)

pub trans_iff {ℓ κ μ} : {A : Type ℓ} {B : Type κ} {C : Type μ} → A ↔ B → B ↔ C → A ↔ C
trans_iff h k = (λ a. k.0 (h.0 a), λ c. h.1 (k.1 c))
