-- ===== src/Prelude/Equality.antt =====
-- Python's `==` and `in` as Boolean tests, on numbers, texts and every type with decidable equality.
use Prim.Native.Nat.{ℕ}
use Prim.Native.String.{String}
use mathlib.Core.Path.{◌≡◌, refl}
use mathlib.Core.Logic.{◌↔◌, ◌≢◌}
use mathlib.Core.Bool.{Bool, true, false}
use mathlib.Core.List.{List, [], ◌∷◌}
use native.Mathlib.Omega.{arith}
use text.Mathlib.Text.{◌==◌ as str_eq}
use text.Mathlib.TextEquality.{eq_iff}
use cockpit_cli.Prelude.Tests.{if◌then◌else◌, nat_beq}

pub record Eq {ℓ} (A : Type ℓ) : Type ℓ where
  pub beq : A → A → Bool
  pub beq_holds : (a b : A) → (beq a b ≡ true) ↔ (a ≡ b)

abbrev pub dec_beq {ℓ} : {A : Type ℓ} → Dec A → Bool
dec_beq (yes _) = true
dec_beq (no _) = false

pub dec_beq_iff {ℓ} : {A : Type ℓ} (d : Dec A) → (dec_beq d ≡ true) ↔ A
dec_beq_iff (yes a) = (λ _. a, λ _. refl)
dec_beq_iff (no n) = (λ e. cc, λ a. absurd (n a))

-- The test of a type whose equality is decidable, such as an enumeration.
abbrev pub discrete_eq {ℓ} : {A : Type ℓ} → Discrete A → Eq A
discrete_eq d = record { beq = λ a b. dec_beq (d a b); beq_holds = λ a b. dec_beq_iff (d a b) }

instance abbrev pub string_eq : Eq String
string_eq = record { beq = str_eq; beq_holds = eq_iff }

infix 50 ◌==◌
abbrev pub ◌==◌ {ℓ} : {A : Type ℓ} ⦃e : Eq A⦄ → A → A → Bool
◌==◌ ⦃e⦄ = e.beq

pub nat_beq_iff : (a b : ℕ) → (nat_beq a b ≡ true) ↔ (a ≡ b)
nat_beq_iff a b = ground arith

instance abbrev pub nat_eq : Eq ℕ
nat_eq = record { beq = nat_beq; beq_holds = nat_beq_iff }

module _ {ℓ} {A : Type ℓ} ⦃e : Eq A⦄ where
  -- `a in xs`
  abbrev pub contains : A → List A → Bool
  contains a [] = false
  contains a (x ∷ xs) = let rest = contains a xs in if a == x then true else rest

  pub beq_refl : (a : A) → (a == a) ≡ true
  beq_refl a = (e.beq_holds a a).1 refl

  pub beq_false : (a b : A) → a ≢ b → (a == b) ≡ false
  beq_false a b n = go (a == b) refl
    where
      go : (t : Bool) → (a == b) ≡ t → (a == b) ≡ false
      go true h = absurd (n ((e.beq_holds a b).0 h))
      go false h = h

  pub beq_differs : (a b : A) → (a == b) ≡ false → a ≢ b
  beq_differs a b h p = cc (h, (e.beq_holds a b).1 p)
