-- ===== src/Prelude/Keyed.antt =====
-- A Python dictionary, or a table with a primary key: pairs in insertion order, one to a key.

use mathlib.Core.Path.{◌≡◌, ap, refl, transport}
use mathlib.Core.Bool.{Bool, true, false}
use mathlib.Core.Logic.{◌≢◌, inl, inr}
use mathlib.Core.Option.{Option, none, some, some-injective}
use mathlib.Core.List.{List, [], ◌∷◌, ◌++◌, map}
use cockpit_cli.Prelude.Lists.{All, get_elem?}
use cockpit_cli.Prelude.Tests.{Bool-cases, if◌then◌else◌, is_some}
use cockpit_cli.Prelude.Equality.{Eq, beq_false, beq_refl, nat_eq, string_eq, ◌==◌}

abbrev pub Dict {ℓ κ} : Type ℓ → Type κ → Type (ℓ ⊔ κ)
Dict K V = List (K × V)

module _ {ℓ κ} {K : Type ℓ} {V : Type κ} ⦃e : Eq K⦄ where
  -- `d.get(k)`
  unfoldable pub lookup : K → Dict K V → Option V
  lookup k [] = none
  lookup k ((j, v) ∷ d) = let rest = lookup k d in if k == j then some v else rest

  -- `d[k] = v`
  unfoldable pub insert : K → V → Dict K V → Dict K V
  insert k v [] = (k, v) ∷ []
  insert k v ((j, w) ∷ d) = let rest = insert k v d in if k == j then (j, v) ∷ d else (j, w) ∷ rest

  pub lookup-insert_self : (k : K) (v : V) (d : Dict K V) → lookup k (insert k v d) ≡ some v
  unfolding lookup insert
  lookup-insert_self k v [] = rw (beq_refl k)
  lookup-insert_self k v ((j, w) ∷ d) = elim (Bool-cases (k == j)) [
    | inl same ↦ rw (same) (rw same)
    | inr other ↦ rw other (rw other (lookup-insert_self k v d))
  ]

  insert-append_cons :
      (k : K) (v : V) (j : K) (w : V) (d : Dict K V) (b : Bool)
      → (if b then some w else lookup k d) ≡ none
      → (lookup k d ≡ none → insert k v d ≡ d ++ (k, v) ∷ [])
      → (if b then (j, v) ∷ d else (j, w) ∷ insert k v d) ≡ (j, w) ∷ d ++ (k, v) ∷ []
  insert-append_cons k v j w d true h ih = absurd (cc h)
  insert-append_cons k v j w d false h ih = ap (λ x. (j, w) ∷ x) (ih h)

  -- A key that is new comes last.
  pub insert-append :
      (k : K) (v : V) (d : Dict K V) → lookup k d ≡ none → insert k v d ≡ d ++ (k, v) ∷ []
  unfolding lookup insert
  insert-append k v [] h = refl
  insert-append k v ((j, w) ∷ d) h = insert-append_cons k v j w d (k == j) h (insert-append k v d)

  pub lookup-insert_ne :
      (i k : K) (v : V) (d : Dict K V) → i ≢ k → lookup i (insert k v d) ≡ lookup i d
  unfolding lookup insert
  lookup-insert_ne i k v [] n = rw (beq_false i k n)
  lookup-insert_ne i k v ((j, w) ∷ d) n = elim (Bool-cases (k == j)) [
    | inl same ↦ rw same (rw (beq_false i j (λ p. n (go p same))))
    | inr other ↦ rw other (rw (lookup-insert_ne i k v d n))
  ]
    where
      go : i ≡ j → (k == j) ≡ true → i ≡ k
      go p same = cc (p, (e.beq_holds k j).0 same)

  -- A key that is there stays there.
  pub is_some-lookup-insert :
      (i k : K) (v : V) (d : Dict K V)
      → is_some (lookup i d) ≡ true
      → is_some (lookup i (insert k v d)) ≡ true
  is_some-lookup-insert i k v d h = elim (Bool-cases (i == k)) [
    | inl same ↦ rw ((e.beq_holds i k).0 same) (rw (lookup-insert_self k v d))
    | inr other ↦ rw (lookup-insert_ne i k v d (λ p. absurd (differ i k p other))) h
  ]
    where
      differ : (a b : K) → a ≡ b → (a == b) ≡ false → ⊥
      differ a b p q = cc ((e.beq_holds a b).1 p)

-- What holds of a value that may be absent.
abbrev pub HoldsOf {ℓ κ} : {A : Type ℓ} → (A → Type κ) → Option A → Type κ
HoldsOf P none = Unit
HoldsOf P (some a) = P a

pub HoldsOf-both {ℓ κ μ ν} :
    {A : Type ℓ} (P : A → Type κ) (Q : A → Type μ) (R : A → Type ν) (o : Option A)
    → ((a : A) → P a → Q a → R a)
    → HoldsOf P o
    → HoldsOf Q o
    → HoldsOf R o
HoldsOf-both P Q R none f p q = tt
HoldsOf-both P Q R (some a) f p q = f a p q

pub HoldsOf-weaken {ℓ κ μ} :
    {A : Type ℓ} (P : A → Type κ) (Q : A → Type μ) (o : Option A)
    → ((a : A) → P a → Q a)
    → HoldsOf P o
    → HoldsOf Q o
HoldsOf-weaken P Q none f p = tt
HoldsOf-weaken P Q (some a) f p = f a p

pub HoldsOf_some {ℓ κ} :
    {A : Type ℓ} (P : A → Type κ) (o : Option A) (a : A) → o ≡ some a → HoldsOf P o → P a
HoldsOf_some P none a e h = absurd (cc e)
HoldsOf_some P (some b) a e h = transport (λ i. P (some-injective b a e i)) h

abbrev pub AllValues {ℓ κ μ} : {K : Type ℓ} {V : Type κ} → (V → Type μ) → Dict K V → Type μ
AllValues P = All (λ (k, v). P v)

if-HoldsOf {ℓ κ} :
    {A : Type ℓ} (P : A → Type κ) (b : Bool) (o o2 : Option A)
    → HoldsOf P o
    → HoldsOf P o2
    → HoldsOf P (if b then o else o2)
if-HoldsOf P true o o2 h k = h
if-HoldsOf P false o o2 h k = k

module _ {ℓ κ μ} {K : Type ℓ} {V : Type κ} ⦃e : Eq K⦄ (P : V → Type μ) where
  pub lookup-HoldsOf : (k : K) (d : Dict K V) → AllValues P d → HoldsOf P (lookup k d)
  unfolding lookup
  lookup-HoldsOf k [] hs = tt
  lookup-HoldsOf k ((j, v) ∷ d) (h, hs) =
      if-HoldsOf P (k == j) (some v) (lookup k d) h (lookup-HoldsOf k d hs)

  pub insert-AllValues :
      (k : K) (v : V) (d : Dict K V) → P v → AllValues P d → AllValues P (insert k v d)
  unfolding insert
  insert-AllValues k v [] h hs = (h, tt)
  insert-AllValues k v ((j, w) ∷ d) h (hw, hs) = elim (Bool-cases (k == j)) [
    | inl same ↦ rw same (h, hs)
    | inr other ↦ rw other (hw, insert-AllValues k v d h hs)
  ]

  pub All-values : (d : Dict K V) → AllValues P d → All P (map (λ (k, v). v) d)
  All-values [] hs = tt
  All-values ((j, v) ∷ d) (h, hs) = (h, All-values d hs)

pub get_elem?-HoldsOf {ℓ κ} :
    {A : Type ℓ} (P : A → Type κ) (xs : List A) → All P xs → HoldsOf P (get_elem? xs 0)
get_elem?-HoldsOf P [] hs = tt
get_elem?-HoldsOf P (x ∷ xs) (h, hs) = h
