-- ===== src/Prelude/Sorting.antt =====
-- Python's stable sort, what stands first after it, and what it keeps.
use Prim.Native.Nat.{ℕ, ◌≤◌}
use mathlib.Core.Path.{◌≡◌, refl, ap, sym, transport, ◌∙◌}
use mathlib.Core.Logic.{inl, inr}
use mathlib.Core.Bool.{Bool, true, false, ◌&&◌}
use mathlib.Core.List.{List, [], ◌∷◌}
use native.Mathlib.Omega.{arith}
use cockpit_cli.Prelude.Lists.{
  All, All-and, All-keep, All-kept, All-unkept, All-weaken, any, keep, length,
}
use cockpit_cli.Prelude.Tests.{Bool-cases, if◌then◌else◌, leb}
use cockpit_cli.Prelude.Equality.{nat_eq, nat_beq_iff, ◌==◌}

module _ {ℓ} {A : Type ℓ} where
  -- `before a b`: `a` has to stand before `b`.
  unfoldable pub place : (A → A → Bool) → A → List A → List A
  place before x [] = x ∷ []
  place before x (y ∷ ys) =
      let rest = place before x ys in if before y x then y ∷ rest else x ∷ y ∷ ys

  unfoldable pub sort : (A → A → Bool) → List A → List A
  unfolding place
  sort before [] = []
  sort before (x ∷ xs) = place before x (sort before xs)

  length-keep-place :
      (p : A → Bool) (before : A → A → Bool) (x : A) (ys : List A)
      → length (keep p (place before x ys)) ≡ length (keep p (x ∷ ys))
  unfolding place
  length-keep-place p before x [] = refl
  length-keep-place p before x (y ∷ ys) = ground (arith, length-keep-place p before x ys)

  pub length-keep-sort :
      (p : A → Bool) (before : A → A → Bool) (xs : List A)
      → length (keep p (sort before xs)) ≡ length (keep p xs)
  unfolding sort
  length-keep-sort p before [] = refl
  length-keep-sort p before (x ∷ xs) =
      ground (arith, length-keep-place p before x (sort before xs), length-keep-sort p before xs)

  length-place :
      (before : A → A → Bool) (x : A) (ys : List A) → length (place before x ys) ≡ length (x ∷ ys)
  unfolding place
  length-place before x [] = refl
  length-place before x (y ∷ ys) = ground (arith, length-place before x ys)

  pub length-sort : (before : A → A → Bool) (xs : List A) → length (sort before xs) ≡ length xs
  unfolding sort
  length-sort before [] = refl
  length-sort before (x ∷ xs) =
      ground (arith, length-place before x (sort before xs), length-sort before xs)

  any-place :
      (p : A → Bool) (before : A → A → Bool) (x : A) (ys : List A)
      → any p (place before x ys) ≡ any p (x ∷ ys)
  unfolding place
  any-place p before x [] = refl
  any-place p before x (y ∷ ys) = ground (arith, any-place p before x ys)

  pub any-sort :
      (p : A → Bool) (before : A → A → Bool) (xs : List A) → any p (sort before xs) ≡ any p xs
  unfolding sort
  any-sort p before [] = refl
  any-sort p before (x ∷ xs) =
      ground (arith, any-place p before x (sort before xs), any-sort p before xs)

  All-place {κ} :
      (P : A → Type κ) (before : A → A → Bool) (x : A) (ys : List A)
      → P x
      → All P ys
      → All P (place before x ys)
  unfolding place
  All-place P before x [] h hs = (h, tt)
  All-place P before x (y ∷ ys) h (hy, hs) = elim (Bool-cases (before y x)) [
    | inl e ↦ rw e (hy, All-place P before x ys h hs)
    | inr e ↦ rw e (h, (hy, hs))
  ]

  pub All-sort {κ} :
      (P : A → Type κ) (before : A → A → Bool) (xs : List A) → All P xs → All P (sort before xs)
  unfolding sort
  All-sort P before [] h = tt
  All-sort P before (x ∷ xs) (h, hs) =
      All-place P before x (sort before xs) h (All-sort P before xs hs)

-- Nothing in `xs` ranks above the first of `ys`, which is there unless `xs` is empty.
abbrev pub IsTop : {A : Type 0} → (A → ℕ) → List A → List A → Type 0
IsTop rank xs [] = xs ≡ []
IsTop rank xs (y ∷ _) = All (λ x. rank x ≤ rank y) xs

module _ {A : Type 0} (rank : A → ℕ) (before : A → A → Bool)
    (above : (a b : A) → before a b ≡ true → rank b ≤ rank a)
    (below : (a b : A) → before a b ≡ false → rank a ≤ rank b) where
  IsTop-place :
      (x : A) (xs ys : List A) → IsTop rank xs ys → IsTop rank (x ∷ xs) (place before x ys)
  unfolding place
  IsTop-place x xs [] h = rw h (omega arith, tt)
  IsTop-place x xs (y ∷ ys) h = elim (Bool-cases (before y x)) [
    | inl e ↦ rw e (above y x e, h)
    | inr e ↦ rw e (omega arith, All-weaken xs (λ a k. omega (arith, below y x e, k)) h)
  ]

  pub sort-IsTop : (xs : List A) → IsTop rank xs (sort before xs)
  unfolding sort
  sort-IsTop [] = refl
  sort-IsTop (x ∷ xs) = IsTop-place x xs (sort before xs) (sort-IsTop xs)

-- The elements that rank with the first one
unfoldable pub top_by {ℓ} : {A : Type ℓ} → (A → ℕ) → List A → List A
top_by rank [] = []
top_by rank (x ∷ xs) = keep (λ y. rank y == rank x) (x ∷ xs)

module _ {A : Type 0} (rank : A → ℕ) (p : A → Bool) where
  keep-keep :
      (n : ℕ) (xs : List A)
      → All (λ x. p x ≡ true → rank x ≤ n) xs
      → keep (λ x. rank x == n) (keep p xs) ≡ keep (λ x. leb n (rank x) && p x) xs
  keep-keep n [] h = refl
  keep-keep n (x ∷ xs) (h, hs) = elim (Bool-cases (p x)) [
    | inl e ↦ rw e (ground (arith, h e, keep-keep n xs hs))
    | inr e ↦ rw e (ground (arith, keep-keep n xs hs))
  ]

  -- What is left of the top of a list is what nothing else ranks with or above.
  pub top_by-alone :
      (t : A) (xs ys : List A)
      → IsTop rank (keep p xs) ys
      → All (λ y. p y ≡ true) ys
      → ((q : A → Bool) → length (keep q ys) ≡ length (keep q (keep p xs)))
      → top_by rank ys ≡ t ∷ []
      → (p t ≡ true) × (length (keep (λ x. leb (rank t) (rank x) && p x) xs) ≡ 1)
  unfolding top_by
  top_by-alone t xs [] top good same h = absurd (omega (arith, ap length h))
  top_by-alone t xs (y ∷ ys) top good same h =
      let hs =
        transport (λ i. All (λ x. (p x ≡ true) × ((rank x == rank y) ≡ true)) (h i))
          (All-and (λ x. p x ≡ true) (λ x. (rank x == rank y) ≡ true)
            (keep (λ x. rank x == rank y) (y ∷ ys))
            (All-keep (λ x. p x ≡ true) (λ x. rank x == rank y) (y ∷ ys) good)
            (All-kept (λ x. rank x == rank y) (y ∷ ys))) in
      (
        hs.0.0,
        rw ((nat_beq_iff (rank t) (rank y)).0 hs.0.1) (
            ap length (sym (keep-keep (rank y) xs (All-unkept (λ x. rank x ≤ rank y) p xs top)))
            ∙ (sym (same (λ x. rank x == rank y)) ∙ ap length h)),
      )
