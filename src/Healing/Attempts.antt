-- ===== src/Healing/Attempts.antt =====
-- src/cockpit/ops/repositories/health.py: the table of recovery attempts, each stored under its own id, and
-- how a save changes the number of rows of a kind.
use cockpit_cli.Prelude.{
  All, All-and, All-keep, All-kept, All-sort, All-weaken, Bool, Bool-cases, Dict, HoldsOf, List,
  Option, String, [], ap, arith, beq_differs, beq_refl, false, get_elem?, get_elem?-HoldsOf,
  if◌then◌else◌, inl, inr, insert, keep, length, length-sort, lookup, lookup-insert_ne, nat_eq,
  none, refl, some, sort, string_eq, sym, true, ℕ, ◌+◌, ◌==◌, ◌∙◌, ◌∷◌, ◌≡◌,
}
use cockpit_cli.Recovery.{RecoveryAttempt}
use cockpit_cli.Healing.Store.{stored_rows}

-- Every attempt is stored under its id, and only once.
abbrev pub IsTable : Dict String RecoveryAttempt → Type 0
IsTable [] = Unit
IsTable ((k, a) ∷ d) = (a.id ≡ k) × (lookup k d ≡ none) × IsTable d

insert-IsTable_step :
    (a : RecoveryAttempt) (j : String) (w : RecoveryAttempt) (d : Dict String RecoveryAttempt)
    (b : Bool)
    → (a.id == j) ≡ b
    → (w.id ≡ j) × (lookup j d ≡ none) × IsTable d
    → IsTable (insert a.id a d)
    → IsTable (if b then (j, a) ∷ d else (j, w) ∷ insert a.id a d)
insert-IsTable_step a j w d true e (own, new, rest) ih =
    ((string_eq.beq_holds a.id j).0 e, new, rest)
insert-IsTable_step a j w d false e (own, new, rest) ih =
    (own, lookup-insert_ne j a.id a d (λ p. beq_differs a.id j e (sym p)) ∙ new, ih)

pub insert-IsTable :
    (a : RecoveryAttempt) (d : Dict String RecoveryAttempt) → IsTable d → IsTable (insert a.id a d)
unfolding insert lookup
insert-IsTable a [] t = (refl, refl, tt)
insert-IsTable a ((j, w) ∷ d) (own, new, rest) =
    insert-IsTable_step a j w d (a.id == j) refl (own, new, rest) (insert-IsTable a d rest)

-- A row that is found is what its id is looked up as.
abbrev pub IsStoredIn : Dict String RecoveryAttempt → RecoveryAttempt → Type 0
IsStoredIn d a = lookup a.id d ≡ some a

later-IsStoredIn :
    (j : String) (w : RecoveryAttempt) (d : Dict String RecoveryAttempt)
    → lookup j d ≡ none
    → (a : RecoveryAttempt) → IsStoredIn d a
    → IsStoredIn ((j, w) ∷ d) a
unfolding lookup
later-IsStoredIn j w d new a h = elim (Bool-cases (a.id == j)) [
  | inl e ↦ absurd (go ((string_eq.beq_holds a.id j).0 e))
  | inr e ↦ rw e h
]
  where
    go : a.id ≡ j → ⊥
    go p = cc (sym h ∙ (ap (λ k. lookup k d) p ∙ new))

pub All-IsStoredIn :
    (d : Dict String RecoveryAttempt) → IsTable d → All (IsStoredIn d) (stored_rows d)
unfolding lookup
All-IsStoredIn [] t = tt
All-IsStoredIn ((j, w) ∷ d) (own, new, rest) = (
  rw own (rw (beq_refl j) refl),
  All-weaken (stored_rows d) (later-IsStoredIn j w d new) (All-IsStoredIn d rest),
)

abbrev pub one_if : Bool → ℕ
one_if true = 1
one_if false = 0

abbrev pub one_for : (RecoveryAttempt → Bool) → Option RecoveryAttempt → ℕ
one_for p none = 0
one_for p (some a) = one_if (p a)

-- The number of stored attempts that pass a test
abbrev pub count_of : (RecoveryAttempt → Bool) → Dict String RecoveryAttempt → ℕ
count_of p d = length (keep p (stored_rows d))

length-if :
    (b : Bool) (a : RecoveryAttempt) (xs : List RecoveryAttempt)
    → length (if b then a ∷ xs else xs) ≡ one_if b + length xs
length-if true a xs = omega arith
length-if false a xs = omega arith

module _ (p : RecoveryAttempt → Bool) (k : String) (a : RecoveryAttempt) where
  count_of-insert_step :
      (j : String) (w : RecoveryAttempt) (d : Dict String RecoveryAttempt) (b : Bool)
      → count_of p (insert k a d) + one_for p (lookup k d) ≡ count_of p d + one_if (p a)
      → count_of p (if b then (j, a) ∷ d else (j, w) ∷ insert k a d)
          + one_for p (if b then some w else lookup k d)
        ≡ count_of p ((j, w) ∷ d) + one_if (p a)
  count_of-insert_step j w d true ih = omega (
    arith,
    length-if (p a) a (keep p (stored_rows d)),
    length-if (p w) w (keep p (stored_rows d)),
  )
  count_of-insert_step j w d false ih = omega (
    arith,
    ih,
    length-if (p w) w (keep p (stored_rows (insert k a d))),
    length-if (p w) w (keep p (stored_rows d)),
  )

  -- A save takes away the row that it replaces, and adds its own.
  pub count_of-insert :
      (d : Dict String RecoveryAttempt)
      → count_of p (insert k a d) + one_for p (lookup k d) ≡ count_of p d + one_if (p a)
  unfolding insert lookup
  count_of-insert [] = omega (arith, length-if (p a) a [])
  count_of-insert ((j, w) ∷ d) = count_of-insert_step j w d (k == j) (count_of-insert d)

-- The row that a query finds first: it is stored, and passes the test of the query.
pub found-IsStoredIn :
    (p : RecoveryAttempt → Bool) (before : RecoveryAttempt → RecoveryAttempt → Bool)
    (d : Dict String RecoveryAttempt)
    → IsTable d
    → HoldsOf
        (λ a. IsStoredIn d a × (p a ≡ true))
        (get_elem? (sort before (keep p (stored_rows d))) 0)
found-IsStoredIn p before d t =
    get_elem?-HoldsOf (λ a. IsStoredIn d a × (p a ≡ true)) (sort before (keep p (stored_rows d)))
      (All-sort (λ a. IsStoredIn d a × (p a ≡ true)) before (keep p (stored_rows d))
        (All-and (IsStoredIn d) (λ a. p a ≡ true) (keep p (stored_rows d))
          (All-keep (IsStoredIn d) p (stored_rows d) (All-IsStoredIn d t))
          (All-kept p (stored_rows d))))

length-get_elem?-none : (xs : List RecoveryAttempt) → get_elem? xs 0 ≡ none → length xs ≡ 0
length-get_elem?-none [] e = refl
length-get_elem?-none (x ∷ xs) e = absurd (cc e)

-- Nothing is found where no row passes the test.
pub found_none :
    (p : RecoveryAttempt → Bool) (before : RecoveryAttempt → RecoveryAttempt → Bool)
    (d : Dict String RecoveryAttempt)
    → get_elem? (sort before (keep p (stored_rows d))) 0 ≡ none
    → count_of p d ≡ 0
found_none p before d e =
    sym (length-sort before (keep p (stored_rows d)))
    ∙ length-get_elem?-none (sort before (keep p (stored_rows d))) e
